-- ===== src/Settlement/Reverse/Balances.antt =====
-- What `reverse` does to the collection items.
use treasury_backend.Prelude.{
  All, Bool-cases, List, [], all, ap, arith, false, if◌then◌else◌, inl, inr, not, refl, some, subst,
  sym, ℕ, ◌||◌, ◌∙◌, ◌∷◌, ◌≡◌,
}
use treasury_backend.Prelude.Int.{
  ==ℤ_iff, eq_of_parts, int_laws, ltb_ℤ, parts_of_eq, pos, ℤ, ◌+ℤ◌, ◌-ℤ◌, ◌==ℤ◌, ◌≤ℤ◌,
}
use treasury_backend.Money.{amount, positive, units}
use treasury_backend.Store.{
  >>=-eq-ok, ok, ok-injective, or_throw-eq-ok, reversal_conflict, throw_if-eq-ok,
}
use treasury_backend.Settlement.{
  Allocation, CollectionItem, SettlementDb, partially_allocated, reopened_after_reversal,
  reversed_allocation,
}
use treasury_backend.Settlement.Repository.{allocation_state, collection_balance, item_by_id}
use treasury_backend.Settlement.Service.{units_or_throw-eq-ok}
use treasury_backend.Settlement.Reverse.{
  is_confirmed_allocation, reverse_allocation, reverse_allocations,
}
use treasury_backend.Settlement.Items.{
  HasShape, IsPositive, IsSound, Kept, Kept-allocation_state, Kept-collection_balance, Reads,
  with_balance,
}
use treasury_backend.Money.RoundTrip.{units-amount}
use treasury_backend.Settlement.Frame.{OnlyBalances, OnlyBalances-trans}

-- The inversion of one round: what it read, and what it wrote.
pub record Release (items : List CollectionItem) (a : Allocation) (db db' : SettlementDb)
    : Type 0 where
  pub item : CollectionItem
  pub allocated : ℤ
  pub taken : ℤ
  pub remaining : ℤ
  pub found : item_by_id a.collection_item_id items ≡ some item
  pub reads_allocated : Reads item.allocated_amount allocated
  pub reads_taken : Reads a.allocated_amount taken
  pub reads_remaining : Reads item.remaining_amount remaining
  pub covered : pos 0 ≤ℤ (allocated -ℤ taken)
  pub result :
      db'
      ≡ collection_balance item.id
          (amount (allocated -ℤ taken))
          (amount (remaining +ℤ taken))
          (if allocated -ℤ taken ==ℤ pos 0 then reopened_after_reversal else partially_allocated)
          (allocation_state a.id reversed_allocation db)

covered_of : (x g y : ℤ) → (ltb_ℤ x (pos 0) || ltb_ℤ g y) ≡ false → pos 0 ≤ℤ x
covered_of x g y e = ground arith

reverse_allocation-Release :
    (items : List CollectionItem) (a : Allocation) (db : SettlementDb) {db' : SettlementDb}
    → reverse_allocation items a db ≡ ok db'
    → Release items a db db'
unfolding reverse_allocation
reverse_allocation-Release items a db e =
    let (item, found, e1) = or_throw-eq-ok (item_by_id a.collection_item_id items) _ _ e in
    let (u, e2) = throw_if-eq-ok (not (is_confirmed_allocation a.state)) reversal_conflict _ e1 in
    let (allocated, ra, e3) = units_or_throw-eq-ok _ _ e2 in
    let (taken, rt, e4) = units_or_throw-eq-ok _ _ e3 in
    let (remaining, rr, e5) = units_or_throw-eq-ok _ _ e4 in
    let (gross, rg, e6) = units_or_throw-eq-ok item.gross_amount _ e5 in
    let (inside, e7) =
      throw_if-eq-ok (ltb_ℤ (allocated -ℤ taken) (pos 0) || ltb_ℤ gross (remaining +ℤ taken))
        reversal_conflict _ e6 in
    record {
      item = item;
      allocated = allocated;
      taken = taken;
      remaining = remaining;
      found = found;
      reads_allocated = ra;
      reads_taken = rt;
      reads_remaining = rr;
      covered = covered_of (allocated -ℤ taken) gross (remaining +ℤ taken) inside;
      result = sym (ok-injective e7);
    }

module _ (a t r g : ℤ) (sum : a +ℤ r ≡ g) (r_nonneg : pos 0 ≤ℤ r) (positive : ¬ (t ≤ℤ pos 0))
    (covered : pos 0 ≤ℤ (a -ℤ t)) where
  released_sum : a -ℤ t +ℤ (r +ℤ t) ≡ g
  released_sum = eq_of_parts _ _ (omega (int_laws, parts_of_eq _ _ sum))

  reopened_shape : a -ℤ t ≡ pos 0 → HasShape reopened_after_reversal (a -ℤ t) (r +ℤ t) g
  reopened_shape e = (e, eq_of_parts _ _ (omega (int_laws, parts_of_eq _ _ sum, parts_of_eq _ _ e)))

  still_partial_shape : ¬ (a -ℤ t ≡ pos 0) → HasShape partially_allocated (a -ℤ t) (r +ℤ t) g
  still_partial_shape ne = (λ le. ne (eq_of_parts _ _ (omega int_laws)), omega int_laws)

  released_shape :
      HasShape
        (if a -ℤ t ==ℤ pos 0 then reopened_after_reversal else partially_allocated)
        (a -ℤ t)
        (r +ℤ t)
        g
  released_shape = elim (Bool-cases (a -ℤ t ==ℤ pos 0)) [
    | inl all ↦ rw all (reopened_shape ((==ℤ_iff _ _).0 all))
    | inr some_left ↦ rw some_left (still_partial_shape (λ e. cc ((==ℤ_iff _ _).1 e)))
  ]

-- One item after its release: the amounts still add up, and the state fits them.
released-IsSound :
    (item i : CollectionItem) (allocated taken remaining : ℤ)
    → IsSound item
    → Reads item.allocated_amount allocated
    → Reads item.remaining_amount remaining
    → ¬ (taken ≤ℤ pos 0)
    → pos 0 ≤ℤ (allocated -ℤ taken)
    → i.gross_amount ≡ item.gross_amount
    → IsSound (
        with_balance
          (amount (allocated -ℤ taken))
          (amount (remaining +ℤ taken))
          (if allocated -ℤ taken ==ℤ pos 0 then reopened_after_reversal else partially_allocated)
          i)
released-IsSound item i allocated taken remaining s ra rr is_positive covered same =
    let ea : allocated ≡ s.allocated = cc (ra, s.reads_allocated) in
    let er : remaining ≡ s.remaining = cc (rr, s.reads_remaining) in
    let sum : allocated +ℤ remaining ≡ s.gross = rw (ea, er) s.balanced in
    let nonneg : pos 0 ≤ℤ remaining = rw er s.remaining_nonneg in
    record {
      allocated = allocated -ℤ taken;
      remaining = remaining +ℤ taken;
      gross = s.gross;
      reads_allocated = units-amount _;
      reads_remaining = units-amount _;
      reads_gross = ap units same ∙ s.reads_gross;
      balanced = released_sum allocated taken remaining s.gross sum nonneg is_positive covered;
      allocated_nonneg = covered;
      remaining_nonneg = omega int_laws;
      gross_positive = s.gross_positive;
      shaped = released_shape allocated taken remaining s.gross sum nonneg is_positive covered;
    }

module _ (items : List CollectionItem)
    (sound : (j : ℕ) (i : CollectionItem) → item_by_id j items ≡ some i → IsSound i) where
  Release-Kept :
      (a : Allocation) (db db' : SettlementDb)
      → IsPositive a
      → Release items a db db'
      → Kept items db
      → Kept items db'
  Release-Kept a db db' (t, rt, is_positive) round kept =
      let same : t ≡ round.taken = cc (rt, round.reads_taken) in
      rw round.result (
        Kept-collection_balance items (allocation_state a.id reversed_allocation db)
          a.collection_item_id round.item _ _ _ round.found
          (λ i e.
            released-IsSound round.item i round.allocated round.taken round.remaining
              (sound a.collection_item_id round.item round.found) round.reads_allocated
              round.reads_remaining (rw same at is_positive) round.covered e)
          (Kept-allocation_state items a.id reversed_allocation db kept))

  pub reverse_allocations-Kept :
      (list : List Allocation) (db db' : SettlementDb)
      → All IsPositive list
      → reverse_allocations items list db ≡ ok db'
      → Kept items db
      → Kept items db'
  unfolding reverse_allocations
  reverse_allocations-Kept [] db db' positive e kept = subst (Kept items) (ok-injective e) kept
  reverse_allocations-Kept (a ∷ rest) db db' (p, ps) e kept =
      let (next, round, rest_done) = >>=-eq-ok (reverse_allocation items a db) _ e in
      reverse_allocations-Kept rest next db' ps rest_done
        (Release-Kept a db next p (reverse_allocation-Release items a db round) kept)

reverse_allocation-OnlyBalances :
    (items : List CollectionItem) (a : Allocation) (db db' : SettlementDb)
    → reverse_allocation items a db ≡ ok db'
    → OnlyBalances db db'
unfolding collection_balance allocation_state
reverse_allocation-OnlyBalances items a db db' e =
    (_, _, (reverse_allocation-Release items a db e).result)

pub reverse_allocations-OnlyBalances :
    (items : List CollectionItem) (list : List Allocation) (db db' : SettlementDb)
    → reverse_allocations items list db ≡ ok db'
    → OnlyBalances db db'
unfolding reverse_allocations
reverse_allocations-OnlyBalances items [] db db' e =
    subst (OnlyBalances db) (ok-injective e) (db.allocations, db.items, refl)
reverse_allocations-OnlyBalances items (a ∷ rest) db db' e =
    let (next, one, more) = >>=-eq-ok (reverse_allocation items a db) _ e in
    OnlyBalances-trans db next db' (reverse_allocation-OnlyBalances items a db next one)
      (reverse_allocations-OnlyBalances items rest next db' more)
