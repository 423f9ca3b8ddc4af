-- ===== src/Settlement/Confirm/Balances.antt =====
-- What `confirm` does to the collection items.
use treasury_backend.Prelude.{
  All, Bool-cases, List, [], all, ap, arith, if◌then◌else◌, inl, inr, some, subst, ℕ, ◌∙◌, ◌∷◌, ◌≡◌,
}
use treasury_backend.Prelude.Int.{
  ==ℤ_iff, eq_of_parts, int_laws, parts_of_eq, pos, ℤ, ◌+ℤ◌, ◌-ℤ◌, ◌==ℤ◌, ◌≤ℤ◌,
}
use treasury_backend.Money.{amount, positive, units}
use treasury_backend.Store.{>>=-eq-ok, ok, ok-injective, or_throw-eq-ok}
use treasury_backend.Settlement.{
  Allocation, Batch, CollectionItem, SettlementDb, confirmed_allocation, partially_allocated,
  settled,
}
use treasury_backend.Settlement.Repository.{allocation_state, collection_balance, item_by_id}
use treasury_backend.Settlement.Service.{units_or_throw, units_or_throw-eq-ok}
use treasury_backend.Settlement.Confirm.{
  check_allocation, check_allocations, confirm_allocation, confirm_allocations,
}
use treasury_backend.Settlement.Items.{
  HasShape, IsPositive, IsSound, Kept, Kept-allocation_state, Kept-collection_balance, Reads,
  with_balance,
}
use treasury_backend.Money.RoundTrip.{units-amount}

-- The inversion of one round: what it read, and what it wrote.
pub record Round (items : List CollectionItem) (a : Allocation) (db db' : SettlementDb)
    : Type 0 where
  pub item : CollectionItem
  pub allocated : ℤ
  pub taken : ℤ
  pub remaining : ℤ
  pub found : item_by_id a.collection_item_id items ≡ some item
  pub reads_allocated : Reads item.allocated_amount allocated
  pub reads_taken : Reads a.allocated_amount taken
  pub reads_remaining : Reads item.remaining_amount remaining
  pub result :
      db'
      ≡ collection_balance item.id
          (amount (allocated +ℤ taken))
          (amount (remaining -ℤ taken))
          (if remaining -ℤ taken ==ℤ pos 0 then settled else partially_allocated)
          (allocation_state a.id confirmed_allocation db)

pub confirm_allocation-Round :
    (items : List CollectionItem) (a : Allocation) (db : SettlementDb) {db' : SettlementDb}
    → confirm_allocation items a db ≡ ok db'
    → Round items a db db'
unfolding confirm_allocation
confirm_allocation-Round items a db e =
    let (item, found, e1) = or_throw-eq-ok _ _ _ e in
    let (allocated, ra, e2) = units_or_throw-eq-ok _ _ e1 in
    let (taken, rt, e3) = units_or_throw-eq-ok _ _ e2 in
    let (remaining, rr, e4) = units_or_throw-eq-ok _ _ e3 in
    record {
      item = item;
      allocated = allocated;
      taken = taken;
      remaining = remaining;
      found = found;
      reads_allocated = ra;
      reads_taken = rt;
      reads_remaining = rr;
      result = cc;
    }

module _ (a t r g : ℤ) (sum : a +ℤ r ≡ g) (a_nonneg : pos 0 ≤ℤ a) (positive : ¬ (t ≤ℤ pos 0))
    (fits : t ≤ℤ r) where
  moved_sum : a +ℤ t +ℤ (r -ℤ t) ≡ g
  moved_sum = eq_of_parts _ _ (omega (int_laws, parts_of_eq _ _ sum))

  settled_shape : r -ℤ t ≡ pos 0 → HasShape settled (a +ℤ t) (r -ℤ t) g
  settled_shape e = (eq_of_parts _ _ (omega (int_laws, parts_of_eq _ _ sum, parts_of_eq _ _ e)), e)

  partial_shape : ¬ (r -ℤ t ≡ pos 0) → HasShape partially_allocated (a +ℤ t) (r -ℤ t) g
  partial_shape ne = (omega int_laws, λ le. ne (eq_of_parts _ _ (omega int_laws)))

  moved_shape :
      HasShape (if r -ℤ t ==ℤ pos 0 then settled else partially_allocated) (a +ℤ t) (r -ℤ t) g
  moved_shape = elim (Bool-cases (r -ℤ t ==ℤ pos 0)) [
    | inl all ↦ rw all (settled_shape ((==ℤ_iff _ _).0 all))
    | inr some_left ↦ rw some_left (partial_shape (λ e. cc ((==ℤ_iff _ _).1 e)))
  ]

-- One item after its allocation: the amounts still add up, and the state fits them.
confirmed-IsSound :
    (item i : CollectionItem) (allocated taken remaining : ℤ)
    → IsSound item
    → Reads item.allocated_amount allocated
    → Reads item.remaining_amount remaining
    → ¬ (taken ≤ℤ pos 0)
    → taken ≤ℤ remaining
    → i.gross_amount ≡ item.gross_amount
    → IsSound (
        with_balance
          (amount (allocated +ℤ taken))
          (amount (remaining -ℤ taken))
          (if remaining -ℤ taken ==ℤ pos 0 then settled else partially_allocated)
          i)
confirmed-IsSound item i allocated taken remaining s ra rr is_positive fits same =
    let ea : allocated ≡ s.allocated = cc (ra, s.reads_allocated) in
    let er : remaining ≡ s.remaining = cc (rr, s.reads_remaining) in
    let sum : allocated +ℤ remaining ≡ s.gross = rw (ea, er) s.balanced in
    let nonneg : pos 0 ≤ℤ allocated = rw ea s.allocated_nonneg in
    record {
      allocated = allocated +ℤ taken;
      remaining = remaining -ℤ taken;
      gross = s.gross;
      reads_allocated = units-amount _;
      reads_remaining = units-amount _;
      reads_gross = ap units same ∙ s.reads_gross;
      balanced = moved_sum allocated taken remaining s.gross sum nonneg is_positive fits;
      allocated_nonneg = omega int_laws;
      remaining_nonneg = omega int_laws;
      gross_positive = s.gross_positive;
      shaped = moved_shape allocated taken remaining s.gross sum nonneg is_positive fits;
    }

-- The check of one allocation, read back.
check_allocation-fits :
    (batch : Batch) (items : List CollectionItem) (a : Allocation) (item : CollectionItem)
    (taken remaining : ℤ)
    → check_allocation batch items a ≡ ok tt
    → item_by_id a.collection_item_id items ≡ some item
    → Reads a.allocated_amount taken
    → Reads item.remaining_amount remaining
    → taken ≤ℤ remaining
unfolding check_allocation units_or_throw
check_allocation-fits batch items a item taken remaining e found rt rr = ground arith

module _ (items : List CollectionItem)
    (sound : (j : ℕ) (i : CollectionItem) → item_by_id j items ≡ some i → IsSound i) where
  Round-Kept :
      (batch : Batch) (a : Allocation) (db db' : SettlementDb)
      → check_allocation batch items a ≡ ok tt
      → IsPositive a
      → Round items a db db'
      → Kept items db
      → Kept items db'
  Round-Kept batch a db db' check (t, rt, is_positive) round kept =
      let same : t ≡ round.taken = cc (rt, round.reads_taken) in
      let fits =
        check_allocation-fits batch items a round.item round.taken round.remaining check round.found
          round.reads_taken round.reads_remaining in
      rw round.result (
        Kept-collection_balance items (allocation_state a.id confirmed_allocation db)
          a.collection_item_id round.item _ _ _ round.found
          (λ i e.
            confirmed-IsSound round.item i round.allocated round.taken round.remaining
              (sound a.collection_item_id round.item round.found) round.reads_allocated
              round.reads_remaining (rw same at is_positive) fits e)
          (Kept-allocation_state items a.id confirmed_allocation db kept))

  pub confirm_allocations-Kept :
      (batch : Batch) (as' : List Allocation) (db db' : SettlementDb)
      → check_allocations batch items as' ≡ ok tt
      → All IsPositive as'
      → confirm_allocations items as' db ≡ ok db'
      → Kept items db
      → Kept items db'
  unfolding confirm_allocations check_allocations
  confirm_allocations-Kept batch [] db db' check positive e kept =
      subst (Kept items) (ok-injective e) kept
  confirm_allocations-Kept batch (a ∷ rest) db db' check (p, ps) e kept =
      let (u, check_a, check_rest) = >>=-eq-ok (check_allocation batch items a) _ check in
      let (next, round, rest_done) = >>=-eq-ok (confirm_allocation items a db) _ e in
      confirm_allocations-Kept batch rest next db' check_rest ps rest_done
        (Round-Kept batch a db next check_a p (confirm_allocation-Round items a db round) kept)
