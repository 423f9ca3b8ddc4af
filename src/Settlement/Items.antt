-- ===== src/Settlement/Items.antt =====
-- The table of collection items seen through its ids, and the constraints that
-- src/database/schema.ts puts on each row.
use mathlib.Core.Option
use treasury_backend.Prelude.{
  ==_iff, All, All-filter, Bool, Bool-cases, List, Option, [], ap, arith, filter, if◌then◌else◌,
  includes, inl, inr, map, map-eq-some, none, refl, some, subst, suc, sym, update_where, ℕ, ◌==◌,
  ◌∙◌, ◌∷◌, ◌≡◌, ◌⊎◌,
}
use treasury_backend.Prelude.Int.{pos, ℤ, ◌+ℤ◌, ◌≤ℤ◌}
use treasury_backend.Money.{Text, units}
use treasury_backend.Settlement.{
  Allocation, AllocationState, CollectionItem, ItemState, LockedSettlement, SettlementDb,
  allocated_item, cancelled, delayed, disputed, open_item, partially_allocated,
  reopened_after_reversal, returned, settled,
}
use treasury_backend.Settlement.Repository.{
  allocation_state, batch_by_id, collection_balance, item_by_id, items_of, lock,
}

abbrev pub item_at : SettlementDb → ℕ → Option CollectionItem
item_at db id = item_by_id id db.items

abbrev pub with_balance : Text → Text → ItemState → CollectionItem → CollectionItem
with_balance allocated remaining state i = record i {
  allocated_amount = allocated;
  remaining_amount = remaining;
  state = state;
  version = suc i.version;
}

rows-update :
    (rows : List CollectionItem) (k j : ℕ) (a r : Text) (s : ItemState)
    → item_by_id j (update_where (λ i. i.id == k) (with_balance a r s) rows)
      ≡ (if j == k then Option.map (with_balance a r s) (item_by_id j rows) else item_by_id j rows)
rows-update [] k j a r s = ground arith
rows-update (x ∷ xs) k j a r s = ground (arith, rows-update xs k j a r s)

-- The update of one item is seen at its id alone.
pub item_at-collection_balance :
    (db : SettlementDb) (k j : ℕ) (a r : Text) (s : ItemState)
    → item_at (collection_balance k a r s db) j
      ≡ (if j == k then Option.map (with_balance a r s) (item_at db j) else item_at db j)
unfolding collection_balance
item_at-collection_balance db k j a r s = rows-update db.items k j a r s

pub rows-filter :
    (p : ℕ → Bool) (rows : List CollectionItem) (j : ℕ)
    → item_by_id j (filter (λ i. p i.id) rows) ≡ (if p j then item_by_id j rows else none)
rows-filter p [] j = ground arith
rows-filter p (x ∷ xs) j = ground (arith, rows-filter p xs j, λ (e : x.id ≡ j). ap p e)

-- An item with an id has that id.
pub item_by_id-id :
    (rows : List CollectionItem) (j : ℕ) {i : CollectionItem}
    → item_by_id j rows ≡ some i
    → i.id ≡ j
item_by_id-id [] j {i} e = cc
item_by_id-id (x ∷ xs) j {i} e = ground (arith, item_by_id-id xs j {i = i})

-- What is read as an amount.
abbrev pub Reads : Text → ℤ → Type 0
Reads value v = units value ≡ some v

-- `collection_items_state_money_shape`
abbrev pub HasShape : ItemState → ℤ → ℤ → ℤ → Type 0
HasShape open_item a r g = (a ≡ pos 0) × (r ≡ g)
HasShape reopened_after_reversal a r g = (a ≡ pos 0) × (r ≡ g)
HasShape partially_allocated a r g = ¬ (a ≤ℤ pos 0) × ¬ (r ≤ℤ pos 0)
HasShape allocated_item a r g = (a ≡ g) × (r ≡ pos 0)
HasShape settled a r g = (a ≡ g) × (r ≡ pos 0)
HasShape delayed a r g = Unit
HasShape disputed a r g = Unit
HasShape returned a r g = Unit
HasShape cancelled a r g = Unit

-- The constraints on the money of a row of `collection_items`: `collection_items_money_balance`,
-- `collection_items_gross_positive`, the two non-negative amounts, and the shape that goes with the
-- state.
pub record IsSound (i : CollectionItem) : Type 0 where
  pub allocated : ℤ
  pub remaining : ℤ
  pub gross : ℤ
  pub reads_allocated : Reads i.allocated_amount allocated
  pub reads_remaining : Reads i.remaining_amount remaining
  pub reads_gross : Reads i.gross_amount gross
  pub balanced : allocated +ℤ remaining ≡ gross
  pub allocated_nonneg : pos 0 ≤ℤ allocated
  pub remaining_nonneg : pos 0 ≤ℤ remaining
  pub gross_positive : ¬ (gross ≤ℤ pos 0)
  pub shaped : HasShape i.state allocated remaining gross

-- Every item that an id finds is sound.
abbrev pub AllSound : SettlementDb → Type 0
AllSound db = (j : ℕ) (i : CollectionItem) → item_at db j ≡ some i → IsSound i

-- `settlement_allocations_amount_positive`
abbrev pub IsPositive : Allocation → Type 0
IsPositive a = (t : ℤ) × Reads a.allocated_amount t × ¬ (t ≤ℤ pos 0)

-- The invariant of the loops that write balances computed from the rows read at the start: each row
-- is sound and still has the gross amount that was read.
module _ (items : List CollectionItem) where
  abbrev pub KeepsGross : SettlementDb → Type 0
  KeepsGross db =
      (j : ℕ) (i i0 : CollectionItem)
      → item_at db j ≡ some i
      → item_by_id j items ≡ some i0
      → i.gross_amount ≡ i0.gross_amount

  abbrev pub Kept : SettlementDb → Type 0
  Kept db = AllSound db × KeepsGross db

  map-some :
      (a r : Text) (s : ItemState) (o : Option CollectionItem) (i : CollectionItem)
      → Option.map (with_balance a r s) o ≡ some i
      → (i' : CollectionItem) × (o ≡ some i') × (with_balance a r s i' ≡ i)
  map-some a r s none i e = cc
  map-some a r s (some i') i e = (i', refl, cc)

  -- A row of the new table is an old one, or the old row of the written item under its new balance.
  row-collection_balance :
      (db : SettlementDb) (k j : ℕ) (a r : Text) (s : ItemState) (i : CollectionItem)
      → item_at (collection_balance k a r s db) j ≡ some i
      → (item_at db j ≡ some i)
        ⊎ ((i' : CollectionItem) × (j ≡ k) × (item_at db j ≡ some i') × (with_balance a r s i' ≡ i))
  row-collection_balance db k j a r s i e =
      let seen = sym (item_at-collection_balance db k j a r s) ∙ e in
      elim (Bool-cases (j == k)) [
        | inl same ↦
            (let (i', found, made) = map-some a r s (item_at db j) i (rw same at seen) in
              inr (i', (==_iff j k).0 same, found, made))
        | inr other ↦ inl (rw other at seen)
      ]

  pub Kept-collection_balance :
      (db : SettlementDb) (k : ℕ) (item : CollectionItem) (a r : Text) (s : ItemState)
      → item_by_id k items ≡ some item
      → ((i : CollectionItem) → i.gross_amount ≡ item.gross_amount → IsSound (with_balance a r s i))
      → Kept db
      → Kept (collection_balance item.id a r s db)
  Kept-collection_balance db k item a r s found sound (all_sound, keeps) =
      let here : item_by_id item.id items ≡ some item =
        subst (λ n. item_by_id n items ≡ some item) (sym (item_by_id-id items k {i = item} found))
          found in
      (
        λ j i e. elim (row-collection_balance db item.id j a r s i e) [
          | inl old ↦ all_sound j i old
          | inr (i', same, old, made) ↦
              subst IsSound made (sound i' (keeps j i' item old (rw same here)))
        ],
        λ j i i0 e e0. elim (row-collection_balance db item.id j a r s i e) [
          | inl old ↦ keeps j i i0 old e0
          | inr (i', same, old, made) ↦ rw (← made) (keeps j i' i0 old e0)
        ],
      )

filtered_found :
    (p : ℕ → Bool) (rows : List CollectionItem) (j : ℕ) (i : CollectionItem)
    → item_by_id j (filter (λ x. p x.id) rows) ≡ some i
    → item_by_id j rows ≡ some i
filtered_found p rows j i e =
    let seen = sym (rows-filter p rows j) ∙ e in
    elim (Bool-cases (p j)) [
      | inl named ↦ rw named at seen
      | inr unnamed ↦ (let nothing = rw unnamed at seen in cc nothing)
    ]

abbrev names : List Allocation → ℕ → Bool
names allocations id = includes id (map (λ a. a.collection_item_id) allocations)

-- The items that are locked with a batch are rows of the table.
pub items_of-item_at :
    (db : SettlementDb) (allocations : List Allocation) (j : ℕ) (i : CollectionItem)
    → item_by_id j (items_of allocations db.items) ≡ some i
    → item_at db j ≡ some i
items_of-item_at db allocations j i e = filtered_found (names allocations) db.items j i e

-- At the start of a loop over the items of a batch its invariant holds.
pub Kept-items_of :
    (db : SettlementDb) (allocations : List Allocation)
    → AllSound db
    → Kept (items_of allocations db.items) db
Kept-items_of db allocations all_sound = (
  all_sound,
  λ j i i0 e e0.
      let same : i ≡ i0 = cc (e, items_of-item_at db allocations j i0 e0) in
      ap (λ (x : CollectionItem). x.gross_amount) same,
)

-- Soundness and its invariant see nothing but the items.
pub AllSound-items : (db db' : SettlementDb) → db'.items ≡ db.items → AllSound db → AllSound db'
AllSound-items db db' same all_sound j i e = all_sound j i (ap (item_by_id j) (sym same) ∙ e)

pub Kept-items :
    (items : List CollectionItem) (db db' : SettlementDb)
    → db'.items ≡ db.items
    → Kept items db
    → Kept items db'
Kept-items items db db' same (all_sound, keeps) = (
  AllSound-items db db' same all_sound,
  λ j i i0 e. keeps j i i0 (ap (item_by_id j) (sym same) ∙ e),
)

pub lock-items :
    (batch_id : ℕ) (db : SettlementDb) {locked : LockedSettlement}
    → lock batch_id db ≡ some locked
    → locked.items ≡ items_of locked.allocations db.items
unfolding lock
lock-items batch_id db e =
    let (b, found, made) = map-eq-some _ (batch_by_id batch_id db.batches) e in
    subst (λ (l : LockedSettlement). l.items ≡ items_of l.allocations db.items) made refl

pub lock-allocations {κ} :
    (P : Allocation → Type κ) (batch_id : ℕ) (db : SettlementDb) {locked : LockedSettlement}
    → lock batch_id db ≡ some locked
    → All P db.allocations
    → All P locked.allocations
unfolding lock
lock-allocations P batch_id db e holds =
    let (b, found, made) = map-eq-some _ (batch_by_id batch_id db.batches) e in
    subst (λ (l : LockedSettlement). All P l.allocations) made
      (All-filter P (λ a. a.settlement_batch_id == b.id) db.allocations holds)

-- The items of a locked batch, seen from its database.
module _ (db : SettlementDb) (locked : LockedSettlement)
    (same : locked.items ≡ items_of locked.allocations db.items) (all_sound : AllSound db) where
  pub locked-IsSound : (j : ℕ) (i : CollectionItem) → item_by_id j locked.items ≡ some i → IsSound i
  locked-IsSound j i e =
      all_sound j i (items_of-item_at db locked.allocations j i (sym (ap (item_by_id j) same) ∙ e))

  pub locked-Kept : Kept locked.items db
  locked-Kept =
      subst (λ items. Kept items db) (sym same) (Kept-items_of db locked.allocations all_sound)

-- The state of an allocation is no matter of the items.
pub Kept-allocation_state :
    (items : List CollectionItem) (id : ℕ) (s : AllocationState) (db : SettlementDb)
    → Kept items db
    → Kept items (allocation_state id s db)
unfolding allocation_state
Kept-allocation_state items id s db kept = kept
