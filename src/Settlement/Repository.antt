-- ===== src/Settlement/Repository.antt =====
-- The queries and updates of src/collection-and-settlement/settlement.repository.ts. An update of
-- the row with an id is a `map`; a query FOR UPDATE reads the rows, since the transactions of the
-- model run one at a time.
-- A table is the list of its rows in the order in which they were made, and an identifier is the next
-- value of a counter, so a query that orders by id or by time keeps the order of the list.
use mathlib.Core.Option
use treasury_backend.Prelude.{
  Bool, List, Option, [], false, filter, find, if◌then◌else◌, includes, map, max, none, option_eq,
  some, suc, true, update_where, ℕ, ◌++◌, ◌+◌, ◌==◌, ◌∷◌,
}
use treasury_backend.Money.{Text}
use treasury_backend.Store.{EffectKey, MovementCommand, append_movement}
use treasury_backend.Settlement.{
  Allocation, AllocationState, Attachment, BankAccount, Batch, BatchState, BatchView,
  CollectionItem, Effect, EffectDirection, EffectType, ItemState, LockedSettlement, ReversalView,
  SettlementDb, confirmed, reversal, reversed,
}

abbrev pub batch_by_id : ℕ → List Batch → Option Batch
batch_by_id id = find (λ b. b.id == id)

abbrev pub item_by_id : ℕ → List CollectionItem → Option CollectionItem
item_by_id id = find (λ i. i.id == id)

abbrev pub items_of : List Allocation → List CollectionItem → List CollectionItem
items_of allocations = filter (λ i. includes i.id (map (λ a. a.collection_item_id) allocations))

abbrev locked_rows : SettlementDb → Batch → LockedSettlement
locked_rows db batch =
    let allocations = filter (λ a. a.settlement_batch_id == batch.id) db.allocations in
    record {
      batch = batch;
      allocations = allocations;
      items = items_of allocations db.items;
      effects = filter (λ e. e.settlement_batch_id == batch.id) db.effects;
    }

unfoldable pub lock : ℕ → SettlementDb → Option LockedSettlement
lock batch_id db = Option.map (locked_rows db) (batch_by_id batch_id db.batches)

pub record Evidence : Type 0 where
  pub linked_digest : ℕ
  -- the LEFT JOIN: none if the attachment is gone
  pub current : Option Attachment

pub record ConfirmationFacts : Type 0 where
  pub account : Option BankAccount
  pub attachments : List Evidence

unfoldable pub confirmation_facts : Batch → SettlementDb → ConfirmationFacts
confirmation_facts batch db = record {
  account = find (λ a. a.id == batch.destination_bank_account_id) db.accounts;
  attachments =
      map
        (λ l. record {
          linked_digest = l.content_digest;
          current = find (λ a. a.id == l.attachment_id) db.attachments;
        })
        (filter (λ l. l.settlement_batch_id == batch.id) db.links);
}

unfoldable pub confirm_batch : ℕ → ℕ → ℕ → SettlementDb → SettlementDb
confirm_batch batch_id actor at db = record db {
  batches =
      update_where (λ b. b.id == batch_id)
        (λ b. record b {
          state = confirmed;
          confirmed_by = some actor;
          confirmed_at = some at;
          version = suc b.version;
        })
        db.batches;
}

unfoldable pub reverse_batch : ℕ → ℕ → ℕ → SettlementDb → SettlementDb
reverse_batch batch_id actor at db = record db {
  batches =
      update_where (λ b. b.id == batch_id)
        (λ b. record b {
          state = reversed;
          reversed_by = some actor;
          reversed_at = some at;
          version = suc b.version;
        })
        db.batches;
}

unfoldable pub allocation_state : ℕ → AllocationState → SettlementDb → SettlementDb
allocation_state allocation_id state db = record db {
  allocations =
      update_where (λ a. a.id == allocation_id)
        (λ a. record a { state = state; version = suc a.version }) db.allocations;
}

unfoldable pub collection_balance : ℕ → Text → Text → ItemState → SettlementDb → SettlementDb
collection_balance item_id allocated remaining state db = record db {
  items =
      update_where (λ i. i.id == item_id)
        (λ i. record i {
          allocated_amount = allocated;
          remaining_amount = remaining;
          state = state;
          version = suc i.version;
        })
        db.items;
}

-- The fields of an effect but its id.
pub record EffectInput : Type 0 where
  pub settlement_batch_id : ℕ
  pub effect_key : EffectKey
  pub effect_type : EffectType
  pub direction : EffectDirection
  pub amount : Text
  pub currency : ℕ
  pub business_date : ℕ
  pub source_version : ℕ
  pub movement_fact_id : Option ℕ
  pub collection_item_id : Option ℕ
  pub reversal_of_effect_id : Option ℕ

abbrev pub effect_row : ℕ → EffectInput → Effect
effect_row id e = record {
  id = id;
  settlement_batch_id = e.settlement_batch_id;
  effect_key = e.effect_key;
  effect_type = e.effect_type;
  direction = e.direction;
  amount = e.amount;
  currency = e.currency;
  business_date = e.business_date;
  source_version = e.source_version;
  movement_fact_id = e.movement_fact_id;
  collection_item_id = e.collection_item_id;
  reversal_of_effect_id = e.reversal_of_effect_id;
}

unfoldable pub random_uuid : SettlementDb → ℕ × SettlementDb
random_uuid db =
    let f = db.foundation in
    (f.next_uuid, record db { foundation = record f { next_uuid = suc f.next_uuid } })

unfoldable pub append_effect : EffectInput → SettlementDb → SettlementDb
unfolding random_uuid
append_effect input db =
    let (id, db') = random_uuid db in
    record db' { effects = db'.effects ++ effect_row id input ∷ [] }

unfoldable pub post_movement : MovementCommand → SettlementDb → ℕ × SettlementDb
post_movement command db =
    let (id, foundation) = append_movement command db.foundation in
    (id, record db { foundation = foundation })

-- MAX of the numbers behind `SET-`, or 0
unfoldable pub max_number : List Batch → ℕ
max_number [] = 0
max_number (b ∷ bs) = max b.business_number (max_number bs)

unfoldable pub next_number : SettlementDb → ℕ
unfolding max_number
next_number db = max_number db.batches + 1

unfoldable pub insert_reversal : ℕ → ℕ → Batch → ℕ → Text → ℕ → SettlementDb → SettlementDb
insert_reversal id number original actor reason business_date db = record db {
  batches =
      db.batches
      ++ record {
        id = id;
        business_number = number;
        destination_bank_account_id = original.destination_bank_account_id;
        bank_statement_line_id = none;
        provider_reference = original.provider_reference;
        settlement_date = business_date;
        match_columns = none;
        currency = original.currency;
        gross_amount = original.gross_amount;
        fee_amount = original.fee_amount;
        deduction_amount = original.deduction_amount;
        expected_net_amount = original.expected_net_amount;
        actual_net_amount = original.actual_net_amount;
        discrepancy_amount = original.discrepancy_amount;
        discrepancy_disposition = original.discrepancy_disposition;
        discrepancy_reason = original.discrepancy_reason;
        creator_user_id = actor;
        confirmed_by = none;
        confirmed_at = none;
        reversed_by = none;
        reversed_at = none;
        reversal_of_batch_id = some original.id;
        replacement_for_batch_id = none;
        reversal_reason = some reason;
        state = reversal;
        version = 0;
      }
        ∷ [];
}

abbrev pub is_reversal : BatchState → Bool
is_reversal reversal = true
is_reversal _ = false

abbrev id_of : Option Batch → Option ℕ
id_of none = none
id_of (some b) = some b.id

abbrev pub view_rows : SettlementDb → Batch → BatchView
view_rows db batch = record {
  batch = batch;
  allocations = filter (λ a. a.settlement_batch_id == batch.id) db.allocations;
  links = filter (λ l. l.settlement_batch_id == batch.id) db.links;
  effects = filter (λ e. e.settlement_batch_id == batch.id) db.effects;
  reversal_batch_id =
      id_of (find (λ b. option_eq b.reversal_of_batch_id (some batch.id)) db.batches);
}

-- A reversal has a view of its own.
abbrev pub view_of : SettlementDb → Option Batch → Option BatchView
view_of db none = none
view_of db (some batch) = if is_reversal batch.state then none else some (view_rows db batch)

-- The inner join with the bank account and the missing actor are ruled out by foreign keys; the
-- labels that the source joins are left out.
unfoldable pub view : ℕ → SettlementDb → Option BatchView
view batch_id db = view_of db (batch_by_id batch_id db.batches)

abbrev has_lineage : Batch → Bool
has_lineage batch = elim batch.reversal_of_batch_id [
  | none ↦ false
  | some original ↦ elim batch.reversal_reason [ none ↦ false | some [] ↦ false | some _ ↦ true ]
]

unfoldable pub reversal_view : ℕ → SettlementDb → Option ReversalView
reversal_view id db =
    elim (find (λ b. if b.id == id then is_reversal b.state else false) db.batches) [
      | none ↦ none
      | some batch ↦
          if has_lineage batch
          then some (record {
            batch = batch;
            effects = filter (λ e. e.settlement_batch_id == batch.id) db.effects;
          })
          else none
    ]
