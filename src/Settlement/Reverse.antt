-- ===== src/Settlement/Reverse.antt =====
-- `reverse` of src/collection-and-settlement/settlement.service.ts.
pub mod Balances
pub mod Run
pub mod Soundness
pub mod Commands
pub mod Movements
pub mod Replay
use treasury_backend.Prelude.{
  Bool, List, Option, [], any, false, if◌then◌else◌, none, not, option_eq, some, suc, true, ℕ, ◌==◌,
  ◌||◌, ◌∷◌,
}
use treasury_backend.Prelude.Int.{ltb_ℤ, pos, ◌+ℤ◌, ◌-ℤ◌, ◌==ℤ◌}
use treasury_backend.Money.{Text, amount, is_empty}
use treasury_backend.Money.Texts.{trim}
use treasury_backend.Store.{
  MovementCommand, Result, Scope, bank_account_endpoint, collection_and_settlement, debit,
  find_idempotency, finish_idempotency, ok, or_throw, resource_hidden, reversal_conflict,
  reversed_fact, scope_denied, settlement_reversed, settlement_reversed_event, settlement_source,
  stale_version, start_idempotency, throw_if, unless_replayed, validation, ◌>>=◌, ◌>>◌,
}
use treasury_backend.Settlement.{
  Allocation, AllocationState, Batch, BatchState, CollectionItem, Effect, LockedSettlement,
  Response, SettlementDb, bank_credit, confirmed, confirmed_allocation, partially_allocated,
  reopened_after_reversal, reversal_effect, reversal_result, reversed_allocation,
}
use treasury_backend.Settlement.Repository.{
  EffectInput, allocation_state, append_effect, collection_balance, insert_reversal, item_by_id,
  lock, next_number, post_movement, random_uuid, reversal_view, reverse_batch, view,
}
use treasury_backend.Settlement.Service.{
  Context, Services, authorized_for_batch, consume_proof, reverse_command, reverse_scope,
  settlement_reverse, units_or_throw, validate_command,
}
use treasury_backend.Settlement.Confirm.{audit_entry, outbox_entry, with_audit, with_outbox}

pub record ReverseDto : Type 0 where
  pub reason : Text
  pub business_date : ℕ

abbrev pub is_confirmed : BatchState → Bool
is_confirmed confirmed = true
is_confirmed _ = false

abbrev pub is_bank_credit : Effect → Bool
is_bank_credit e = elim e.effect_type [ bank_credit ↦ true | _ ↦ false ]

abbrev pub is_confirmed_allocation : AllocationState → Bool
is_confirmed_allocation confirmed_allocation = true
is_confirmed_allocation _ = false

-- The checks of `reverse` before the proof is consumed.
unfoldable pub reverse_guards : ℕ → ℕ → LockedSettlement → Result (Unit {0})
reverse_guards actor expected_version locked = do
  throw_if (not (locked.batch.version == expected_version)) stale_version
  throw_if (not (is_confirmed locked.batch.state)) reversal_conflict
  throw_if
      (locked.batch.creator_user_id == actor || option_eq locked.batch.confirmed_by (some actor))
      scope_denied
  throw_if (not (any is_bank_credit locked.effects)) reversal_conflict

-- The loop over the allocations: the item gets the amount back.
unfoldable pub reverse_allocation :
    List CollectionItem → Allocation → SettlementDb → Result SettlementDb
reverse_allocation items a db = do
  item ← or_throw (item_by_id a.collection_item_id items) reversal_conflict
  throw_if (not (is_confirmed_allocation a.state)) reversal_conflict
  allocated ← units_or_throw item.allocated_amount
  taken ← units_or_throw a.allocated_amount
  remaining ← units_or_throw item.remaining_amount
  let next_allocated = allocated -ℤ taken
  let next_remaining = remaining +ℤ taken
  gross ← units_or_throw item.gross_amount
  throw_if (ltb_ℤ next_allocated (pos 0) || ltb_ℤ gross next_remaining) reversal_conflict
  ok (
      collection_balance item.id (amount next_allocated) (amount next_remaining)
        (if next_allocated ==ℤ pos 0 then reopened_after_reversal else partially_allocated)
        (allocation_state a.id reversed_allocation db))

unfoldable pub reverse_allocations :
    List CollectionItem → List Allocation → SettlementDb → Result SettlementDb
reverse_allocations items [] db = ok db
reverse_allocations items (a ∷ rest) db = do
  db' ← reverse_allocation items a db
  reverse_allocations items rest db'

abbrev pub debit_movement : ℕ → Batch → ℕ → Effect → ℕ → MovementCommand
debit_movement reversal_id batch business_date e fact = record {
  owner = some collection_and_settlement;
  source_type = some settlement_source;
  source_id = reversal_id;
  source_line_id = some reversal_id;
  effect_key = e.effect_key;
  endpoint_type = bank_account_endpoint;
  endpoint_id = batch.destination_bank_account_id;
  amount = e.amount;
  currency = e.currency;
  business_date = business_date;
  reversal_of_fact_id = some fact;
  direction = some debit;
  state = some reversed_fact;
}

-- The movement that undoes a bank credit; no other effect moves money.
unfoldable pub reverse_movement :
    ℕ → Batch → ℕ → Effect → SettlementDb → Result (Option ℕ × SettlementDb)
reverse_movement reversal_id batch business_date e db =
    if is_bank_credit e
    then (or_throw e.movement_fact_id reversal_conflict >>= λ fact.
        let (id, db') = post_movement (debit_movement reversal_id batch business_date e fact) db in
        ok (some id, db'))
    else ok (none, db)

abbrev pub inverse_effect : ℕ → ℕ → Effect → Option ℕ → EffectInput
inverse_effect reversal_id business_date e movement = record {
  settlement_batch_id = reversal_id;
  effect_key = e.effect_key;
  effect_type = e.effect_type;
  direction = reversal_effect;
  amount = e.amount;
  currency = e.currency;
  business_date = business_date;
  source_version = 0;
  movement_fact_id = movement;
  collection_item_id = e.collection_item_id;
  reversal_of_effect_id = some e.id;
}

-- The loop over the effects.
unfoldable pub reverse_effects : ℕ → Batch → ℕ → List Effect → SettlementDb → Result SettlementDb
reverse_effects reversal_id batch business_date [] db = ok db
reverse_effects reversal_id batch business_date (e ∷ rest) db = do
  (movement, moved) ← reverse_movement reversal_id batch business_date e db
  reverse_effects reversal_id batch business_date rest
      (append_effect (inverse_effect reversal_id business_date e movement) moved)

-- The updates of `reverse`, up to the response.
unfoldable pub reverse_updates :
    Context → ℕ → ℕ → LockedSettlement → Text → ℕ → SettlementDb → Result SettlementDb
reverse_updates ctx batch_id reversal_id locked reason business_date db = do
  let closed = reverse_batch batch_id ctx.actor ctx.now db
  released ← reverse_allocations locked.items locked.allocations (
      insert_reversal reversal_id (next_number closed) locked.batch ctx.actor reason business_date
        closed)
  undone ← reverse_effects reversal_id locked.batch business_date locked.effects released
  ok (with_audit (audit_entry ctx batch_id settlement_reversed (some reason)) undone)

unfoldable pub reverse_response :
    Context → Scope → ℕ → ℕ → ℕ → SettlementDb → Result (Response × SettlementDb)
reverse_response ctx scope batch_id reversal_id source_version db = do
  original ← or_throw (view batch_id db) reversal_conflict
  inverse ← or_throw (reversal_view reversal_id db) reversal_conflict
  let response = reversal_result original inverse
  let sent = with_outbox (outbox_entry batch_id source_version settlement_reversed_event) db
  ok (
    response,
    record sent { idempotency = finish_idempotency scope ctx.key response sent.idempotency },
  )

unfoldable pub reverse_fresh :
    Context
    → Scope
    → ℕ
    → ℕ
    → ℕ
    → LockedSettlement
    → Text
    → ℕ
    → SettlementDb
    → Result (Response × SettlementDb)
reverse_fresh ctx scope digest batch_id expected_version locked reason business_date db = do
  let started = record db { idempotency = start_idempotency scope ctx.key digest db.idempotency }
  reverse_guards ctx.actor expected_version locked
  proved ← consume_proof ctx started
  let (reversal_id, numbered) = random_uuid proved
  done ← reverse_updates ctx batch_id reversal_id locked reason business_date numbered
  reverse_response ctx scope batch_id reversal_id (suc expected_version) done

unfoldable pub reverse :
    Services → Context → ReverseDto → SettlementDb → Result (Response × SettlementDb)
reverse services ctx body db = do
  (batch_id, expected_version) ← validate_command ctx
  let reason = trim body.reason
  throw_if (is_empty reason) validation
  let scope = reverse_scope ctx.actor batch_id
  let digest =
      services.command_digest
        (reverse_command ctx.actor batch_id ctx.if_match reason body.business_date)
  locked ← or_throw (lock batch_id db) resource_hidden
  throw_if (not (authorized_for_batch services ctx.actor locked settlement_reverse)) scope_denied
  unless_replayed digest (find_idempotency scope ctx.key db.idempotency) db
      (reverse_fresh ctx scope digest batch_id expected_version locked reason body.business_date db)
