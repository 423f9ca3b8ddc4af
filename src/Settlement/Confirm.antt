-- ===== src/Settlement/Confirm.antt =====
-- `confirm`, `validateLockedAllocations` and `appendOptionalEvidenceEffects` of
-- src/collection-and-settlement/settlement.service.ts.
pub mod Guards
pub mod Balances
pub mod Run
pub mod Soundness
pub mod Commands
pub mod Movements
use treasury_backend.Prelude.{
  Bool, List, Option, [], all, any, false, if◌then◌else◌, is_nil, length, none, not, some, suc,
  true, ℕ, ◌&&◌, ◌==◌, ◌||◌, ◌∷◌,
}
use treasury_backend.Prelude.Int.{ltb_ℤ, pos, ◌+ℤ◌, ◌-ℤ◌, ◌==ℤ◌}
use treasury_backend.Money.{Text, amount}
use treasury_backend.Store.{
  Audit, AuditAction, EffectKey, EventType, MovementCommand, Outbox, Result, Scope,
  allocation_conflict, allocation_key, append_audit, append_outbox, approved_discrepancy_key,
  bank_account_endpoint, bank_credit_key, collection_and_settlement, collection_settled,
  confirmation_unknown, credit, deduction_key, discrepancy_unresolved, evidence_invalid, fee_key,
  find_idempotency, finish_idempotency, ok, or_throw, posted_fact, resource_hidden, scope_denied,
  settlement_confirmed, settlement_source, stale_version, start_idempotency, state_conflict,
  throw_if, type_error, unless_replayed, ◌>>=◌, ◌>>◌,
}
use treasury_backend.Settlement.{
  Allocation, AllocationState, BankAccount, Batch, BatchState, CollectionItem, Disposition,
  EffectType, LockedSettlement, Response, SettlementDb, allocation_consumption, approved_difference,
  approved_discrepancy_evidence, bank_credit, batch_view, confirmed_allocation, deduction_evidence,
  fee_evidence, in_discrepancy, matched, partially_allocated, proposed, settled, settlement_effect,
}
use treasury_backend.Settlement.Repository.{
  EffectInput, Evidence, allocation_state, append_effect, collection_balance, confirm_batch,
  confirmation_facts, item_by_id, lock, post_movement, view,
}
use treasury_backend.Settlement.Service.{
  Context, Services, authorized_for_batch, confirm_command, confirm_scope, is_allocatable,
  settlement_confirm, units_or_throw, validate_command,
}

abbrev pub is_proposal : BatchState → Bool
is_proposal matched = true
is_proposal in_discrepancy = true
is_proposal _ = false

abbrev pub is_approved_difference : Disposition → Bool
is_approved_difference approved_difference = true
is_approved_difference _ = false

abbrev pub is_proposed : AllocationState → Bool
is_proposed proposed = true
is_proposed _ = false

abbrev pub is_current : Evidence → Bool
is_current e = elim e.current [
  | none ↦ false
  | some a ↦ a.is_active && e.linked_digest == a.content_digest
]

abbrev pub account_accepts : Batch → Option BankAccount → Bool
account_accepts batch none = false
account_accepts batch (some a) = a.is_active && a.can_receive && a.currency == batch.currency

abbrev pub has_evidence : List Evidence → Bool
has_evidence [] = false
has_evidence (e ∷ es) = all is_current (e ∷ es)

-- One round of the loop of `validateLockedAllocations`.
unfoldable pub check_allocation : Batch → List CollectionItem → Allocation → Result (Unit {0})
check_allocation batch items a = do
  item ← or_throw (item_by_id a.collection_item_id items) allocation_conflict
  throw_if
      (not (
        is_allocatable item.state
        && item.version == a.collection_item_version
        && item.destination_bank_account_id == batch.destination_bank_account_id
        && item.currency == batch.currency))
      allocation_conflict
  taken ← units_or_throw a.allocated_amount
  remaining ← units_or_throw item.remaining_amount
  throw_if (ltb_ℤ remaining taken) allocation_conflict

unfoldable pub check_allocations : Batch → List CollectionItem → List Allocation → Result (Unit {0})
check_allocations batch items [] = ok tt
check_allocations batch items (a ∷ rest) = do
  check_allocation batch items a
  check_allocations batch items rest

unfoldable pub validate_locked_allocations : LockedSettlement → Result (Unit {0})
validate_locked_allocations locked = do
  throw_if
      (is_nil locked.allocations
        || not (length locked.allocations == length locked.items)
        || any (λ a. not (is_proposed a.state)) locked.allocations)
      allocation_conflict
  check_allocations locked.batch locked.items locked.allocations

-- The checks of `confirm` between the idempotency record and the first update.
unfoldable pub confirm_guards : ℕ → ℕ → LockedSettlement → SettlementDb → Result (Unit {0})
confirm_guards actor expected_version locked db = do
  throw_if (not (locked.batch.version == expected_version)) stale_version
  throw_if (not (is_proposal locked.batch.state)) state_conflict
  throw_if (locked.batch.creator_user_id == actor) scope_denied
  difference ← units_or_throw locked.batch.discrepancy_amount
  throw_if
      (not (difference ==ℤ pos 0)
        && not (is_approved_difference locked.batch.discrepancy_disposition))
      discrepancy_unresolved
  let facts = confirmation_facts locked.batch db
  throw_if (not (account_accepts locked.batch facts.account && has_evidence facts.attachments))
      evidence_invalid
  validate_locked_allocations locked

-- The first loop: the allocation is confirmed and its item gives up the amount.
unfoldable pub confirm_allocation :
    List CollectionItem → Allocation → SettlementDb → Result SettlementDb
confirm_allocation items a db = do
  item ← or_throw (item_by_id a.collection_item_id items) type_error
  allocated ← units_or_throw item.allocated_amount
  taken ← units_or_throw a.allocated_amount
  remaining ← units_or_throw item.remaining_amount
  let next_remaining = remaining -ℤ taken
  ok (
      collection_balance item.id (amount (allocated +ℤ taken)) (amount next_remaining)
        (if next_remaining ==ℤ pos 0 then settled else partially_allocated)
        (allocation_state a.id confirmed_allocation db))

unfoldable pub confirm_allocations :
    List CollectionItem → List Allocation → SettlementDb → Result SettlementDb
confirm_allocations items [] db = ok db
confirm_allocations items (a ∷ rest) db = do
  db' ← confirm_allocation items a db
  confirm_allocations items rest db'

abbrev pub effect_of : Batch → ℕ → EffectKey → EffectType → Text → Option ℕ → Option ℕ → EffectInput
effect_of batch source_version key type amount movement item = record {
  settlement_batch_id = batch.id;
  effect_key = key;
  effect_type = type;
  direction = settlement_effect;
  amount = amount;
  currency = batch.currency;
  business_date = batch.settlement_date;
  source_version = source_version;
  movement_fact_id = movement;
  collection_item_id = item;
  reversal_of_effect_id = none;
}

abbrev pub bank_credit_movement : Batch → MovementCommand
bank_credit_movement batch = record {
  owner = some collection_and_settlement;
  source_type = some settlement_source;
  source_id = batch.id;
  source_line_id = some batch.id;
  effect_key = bank_credit_key;
  endpoint_type = bank_account_endpoint;
  endpoint_id = batch.destination_bank_account_id;
  amount = batch.actual_net_amount;
  currency = batch.currency;
  business_date = batch.settlement_date;
  reversal_of_fact_id = none;
  direction = some credit;
  state = some posted_fact;
}

unfoldable pub append_bank_credit : Batch → ℕ → SettlementDb → SettlementDb
append_bank_credit batch source_version db =
    let (movement, db') = post_movement (bank_credit_movement batch) db in
    append_effect
      (effect_of batch source_version bank_credit_key bank_credit batch.actual_net_amount
        (some movement) none)
      db'

unfoldable pub append_consumptions : Batch → ℕ → List Allocation → SettlementDb → SettlementDb
append_consumptions batch source_version [] db = db
append_consumptions batch source_version (a ∷ rest) db =
    append_consumptions batch source_version rest (
      append_effect
        (record (effect_of batch source_version (allocation_key a.id) allocation_consumption
          a.allocated_amount none (some a.collection_item_id)) { currency = a.currency })
        db)

-- One round of the loop of `appendOptionalEvidenceEffects`.
unfoldable pub append_evidence :
    Batch → ℕ → EffectType → EffectKey → Text → SettlementDb → Result SettlementDb
append_evidence batch source_version type key value db = do
  amount ← units_or_throw value
  ok (
      if amount ==ℤ pos 0
      then db
      else append_effect (effect_of batch source_version key type value none none) db)

unfoldable pub append_optional_evidence_effects : Batch → ℕ → SettlementDb → Result SettlementDb
append_optional_evidence_effects batch version db = do
  with_fee ← append_evidence batch version fee_evidence fee_key batch.fee_amount db
  with_deduction ←
      append_evidence batch version deduction_evidence deduction_key batch.deduction_amount with_fee
  append_evidence batch version approved_discrepancy_evidence approved_discrepancy_key
      batch.discrepancy_amount with_deduction

abbrev pub audit_entry : Context → ℕ → AuditAction → Option Text → Audit
audit_entry ctx batch_id action reason = record {
  request_id = ctx.request_id;
  actor_user_id = ctx.actor;
  entity_type = settlement_source;
  entity_id = batch_id;
  action = action;
  reason = reason;
}

abbrev pub outbox_entry : ℕ → ℕ → EventType → Outbox
outbox_entry batch_id version event = record {
  aggregate_type = settlement_source;
  aggregate_id = batch_id;
  aggregate_version = version;
  event_type = event;
}

abbrev pub with_audit : Audit → SettlementDb → SettlementDb
with_audit entry db = record db { foundation = append_audit entry db.foundation }

abbrev pub with_outbox : Outbox → SettlementDb → SettlementDb
with_outbox entry db = record db { foundation = append_outbox entry db.foundation }

-- The updates of `confirm`, up to the response.
unfoldable pub confirm_effects :
    Context → ℕ → ℕ → LockedSettlement → SettlementDb → Result SettlementDb
confirm_effects ctx batch_id source_version locked db = do
  allocated ←
      confirm_allocations locked.items locked.allocations
        (confirm_batch batch_id ctx.actor ctx.now db)
  evidenced ← append_optional_evidence_effects locked.batch source_version (
      append_consumptions locked.batch source_version locked.allocations
        (append_bank_credit locked.batch source_version allocated))
  ok (with_audit (audit_entry ctx batch_id settlement_confirmed none) evidenced)

-- The response, the event, and the end of the idempotency record.
unfoldable pub confirm_response :
    Context → Scope → ℕ → ℕ → SettlementDb → Result (Response × SettlementDb)
confirm_response ctx scope batch_id source_version db = do
  response ← or_throw (view batch_id db) confirmation_unknown
  throw_if (not (response.batch.version == source_version)) confirmation_unknown
  let sent = with_outbox (outbox_entry batch_id source_version collection_settled) db
  ok (
    batch_view response,
    record sent {
      idempotency = finish_idempotency scope ctx.key (batch_view response) sent.idempotency;
    },
  )

unfoldable pub confirm_fresh :
    Context → Scope → ℕ → ℕ → ℕ → LockedSettlement → SettlementDb → Result (Response × SettlementDb)
confirm_fresh ctx scope digest batch_id expected_version locked db = do
  let started = record db { idempotency = start_idempotency scope ctx.key digest db.idempotency }
  confirm_guards ctx.actor expected_version locked started
  done ← confirm_effects ctx batch_id (suc expected_version) locked started
  confirm_response ctx scope batch_id (suc expected_version) done

unfoldable pub confirm : Services → Context → SettlementDb → Result (Response × SettlementDb)
confirm services ctx db = do
  (batch_id, expected_version) ← validate_command ctx
  let scope = confirm_scope ctx.actor batch_id
  let digest = services.command_digest (confirm_command ctx.actor batch_id ctx.if_match)
  locked ← or_throw (lock batch_id db) resource_hidden
  throw_if (not (authorized_for_batch services ctx.actor locked settlement_confirm)) scope_denied
  unless_replayed digest (find_idempotency scope ctx.key db.idempotency) db
      (confirm_fresh ctx scope digest batch_id expected_version locked db)
