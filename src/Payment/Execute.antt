-- ===== src/Payment/Execute.antt =====
-- `execute` and `executeLine` of src/payments/payment-execution.service.ts, with the updates of
-- src/payments/payment-execution.repository.ts.
pub mod Run
pub mod Frame
pub mod Movements
pub mod Funds
pub mod Balance
pub mod Enough
pub mod Evidence
pub mod Solvency
pub mod Guards
pub mod Replay
pub mod Floor
use mathlib.Core.Option
use treasury_backend.Prelude.{
  Bool, List, Option, [], any, false, filter, includes, is_nil, is_some, none, not, option_eq, some,
  suc, true, update_where, ℕ, ◌&&◌, ◌++◌, ◌==◌, ◌||◌, ◌∷◌,
}
use treasury_backend.Money.{Text, amount}
use treasury_backend.Money.Texts.{non_empty}
use treasury_backend.Store.{
  Audit, AuditAction, EffectKey, EndpointType, EventType, MovementCommand, Outbox, Result, Scope,
  aggregate_stale, append_audit, append_movement, append_outbox, bank_account_endpoint,
  cashbox_endpoint, check_violation, debit, effect_mapping, find_idempotency, finish_idempotency,
  idempotency_conflict, instruction_key, ok, or_throw, outgoing_key, payment_executed,
  payment_executed_event, payment_source, payments, posted_fact, resource_hidden, scope_denied,
  stale_version, start_idempotency, state_conflict, throw_if, unless_replayed, ◌>>=◌, ◌>>◌,
}
use treasury_backend.Payment.{
  LockedLine, LockedPayment, MethodCategory, PaymentDb, PaymentDocument, PaymentEffect,
  PaymentEffectType, PaymentLine, PaymentState, PaymentView, approved, bank_instruction,
  bank_movement, cash, cashbox_movement, consumed, executed, execution_executed, line_executed,
  other_method, outgoing, pending_confirmation,
}
use treasury_backend.Payment.Checks.{
  CommandContext, PaymentServices, SeparationOverride, authorization_context,
  check_payment_allocations, document_by_id, exact_total, execute_payment, lines_of, lock_payment,
  payment_execute, separation, validate,
}
use treasury_backend.Payment.Totals.{check_sources, reservations, source_of}

-- `consumeReservations`
unfoldable pub consume_reservations : List ℕ → PaymentDb → PaymentDb
consume_reservations ids db = record db {
  reservations =
      update_where (λ r. includes r.id ids)
        (λ r. record r { state = consumed; version = suc r.version }) db.reservations;
}

-- `completeExecution`
unfoldable pub complete_execution : ℕ → ℕ → ℕ → ℕ → PaymentDb → PaymentDb
complete_execution payment_id actor at source_version db = record db {
  documents =
      update_where (λ d. d.id == payment_id)
        (λ d. record d {
          state = executed;
          execution_state = execution_executed;
          executed_at = some at;
          executed_by_user_id = some actor;
          version = source_version;
        })
        db.documents;
  lines =
      update_where (λ l. l.payment_document_id == payment_id)
        (λ l. record l {
          state = line_executed;
          executed_at = some at;
          executed_by_user_id = some actor;
          version = suc l.version;
        })
        db.lines;
}

unfoldable pub payment_uuid : PaymentDb → ℕ × PaymentDb
payment_uuid db =
    let f = db.foundation in
    (f.next_uuid, record db { foundation = record f { next_uuid = suc f.next_uuid } })

-- `appendEffect`: the row gets a new identifier.
unfoldable pub append_payment_effect : (ℕ → PaymentEffect) → PaymentDb → PaymentDb
append_payment_effect row db =
    let (id, named) = payment_uuid db in record named { effects = named.effects ++ row id ∷ [] }

unfoldable pub post_payment_movement : MovementCommand → PaymentDb → ℕ × PaymentDb
post_payment_movement command db =
    let (id, foundation) = append_movement command db.foundation in
    (id, record db { foundation = foundation })

-- CASH, or one of `BANK_METHODS`
abbrev pub effect_type_of : MethodCategory → Option PaymentEffectType
effect_type_of cash = some cashbox_movement
effect_type_of other_method = none
effect_type_of _ = some bank_movement

abbrev pub endpoint_of : PaymentEffectType → EndpointType
endpoint_of cashbox_movement = cashbox_endpoint
endpoint_of _ = bank_account_endpoint

abbrev pub outgoing_movement :
    PaymentDocument → PaymentLine → PaymentEffectType → ℕ → MovementCommand
outgoing_movement d l type source = record {
  owner = some payments;
  source_type = some payment_source;
  source_id = d.id;
  source_line_id = some l.id;
  effect_key = outgoing_key d.id l.id;
  endpoint_type = endpoint_of type;
  endpoint_id = source;
  amount = l.amount;
  currency = l.currency;
  business_date = d.business_date;
  reversal_of_fact_id = none;
  direction = some debit;
  state = some posted_fact;
}

abbrev pub outgoing_effect :
    PaymentDocument
    → PaymentLine
    → EffectKey
    → PaymentEffectType
    → ℕ
    → Option ℕ
    → Option ℕ
    → ℕ
    → PaymentEffect
outgoing_effect d l key type source_version movement instruction id = record {
  id = id;
  payment_line_id = l.id;
  effect_key = key;
  effect_type = type;
  direction = outgoing;
  amount = l.amount;
  currency = l.currency;
  business_date = d.business_date;
  source_version = source_version;
  movement_fact_id = movement;
  bank_instruction_id = instruction;
  reversal_of_effect_id = none;
}

-- The instruction to the bank, for a bank movement alone.
unfoldable pub append_instruction :
    PaymentDocument → PaymentLine → PaymentEffectType → ℕ → PaymentDb → Result PaymentDb
append_instruction d l type source_version db = elim type [
  | bank_movement ↦ or_throw l.bank_account_id effect_mapping >>= λ account.
      or_throw (non_empty l.beneficiary_account_reference) effect_mapping >>= λ reference.
      let (id, named) = payment_uuid db in
      ok (
        append_payment_effect
          (outgoing_effect d l (instruction_key d.id l.id) bank_instruction source_version none
            (some id))
          (record named {
            instructions =
                named.instructions
                ++ record {
                  id = id;
                  payment_line_id = l.id;
                  bank_account_id = account;
                  amount = l.amount;
                  currency = l.currency;
                  beneficiary_account_reference = reference;
                  state = pending_confirmation;
                }
                  ∷ [];
          }))
  | _ ↦ ok db
]

-- `executeLine`
unfoldable pub execute_line : PaymentDocument → ℕ → PaymentLine → PaymentDb → Result PaymentDb
execute_line d source_version l db = do
  source ← or_throw (source_of l) effect_mapping
  type ← or_throw (effect_type_of l.method_category) effect_mapping
  let (fact, moved) = post_payment_movement (outgoing_movement d l type source.source_id) db
  append_instruction d l type source_version (
      append_payment_effect
        (outgoing_effect d l (outgoing_key d.id l.id) type source_version (some fact) none) moved)

unfoldable pub execute_lines : PaymentDocument → ℕ → List LockedLine → PaymentDb → Result PaymentDb
execute_lines d source_version [] db = ok db
execute_lines d source_version (l ∷ ls) db = do
  db' ← execute_line d source_version l.line db
  execute_lines d source_version ls db'

-- `paymentView`, as the rows that it is printed from.
unfoldable pub payment_view : ℕ → PaymentDb → Option PaymentView
payment_view id db =
    Option.map
      (λ d. record {
        document = d;
        lines = lines_of id db;
        allocations = filter (λ a. a.payment_document_id == id) db.allocations;
        effects =
            filter (λ e. any (λ (l : PaymentLine). l.id == e.payment_line_id) (lines_of id db))
              db.effects;
      })
      (document_by_id id db.documents)

abbrev pub is_approved : PaymentState → Bool
is_approved approved = true
is_approved _ = false

-- The checks of `execute` that read no other row.
unfoldable pub execute_guards : ℕ → LockedPayment → Result (Unit {0})
execute_guards expected_version p = do
  throw_if (not (p.document.version == expected_version)) stale_version
  throw_if (not (is_approved p.document.state && is_some p.document.current_approval_snapshot_id))
      state_conflict
  throw_if (is_nil p.lines || any (λ (l : LockedLine). not l.method_is_active) p.lines)
      aggregate_stale
  exact_total p

-- The checks that read other rows; a separation override consumes a proof.
unfoldable pub execute_checks :
    PaymentServices
    → CommandContext
    → LockedPayment
    → Option SeparationOverride
    → PaymentDb
    → Result (List ℕ × PaymentDb)
execute_checks services ctx p body db = do
  separated ← separation services ctx p body db
  check_payment_allocations p.allocations separated
  ids ← reservations ctx.now p
  check_sources p separated
  ok (ids, separated)

abbrev pub payment_audit : CommandContext → ℕ → AuditAction → Option Text → Audit
payment_audit ctx payment_id action reason = record {
  request_id = ctx.request_id;
  actor_user_id = ctx.actor;
  entity_type = payment_source;
  entity_id = payment_id;
  action = action;
  reason = reason;
}

abbrev pub payment_outbox : ℕ → ℕ → EventType → Outbox
payment_outbox payment_id version event = record {
  aggregate_type = payment_source;
  aggregate_id = payment_id;
  aggregate_version = version;
  event_type = event;
}

abbrev pub with_payment_audit : Audit → PaymentDb → PaymentDb
with_payment_audit entry db = record db { foundation = append_audit entry db.foundation }

abbrev pub with_payment_outbox : Outbox → PaymentDb → PaymentDb
with_payment_outbox entry db = record db { foundation = append_outbox entry db.foundation }

-- The updates of `execute`, up to the response.
unfoldable pub execute_updates :
    CommandContext → ℕ → ℕ → LockedPayment → List ℕ → PaymentDb → Result PaymentDb
execute_updates ctx payment_id source_version p ids db = do
  moved ←
      execute_lines p.document source_version p.lines (
        complete_execution payment_id ctx.actor ctx.now source_version
          (consume_reservations ids db))
  ok (
      with_payment_outbox (payment_outbox payment_id source_version payment_executed_event)
        (with_payment_audit (payment_audit ctx payment_id payment_executed none) moved))

unfoldable pub execute_response :
    CommandContext → Scope → ℕ → ℕ → PaymentDb → Result (PaymentView × PaymentDb)
execute_response ctx scope payment_id source_version db = do
  response ← or_throw (payment_view payment_id db) idempotency_conflict
  throw_if (not (response.document.version == source_version)) idempotency_conflict
  ok (
    response,
    record db { idempotency = finish_idempotency scope ctx.key response db.idempotency },
  )

abbrev pub execute_scope : ℕ → ℕ → Scope
execute_scope actor payment = record { operation = 10; actor = actor; subject = payment }

-- What the deferred trigger `enforce_payment_execution_effect_evidence` of
-- migrations/0019_payment_execution_outcomes.sql asks at the commit of a movement effect: the fact is
-- at the cashbox or at the account that the line names. The other conditions hold by the columns
-- that the effect and its fact are made of.
abbrev pub is_evident : PaymentLine → PaymentEffectType → ℕ → Bool
is_evident l cashbox_movement source = option_eq l.cashbox_id (some source)
is_evident l bank_movement source = option_eq l.bank_account_id (some source)
is_evident l _ source = false

unfoldable pub check_evidence : List LockedLine → Result (Unit {0})
check_evidence [] = ok tt
check_evidence (l ∷ ls) = do
  source ← or_throw (source_of l.line) effect_mapping
  type ← or_throw (effect_type_of l.line.method_category) effect_mapping
  throw_if (not (is_evident l.line type source.source_id)) check_violation
  check_evidence ls

unfoldable pub execute_fresh :
    PaymentServices
    → CommandContext
    → Scope
    → ℕ
    → ℕ
    → ℕ
    → LockedPayment
    → Option SeparationOverride
    → PaymentDb
    → Result (PaymentView × PaymentDb)
execute_fresh services ctx scope digest payment_id expected_version p body db = do
  let started = record db { idempotency = start_idempotency scope ctx.key digest db.idempotency }
  execute_guards expected_version p
  (ids, checked) ← execute_checks services ctx p body started
  done ← execute_updates ctx payment_id (suc expected_version) p ids checked
  (response, answered) ← execute_response ctx scope payment_id (suc expected_version) done
  check_evidence p.lines
  ok (response, answered)

unfoldable pub execute :
    PaymentServices
    → CommandContext
    → Option SeparationOverride
    → PaymentDb
    → Result (PaymentView × PaymentDb)
execute services ctx body db = do
  (payment_id, expected_version) ← validate ctx
  let scope = execute_scope ctx.actor payment_id
  let digest = services.command_digest (execute_payment ctx.actor payment_id ctx.if_match body)
  p ← or_throw (lock_payment payment_id db) resource_hidden
  throw_if (not (services.can_operate_payment ctx.actor (authorization_context p) payment_execute))
      scope_denied
  unless_replayed digest (find_idempotency scope ctx.key db.idempotency) db
      (execute_fresh services ctx scope digest payment_id expected_version p body db)
