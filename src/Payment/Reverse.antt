-- ===== src/Payment/Reverse.antt =====
-- `reverse` of src/payments/payment-execution.service.ts.
pub mod Run
pub mod Movements
pub mod Guards
pub mod Once
pub mod Final
use treasury_backend.Prelude.{
  Bool, List, Option, [], false, find, none, not, some, suc, true, ℕ, ◌==◌, ◌∷◌,
}
use treasury_backend.Money.{Text, is_empty}
use treasury_backend.Money.Texts.{trim}
use treasury_backend.Store.{
  IdempotencyRecord, Result, Scope, check_violation, find_idempotency, finish_idempotency,
  idempotency_conflict, ok, or_throw, payment_reversed, payment_reversed_event, replay_response,
  resource_hidden, reversal_blocked, scope_denied, start_idempotency, throw_if, type_error,
  validation, ◌>>=◌, ◌>>◌,
}
use treasury_backend.Payment.{
  LockedLine, LockedPayment, PaymentDb, PaymentEffect, PaymentView, outgoing, reversing,
}
use treasury_backend.Payment.Checks.{
  CommandContext, PaymentReverseDto, PaymentServices, authorization_context, consume_payment_proof,
  lock_payment, payment_reverse, reverse_payment, validate,
}
use treasury_backend.Payment.Totals.{source_of}
use treasury_backend.Payment.Execute.{
  append_payment_effect, is_evident, payment_audit, payment_outbox, payment_view,
  post_payment_movement, with_payment_audit, with_payment_outbox,
}
use treasury_backend.Payment.Reversal.{
  PaymentReversalResult, complete_reversal, create_reversal, line_id_of, next_payment_number,
  reversal_effects, reverse_guards, reversing_effect, reversing_movement,
}

-- The loop of `reverse` over the effects that moved money.
unfoldable pub reverse_effect :
    ℕ → List (ℕ × ℕ) → ℕ → LockedPayment → PaymentEffect → PaymentDb → Result PaymentDb
reverse_effect reversal_id ids date p e db = do
  line_id ← or_throw (line_id_of e.payment_line_id ids) reversal_blocked
  fact ← or_throw e.movement_fact_id reversal_blocked
  l ← or_throw (find (λ (k : LockedLine). k.line.id == e.payment_line_id) p.lines) type_error
  source ← or_throw (source_of l.line) check_violation
  let (movement, moved) =
      post_payment_movement (reversing_movement reversal_id line_id date e source.source_id fact) db
  ok (append_payment_effect (reversing_effect reversal_id line_id date e movement) moved)

unfoldable pub reverse_payment_effects :
    ℕ → List (ℕ × ℕ) → ℕ → LockedPayment → List PaymentEffect → PaymentDb → Result PaymentDb
reverse_payment_effects reversal_id ids date p [] db = ok db
reverse_payment_effects reversal_id ids date p (e ∷ es) db = do
  db' ← reverse_effect reversal_id ids date p e db
  reverse_payment_effects reversal_id ids date p es db'

-- The updates of `reverse`, with the identifier of the reversal.
unfoldable pub reverse_updates :
    CommandContext
    → ℕ
    → ℕ
    → LockedPayment
    → Text
    → ℕ
    → List PaymentEffect
    → PaymentDb
    → Result (ℕ × PaymentDb)
reverse_updates ctx payment_id version p reason date moved db = do
  let (number, numbered) = next_payment_number date db
  let ((reversal_id, ids), created) = create_reversal ctx date number reason p numbered
  done ←
      reverse_payment_effects reversal_id ids date p moved
        (complete_reversal payment_id reversal_id version created)
  ok (
    reversal_id,
    with_payment_outbox (payment_outbox payment_id version payment_reversed_event)
        (with_payment_audit (payment_audit ctx payment_id payment_reversed (some reason)) done),
  )

unfoldable pub reverse_response :
    CommandContext → Scope → ℕ → ℕ → PaymentDb → Result (PaymentReversalResult × PaymentDb)
reverse_response ctx scope payment_id reversal_id db = do
  original ← or_throw (payment_view payment_id db) idempotency_conflict
  reversal ← or_throw (payment_view reversal_id db) idempotency_conflict
  ok (
    record { original = original; reversal = reversal },
    record db { idempotency = finish_idempotency scope ctx.key original db.idempotency },
  )

abbrev pub is_outgoing : PaymentEffect → Bool
is_outgoing e = elim e.direction [ outgoing ↦ true | reversing ↦ false ]

-- What the deferred trigger `enforce_payment_execution_effect_evidence` asks of a reversing effect at
-- the commit: its original is outgoing, and the fact is at the endpoint that the line names.
unfoldable pub check_reversal_evidence : LockedPayment → List PaymentEffect → Result (Unit {0})
check_reversal_evidence p [] = ok tt
check_reversal_evidence p (e ∷ es) = do
  throw_if (not (is_outgoing e)) check_violation
  l ← or_throw (find (λ (k : LockedLine). k.line.id == e.payment_line_id) p.lines) type_error
  source ← or_throw (source_of l.line) check_violation
  throw_if (not (is_evident l.line e.effect_type source.source_id)) check_violation
  check_reversal_evidence p es

abbrev pub reverse_scope : ℕ → ℕ → Scope
reverse_scope actor payment = record { operation = 11; actor = actor; subject = payment }

unfoldable pub reverse_fresh :
    CommandContext
    → Scope
    → ℕ
    → ℕ
    → ℕ
    → LockedPayment
    → Text
    → ℕ
    → PaymentDb
    → Result (PaymentReversalResult × PaymentDb)
reverse_fresh ctx scope digest payment_id expected_version p reason date db = do
  let started = record db { idempotency = start_idempotency scope ctx.key digest db.idempotency }
  reverse_guards ctx.actor expected_version p
  proved ← consume_payment_proof ctx started
  moved ← reversal_effects date p proved
  (reversal_id, done) ←
      reverse_updates ctx payment_id (suc expected_version) p reason date moved proved
  (response, answered) ← reverse_response ctx scope payment_id reversal_id done
  check_reversal_evidence p moved
  ok (response, answered)

-- A repeated request answers the stored original and the reversal as it is now.
unfoldable pub replay_reversal :
    ℕ → IdempotencyRecord PaymentView → PaymentDb → Result (PaymentReversalResult × PaymentDb)
replay_reversal digest r db = do
  original ← replay_response digest r
  reversal_id ← or_throw original.document.reversed_payment_id idempotency_conflict
  reversal ← or_throw (payment_view reversal_id db) idempotency_conflict
  ok (record { original = original; reversal = reversal }, db)

abbrev pub unless_reversed :
    ℕ
    → Option (IdempotencyRecord PaymentView)
    → PaymentDb
    → Result (PaymentReversalResult × PaymentDb)
    → Result (PaymentReversalResult × PaymentDb)
unless_reversed digest (some r) db fresh = replay_reversal digest r db
unless_reversed digest none db fresh = fresh

unfoldable pub reverse :
    PaymentServices
    → CommandContext
    → PaymentReverseDto
    → PaymentDb
    → Result (PaymentReversalResult × PaymentDb)
reverse services ctx body db = do
  (payment_id, expected_version) ← validate ctx
  let reason = trim body.reason
  throw_if (is_empty reason) validation
  let scope = reverse_scope ctx.actor payment_id
  let digest =
      services.command_digest
        (reverse_payment ctx.actor payment_id ctx.if_match reason body.business_date)
  p ← or_throw (lock_payment payment_id db) resource_hidden
  throw_if (not (services.can_operate_payment ctx.actor (authorization_context p) payment_reverse))
      scope_denied
  unless_reversed digest (find_idempotency scope ctx.key db.idempotency) db
      (reverse_fresh ctx scope digest payment_id expected_version p reason body.business_date db)
