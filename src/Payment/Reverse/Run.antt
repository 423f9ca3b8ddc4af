-- ===== src/Payment/Reverse/Run.antt =====
-- A `reverse` that returns is a replay, or has made each of its steps.
use treasury_backend.Prelude.{
  List, false, none, not, refl, some, suc, true, true_of_not, ℕ, ◌∙◌, ◌≡◌,
}
use treasury_backend.Money.{is_empty}
use treasury_backend.Money.Texts.{trim}
use treasury_backend.Store.{
  >>=-eq-ok, find_idempotency, ok, or_throw-eq-ok, resource_hidden, scope_denied, start_idempotency,
  throw_if-eq-ok, validation,
}
use treasury_backend.Payment.{LockedPayment, PaymentDb, PaymentEffect}
use treasury_backend.Payment.Checks.{
  CommandContext, PaymentReverseDto, PaymentServices, authorization_context, consume_payment_proof,
  lock_payment, payment_reverse, reverse_payment, validate,
}
use treasury_backend.Payment.Reversal.{PaymentReversalResult, reversal_effects, reverse_guards}
use treasury_backend.Payment.Reverse.{
  check_reversal_evidence, reverse, reverse_fresh, reverse_response, reverse_scope, reverse_updates,
}

module _ (services : PaymentServices) (ctx : CommandContext) (body : PaymentReverseDto)
    (db : PaymentDb) where
  abbrev pub started_reverse : ℕ → PaymentDb
  started_reverse payment_id = record db {
    idempotency =
        start_idempotency (reverse_scope ctx.actor payment_id) ctx.key
          (services.command_digest (
            reverse_payment ctx.actor payment_id ctx.if_match (trim body.reason)
              body.business_date))
          db.idempotency;
  }

  pub record ReverseRun (payment_id expected_version : ℕ) (p : LockedPayment)
      (result : PaymentReversalResult) (db' : PaymentDb) : Type 0 where
    pub proved : PaymentDb
    pub moved : List PaymentEffect
    pub reversal_id : ℕ
    pub done : PaymentDb
    pub authorized :
        services.can_operate_payment ctx.actor (authorization_context p) payment_reverse ≡ true
    pub guarded : reverse_guards ctx.actor expected_version p ≡ ok tt
    pub by_proof : consume_payment_proof ctx (started_reverse payment_id) ≡ ok proved
    pub effects : reversal_effects body.business_date p proved ≡ ok moved
    pub updates :
        reverse_updates ctx payment_id
          (suc expected_version)
          p
          (trim body.reason)
          body.business_date
          moved
          proved
        ≡ ok (reversal_id, done)
    pub answered :
        reverse_response ctx (reverse_scope ctx.actor payment_id) payment_id reversal_id done
        ≡ ok (result, db')
    pub evident : check_reversal_evidence p moved ≡ ok tt

  fresh-ReverseRun :
      (digest payment_id expected_version : ℕ) (p : LockedPayment) (result : PaymentReversalResult)
      (db' : PaymentDb)
      → digest
        ≡ services.command_digest (
            reverse_payment ctx.actor payment_id ctx.if_match (trim body.reason) body.business_date)
      → services.can_operate_payment ctx.actor (authorization_context p) payment_reverse ≡ true
      → reverse_fresh ctx
          (reverse_scope ctx.actor payment_id)
          digest
          payment_id
          expected_version
          p
          (trim body.reason)
          body.business_date
          db
        ≡ ok (result, db')
      → ReverseRun payment_id expected_version p result db'
  unfolding reverse_fresh
  fresh-ReverseRun digest payment_id expected_version p result db' is_digest authorized e =
      let date = body.business_date in
      let (u, guarded, e1) =
        >>=-eq-ok {B = PaymentReversalResult × PaymentDb}
          (reverse_guards ctx.actor expected_version p) _ (rw is_digest at e) in
      let (proved, by_proof, e2) =
        >>=-eq-ok (consume_payment_proof ctx (started_reverse payment_id)) _ e1 in
      let (moved, effects, e3) = >>=-eq-ok (reversal_effects date p proved) _ e2 in
      let ((reversal_id, done), updates, e4) =
        >>=-eq-ok
          (reverse_updates ctx payment_id (suc expected_version) p (trim body.reason) date moved
            proved)
          _ e3 in
      let ((seen, final), answered, e5) =
        >>=-eq-ok
          (reverse_response ctx (reverse_scope ctx.actor payment_id) payment_id reversal_id done) _
          e4 in
      let (v, evident, e6) =
        >>=-eq-ok {B = PaymentReversalResult × PaymentDb} (check_reversal_evidence p moved) _ e5 in
      record {
        proved = proved;
        moved = moved;
        reversal_id = reversal_id;
        done = done;
        authorized = authorized;
        guarded = guarded;
        by_proof = by_proof;
        effects = effects;
        updates = updates;
        answered = answered ∙ e6;
        evident = evident;
      }

  -- Under a key that is new a `reverse` that returns is not a replay.
  pub reverse_ran :
      (result : PaymentReversalResult) (db' : PaymentDb) (payment_id expected_version : ℕ)
      → validate ctx ≡ ok (payment_id, expected_version)
      → find_idempotency (reverse_scope ctx.actor payment_id) ctx.key db.idempotency ≡ none
      → reverse services ctx body db ≡ ok (result, db')
      → (p : LockedPayment) × (lock_payment payment_id db ≡ some p)
        × (is_empty (trim body.reason) ≡ false)
        × ReverseRun payment_id expected_version p result db'
  unfolding reverse
  reverse_ran result db' payment_id expected_version request unused e =
      let (explained, e1) =
        throw_if-eq-ok (is_empty (trim body.reason)) validation _ (rw (reverse, request) at e) in
      let (p, is_locked, e2) = or_throw-eq-ok (lock_payment payment_id db) resource_hidden _ e1 in
      let (authorized, e3) =
        throw_if-eq-ok
          (not (services.can_operate_payment ctx.actor (authorization_context p) payment_reverse))
          scope_denied _ e2 in
      (
        p,
        is_locked,
        explained,
        fresh-ReverseRun _ payment_id expected_version p result db' refl (true_of_not _ authorized)
            (rw unused at e3),
      )
