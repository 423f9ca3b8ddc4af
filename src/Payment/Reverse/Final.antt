-- ===== src/Payment/Reverse/Final.antt =====
-- Nothing moves the money of a payment after its reversal.
use treasury_backend.Prelude.{
  Option, ap, map-eq-some, none, refl, some, some-injective, sym, ℕ, ◌∙◌, ◌≡◌, ◌≢◌,
}
use treasury_backend.Money.Texts.{trim}
use treasury_backend.Store.{find_idempotency, ok}
use treasury_backend.Payment.{LockedPayment, PaymentDb, PaymentDocument, PaymentView}
use treasury_backend.Payment.Checks.{
  CommandContext, PaymentReverseDto, PaymentServices, SeparationOverride, document_by_id,
  lock_payment, locked_rows, validate,
}
use treasury_backend.Payment.Execute.{execute, execute_scope}
use treasury_backend.Payment.Reversal.{PaymentReversalResult}
use treasury_backend.Payment.Reverse.{reverse, reverse_scope}
use treasury_backend.Payment.Reverse.Run.{reverse_ran}
use treasury_backend.Payment.Execute.Frame.{
  consume_payment_proof-OnlyProofs, execute_checks-Checked,
}
use treasury_backend.Payment.Reverse.Guards.{reverse_guards-IsReversiblePayment}
use treasury_backend.Payment.Reverse.Once.{
  IsReversed, documents-reverse_response, reverse_updates-IsReversed,
}
use treasury_backend.Payment.Execute.Run.{execute_ran, started_execute}
use treasury_backend.Payment.Execute.Guards.{locked-IsExecutable}

lock_payment-document :
    (payment_id : ℕ) (db : PaymentDb) (p : LockedPayment)
    → lock_payment payment_id db ≡ some p
    → document_by_id payment_id db.documents ≡ some p.document
unfolding lock_payment
lock_payment-document payment_id db p e =
    let (d, found, made) =
      map-eq-some (locked_rows db) (document_by_id payment_id db.documents) e in
    found ∙ ap (λ (q : LockedPayment). some q.document) made

reverse-IsReversed :
    (services : PaymentServices) (ctx : CommandContext) (body : PaymentReverseDto) (db : PaymentDb)
    (result : PaymentReversalResult) (db' : PaymentDb) (payment_id expected_version : ℕ)
    → validate ctx ≡ ok (payment_id, expected_version)
    → find_idempotency (reverse_scope ctx.actor payment_id) ctx.key db.idempotency ≡ none
    → reverse services ctx body db ≡ ok (result, db')
    → IsReversed payment_id db'
reverse-IsReversed services ctx body db result db' payment_id expected_version request unused done =
    let (p, is_locked, explained, run) =
      reverse_ran services ctx body db result db' payment_id expected_version request unused done in
    let (proofs, framed) = consume_payment_proof-OnlyProofs ctx _ run.proved run.by_proof in
    let (d, found, marked, state) =
      reverse_updates-IsReversed ctx payment_id _ p (trim body.reason) body.business_date run.moved
        run.proved run.reversal_id run.done p.document
        (ap (λ (b : PaymentDb). document_by_id payment_id b.documents) framed
          ∙ lock_payment-document payment_id db p is_locked)
        run.updates in
    (
      d,
      ap (document_by_id payment_id)
            (documents-reverse_response ctx _ payment_id run.reversal_id run.done run.answered)
          ∙ found,
      marked,
      state,
    )

-- After a `reverse` under a new key has returned, no `reverse` and no `execute` of the payment under
-- another new key returns, whoever asks, on any later state that has kept the document of the
-- payment: a payment is reversed once, and a reversed payment is not executed again.
pub reverse-once :
    (services : PaymentServices) (ctx : CommandContext) (body : PaymentReverseDto) (db : PaymentDb)
    (result : PaymentReversalResult) (db' : PaymentDb) (payment_id expected_version : ℕ)
    (later : PaymentDb) (ctx' : CommandContext) (version : ℕ)
    → validate ctx ≡ ok (payment_id, expected_version)
    → find_idempotency (reverse_scope ctx.actor payment_id) ctx.key db.idempotency ≡ none
    → reverse services ctx body db ≡ ok (result, db')
    → document_by_id payment_id later.documents ≡ document_by_id payment_id db'.documents
    → validate ctx' ≡ ok (payment_id, version)
    → ((body' : PaymentReverseDto) (answer : PaymentReversalResult × PaymentDb)
        → find_idempotency (reverse_scope ctx'.actor payment_id) ctx'.key later.idempotency ≡ none
        → reverse services ctx' body' later ≢ ok answer)
      × ((body' : Option SeparationOverride) (answer : PaymentView × PaymentDb)
          → find_idempotency (execute_scope ctx'.actor payment_id) ctx'.key later.idempotency ≡ none
          → execute services ctx' body' later ≢ ok answer)
reverse-once services ctx body db result db' payment_id expected_version later ctx' version request
      unused done kept request' =
    let (d, found, marked, state) =
      reverse-IsReversed services ctx body db result db' payment_id expected_version request unused
        done in
    (
      λ body' (answer, final) unused' again.
          let (p, is_locked, explained, run) =
            reverse_ran services ctx' body' later answer final payment_id version request' unused'
              again in
          let same : d ≡ p.document =
            some-injective
              (sym found ∙ sym kept ∙ lock_payment-document payment_id later p is_locked) in
          let guards =
            reverse_guards-IsReversiblePayment ctx'.actor payment_id version p later is_locked
              run.guarded in
          cc (guards.not_reversed, same, marked),
      λ body' (answer, final) unused' again.
          let run =
            execute_ran services ctx' body' later answer final payment_id version request' unused'
              again in
          let same : d ≡ run.locked.document = some-injective (
            sym found
            ∙ sym kept
            ∙ lock_payment-document payment_id later run.locked run.is_locked) in
          let guards =
            locked-IsExecutable services ctx' body' payment_id version run.locked run.ids later
              (started_execute services ctx' body' later payment_id) run.checked run.is_locked refl
              run.guarded
              (execute_checks-Checked services ctx' run.locked body' _ run.ids run.checked
                run.checks) in
          cc (guards.was_approved, ap (λ (q : PaymentDocument). q.state) same, state),
    )
