-- ===== src/Payment/Execute/Replay.antt =====
-- What a repeated `execute` answers.
use treasury_backend.Prelude.{
  List, Option, [], ap, none, not, refl, some, sym, true, ℕ, ◌==◌, ◌∙◌, ◌∷◌, ◌≡◌,
}
use treasury_backend.Money.Texts.{non_empty}
use treasury_backend.Store.{
  >>=-eq-ok, Scope, effect_mapping, find-finish-start, find_idempotency, finish_idempotency,
  idempotency_conflict, ok, ok-injective, or_throw-eq-ok, replay_response-finished, throw_if-eq-ok,
}
use treasury_backend.Payment.{
  LockedLine, LockedPayment, PaymentDb, PaymentDocument, PaymentEffectType, PaymentLine,
  PaymentView, bank_instruction, bank_movement, cashbox_movement, issued_cheque,
}
use treasury_backend.Payment.Checks.{
  CommandContext, PaymentServices, SeparationOverride, authorization_context, lock_payment,
  payment_execute, validate,
}
use treasury_backend.Payment.Totals.{source_of}
use treasury_backend.Payment.Execute.{
  append_instruction, append_payment_effect, complete_execution, consume_reservations,
  effect_type_of, execute, execute_line, execute_lines, execute_response, execute_scope,
  execute_updates, payment_uuid, payment_view, post_payment_movement,
}
use treasury_backend.Payment.Execute.Run.{ExecuteRun, execute_digest, execute_ran}
use treasury_backend.Payment.Execute.Frame.{execute_checks-Checked}

idempotency-append_instruction :
    (d : PaymentDocument) (l : PaymentLine) (type : PaymentEffectType) (version : ℕ)
    (db db' : PaymentDb)
    → append_instruction d l type version db ≡ ok db'
    → db'.idempotency ≡ db.idempotency
unfolding append_instruction append_payment_effect payment_uuid
idempotency-append_instruction d l bank_movement version db db' e =
    let (account, given, e1) = or_throw-eq-ok l.bank_account_id effect_mapping _ e in
    let (reference, given', e2) =
      or_throw-eq-ok (non_empty l.beneficiary_account_reference) effect_mapping _ e1 in
    ap (λ (b : PaymentDb). b.idempotency) (sym (ok-injective e2))
idempotency-append_instruction d l cashbox_movement version db db' e =
    ap (λ (b : PaymentDb). b.idempotency) (sym (ok-injective e))
idempotency-append_instruction d l bank_instruction version db db' e =
    ap (λ (b : PaymentDb). b.idempotency) (sym (ok-injective e))
idempotency-append_instruction d l issued_cheque version db db' e =
    ap (λ (b : PaymentDb). b.idempotency) (sym (ok-injective e))

idempotency-execute_line :
    (d : PaymentDocument) (version : ℕ) (l : PaymentLine) (db db' : PaymentDb)
    → execute_line d version l db ≡ ok db'
    → db'.idempotency ≡ db.idempotency
unfolding execute_line post_payment_movement append_payment_effect payment_uuid
idempotency-execute_line d version l db db' e =
    let (key, has_source, e1) = or_throw-eq-ok (source_of l) effect_mapping _ e in
    let (type, has_type, e2) =
      or_throw-eq-ok (effect_type_of l.method_category) effect_mapping _ e1 in
    idempotency-append_instruction d l type version _ db' e2

idempotency-execute_lines :
    (d : PaymentDocument) (version : ℕ) (ls : List LockedLine) (db db' : PaymentDb)
    → execute_lines d version ls db ≡ ok db'
    → db'.idempotency ≡ db.idempotency
unfolding execute_lines
idempotency-execute_lines d version [] db db' e =
    ap (λ (b : PaymentDb). b.idempotency) (sym (ok-injective e))
idempotency-execute_lines d version (l ∷ ls) db db' e =
    let (next, one, more) = >>=-eq-ok (execute_line d version l.line db) _ e in
    idempotency-execute_lines d version ls next db' more
    ∙ idempotency-execute_line d version l.line db next one

idempotency-execute_updates :
    (ctx : CommandContext) (payment_id version : ℕ) (p : LockedPayment) (ids : List ℕ)
    (db db' : PaymentDb)
    → execute_updates ctx payment_id version p ids db ≡ ok db'
    → db'.idempotency ≡ db.idempotency
unfolding execute_updates complete_execution consume_reservations
idempotency-execute_updates ctx payment_id version p ids db db' e =
    let (moved, one, e1) = >>=-eq-ok (execute_lines p.document version p.lines _) _ e in
    ap (λ (b : PaymentDb). b.idempotency) (sym (ok-injective e1))
    ∙ idempotency-execute_lines p.document version p.lines _ moved one

idempotency-execute_response :
    (ctx : CommandContext) (scope : Scope) (payment_id version : ℕ) (db : PaymentDb)
    {response : PaymentView} {db' : PaymentDb}
    → execute_response ctx scope payment_id version db ≡ ok (response, db')
    → db'.idempotency ≡ finish_idempotency scope ctx.key response db.idempotency
unfolding execute_response
idempotency-execute_response ctx scope payment_id version db {response} {db'} e =
    let (seen, is_seen, e1) =
      or_throw-eq-ok (payment_view payment_id db) idempotency_conflict _ e in
    let (current, e2) =
      throw_if-eq-ok (not (seen.document.version == version)) idempotency_conflict _ e1 in
    let made = sym (ok-injective e2) in
    ap (λ (p : PaymentView × PaymentDb). p.1.idempotency) made
    ∙ ap (λ (p : PaymentView × PaymentDb). finish_idempotency scope ctx.key p.0 db.idempotency)
        (sym made)

module _ (services : PaymentServices) (ctx : CommandContext)
    (body : Option SeparationOverride) where
  executed-find :
      (db : PaymentDb) (payment_id expected_version : ℕ) (response : PaymentView) (db' : PaymentDb)
      → ExecuteRun services ctx body db payment_id expected_version response db'
      → find_idempotency (execute_scope ctx.actor payment_id) ctx.key db'.idempotency
        ≡ some (record {
          scope = execute_scope ctx.actor payment_id;
          key = ctx.key;
          request_digest = execute_digest services ctx body db payment_id;
          response = some response;
        })
  executed-find db payment_id expected_version response db' run =
      let scope = execute_scope ctx.actor payment_id in
      let (proofs, framed) =
        (execute_checks-Checked services ctx run.locked body _ run.ids run.checked
          run.checks).only_proofs in
      let kept =
        idempotency-execute_updates ctx payment_id _ run.locked run.ids run.checked run.done
          run.updates
        ∙ ap (λ (d : PaymentDb). d.idempotency) framed in
      ap (find_idempotency scope ctx.key) (
        idempotency-execute_response ctx scope payment_id _ run.done run.answered
        ∙ ap (finish_idempotency scope ctx.key response) kept)
      ∙ find-finish-start scope ctx.key (execute_digest services ctx body db payment_id) response
          db.idempotency

  execute-replayed :
      (db : PaymentDb) (p : LockedPayment) (payment_id expected_version : ℕ)
      (response : PaymentView)
      → validate ctx ≡ ok (payment_id, expected_version)
      → lock_payment payment_id db ≡ some p
      → services.can_operate_payment ctx.actor (authorization_context p) payment_execute ≡ true
      → find_idempotency (execute_scope ctx.actor payment_id) ctx.key db.idempotency
        ≡ some (record {
          scope = execute_scope ctx.actor payment_id;
          key = ctx.key;
          request_digest = execute_digest services ctx body db payment_id;
          response = some response;
        })
      → execute services ctx body db ≡ ok (response, db)
  unfolding execute
  execute-replayed db p payment_id expected_version response request found authorized recorded =
      rw (request, found, authorized, recorded, replay_response-finished) refl

  -- After an `execute` under a new key has returned a response, the same request returns that
  -- response again and changes nothing, on every later state that has kept the record of the key,
  -- as long as the payment is found and the user is permitted to execute it. The money moves once.
  pub execute-execute :
      (db : PaymentDb) (response : PaymentView) (db' later : PaymentDb) (p : LockedPayment)
      (payment_id expected_version : ℕ)
      → validate ctx ≡ ok (payment_id, expected_version)
      → find_idempotency (execute_scope ctx.actor payment_id) ctx.key db.idempotency ≡ none
      → execute services ctx body db ≡ ok (response, db')
      → find_idempotency (execute_scope ctx.actor payment_id) ctx.key later.idempotency
        ≡ find_idempotency (execute_scope ctx.actor payment_id) ctx.key db'.idempotency
      → lock_payment payment_id later ≡ some p
      → services.can_operate_payment ctx.actor (authorization_context p) payment_execute ≡ true
      → execute services ctx body later ≡ ok (response, later)
  execute-execute db response db' later p payment_id expected_version request unused done kept found
        authorized =
      let run =
        execute_ran services ctx body db response db' payment_id expected_version request unused
          done in
      execute-replayed later p payment_id expected_version response request found authorized
        (kept ∙ executed-find db payment_id expected_version response db' run)
