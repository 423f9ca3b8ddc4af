-- ===== src/Payment/Execute/Movements.antt =====
-- The movement facts that `execute` appends.
use mathlib.Core.List.{append-nil, append_assoc}
use treasury_backend.Prelude.{
  List, Option, [], ap, map, none, not, refl, some, some-injective, subst, sym, ℕ, ◌++◌, ◌==◌, ◌∙◌,
  ◌∷◌, ◌≡◌,
}
use treasury_backend.Money.{Text}
use treasury_backend.Money.Texts.{non_empty}
use treasury_backend.Store.{
  >>=-eq-ok, Direction, EndpointType, Movement, Scope, append_audit, append_movement, append_outbox,
  debit, effect_mapping, find_idempotency, idempotency_conflict, movement_row, ok, ok-injective,
  or_throw-eq-ok, throw_if-eq-ok,
}
use treasury_backend.Payment.{
  LockedLine, LockedPayment, PaymentDb, PaymentDocument, PaymentEffect, PaymentEffectType,
  PaymentLine, PaymentView, bank_instruction, bank_movement, cashbox_movement, issued_cheque,
}
use treasury_backend.Payment.Checks.{
  CommandContext, PaymentServices, SeparationOverride, lock_payment, validate,
}
use treasury_backend.Payment.Totals.{SourceKey, source_of}
use treasury_backend.Payment.Execute.{
  append_instruction, append_payment_effect, complete_execution, consume_reservations,
  effect_type_of, endpoint_of, execute, execute_line, execute_lines, execute_response,
  execute_scope, execute_updates, outgoing_movement, payment_uuid, payment_view,
  post_payment_movement,
}
use treasury_backend.Payment.Execute.Run.{execute_ran}
use treasury_backend.Payment.Execute.Frame.{execute_checks-Checked}

pub record Posting : Type 0 where
  pub endpoint_type : EndpointType
  pub endpoint_id : ℕ
  pub direction : Direction
  pub amount : Text
  pub currency : ℕ
  pub source_line_id : Option ℕ
  pub reversal_of : Option ℕ

abbrev pub posting_of : Movement → Posting
posting_of m = record {
  endpoint_type = m.endpoint_type;
  endpoint_id = m.endpoint_id;
  direction = m.direction;
  amount = m.amount;
  currency = m.currency;
  source_line_id = m.source_line_id;
  reversal_of = m.reversal_of_fact_id;
}

-- The debit of a line with the source `source` and the effect type `type`.
abbrev pub debit_of : PaymentLine → PaymentEffectType → ℕ → Posting
debit_of l type source = record {
  endpoint_type = endpoint_of type;
  endpoint_id = source;
  direction = debit;
  amount = l.amount;
  currency = l.currency;
  source_line_id = some l.id;
  reversal_of = none;
}

abbrev pub IsDebit : PaymentLine → Posting → Type 0
IsDebit l p =
    (key : SourceKey) × (type : PaymentEffectType) × (source_of l ≡ some key)
    × (effect_type_of l.method_category ≡ some type)
    × (p ≡ debit_of l type key.source_id)

-- One posting for each line, in their order.
abbrev pub Debits : List LockedLine → List Posting → Type 0
Debits [] [] = Unit
Debits [] (p ∷ ps) = ⊥
Debits (l ∷ ls) [] = ⊥
Debits (l ∷ ls) (p ∷ ps) = IsDebit l.line p × Debits ls ps

abbrev pub movements : PaymentDb → List Movement
movements db = db.foundation.movements

-- The facts that a state has beyond another one.
abbrev pub Appends : PaymentDb → PaymentDb → List Movement → Type 0
Appends db db' new = movements db' ≡ movements db ++ new

pub Appends-trans :
    (db db' db'' : PaymentDb) (new more : List Movement)
    → Appends db db' new
    → Appends db' db'' more
    → Appends db db'' (new ++ more)
Appends-trans db db' db'' new more one two =
    two ∙ ap (λ (l : List Movement). l ++ more) one ∙ append_assoc (movements db) new more

movements-append_payment_effect :
    (row : ℕ → PaymentEffect) (db : PaymentDb)
    → movements (append_payment_effect row db) ≡ movements db
unfolding append_payment_effect payment_uuid
movements-append_payment_effect row db = refl

movements-append_instruction :
    (d : PaymentDocument) (l : PaymentLine) (type : PaymentEffectType) (version : ℕ)
    (db db' : PaymentDb)
    → append_instruction d l type version db ≡ ok db'
    → movements db' ≡ movements db
unfolding append_instruction append_payment_effect payment_uuid
movements-append_instruction d l bank_movement version db db' e =
    let (account, given, e1) = or_throw-eq-ok l.bank_account_id effect_mapping _ e in
    let (reference, given', e2) =
      or_throw-eq-ok (non_empty l.beneficiary_account_reference) effect_mapping _ e1 in
    ap movements (sym (ok-injective e2))
movements-append_instruction d l cashbox_movement version db db' e =
    ap movements (sym (ok-injective e))
movements-append_instruction d l bank_instruction version db db' e =
    ap movements (sym (ok-injective e))
movements-append_instruction d l issued_cheque version db db' e =
    ap movements (sym (ok-injective e))

execute_line-Appends :
    (d : PaymentDocument) (version : ℕ) (l : PaymentLine) (db db' : PaymentDb)
    → execute_line d version l db ≡ ok db'
    → (m : Movement) × Appends db db' (m ∷ []) × IsDebit l (posting_of m)
unfolding execute_line post_payment_movement append_movement
execute_line-Appends d version l db db' e =
    let (key, has_source, e1) = or_throw-eq-ok (source_of l) effect_mapping _ e in
    let (type, has_type, e2) =
      or_throw-eq-ok (effect_type_of l.method_category) effect_mapping _ e1 in
    let m = movement_row db.foundation.next_uuid (outgoing_movement d l type key.source_id) in
    (
      m,
      movements-append_instruction d l type version _ db' e2 ∙ movements-append_payment_effect _ _,
      (key, type, has_source, has_type, refl),
    )

execute_lines-Appends :
    (d : PaymentDocument) (version : ℕ) (ls : List LockedLine) (db db' : PaymentDb)
    → execute_lines d version ls db ≡ ok db'
    → (new : List Movement) × Appends db db' new × Debits ls (map posting_of new)
unfolding execute_lines
execute_lines-Appends d version [] db db' e =
    ([], ap movements (sym (ok-injective e)) ∙ sym (append-nil (movements db)), tt)
execute_lines-Appends d version (l ∷ ls) db db' e =
    let (next, one, more) = >>=-eq-ok (execute_line d version l.line db) _ e in
    let (m, appended, debited) = execute_line-Appends d version l.line db next one in
    let (new, appended', debited') = execute_lines-Appends d version ls next db' more in
    (m ∷ new, Appends-trans db next db' (m ∷ []) new appended appended', (debited, debited'))

execute_updates-Appends :
    (ctx : CommandContext) (payment_id version : ℕ) (p : LockedPayment) (ids : List ℕ)
    (db db' : PaymentDb)
    → execute_updates ctx payment_id version p ids db ≡ ok db'
    → (new : List Movement) × Appends db db' new × Debits p.lines (map posting_of new)
unfolding execute_updates complete_execution consume_reservations append_audit append_outbox
execute_updates-Appends ctx payment_id version p ids db db' e =
    let (moved, one, e1) = >>=-eq-ok (execute_lines p.document version p.lines _) _ e in
    let (new, appended, debited) = execute_lines-Appends p.document version p.lines _ moved one in
    (new, ap movements (sym (ok-injective e1)) ∙ appended, debited)

movements-execute_response :
    (ctx : CommandContext) (scope : Scope) (payment_id version : ℕ) (db : PaymentDb)
    {response : PaymentView} {db' : PaymentDb}
    → execute_response ctx scope payment_id version db ≡ ok (response, db')
    → movements db' ≡ movements db
unfolding execute_response
movements-execute_response ctx scope payment_id version db e =
    let (seen, is_seen, e1) =
      or_throw-eq-ok (payment_view payment_id db) idempotency_conflict _ e in
    let (current, e2) =
      throw_if-eq-ok (not (seen.document.version == version)) idempotency_conflict _ e1 in
    ap (λ (p : PaymentView × PaymentDb). movements p.1) (sym (ok-injective e2))

-- An `execute` under a new key that returns has only appended movement facts: one for each line of
-- the payment, in their order, a debit of the amount and the currency of the line that names the
-- line, at the source of the line, of the endpoint type that the category of its method has.
pub execute-Appends :
    (services : PaymentServices) (ctx : CommandContext) (body : Option SeparationOverride)
    (db : PaymentDb) (response : PaymentView) (db' : PaymentDb) (payment_id expected_version : ℕ)
    (p : LockedPayment)
    → validate ctx ≡ ok (payment_id, expected_version)
    → find_idempotency (execute_scope ctx.actor payment_id) ctx.key db.idempotency ≡ none
    → lock_payment payment_id db ≡ some p
    → execute services ctx body db ≡ ok (response, db')
    → (new : List Movement) × Appends db db' new × Debits p.lines (map posting_of new)
execute-Appends services ctx body db response db' payment_id expected_version p request unused found
      done =
    let run =
      execute_ran services ctx body db response db' payment_id expected_version request unused
        done in
    let same : run.locked ≡ p = some-injective (sym run.is_locked ∙ found) in
    let (proofs, framed) =
      (execute_checks-Checked services ctx run.locked body _ run.ids run.checked
        run.checks).only_proofs in
    let (new, appended, debited) =
      execute_updates-Appends ctx payment_id _ run.locked run.ids run.checked run.done
        run.updates in
    (
      new,
      movements-execute_response ctx _ payment_id _ run.done run.answered
          ∙ appended
          ∙ ap (λ (d : PaymentDb). movements d ++ new) framed,
      subst (λ (q : LockedPayment). Debits q.lines (map posting_of new)) same debited,
    )
