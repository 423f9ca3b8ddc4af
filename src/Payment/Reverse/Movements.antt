-- ===== src/Payment/Reverse/Movements.antt =====
-- The movement facts that `reverse` appends.
use mathlib.Core.List.{append-nil}
use treasury_backend.Prelude.{
  List, Option-cases, [], ap, filter, find, inl, inr, map, none, refl, some, some-injective, subst,
  sym, ℕ, ◌++◌, ◌==◌, ◌∙◌, ◌∷◌, ◌≡◌,
}
use treasury_backend.Money.{Text}
use treasury_backend.Money.Texts.{trim}
use treasury_backend.Store.{
  >>=-eq-ok, Movement, Scope, append_audit, append_movement, append_outbox, check_violation, credit,
  find_idempotency, idempotency_conflict, movement_row, ok, ok-injective, or_throw-eq-ok,
  reversal_blocked, type_error,
}
use treasury_backend.Payment.{LockedLine, LockedPayment, NumberCounter, PaymentDb, PaymentEffect}
use treasury_backend.Payment.Checks.{
  CommandContext, PaymentReverseDto, PaymentServices, lock_payment, validate,
}
use treasury_backend.Payment.Totals.{SourceKey, source_of}
use treasury_backend.Payment.Execute.{
  append_payment_effect, payment_uuid, payment_view, post_payment_movement,
}
use treasury_backend.Payment.Reversal.{
  PaymentReversalResult, complete_reversal, create_lines, create_reversal, effects_of, is_movement,
  line_id_of, next_payment_number, reversal_endpoint, reversing_movement,
}
use treasury_backend.Payment.Reverse.{
  reverse, reverse_effect, reverse_payment_effects, reverse_response, reverse_scope,
  reverse_updates,
}
use treasury_backend.Payment.Reverse.Run.{reverse_ran}
use treasury_backend.Payment.Execute.Movements.{
  Appends, Appends-trans, Posting, movements, posting_of,
}
use treasury_backend.Payment.Execute.Frame.{consume_payment_proof-OnlyProofs}
use treasury_backend.Payment.Reverse.Guards.{reversal_effects-HasMoved}

-- The credit that undoes an effect at the source of its line.
abbrev pub IsCredit : LockedPayment → PaymentEffect → Posting → Type 0
IsCredit p e m =
    (l : LockedLine) × (key : SourceKey) × (fact : ℕ) × (find
        (λ (k : LockedLine). k.line.id == e.payment_line_id) p.lines
      ≡ some l)
    × (source_of l.line ≡ some key)
    × (e.movement_fact_id ≡ some fact)
    × (m.endpoint_type ≡ reversal_endpoint e.effect_type)
    × (m.endpoint_id ≡ key.source_id)
    × (m.direction ≡ credit)
    × (m.amount ≡ e.amount)
    × (m.currency ≡ e.currency)
    × (m.reversal_of ≡ some fact)

-- One posting for each effect, in their order.
abbrev pub Credits : LockedPayment → List PaymentEffect → List Posting → Type 0
Credits p [] [] = Unit
Credits p [] (m ∷ ms) = ⊥
Credits p (e ∷ es) [] = ⊥
Credits p (e ∷ es) (m ∷ ms) = IsCredit p e m × Credits p es ms

reverse_effect-Appends :
    (reversal_id : ℕ) (ids : List (ℕ × ℕ)) (date : ℕ) (p : LockedPayment) (e : PaymentEffect)
    (db db' : PaymentDb)
    → reverse_effect reversal_id ids date p e db ≡ ok db'
    → (m : Movement) × Appends db db' (m ∷ []) × IsCredit p e (posting_of m)
unfolding reverse_effect post_payment_movement append_movement append_payment_effect payment_uuid
reverse_effect-Appends reversal_id ids date p e db db' eq =
    let (line_id, has_line, e1) =
      or_throw-eq-ok (line_id_of e.payment_line_id ids) reversal_blocked _ eq in
    let (fact, has_fact, e2) = or_throw-eq-ok e.movement_fact_id reversal_blocked _ e1 in
    let (l, found, e3) =
      or_throw-eq-ok (find (λ (k : LockedLine). k.line.id == e.payment_line_id) p.lines) type_error
        _ e2 in
    let (key, has_source, e4) = or_throw-eq-ok (source_of l.line) check_violation _ e3 in
    (
      movement_row db.foundation.next_uuid
          (reversing_movement reversal_id line_id date e key.source_id fact),
      ap movements (sym (ok-injective e4)),
      (l, key, fact, found, has_source, has_fact, refl, refl, refl, refl, refl, refl),
    )

reverse_payment_effects-Appends :
    (reversal_id : ℕ) (ids : List (ℕ × ℕ)) (date : ℕ) (p : LockedPayment) (es : List PaymentEffect)
    (db db' : PaymentDb)
    → reverse_payment_effects reversal_id ids date p es db ≡ ok db'
    → (new : List Movement) × Appends db db' new × Credits p es (map posting_of new)
unfolding reverse_payment_effects
reverse_payment_effects-Appends reversal_id ids date p [] db db' eq =
    ([], ap movements (sym (ok-injective eq)) ∙ sym (append-nil (movements db)), tt)
reverse_payment_effects-Appends reversal_id ids date p (e ∷ es) db db' eq =
    let (next, one, more) = >>=-eq-ok (reverse_effect reversal_id ids date p e db) _ eq in
    let (m, appended, credited) = reverse_effect-Appends reversal_id ids date p e db next one in
    let (new, appended', credited') =
      reverse_payment_effects-Appends reversal_id ids date p es next db' more in
    (m ∷ new, Appends-trans db next db' (m ∷ []) new appended appended', (credited, credited'))

movements-next_payment_number :
    (date : ℕ) (db : PaymentDb) → movements (next_payment_number date db).1 ≡ movements db
unfolding next_payment_number
movements-next_payment_number date db =
    elim (Option-cases (find (λ (c : NumberCounter). c.business_date == date) db.counters)) [
      | inl missing ↦ rw (movements, missing) refl
      | inr (c, found) ↦ rw (movements, found) refl
    ]

movements-create_lines :
    (ctx : CommandContext) (payment_id : ℕ) (ls : List LockedLine) (db : PaymentDb)
    → movements (create_lines ctx payment_id ls db).1 ≡ movements db
unfolding create_lines payment_uuid
movements-create_lines ctx payment_id [] db = refl
movements-create_lines ctx payment_id (l ∷ ls) db = movements-create_lines ctx payment_id ls _

reverse_updates-Appends :
    (ctx : CommandContext) (payment_id version : ℕ) (p : LockedPayment) (reason : Text) (date : ℕ)
    (moved : List PaymentEffect) (db : PaymentDb) (reversal_id : ℕ) (db' : PaymentDb)
    → reverse_updates ctx payment_id version p reason date moved db ≡ ok (reversal_id, db')
    → (new : List Movement) × Appends db db' new × Credits p moved (map posting_of new)
unfolding reverse_updates create_reversal complete_reversal append_audit append_outbox payment_uuid
reverse_updates-Appends ctx payment_id version p reason date moved db reversal_id db' e =
    let (number, numbered) = next_payment_number date db in
    let ((id, ids), created) = create_reversal ctx date number reason p numbered in
    let start = complete_reversal payment_id id version created in
    let (done, one, e1) = >>=-eq-ok (reverse_payment_effects id ids date p moved start) _ e in
    let (new, appended, credited) =
      reverse_payment_effects-Appends id ids date p moved start done one in
    (
      new,
      ap (λ (q : ℕ × PaymentDb). movements q.1) (sym (ok-injective e1))
          ∙ appended
          ∙ ap (λ (l : List Movement). l ++ new)
              (movements-create_lines ctx id p.lines _ ∙ movements-next_payment_number date db),
      credited,
    )

movements-reverse_response :
    (ctx : CommandContext) (scope : Scope) (payment_id reversal_id : ℕ) (db : PaymentDb)
    {result : PaymentReversalResult} {db' : PaymentDb}
    → reverse_response ctx scope payment_id reversal_id db ≡ ok (result, db')
    → movements db' ≡ movements db
unfolding reverse_response
movements-reverse_response ctx scope payment_id reversal_id db e =
    let (original, seen, e1) =
      or_throw-eq-ok (payment_view payment_id db) idempotency_conflict _ e in
    let (reversal, seen', e2) =
      or_throw-eq-ok (payment_view reversal_id db) idempotency_conflict _ e1 in
    ap (λ (p : PaymentReversalResult × PaymentDb). movements p.1) (sym (ok-injective e2))

-- A `reverse` under a new key that returns has only appended movement facts: one for each effect of
-- the payment that moved money, in their order, a credit of the same amount and currency, at the
-- source of the line of the effect, that names the fact which it undoes.
pub reverse-Credits :
    (services : PaymentServices) (ctx : CommandContext) (body : PaymentReverseDto) (db : PaymentDb)
    (result : PaymentReversalResult) (db' : PaymentDb) (payment_id expected_version : ℕ)
    (p : LockedPayment)
    → validate ctx ≡ ok (payment_id, expected_version)
    → find_idempotency (reverse_scope ctx.actor payment_id) ctx.key db.idempotency ≡ none
    → lock_payment payment_id db ≡ some p
    → reverse services ctx body db ≡ ok (result, db')
    → (new : List Movement) × Appends db db' new
      × Credits p (filter is_movement (effects_of p.document.id db)) (map posting_of new)
reverse-Credits services ctx body db result db' payment_id expected_version p request unused found
      done =
    let (q, is_locked, explained, run) =
      reverse_ran services ctx body db result db' payment_id expected_version request unused done in
    let same : q ≡ p = some-injective (sym is_locked ∙ found) in
    let (proofs, framed) = consume_payment_proof-OnlyProofs ctx _ run.proved run.by_proof in
    let moved =
      (reversal_effects-HasMoved body.business_date q run.moved run.proved
        run.effects).are_movements in
    let (new, appended, credited) =
      reverse_updates-Appends ctx payment_id _ q (trim body.reason) body.business_date run.moved
        run.proved run.reversal_id run.done run.updates in
    (
      new,
      movements-reverse_response ctx _ payment_id run.reversal_id run.done run.answered
          ∙ appended
          ∙ ap (λ (d : PaymentDb). movements d ++ new) framed,
      subst (λ (es : List PaymentEffect). Credits p es (map posting_of new))
          (moved
            ∙ ap (λ (d : PaymentDb). filter is_movement (effects_of q.document.id d)) framed
            ∙ ap (λ (r : LockedPayment). filter is_movement (effects_of r.document.id db)) same)
          (subst (λ (r : LockedPayment). Credits r run.moved (map posting_of new)) same credited),
    )
