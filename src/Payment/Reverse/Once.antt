-- ===== src/Payment/Reverse/Once.antt =====
-- A payment is reversed once.
use treasury_backend.Prelude.{
  Bool, Bool-cases, List, Option-cases, [], ap, find, inl, inr, is_some, refl, some, some-injective,
  sym, true, update_where, ℕ, ◌++◌, ◌==◌, ◌∙◌, ◌∷◌, ◌≡◌,
}
use treasury_backend.Money.{Text}
use treasury_backend.Store.{
  >>=-eq-ok, Scope, append_movement, check_violation, idempotency_conflict, ok, ok-injective,
  or_throw-eq-ok, reversal_blocked, type_error,
}
use treasury_backend.Payment.{
  LockedLine, LockedPayment, NumberCounter, PaymentDb, PaymentDocument, PaymentEffect,
  execution_reversed, reversed,
}
use treasury_backend.Payment.Checks.{CommandContext, document_by_id}
use treasury_backend.Payment.Totals.{source_of}
use treasury_backend.Payment.Execute.{
  append_payment_effect, payment_uuid, payment_view, post_payment_movement,
}
use treasury_backend.Payment.Reversal.{
  PaymentReversalResult, complete_reversal, create_lines, create_reversal, line_id_of,
  next_payment_number, reversal_document,
}
use treasury_backend.Payment.Reverse.{
  reverse_effect, reverse_payment_effects, reverse_response, reverse_updates,
}

abbrev has_id : ℕ → PaymentDocument → Bool
has_id id d = d.id == id

-- The update of the document that is found, before rows that are added at the end.
find-update_where :
    (id : ℕ) (f : PaymentDocument → PaymentDocument) (d : PaymentDocument)
    (rows added : List PaymentDocument)
    → ((r : PaymentDocument) → has_id id (f r) ≡ has_id id r)
    → find (has_id id) rows ≡ some d
    → find (has_id id) (update_where (has_id id) f (rows ++ added)) ≡ some (f d)
find-update_where id f d [] added kept e = cc
find-update_where id f d (r ∷ rows) added kept e = elim (Bool-cases (r.id == id)) [
  | inl here ↦ rw (here, kept r ∙ here) (ap (λ x. some (f x)) (some-injective (rw here at e)))
  | inr other ↦ rw (other, other) (find-update_where id f d rows added kept (rw other at e))
]

documents-create_lines :
    (ctx : CommandContext) (payment_id : ℕ) (ls : List LockedLine) (db : PaymentDb)
    → (create_lines ctx payment_id ls db).1.documents ≡ db.documents
unfolding create_lines payment_uuid
documents-create_lines ctx payment_id [] db = refl
documents-create_lines ctx payment_id (l ∷ ls) db = documents-create_lines ctx payment_id ls _

documents-next_payment_number :
    (date : ℕ) (db : PaymentDb) → (next_payment_number date db).1.documents ≡ db.documents
unfolding next_payment_number
documents-next_payment_number date db =
    elim (Option-cases (find (λ (c : NumberCounter). c.business_date == date) db.counters)) [
      | inl missing ↦ rw (next_payment_number, missing) refl
      | inr (c, found) ↦ rw (next_payment_number, found) refl
    ]

documents-reverse_effect :
    (reversal_id : ℕ) (ids : List (ℕ × ℕ)) (date : ℕ) (p : LockedPayment) (e : PaymentEffect)
    (db db' : PaymentDb)
    → reverse_effect reversal_id ids date p e db ≡ ok db'
    → db'.documents ≡ db.documents
unfolding reverse_effect post_payment_movement append_movement append_payment_effect payment_uuid
documents-reverse_effect reversal_id ids date p e db db' eq =
    let (line_id, has_line, e1) =
      or_throw-eq-ok (line_id_of e.payment_line_id ids) reversal_blocked _ eq in
    let (fact, has_fact, e2) = or_throw-eq-ok e.movement_fact_id reversal_blocked _ e1 in
    let (l, found, e3) =
      or_throw-eq-ok (find (λ (k : LockedLine). k.line.id == e.payment_line_id) p.lines) type_error
        _ e2 in
    let (key, has_source, e4) = or_throw-eq-ok (source_of l.line) check_violation _ e3 in
    ap (λ (d : PaymentDb). d.documents) (sym (ok-injective e4))

documents-reverse_payment_effects :
    (reversal_id : ℕ) (ids : List (ℕ × ℕ)) (date : ℕ) (p : LockedPayment) (es : List PaymentEffect)
    (db db' : PaymentDb)
    → reverse_payment_effects reversal_id ids date p es db ≡ ok db'
    → db'.documents ≡ db.documents
unfolding reverse_payment_effects
documents-reverse_payment_effects reversal_id ids date p [] db db' eq =
    ap (λ (d : PaymentDb). d.documents) (sym (ok-injective eq))
documents-reverse_payment_effects reversal_id ids date p (e ∷ es) db db' eq =
    let (next, one, more) = >>=-eq-ok (reverse_effect reversal_id ids date p e db) _ eq in
    documents-reverse_payment_effects reversal_id ids date p es next db' more
    ∙ documents-reverse_effect reversal_id ids date p e db next one

abbrev pub IsReversed : ℕ → PaymentDb → Type 0
IsReversed payment_id db =
    (d : PaymentDocument) × (document_by_id payment_id db.documents ≡ some d)
    × (is_some d.reversed_payment_id ≡ true)
    × (d.state ≡ reversed)

pub reverse_updates-IsReversed :
    (ctx : CommandContext) (payment_id version : ℕ) (p : LockedPayment) (reason : Text) (date : ℕ)
    (moved : List PaymentEffect) (db : PaymentDb) (reversal_id : ℕ) (db' : PaymentDb)
    (d : PaymentDocument)
    → document_by_id payment_id db.documents ≡ some d
    → reverse_updates ctx payment_id version p reason date moved db ≡ ok (reversal_id, db')
    → IsReversed payment_id db'
unfolding reverse_updates create_reversal complete_reversal payment_uuid
reverse_updates-IsReversed ctx payment_id version p reason date moved db reversal_id db' d found e =
    let (number, numbered) = next_payment_number date db in
    let ((id, ids), created) = create_reversal ctx date number reason p numbered in
    let start = complete_reversal payment_id id version created in
    let (done, one, e1) = >>=-eq-ok (reverse_payment_effects id ids date p moved start) _ e in
    let close : PaymentDocument → PaymentDocument = λ r. record r {
      reversed_payment_id = some id;
      state = reversed;
      execution_state = execution_reversed;
      version = version;
    } in
    (
      close d,
      ap (λ (q : ℕ × PaymentDb). document_by_id payment_id q.1.documents) (sym (ok-injective e1))
          ∙ ap (document_by_id payment_id)
              (documents-reverse_payment_effects id ids date p moved start done one)
          ∙ ap (λ l. document_by_id payment_id (update_where (has_id payment_id) close l))
              (documents-create_lines ctx id p.lines _
                ∙ ap (λ l. l ++ reversal_document ctx id date number reason p.document ∷ [])
                    (documents-next_payment_number date db))
          ∙ find-update_where payment_id close d db.documents _ (λ r. refl) found,
      refl,
      refl,
    )

pub documents-reverse_response :
    (ctx : CommandContext) (scope : Scope) (payment_id reversal_id : ℕ) (db : PaymentDb)
    {result : PaymentReversalResult} {db' : PaymentDb}
    → reverse_response ctx scope payment_id reversal_id db ≡ ok (result, db')
    → db'.documents ≡ db.documents
unfolding reverse_response
documents-reverse_response ctx scope payment_id reversal_id db e =
    let (original, seen, e1) =
      or_throw-eq-ok (payment_view payment_id db) idempotency_conflict _ e in
    let (reversal, seen', e2) =
      or_throw-eq-ok (payment_view reversal_id db) idempotency_conflict _ e1 in
    ap (λ (p : PaymentReversalResult × PaymentDb). p.1.documents) (sym (ok-injective e2))
