-- ===== src/Payment/Execute/Solvency.antt =====
-- What `checkSources` of `execute` guarantees of the balances that it leaves.
use treasury_backend.Prelude.{
  All, Bool-cases, List, Option, [], any, ap, inl, inr, map, none, refl, some, some-injective,
  some_of, sym, true, ℕ, ◌∙◌, ◌∷◌, ◌≡◌,
}
use treasury_backend.Prelude.Int.{int_laws, negsuc, pos, ℤ, ◌+ℤ◌, ◌-ℤ◌, ◌≤ℤ◌}
use treasury_backend.Store.{>>=-eq-ok, Movement, find_idempotency, ok}
use treasury_backend.Payment.{LockedLine, LockedPayment, PaymentDb, PaymentDocument, PaymentView}
use treasury_backend.Payment.Checks.{
  CommandContext, PaymentServices, SeparationOverride, lock_payment, validate,
}
use treasury_backend.Payment.Totals.{
  SourceKey, Totals, check_source, check_sources, check_totals, same_key, source_of, source_totals,
  total_at,
}
use treasury_backend.Payment.Execute.{execute, execute_scope}
use treasury_backend.Payment.Execute.Run.{execute_ran, started_execute}
use treasury_backend.Payment.Execute.Frame.{OnlyProofs, execute_checks-Checked}
use treasury_backend.Payment.Execute.Movements.{
  Appends, Debits, execute-Appends, movements, posting_of,
}
use treasury_backend.Payment.Execute.Funds.{
  IsConsistent, add_totals-some, add_totals-taken_from, is_from, or_zero, same_key-eq, taken_from,
  taken_from-nonneg,
}
use treasury_backend.Payment.Execute.Balance.{balance_at, balance_at-Appends}
use treasury_backend.Payment.Execute.Enough.{below}
use treasury_backend.Payment.Execute.Evidence.{IsPayable, check_evidence-IsConsistent}

check_totals-at :
    (d : PaymentDocument) (k : SourceKey) (total : ℤ) (totals : Totals) (db : PaymentDb)
    → total_at k totals ≡ some total
    → check_totals d totals db ≡ ok tt
    → check_source d k total db ≡ ok tt
unfolding total_at check_totals
check_totals-at d k total [] db found e = cc
check_totals-at d k total ((h, t) ∷ rest) db found e =
    let (u, one, more) = >>=-eq-ok (check_source d h t db) _ e in
    elim (Bool-cases (same_key h k)) [
      | inl here ↦
          (let same = same_key-eq h k here in
            let is_total : t ≡ total = some-injective (rw (total_at, here) at found) in
            rw (sym same, sym is_total) one)
      | inr elsewhere ↦ check_totals-at d k total rest db (rw (total_at, elsewhere) at found) more
    ]

-- What a run has spent of a source.
pub record Spent (p : LockedPayment) (k : SourceKey) (db checked db' : PaymentDb) : Type 0 where
  pub spent : ℕ
  total : taken_from k p.lines ≡ pos spent
  pub asked : check_source p.document k (pos spent) checked ≡ ok tt
  pub left : balance_at k (movements db') ≡ balance_at k (movements db) -ℤ pos spent

natural : (v : ℤ) → pos 0 ≤ℤ v → (n : ℕ) × (v ≡ pos n)
natural (pos n) h = (n, refl)
natural (negsuc n) h = elim (below n h) [ ]

zero_add : (v : ℤ) → pos 0 +ℤ v ≡ v
zero_add v = omega int_laws

checked-Spent :
    (p : LockedPayment) (k : SourceKey) (db checked db' : PaymentDb) (new : List Movement)
    → All IsConsistent p.lines
    → any (λ (l : LockedLine). is_from k (source_of l.line)) p.lines ≡ true
    → check_sources p checked ≡ ok tt
    → Appends db db' new
    → Debits p.lines (map posting_of new)
    → Spent p k db checked db'
unfolding check_sources total_at
checked-Spent p k db checked db' new consistent uses e appended debited =
    let (totals, summed, e1) = >>=-eq-ok (source_totals p) _ e in
    let (t, found) =
      some_of (total_at k totals) (add_totals-some k [] totals p.lines summed ∙ uses) in
    let whole = add_totals-taken_from k [] totals p.lines consistent summed in
    let taken : t ≡ taken_from k p.lines = ap or_zero (sym found) ∙ whole ∙ zero_add _ in
    let (n, is_n) = natural (taken_from k p.lines) (taken_from-nonneg k p.lines consistent) in
    record {
      spent = n;
      total = is_n;
      asked =
          check_totals-at p.document k (pos n) totals checked (found ∙ ap some (taken ∙ is_n)) e1;
      left =
          balance_at-Appends k p.lines db db' new consistent appended debited
          ∙ ap (λ z. balance_at k (movements db) -ℤ z) is_n;
    }

module _ (services : PaymentServices) (ctx : CommandContext) (body : Option SeparationOverride)
    (db : PaymentDb) (response : PaymentView) (db' : PaymentDb) (payment_id expected_version : ℕ)
    (p : LockedPayment) (request : validate ctx ≡ ok (payment_id, expected_version))
    (unused : find_idempotency (execute_scope ctx.actor payment_id) ctx.key db.idempotency ≡ none)
    (found : lock_payment payment_id db ≡ some p) (payable : All IsPayable p.lines)
    (done : execute services ctx body db ≡ ok (response, db')) where
  pub execute-Spent :
      (k : SourceKey)
      → any (λ (l : LockedLine). is_from k (source_of l.line)) p.lines ≡ true
      → (checked : PaymentDb) × OnlyProofs (started_execute services ctx body db payment_id) checked
        × Spent p k db checked db'
  execute-Spent k uses =
      let run =
        execute_ran services ctx body db response db' payment_id expected_version request unused
          done in
      let same : run.locked ≡ p = some-injective (sym run.is_locked ∙ found) in
      let checks =
        execute_checks-Checked services ctx run.locked body _ run.ids run.checked run.checks in
      let (new, appended, debited) =
        execute-Appends services ctx body db response db' payment_id expected_version p request
          unused found done in
      (
        run.checked,
        checks.only_proofs,
        checked-Spent p k db run.checked db' new
            (check_evidence-IsConsistent p.lines payable (rw same at run.evident)) uses
            (rw same at checks.funded) appended debited,
      )
