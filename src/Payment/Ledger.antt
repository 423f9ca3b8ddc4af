-- ===== src/Payment/Ledger.antt =====
-- The ledger that the movement facts stand for: a balance for each source, without the facts. What
-- `execute` and `reverse` of src/payments/payment-execution.service.ts do to it.
pub mod Refund
use treasury_backend.Prelude.{All, List, Option, none, some, some-injective, sym, ℕ, ◌∙◌, ◌≡◌}
use treasury_backend.Prelude.Int.{ℤ, ◌-ℤ◌}
use treasury_backend.Store.{find_idempotency, ok}
use treasury_backend.Payment.{LockedLine, LockedPayment, PaymentDb, PaymentView}
use treasury_backend.Payment.Checks.{
  CommandContext, PaymentServices, SeparationOverride, lock_payment, validate,
}
use treasury_backend.Payment.Totals.{SourceKey}
use treasury_backend.Payment.Execute.{execute, execute_scope}
use treasury_backend.Payment.Execute.Run.{execute_ran}
use treasury_backend.Payment.Execute.Movements.{execute-Appends, movements}
use treasury_backend.Payment.Execute.Funds.{taken_from}
use treasury_backend.Payment.Execute.Balance.{balance_at, balance_at-Appends}
use treasury_backend.Payment.Execute.Evidence.{IsPayable, check_evidence-IsConsistent}

abbrev pub Ledger : Type 0
Ledger = SourceKey → ℤ

abbrev pub ledger_of : PaymentDb → Ledger
ledger_of db k = balance_at k (movements db)

-- The promise of an execution: the amounts of the lines leave their sources, and nothing else moves.
abbrev pub spend : List LockedLine → Ledger → Ledger
spend ls ledger k = ledger k -ℤ taken_from k ls

-- `execute` implements `spend`: an `execute` under a new key that returns changes the ledger by the
-- lines of the payment, if their amounts read as amounts that are not negative and no line has a
-- cashbox and an account of the same identifier.
pub ledger_of-execute :
    (services : PaymentServices) (ctx : CommandContext) (body : Option SeparationOverride)
    (db : PaymentDb) (response : PaymentView) (db' : PaymentDb) (payment_id expected_version : ℕ)
    (p : LockedPayment)
    → validate ctx ≡ ok (payment_id, expected_version)
    → find_idempotency (execute_scope ctx.actor payment_id) ctx.key db.idempotency ≡ none
    → lock_payment payment_id db ≡ some p
    → All IsPayable p.lines
    → execute services ctx body db ≡ ok (response, db')
    → ledger_of db' ≡ spend p.lines (ledger_of db)
ledger_of-execute services ctx body db response db' payment_id expected_version p request unused
      found payable done =
    let run =
      execute_ran services ctx body db response db' payment_id expected_version request unused
        done in
    let same : run.locked ≡ p = some-injective (sym run.is_locked ∙ found) in
    let consistent = check_evidence-IsConsistent p.lines payable (rw same at run.evident) in
    let (new, appended, debited) =
      execute-Appends services ctx body db response db' payment_id expected_version p request unused
        found done in
    λ i k. balance_at-Appends k p.lines db db' new consistent appended debited i
