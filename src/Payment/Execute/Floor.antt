-- ===== src/Payment/Execute/Floor.antt =====
-- The limits on the balances of the sources of a payment.
use treasury_backend.Prelude.{
  All, Option, any, ap, find, none, not, refl, some, sym, true, true_of_not, ℕ, ◌&&◌, ◌==◌, ◌∙◌,
  ◌≡◌,
}
use treasury_backend.Prelude.Int.{int_laws, ltb_ℤ, pos, ℤ, ◌-ℤ◌, ◌≤ℤ◌}
use treasury_backend.Money.{Text, amount}
use treasury_backend.Store.{
  >>=-eq-ok, bank_account_endpoint, cashbox_endpoint, find_idempotency, ok, source_invalid,
  throw_if-false,
}
use treasury_backend.Payment.{
  CurrencyControl, FundingSource, LockedLine, LockedPayment, PaymentDb, PaymentView,
  bank_account_source, cashbox_source,
}
use treasury_backend.Payment.Sources.{
  account_payable, balance, cashbox_payable, decimal_or_throw, floor_of, reserved,
}
use treasury_backend.Payment.Checks.{
  CommandContext, PaymentServices, SeparationOverride, lock_payment, validate,
}
use treasury_backend.Payment.Totals.{SourceKey, accept_cashbox, check_source, source_of}
use treasury_backend.Payment.Execute.{execute, execute_scope}
use treasury_backend.Payment.Execute.Run.{started_execute}
use treasury_backend.Payment.Execute.Frame.{OnlyProofs}
use treasury_backend.Payment.Execute.Movements.{movements}
use treasury_backend.Payment.Execute.Funds.{is_from}
use treasury_backend.Payment.Execute.Enough.{
  above_floor-ok, accept_cashbox-ok, account_funds-Enough, cashbox_payable-Enough, not_below,
  remains,
}
use treasury_backend.Payment.Execute.Solvency.{execute-Spent}
use treasury_backend.Payment.Execute.Evidence.{IsPayable}

abbrev cashbox_key : ℕ → ℕ → SourceKey
cashbox_key id currency = record {
  source_type = cashbox_source;
  source_id = id;
  currency = currency;
}

abbrev account_key : ℕ → ℕ → SourceKey
account_key id currency = record {
  source_type = bank_account_source;
  source_id = id;
  currency = currency;
}

reserved-OnlyProofs :
    (services : PaymentServices) (ctx : CommandContext) (body : Option SeparationOverride)
    (db checked : PaymentDb) (payment : ℕ) (type : FundingSource) (id currency payment_id : ℕ)
    → OnlyProofs (started_execute services ctx body db payment) checked
    → reserved type id currency payment_id checked ≡ reserved type id currency payment_id db
unfolding reserved
reserved-OnlyProofs services ctx body db checked payment type id currency payment_id (_, framed) =
    rw framed refl

floor_step :
    (least before after held spent : ℤ)
    → least ≤ℤ before -ℤ held -ℤ spent
    → after ≡ before -ℤ spent
    → least ≤ℤ after -ℤ held
floor_step least before after held spent above left = rw left (omega (int_laws, above))

-- An `execute` under a new key that returns and that pays from a cashbox keeps its minimum: where the
-- amounts of the lines read as amounts that are not negative, no line has a cashbox and an account of
-- the same identifier, and the balance of the cashbox in the currency was not negative, the
-- balance afterwards, less what other payments hold reserved of it, is at least the minimum position
-- of the cashbox in that currency (0 if there is none and a negative balance is not allowed).
pub execute-minimum :
    (services : PaymentServices) (ctx : CommandContext) (body : Option SeparationOverride)
    (db : PaymentDb) (response : PaymentView) (db' : PaymentDb) (payment_id expected_version : ℕ)
    (p : LockedPayment) (cashbox currency : ℕ) (control : CurrencyControl) (floor : Text)
    (least held : ℤ)
    → validate ctx ≡ ok (payment_id, expected_version)
    → find_idempotency (execute_scope ctx.actor payment_id) ctx.key db.idempotency ≡ none
    → lock_payment payment_id db ≡ some p
    → All IsPayable p.lines
    → any (λ (l : LockedLine). is_from (cashbox_key cashbox currency) (source_of l.line)) p.lines
      ≡ true
    → find (λ (k : CurrencyControl). k.cashbox_id == cashbox && k.currency == currency) db.controls
      ≡ some control
    → floor_of control ≡ some floor
    → decimal_or_throw floor ≡ ok least
    → reserved cashbox_source cashbox currency p.document.id db ≡ ok held
    → pos 0 ≤ℤ balance cashbox_endpoint cashbox currency (movements db)
    → execute services ctx body db ≡ ok (response, db')
    → least ≤ℤ balance cashbox_endpoint cashbox currency (movements db') -ℤ held
unfolding check_source
execute-minimum services ctx body db response db' payment_id expected_version p cashbox currency
      control floor least held request unused found payable uses is_control has_floor reads is_held
      not_negative done =
    let (checked, framed, spent) =
      execute-Spent services ctx body db response db' payment_id expected_version p request unused
        found payable done (cashbox_key cashbox currency) uses in
    let (state, can, accepts) =
      >>=-eq-ok
        (cashbox_payable cashbox currency p.document.business_date p.document.id
          (amount (pos spent.spent)) checked)
        accept_cashbox spent.asked in
    let (n, above) =
      cashbox_payable-Enough cashbox currency p.document.business_date p.document.id
        (amount (pos spent.spent)) control checked
        (ap
            (λ (d : PaymentDb).
              find (λ (k : CurrencyControl). k.cashbox_id == cashbox && k.currency == currency)
                d.controls)
            framed.1
          ∙ is_control)
        (can ∙ ap ok (accept_cashbox-ok state accepts)) in
    let (total, kept, funds) =
      remains cashbox_source cashbox_endpoint cashbox currency p.document.id spent.spent checked
        held n
        (reserved-OnlyProofs services ctx body db checked payment_id cashbox_source cashbox currency
            p.document.id framed
          ∙ is_held)
        (rw framed.1 not_negative) in
    floor_step least (balance cashbox_endpoint cashbox currency (movements db)) _ held
      (pos spent.spent)
      (rw (sym (rw framed.1 at funds), sym total, sym kept)
        (above_floor-ok _ floor least reads (rw has_floor at above)))
      spent.left

cover_step :
    (before after held spent funds kept total : ℤ)
    → not (ltb_ℤ (funds -ℤ kept) total) ≡ true
    → (total ≡ spent) × (kept ≡ held) × (funds ≡ before)
    → after ≡ before -ℤ spent
    → pos 0 ≤ℤ after -ℤ held
cover_step before after held spent funds kept total covered (t, k, f) left =
    let enough = rw (t, k, f) at (not_below (funds -ℤ kept) total covered) in
    rw left (omega (int_laws, enough))

-- An `execute` under a new key that returns and that pays from a bank account does not overdraw it:
-- where the amounts of the lines read as amounts that are not negative, no line has a cashbox and an
-- account of the same identifier, and the balance of the account in the currency was not
-- negative, the balance afterwards covers what other payments hold reserved of it.
pub execute-covered :
    (services : PaymentServices) (ctx : CommandContext) (body : Option SeparationOverride)
    (db : PaymentDb) (response : PaymentView) (db' : PaymentDb) (payment_id expected_version : ℕ)
    (p : LockedPayment) (account currency : ℕ) (held : ℤ)
    → validate ctx ≡ ok (payment_id, expected_version)
    → find_idempotency (execute_scope ctx.actor payment_id) ctx.key db.idempotency ≡ none
    → lock_payment payment_id db ≡ some p
    → All IsPayable p.lines
    → any (λ (l : LockedLine). is_from (account_key account currency) (source_of l.line)) p.lines
      ≡ true
    → reserved bank_account_source account currency p.document.id db ≡ ok held
    → pos 0 ≤ℤ balance bank_account_endpoint account currency (movements db)
    → execute services ctx body db ≡ ok (response, db')
    → pos 0 ≤ℤ balance bank_account_endpoint account currency (movements db') -ℤ held
unfolding check_source
execute-covered services ctx body db response db' payment_id expected_version p account currency
      held request unused found payable uses is_held not_negative done =
    let (checked, framed, spent) =
      execute-Spent services ctx body db response db' payment_id expected_version p request unused
        found payable done (account_key account currency) uses in
    let (payable, can, accepts) =
      >>=-eq-ok
        (account_payable account currency p.document.business_date p.document.id
          (amount (pos spent.spent)) checked)
        _ spent.asked in
    let (n, covered) =
      account_funds-Enough account currency p.document.business_date p.document.id
        (amount (pos spent.spent)) checked
        (can ∙ ap ok (true_of_not payable (throw_if-false _ source_invalid accepts))) in
    let (total, kept, funds) =
      remains bank_account_source bank_account_endpoint account currency p.document.id spent.spent
        checked held n
        (reserved-OnlyProofs services ctx body db checked payment_id bank_account_source account
            currency p.document.id framed
          ∙ is_held)
        (rw framed.1 not_negative) in
    cover_step (balance bank_account_endpoint account currency (movements db)) _ held
      (pos spent.spent) n.funds n.held n.total covered (total, kept, rw framed.1 at funds)
      spent.left
