-- ===== src/Payment/Sources.antt =====
-- Whether a cashbox or a bank account can pay or receive: `payable` and `receivable` of
-- src/cashbox-and-custody/payment-cashbox-effects.service.ts,
-- src/cashbox-and-custody/receipt-cashbox-effects.service.ts,
-- src/banking/payment-banking-effects.service.ts and src/banking/receipt-banking-effects.service.ts.
-- A date is a number of days and an instant a number of milliseconds.
use treasury_backend.Prelude.{
  Bool, List, Option, [], any, false, filter, find, if◌then◌else◌, leb, length, ltb, none, not,
  some, true, ℕ, ◌&&◌, ◌*◌, ◌==◌, ◌||◌, ◌∷◌,
}
use treasury_backend.Prelude.Int.{ltb_ℤ, pos, ℤ, ◌+ℤ◌, ◌-ℤ◌}
use treasury_backend.Money.{Text, amount, decimal, units}
use treasury_backend.Store.{
  EndpointType, Movement, Result, bank_account_endpoint, cashbox_endpoint, credit, debit, ok,
  or_default, or_throw, syntax_error, user_endpoint, ◌>>=◌,
}
use treasury_backend.Payment.{
  Cashbox, CashboxDay, CurrencyControl, FundingSource, PayingAccount, PaymentDb, PaymentReservation,
  ReservationState, active, bank_account_source, cashbox_source, day_open, review_required,
}

pub data SourceState : Type 0 where
  source_ok unavailable closed insufficient : SourceState

unfoldable pub decimal_or_throw : Text → Result ℤ
decimal_or_throw value = or_throw (decimal value) syntax_error

-- `rows.reduce((sum, row) => sum + decimal(f(row)), sum)`
unfoldable pub sum_decimals {ℓ} : {A : Type ℓ} → (A → Text) → ℤ → List A → Result ℤ
sum_decimals f sum [] = ok sum
sum_decimals f sum (x ∷ xs) = do v ← decimal_or_throw (f x); sum_decimals f (sum +ℤ v) xs

abbrev pub midnight : ℕ → ℕ
midnight date = date * 86400000

-- The number that a numeric column holds; there is one in every row.
abbrev pub value_of : Text → ℤ
value_of value = or_default (units value) (pos 0)

abbrev pub same_endpoint : EndpointType → EndpointType → Bool
same_endpoint cashbox_endpoint cashbox_endpoint = true
same_endpoint bank_account_endpoint bank_account_endpoint = true
same_endpoint user_endpoint user_endpoint = true
same_endpoint _ _ = false

abbrev pub is_at : EndpointType → ℕ → ℕ → Movement → Bool
is_at type id currency m =
    same_endpoint m.endpoint_type type && m.endpoint_id == id && m.currency == currency

-- CASE WHEN direction = 'CREDIT' THEN amount ELSE -amount END
abbrev pub signed : Movement → ℤ
signed m = elim m.direction [ credit ↦ value_of m.amount | debit ↦ pos 0 -ℤ value_of m.amount ]

-- COALESCE(SUM(…), 0) over the movement facts of an endpoint
unfoldable pub balance : EndpointType → ℕ → ℕ → List Movement → ℤ
balance type id currency [] = pos 0
balance type id currency (m ∷ ms) =
    let rest = balance type id currency ms in
    if is_at type id currency m then signed m +ℤ rest else rest

abbrev pub is_reserving : ReservationState → Bool
is_reserving active = true
is_reserving review_required = true
is_reserving _ = false

abbrev pub same_source : FundingSource → FundingSource → Bool
same_source cashbox_source cashbox_source = true
same_source bank_account_source bank_account_source = true
same_source _ _ = false

-- The reservations of the other payments on a source.
unfoldable pub reserved : FundingSource → ℕ → ℕ → ℕ → PaymentDb → Result ℤ
reserved type id currency payment_id db =
    sum_decimals (λ (r : PaymentReservation). r.amount) (pos 0)
      (filter
        (λ r.
          same_source r.source_type type
          && r.source_id == id
          && r.currency == currency
          && is_reserving r.state
          && not (r.payment_document_id == payment_id))
        db.reservations)

-- Amounts printed by `::text` are read again by `decimal`, which pads the fraction: the zeros at the
-- end that the database prints and `amount` does not make no difference.
unfoldable pub position : EndpointType → ℕ → ℕ → PaymentDb → Result ℤ
position type id currency db =
    decimal_or_throw (amount (balance type id currency db.foundation.movements))

abbrev later : Option CashboxDay → CashboxDay → Option CashboxDay
later none d = some d
later (some e) d = if ltb e.close_cycle d.close_cycle then some d else some e

abbrev pub latest : Option CashboxDay → List CashboxDay → Option CashboxDay
latest best [] = best
latest best (d ∷ ds) = latest (later best d) ds

abbrev pub is_open : Option CashboxDay → Bool
is_open none = true
is_open (some d) = elim d.state [ day_open ↦ true | _ ↦ false ]

abbrev pub day_of : ℕ → ℕ → PaymentDb → Option CashboxDay
day_of cashbox date db =
    latest none (filter (λ d. d.cashbox_id == cashbox && d.business_date == date) db.days)

abbrev pub not_before : Option ℕ → ℕ → Bool
not_before none at = false
not_before (some to) at = leb to at

abbrev pub in_service : Cashbox → ℕ → Bool
in_service c date =
    c.is_active
    && not (ltb (midnight date) c.active_from)
    && not (not_before c.active_to (midnight date))

abbrev pub exceeds : ℤ → Option Text → Result Bool
exceeds total none = ok false
exceeds total (some ceiling) = do limit ← decimal_or_throw ceiling; ok (ltb_ℤ limit total)

-- `row.minimumPosition ?? (row.allowNegative ? null : '0')`
abbrev pub floor_of : CurrencyControl → Option Text
floor_of c = elim c.minimum_position [
  | some m ↦ some m
  | none ↦ if c.allow_negative then none else some (b'0' ∷ [])
]

unfoldable pub above_floor : ℤ → Option Text → Result Bool
above_floor rest none = ok true
above_floor rest (some floor) = do least ← decimal_or_throw floor; ok (not (ltb_ℤ rest least))

-- The last part of `payable` for a cashbox.
unfoldable pub cashbox_funds : ℕ → ℕ → ℕ → Text → CurrencyControl → PaymentDb → Result SourceState
cashbox_funds cashbox currency payment_id value c db = do
  total ← decimal_or_throw value
  too_much ← exceeds total c.transaction_ceiling
  if too_much
      then ok insufficient
      else (reserved cashbox_source cashbox currency payment_id db >>= λ held.
          position cashbox_endpoint cashbox currency db >>= λ funds.
          above_floor (funds -ℤ held -ℤ total) (floor_of c) >>= λ enough.
          ok (if enough then source_ok else insufficient))

unfoldable pub cashbox_payable : ℕ → ℕ → ℕ → ℕ → Text → PaymentDb → Result SourceState
cashbox_payable cashbox currency date payment_id value db =
    elim (find (λ c. c.id == cashbox) db.cashboxes) [
      | none ↦ ok unavailable
      | some c ↦ elim (find (λ k. k.cashbox_id == cashbox && k.currency == currency) db.controls) [
        | none ↦ ok unavailable
        | some control ↦
            if not (in_service c date && c.can_pay)
            then ok unavailable
            else if not (is_open (day_of cashbox date db))
            then ok closed
            else cashbox_funds cashbox currency payment_id value control db
      ]
    ]

abbrev pub is_past : ℕ → Option ℕ → Bool
is_past date none = false
is_past date (some closing) = ltb closing date

abbrev pub pays_in : ℕ → ℕ → PayingAccount → Bool
pays_in id currency a = a.id == id && a.currency == currency && a.is_active && a.can_pay

unfoldable pub account_payable : ℕ → ℕ → ℕ → ℕ → Text → PaymentDb → Result Bool
account_payable id currency date payment_id value db =
    elim (find (pays_in id currency) db.accounts) [
      | none ↦ ok false
      | some a ↦
          if ltb date a.opening_date || is_past date a.closing_date
          then ok false
          else (decimal_or_throw value >>= λ total.
              exceeds total a.withdrawal_ceiling >>= λ too_much.
              if too_much
              then ok false
              else (reserved bank_account_source id currency payment_id db >>= λ held.
                  position bank_account_endpoint id currency db >>= λ funds.
                  ok (not (ltb_ℤ (funds -ℤ held) total))))
    ]

unfoldable pub cashbox_receivable : ℕ → ℕ → ℕ → PaymentDb → SourceState
cashbox_receivable cashbox currency date db = elim (find (λ c. c.id == cashbox) db.cashboxes) [
  | none ↦ unavailable
  | some c ↦
      if not (
        any (λ k. k.cashbox_id == cashbox && k.currency == currency) db.controls
        && in_service c date
        && c.can_receive)
      then unavailable
      else if is_open (day_of cashbox date db)
      then source_ok
      else closed
]

unfoldable pub account_receivable : ℕ → ℕ → PaymentDb → Bool
account_receivable id currency db =
    length (
      filter (λ a. a.id == id && a.currency == currency && a.is_active && a.can_receive)
        db.accounts)
    == 1
