-- ===== src/Payment/Totals.antt =====
-- `sourceTotals`, `reservations` and `checkSources` of src/payments/payment-execution.service.ts.
use treasury_backend.Prelude.{
  Bool, List, Option, [], false, if◌then◌else◌, leb, map, none, not, some, suc, ℕ, ◌%◌, ◌&&◌, ◌++◌,
  ◌/◌, ◌==◌, ◌∷◌,
}
use treasury_backend.Prelude.Int.{negsuc, pos, ℤ, ◌+ℤ◌, ◌==ℤ◌}
use treasury_backend.Money.{Text, amount, digits, dotted, pad_start, scale, strip_zeros}
use treasury_backend.Store.{
  Result, cashbox_date_closed, effect_mapping, err, ok, or_throw, source_invalid, throw_if, ◌>>=◌,
  ◌>>◌,
}
use treasury_backend.Payment.{
  FundingSource, LockedLine, LockedPayment, PaymentDb, PaymentDocument, PaymentLine,
  PaymentReservation, active, bank_account_source, cashbox_source,
}
use treasury_backend.Payment.Sources.{
  SourceState, account_payable, cashbox_payable, closed, decimal_or_throw, insufficient,
  is_reserving, same_source, source_ok, unavailable,
}

-- The key `${sourceType}:${sourceId}:${currency}`.
pub record SourceKey : Type 0 where
  pub source_type : FundingSource
  pub source_id : ℕ
  pub currency : ℕ

abbrev pub same_key : SourceKey → SourceKey → Bool
same_key a b =
    same_source a.source_type b.source_type
    && a.source_id == b.source_id
    && a.currency == b.currency

-- The Map, in the order of insertion.
abbrev pub Totals : Type 0
Totals = List (SourceKey × ℤ)

-- `totals.set(key, (totals.get(key) ?? 0n) + v)`
unfoldable pub add_total : SourceKey → ℤ → Totals → Totals
add_total key v [] = (key, pos 0 +ℤ v) ∷ []
add_total key v ((k, t) ∷ rest) =
    let more = add_total key v rest in if same_key k key then (k, t +ℤ v) ∷ rest else (k, t) ∷ more

-- `totals.get(key)`
unfoldable pub total_at : SourceKey → Totals → Option ℤ
total_at key [] = none
total_at key ((k, t) ∷ rest) =
    let more = total_at key rest in if same_key k key then some t else more

-- `totals.delete(key)`
unfoldable pub delete_total : SourceKey → Totals → Totals
delete_total key [] = []
delete_total key ((k, t) ∷ rest) =
    let more = delete_total key rest in if same_key k key then rest else (k, t) ∷ more

-- `line.cashboxId ?? line.bankAccountId`, with its type.
abbrev pub source_of : PaymentLine → Option SourceKey
source_of l = elim l.cashbox_id [
  | some c ↦ some (record { source_type = cashbox_source; source_id = c; currency = l.currency })
  | none ↦ elim l.bank_account_id [
    | some b ↦
        some (record { source_type = bank_account_source; source_id = b; currency = l.currency })
    | none ↦ none
  ]
]

unfoldable pub add_totals : Totals → List LockedLine → Result Totals
add_totals totals [] = ok totals
add_totals totals (l ∷ ls) = do
  key ← or_throw (source_of l.line) effect_mapping
  v ← decimal_or_throw l.line.amount
  add_totals (add_total key v totals) ls

-- `sourceTotals`
abbrev pub source_totals : LockedPayment → Result Totals
source_totals p = add_totals [] p.lines

abbrev pub key_of : PaymentReservation → SourceKey
key_of r = record { source_type = r.source_type; source_id = r.source_id; currency = r.currency }

abbrev pub is_overdue : ℕ → PaymentReservation → Bool
is_overdue now r = elim r.state [ active ↦ leb r.review_due_at now | _ ↦ false ]

-- The loop of `reservations`.
unfoldable pub match_reservations : ℕ → Totals → List PaymentReservation → Result (Unit {0})
match_reservations now totals [] = ok tt
match_reservations now totals (r ∷ rs) = do
  throw_if (not (is_reserving r.state)) source_invalid
  total ← or_throw (total_at (key_of r) totals) source_invalid
  v ← decimal_or_throw r.amount
  throw_if (not (total ==ℤ v)) source_invalid
  throw_if (is_overdue now r) source_invalid
  match_reservations now (delete_total (key_of r) totals) rs

unfoldable pub check_reservations : ℕ → LockedPayment → List PaymentReservation → Result (Unit {0})
check_reservations now p [] = ok tt
check_reservations now p (r ∷ rs) = do
  totals ← source_totals p
  match_reservations now totals (r ∷ rs)

-- `reservations`
unfoldable pub reservations : ℕ → LockedPayment → Result (List ℕ)
reservations now p = do check_reservations now p p.reservations; ok (map (λ r. r.id) p.reservations)

-- `amountString`. BigInt division and remainder go towards zero, so the remainder of a negative value
-- is printed with its sign, behind the zeros that fill it up.
abbrev pub amount_string : ℤ → Text
amount_string (pos n) = amount (pos n)
amount_string (negsuc n) =
    let whole = suc n / scale in
    let part = suc n % scale in
    let fraction =
      strip_zeros (pad_start 8 b'0' ((if part == 0 then [] else b'-' ∷ []) ++ digits part)) in
    (if whole == 0 then [] else b'-' ∷ []) ++ digits whole ++ dotted fraction

abbrev pub accept_cashbox : SourceState → Result (Unit {0})
accept_cashbox source_ok = ok tt
accept_cashbox closed = err cashbox_date_closed
accept_cashbox unavailable = err source_invalid
accept_cashbox insufficient = err source_invalid

unfoldable pub check_source : PaymentDocument → SourceKey → ℤ → PaymentDb → Result (Unit {0})
check_source d key total db = elim key.source_type [
  | cashbox_source ↦
      cashbox_payable key.source_id key.currency d.business_date d.id (amount_string total) db
      >>= accept_cashbox
  | bank_account_source ↦
      account_payable key.source_id key.currency d.business_date d.id (amount_string total) db
      >>= λ payable. throw_if (not payable) source_invalid
]

unfoldable pub check_totals : PaymentDocument → Totals → PaymentDb → Result (Unit {0})
check_totals d [] db = ok tt
check_totals d ((key, total) ∷ rest) db = do check_source d key total db; check_totals d rest db

-- `checkSources`
unfoldable pub check_sources : LockedPayment → PaymentDb → Result (Unit {0})
check_sources p db = do totals ← source_totals p; check_totals p.document totals db
