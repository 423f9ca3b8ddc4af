-- ===== src/Payment/Execute/Balance.antt =====
-- What the movements of a payment leave of the balance of a source.
use treasury_backend.Prelude.{
  All, Bool-cases, List, Option-cases, [], ap, inl, inr, map, refl, some, some-injective, sym, ℕ,
  ◌++◌, ◌∙◌, ◌∷◌, ◌≡◌,
}
use treasury_backend.Prelude.Int.{int_laws, pos, ℤ, ◌+ℤ◌, ◌-ℤ◌}
use treasury_backend.Store.{EndpointType, Movement}
use treasury_backend.Payment.{
  FundingSource, LockedLine, PaymentDb, PaymentEffectType, PaymentLine, bank_account_source,
  cashbox_source,
}
use treasury_backend.Payment.Sources.{balance, is_at, same_endpoint, same_source, signed, value_of}
use treasury_backend.Payment.Totals.{SourceKey, same_key, source_of}
use treasury_backend.Payment.Execute.{endpoint_of}
use treasury_backend.Payment.Execute.Movements.{
  Appends, Debits, Posting, debit_of, movements, posting_of,
}
use treasury_backend.Payment.Execute.Funds.{IsConsistent, endpoint_of_source, sum_step, taken_from}

pub balance-append :
    (type : EndpointType) (id currency : ℕ) (xs ys : List Movement)
    → balance type id currency (xs ++ ys)
      ≡ balance type id currency xs +ℤ balance type id currency ys
unfolding balance
balance-append type id currency [] ys = omega int_laws
balance-append type id currency (m ∷ xs) ys = elim (Bool-cases (is_at type id currency m)) [
  | inl here ↦ rw (here, balance-append type id currency xs ys) (sym (sum_step _ _ _))
  | inr elsewhere ↦ rw (elsewhere, balance-append type id currency xs ys) refl
]

source_of-currency :
    (l : PaymentLine) (key : SourceKey) → source_of l ≡ some key → key.currency ≡ l.currency
source_of-currency l key e = elim (Option-cases l.cashbox_id) [
  | inr (c, given) ↦ ap (λ (k : SourceKey). k.currency) (sym (some-injective (rw given at e)))
  | inl missing ↦ elim (Option-cases l.bank_account_id) [
    | inr (b, given) ↦
        ap (λ (k : SourceKey). k.currency) (sym (some-injective (rw (missing, given) at e)))
    | inl missing' ↦ cc (rw (missing, missing') at e)
  ]
]

pub same_endpoint-source :
    (a b : FundingSource)
    → same_endpoint (endpoint_of_source a) (endpoint_of_source b) ≡ same_source a b
same_endpoint-source cashbox_source cashbox_source = refl
same_endpoint-source cashbox_source bank_account_source = refl
same_endpoint-source bank_account_source cashbox_source = refl
same_endpoint-source bank_account_source bank_account_source = refl

abbrev pub balance_at : SourceKey → List Movement → ℤ
balance_at k ms = balance (endpoint_of_source k.source_type) k.source_id k.currency ms

debit-is_at :
    (k key : SourceKey) (l : LockedLine) (m : Movement) (type : PaymentEffectType)
    → source_of l.line ≡ some key
    → endpoint_of type ≡ endpoint_of_source key.source_type
    → posting_of m ≡ debit_of l.line type key.source_id
    → is_at (endpoint_of_source k.source_type) k.source_id k.currency m ≡ same_key key k
debit-is_at k key l m type has_source matches posted =
    rw
      (
        ap (λ (p : Posting). p.endpoint_type) posted,
        ap (λ (p : Posting). p.endpoint_id) posted,
        ap (λ (p : Posting). p.currency) posted,
        matches,
        same_endpoint-source,
        source_of-currency l.line key has_source,
      )
      refl

signed-debit :
    (m : Movement) (l : PaymentLine) (type : PaymentEffectType) (source : ℕ)
    → posting_of m ≡ debit_of l type source
    → signed m ≡ pos 0 -ℤ value_of l.amount
signed-debit m l type source posted =
    rw (ap (λ (p : Posting). p.direction) posted, ap (λ (p : Posting). p.amount) posted) refl

debit_step : (v t rest : ℤ) → rest ≡ pos 0 -ℤ t → (pos 0 -ℤ v) +ℤ rest ≡ pos 0 -ℤ (v +ℤ t)
debit_step v t rest e = rw e (omega int_laws)

skip_step : (t : ℤ) → pos 0 -ℤ t ≡ pos 0 -ℤ (pos 0 +ℤ t)
skip_step t = omega int_laws

-- The movements of a payment take the amounts of its lines from each source.
pub balance_at-Debits :
    (k : SourceKey) (ls : List LockedLine) (new : List Movement)
    → All IsConsistent ls
    → Debits ls (map posting_of new)
    → balance_at k new ≡ pos 0 -ℤ taken_from k ls
unfolding balance
balance_at-Debits k [] [] consistent debited = omega int_laws
balance_at-Debits k [] (m ∷ ms) consistent debited = elim debited [ ]
balance_at-Debits k (l ∷ ls) [] consistent debited = elim debited [ ]
balance_at-Debits k (l ∷ ls) (m ∷ ms) ((is_amount, matches), consistent)
      ((key, type, has_source, has_type, posted), debited) =
    let rest = balance_at-Debits k ls ms consistent debited in
    let at = debit-is_at k key l m type has_source (matches key type has_source has_type) posted in
    elim (Bool-cases (same_key key k)) [
      | inl here ↦
          rw (at, has_source, here, signed-debit m l.line type key.source_id posted)
            (debit_step _ _ _ rest)
      | inr elsewhere ↦ rw (at, has_source, elsewhere) (rest ∙ skip_step _)
    ]

minus : (a b : ℤ) → a +ℤ (pos 0 -ℤ b) ≡ a -ℤ b
minus a b = omega int_laws

pub balance_at-Appends :
    (k : SourceKey) (ls : List LockedLine) (db db' : PaymentDb) (new : List Movement)
    → All IsConsistent ls
    → Appends db db' new
    → Debits ls (map posting_of new)
    → balance_at k (movements db') ≡ balance_at k (movements db) -ℤ taken_from k ls
balance_at-Appends k ls db db' new consistent appended debited =
    ap (balance_at k) appended
    ∙ balance-append _ _ _ (movements db) new
    ∙ ap (λ z. balance_at k (movements db) +ℤ z) (balance_at-Debits k ls new consistent debited)
    ∙ minus _ _
