-- ===== src/Payment/Execute/Funds.antt =====
-- What the source totals of a payment say of the balance that its movements leave.
use treasury_backend.Prelude.{
  ==_iff, ==_refl, All, Bool, Bool-cases, List, Option, [], and-true, any, ap, arith, false,
  if◌then◌else◌, inl, inr, is_some, none, or_assoc, or_false, refl, some, sym, true, ℕ, ◌&&◌, ◌==◌,
  ◌||◌, ◌∙◌, ◌∷◌, ◌≡◌,
}
use treasury_backend.Prelude.Int.{int_laws, pos, ℤ, ◌+ℤ◌, ◌≤ℤ◌}
use treasury_backend.Money.{Text, decimal}
use treasury_backend.Store.{
  >>=-eq-ok, EndpointType, bank_account_endpoint, cashbox_endpoint, effect_mapping, ok,
  ok-injective, or_throw, or_throw-eq-ok, syntax_error,
}
use treasury_backend.Payment.{
  FundingSource, LockedLine, PaymentEffectType, bank_account_source, cashbox_source,
}
use treasury_backend.Payment.Sources.{decimal_or_throw, same_source, value_of}
use treasury_backend.Payment.Totals.{
  SourceKey, Totals, add_total, add_totals, same_key, source_of, total_at,
}
use treasury_backend.Payment.Execute.{effect_type_of, endpoint_of}

-- The amount reads as the numeric column that it is: it is not negative.
abbrev pub IsAmount : Text → Type 0
IsAmount t = (n : ℕ) × (decimal t ≡ some (pos n)) × (value_of t ≡ pos n)

abbrev pub endpoint_of_source : FundingSource → EndpointType
endpoint_of_source cashbox_source = cashbox_endpoint
endpoint_of_source bank_account_source = bank_account_endpoint

-- The category of the method pays from the kind of source that the line names.
abbrev pub IsConsistent : LockedLine → Type 0
IsConsistent l =
    IsAmount l.line.amount
    × ((key : SourceKey) (type : PaymentEffectType)
        → source_of l.line ≡ some key
        → effect_type_of l.line.method_category ≡ some type
        → endpoint_of type ≡ endpoint_of_source key.source_type)

abbrev pub or_zero : Option ℤ → ℤ
or_zero none = pos 0
or_zero (some v) = v

abbrev pub is_from : SourceKey → Option SourceKey → Bool
is_from key none = false
is_from key (some k) = same_key k key

-- The amounts of the lines on a source.
abbrev pub taken_from : SourceKey → List LockedLine → ℤ
taken_from key [] = pos 0
taken_from key (l ∷ ls) =
    (if is_from key (source_of l.line) then value_of l.line.amount else pos 0) +ℤ taken_from key ls

same_source-eq : (a b : FundingSource) → same_source a b ≡ true → a ≡ b
same_source-eq cashbox_source cashbox_source e = refl
same_source-eq cashbox_source bank_account_source e = cc
same_source-eq bank_account_source cashbox_source e = cc
same_source-eq bank_account_source bank_account_source e = refl

same_source_refl : (a : FundingSource) → same_source a a ≡ true
same_source_refl cashbox_source = refl
same_source_refl bank_account_source = refl

pub same_key-eq : (a b : SourceKey) → same_key a b ≡ true → a ≡ b
same_key-eq a b e =
    let (first, currencies) =
      and-true (same_source a.source_type b.source_type && a.source_id == b.source_id) _ e in
    let (types, ids) = and-true (same_source a.source_type b.source_type) _ first in
    let same_type = same_source-eq a.source_type b.source_type types in
    let same_id : a.source_id ≡ b.source_id = (==_iff _ _).0 ids in
    let same_currency : a.currency ≡ b.currency = (==_iff _ _).0 currencies in
    λ i. record { source_type = same_type i; source_id = same_id i; currency = same_currency i }

add_zero : (a : ℤ) → a +ℤ pos 0 ≡ a
add_zero a = omega int_laws

same_key_refl : (a : SourceKey) → same_key a a ≡ true
same_key_refl a = rw (same_source_refl a.source_type, ==_refl a.source_id, ==_refl a.currency) refl

-- A key that is not `key` is not `key` on the other side either.
not_same_key : (k key : SourceKey) → same_key k key ≡ false → same_key key k ≡ false
not_same_key k key other = elim (Bool-cases (same_key key k)) [
  | inl same ↦ (let eq = same_key-eq key k same in cc (same_key_refl k, ap (same_key k) eq, other))
  | inr differ ↦ differ
]

total_at-add_total :
    (k key : SourceKey) (v : ℤ) (totals : Totals)
    → or_zero (total_at k (add_total key v totals))
      ≡ or_zero (total_at k totals) +ℤ (if same_key key k then v else pos 0)
unfolding total_at add_total
total_at-add_total k key v [] = elim (Bool-cases (same_key key k)) [
  | inl here ↦ rw here refl
  | inr elsewhere ↦ rw elsewhere (omega int_laws)
]
total_at-add_total k key v ((h, t) ∷ rest) = elim (Bool-cases (same_key h key)) [
  | inl same ↦
      (let eq = same_key-eq h key same in
        rw (same, eq)
          (elim (Bool-cases (same_key key k)) [
            | inl here ↦ rw here refl
            | inr elsewhere ↦ rw elsewhere (sym (add_zero _))
          ]))
  | inr other ↦ rw other (elim (Bool-cases (same_key h k)) [
    | inl here ↦
        (let eq = same_key-eq h k here in
          rw (here, not_same_key k key (rw eq at other)) (sym (add_zero _)))
    | inr elsewhere ↦ rw elsewhere (total_at-add_total k key v rest)
  ])
]

pub sum_step : (a b c : ℤ) → (a +ℤ b) +ℤ c ≡ a +ℤ (b +ℤ c)
sum_step a b c = omega int_laws

value_of-decimal : (t : Text) (v : ℤ) → IsAmount t → decimal_or_throw t ≡ ok v → v ≡ value_of t
unfolding decimal_or_throw
value_of-decimal t v (n, reads, value) e =
    ok-injective (sym e ∙ ap (λ o. or_throw o syntax_error) reads) ∙ sym value

-- The totals hold the amounts of the lines of each source.
pub add_totals-taken_from :
    (k : SourceKey) (totals totals' : Totals) (ls : List LockedLine)
    → All IsConsistent ls
    → add_totals totals ls ≡ ok totals'
    → or_zero (total_at k totals') ≡ or_zero (total_at k totals) +ℤ taken_from k ls
unfolding add_totals
add_totals-taken_from k totals totals' [] consistent e =
    ap (λ t. or_zero (total_at k t)) (sym (ok-injective e)) ∙ sym (add_zero _)
add_totals-taken_from k totals totals' (l ∷ ls) ((is_amount, matches), consistent) e =
    let (key, has_source, e1) = or_throw-eq-ok (source_of l.line) effect_mapping _ e in
    let (v, reads, e2) = >>=-eq-ok (decimal_or_throw l.line.amount) _ e1 in
    add_totals-taken_from k (add_total key v totals) totals' ls consistent e2
    ∙ ap (λ z. z +ℤ taken_from k ls) (total_at-add_total k key v totals)
    ∙ sum_step _ _ _
    ∙ rw (has_source, value_of-decimal l.line.amount v is_amount reads) refl

total_at-add_total-some :
    (k key : SourceKey) (v : ℤ) (totals : Totals)
    → is_some (total_at k (add_total key v totals))
      ≡ (is_some (total_at k totals) || same_key key k)
unfolding total_at add_total
total_at-add_total-some k key v [] = elim (Bool-cases (same_key key k)) [
  | inl here ↦ rw here refl
  | inr elsewhere ↦ rw elsewhere refl
]
total_at-add_total-some k key v ((h, t) ∷ rest) = elim (Bool-cases (same_key h key)) [
  | inl same ↦
      (let eq = same_key-eq h key same in
        rw (same, eq)
          (elim (Bool-cases (same_key key k)) [
            | inl here ↦ rw here refl
            | inr elsewhere ↦ rw elsewhere (sym (or_false _))
          ]))
  | inr other ↦ rw other (elim (Bool-cases (same_key h k)) [
    | inl here ↦ rw here refl
    | inr elsewhere ↦ rw elsewhere (total_at-add_total-some k key v rest)
  ])
]

-- A source of a line has a total.
pub add_totals-some :
    (k : SourceKey) (totals totals' : Totals) (ls : List LockedLine)
    → add_totals totals ls ≡ ok totals'
    → is_some (total_at k totals')
      ≡ (is_some (total_at k totals) || any (λ (l : LockedLine). is_from k (source_of l.line)) ls)
unfolding add_totals
add_totals-some k totals totals' [] e =
    ap (λ t. is_some (total_at k t)) (sym (ok-injective e)) ∙ sym (or_false _)
add_totals-some k totals totals' (l ∷ ls) e =
    let (key, has_source, e1) = or_throw-eq-ok (source_of l.line) effect_mapping _ e in
    let (v, reads, e2) = >>=-eq-ok (decimal_or_throw l.line.amount) _ e1 in
    add_totals-some k (add_total key v totals) totals' ls e2
    ∙ ap (λ b. b || any (λ (l : LockedLine). is_from k (source_of l.line)) ls)
        (total_at-add_total-some k key v totals)
    ∙ or_assoc (is_some (total_at k totals)) _
        (any (λ (l : LockedLine). is_from k (source_of l.line)) ls)
    ∙ rw has_source refl

if_nonneg : (b : Bool) (v : ℤ) → pos 0 ≤ℤ v → pos 0 ≤ℤ (if b then v else pos 0)
if_nonneg true v h = h
if_nonneg false v h = omega arith

pub taken_from-nonneg :
    (k : SourceKey) (ls : List LockedLine) → All IsConsistent ls → pos 0 ≤ℤ taken_from k ls
taken_from-nonneg k [] consistent = omega arith
taken_from-nonneg k (l ∷ ls) (((n, reads, value), matches), consistent) =
    let first =
      if_nonneg (is_from k (source_of l.line)) (value_of l.line.amount) (rw value (omega arith)) in
    let rest = taken_from-nonneg k ls consistent in omega int_laws
