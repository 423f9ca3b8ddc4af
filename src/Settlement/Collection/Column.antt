-- ===== src/Settlement/Collection/Column.antt =====
-- What the column numeric(38, 8) makes of an amount, and `decimal` of
-- src/collection-and-settlement/collection-effects.service.ts on it.
use mathlib.Core.List.{append-nil}
use treasury_backend.Prelude.{
  All, Bool-cases, [], all, ap, arith, false, if◌then◌else◌, inl, inr, length, refl, replicate, suc,
  sym, true, zero, ℕ, ◌&&◌, ◌++◌, ◌-◌, ◌==◌, ◌∙◌, ◌∷◌, ◌≡◌,
}
use treasury_backend.Money.{Text, dotted, is_digit, is_empty, pad_end, strip_zeros}
use treasury_backend.Settlement.Collection.{
  minus_zero, normal_decimal, starts_with_digit, strip_fraction, strip_leading, strip_sign_leading,
}
use treasury_backend.Money.Digits.{All-append, IsDigit}

-- A decimal number with a whole part: digits, and maybe a point and digits after it.
pub record IsDecimal (whole fraction : Text) : Type 0 where
  pub given : is_empty whole ≡ false
  pub whole_digits : All IsDigit whole
  pub fraction_digits : All IsDigit fraction

-- The text that the column returns: no redundant zero before the point, eight digits after it.
abbrev pub column_text : Text → Text → Text
column_text whole fraction = strip_leading whole ++ b'.' ∷ pad_end 8 b'0' fraction

all-IsDigit : (s : Text) → All IsDigit s → all is_digit s ≡ true
all-IsDigit [] h = refl
all-IsDigit (c ∷ s) (d, h) = ground (arith, d, all-IsDigit s h)

replicate-IsDigit : (n : ℕ) → All IsDigit (replicate n b'0')
replicate-IsDigit zero = tt
replicate-IsDigit (suc n) = (refl, replicate-IsDigit n)

strip_zeros-replicate : (n : ℕ) → strip_zeros (replicate n b'0') ≡ []
unfolding strip_zeros
strip_zeros-replicate zero = refl
strip_zeros-replicate (suc n) = rw (strip_zeros-replicate n) refl

strip_zeros-zeros : (n : ℕ) (s : Text) → strip_zeros (s ++ replicate n b'0') ≡ strip_zeros s
unfolding strip_zeros
strip_zeros-zeros n [] = strip_zeros-replicate n
strip_zeros-zeros n (c ∷ s) = rw (strip_zeros-zeros n s) refl

strip_fraction-digits : (u : Text) → All IsDigit u → strip_fraction u ≡ u
unfolding strip_fraction
strip_fraction-digits [] h = refl
strip_fraction-digits (c ∷ u) (d, h) = ground (arith, d, strip_fraction-digits u h)

strip_fraction-point :
    (u f : Text)
    → All IsDigit u
    → All IsDigit f
    → strip_fraction (u ++ b'.' ∷ f) ≡ u ++ dotted (strip_zeros f)
unfolding strip_fraction
strip_fraction-point [] f hu hf =
    elim (strip_zeros f)
      as (λ k.
        (if b'.' == b'.' && all is_digit f
          then (if is_empty k then [] else b'.' ∷ k)
          else b'.' ∷ strip_fraction f)
        ≡ dotted k) [ [] ↦ rw (all-IsDigit f hf) refl | c ∷ k ↦ rw (all-IsDigit f hf) refl ]
strip_fraction-point (c ∷ u) f (d, hu) hf = ground (arith, d, strip_fraction-point u f hu hf)

strip_fraction-dotted :
    (u f : Text)
    → All IsDigit u
    → All IsDigit f
    → strip_fraction (u ++ dotted f) ≡ u ++ dotted (strip_zeros f)
unfolding strip_zeros
strip_fraction-dotted u [] hu hf =
    ap strip_fraction (append-nil u) ∙ strip_fraction-digits u hu ∙ sym (append-nil u)
strip_fraction-dotted u (c ∷ f) hu hf = strip_fraction-point u (c ∷ f) hu hf

strip_leading-append :
    (u r : Text)
    → starts_with_digit r ≡ false
    → strip_leading r ≡ r
    → strip_leading (u ++ r) ≡ strip_leading u ++ r
unfolding strip_leading
strip_leading-append [] r other same = same
strip_leading-append (c ∷ []) r other same = elim (Bool-cases (c == b'0')) [
  | inl first ↦ rw (first, other) refl
  | inr later ↦ rw later refl
]
strip_leading-append (c ∷ d ∷ u) r other same = elim (Bool-cases (c == b'0' && is_digit d)) [
  | inl first ↦ rw first (strip_leading-append (d ∷ u) r other same)
  | inr later ↦ rw later refl
]

strip_leading-dotted : (u f : Text) → strip_leading (u ++ dotted f) ≡ strip_leading u ++ dotted f
unfolding strip_leading
strip_leading-dotted u [] = strip_leading-append u [] refl refl
strip_leading-dotted u (c ∷ f) = strip_leading-append u (b'.' ∷ c ∷ f) refl refl

strip_leading-strip_leading : (u : Text) → strip_leading (strip_leading u) ≡ strip_leading u
unfolding strip_leading
strip_leading-strip_leading [] = refl
strip_leading-strip_leading (c ∷ s) = elim (Bool-cases (c == b'0' && starts_with_digit s)) [
  | inl zero_first ↦ rw zero_first (strip_leading-strip_leading s)
  | inr kept ↦ rw (kept, kept) refl
]

strip_leading-IsDigit : (u : Text) → All IsDigit u → All IsDigit (strip_leading u)
unfolding strip_leading
strip_leading-IsDigit [] h = tt
strip_leading-IsDigit (c ∷ s) (d, h) = elim (Bool-cases (c == b'0' && starts_with_digit s)) [
  | inl zero_first ↦ rw zero_first (strip_leading-IsDigit s h)
  | inr kept ↦ rw kept (d, h)
]

strip_sign_leading-digits :
    (u r : Text)
    → All IsDigit u
    → is_empty u ≡ false
    → strip_sign_leading (u ++ r) ≡ strip_leading (u ++ r)
unfolding strip_sign_leading
strip_sign_leading-digits [] r h given = cc
strip_sign_leading-digits (c ∷ u) r (d, h) given = ground (arith, d)

strip_leading-given : (u : Text) → is_empty u ≡ false → is_empty (strip_leading u) ≡ false
unfolding strip_leading
strip_leading-given [] given = cc
strip_leading-given (c ∷ []) given = elim (Bool-cases (c == b'0')) [
  | inl first ↦ rw first refl
  | inr later ↦ rw later refl
]
strip_leading-given (c ∷ d ∷ u) given = elim (Bool-cases (c == b'0' && is_digit d)) [
  | inl first ↦ rw first (strip_leading-given (d ∷ u) refl)
  | inr later ↦ rw later refl
]

-- The sign and the leading zeros of a decimal number.
strip_sign_leading-dotted :
    (u f : Text)
    → All IsDigit u
    → is_empty u ≡ false
    → strip_sign_leading (u ++ dotted f) ≡ strip_leading u ++ dotted f
strip_sign_leading-dotted u f h given =
    strip_sign_leading-digits u (dotted f) h given ∙ strip_leading-dotted u f

pad_end-IsDigit : (f : Text) → All IsDigit f → All IsDigit (pad_end 8 b'0' f)
pad_end-IsDigit f h = All-append IsDigit f (replicate (8 - length f) b'0') h (replicate-IsDigit _)

normal_decimal-dotted :
    (u f : Text)
    → All IsDigit u
    → is_empty u ≡ false
    → All IsDigit f
    → normal_decimal (u ++ dotted f) ≡ minus_zero (strip_leading u ++ dotted (strip_zeros f))
unfolding normal_decimal
normal_decimal-dotted u f h given hf =
    ap (λ (t : Text). minus_zero (strip_fraction t)) (strip_sign_leading-dotted u f h given)
    ∙ ap minus_zero (strip_fraction-dotted (strip_leading u) f (strip_leading-IsDigit u h) hf)

dotted_given : (f : Text) → is_empty f ≡ false → b'.' ∷ f ≡ dotted f
dotted_given [] given = cc
dotted_given (c ∷ f) given = refl

pad_end-given : (f : Text) → is_empty (pad_end 8 b'0' f) ≡ false
pad_end-given [] = refl
pad_end-given (c ∷ f) = refl

-- `decimal` makes the same of an amount and of what the column has made of it.
pub normal_decimal-column_text :
    (whole fraction : Text)
    → IsDecimal whole fraction
    → normal_decimal (column_text whole fraction) ≡ normal_decimal (whole ++ dotted fraction)
normal_decimal-column_text whole fraction d =
    let w = strip_leading whole in
    let padded = pad_end 8 b'0' fraction in
    ap (λ (t : Text). normal_decimal (w ++ t)) (dotted_given padded (pad_end-given fraction))
    ∙ normal_decimal-dotted w padded (strip_leading-IsDigit whole d.whole_digits)
        (strip_leading-given whole d.given) (pad_end-IsDigit fraction d.fraction_digits)
    ∙ ap (λ (t : Text). minus_zero (t ++ dotted (strip_zeros padded)))
        (strip_leading-strip_leading whole)
    ∙ ap (λ (t : Text). minus_zero (w ++ dotted t))
        (strip_zeros-zeros (8 - length fraction) fraction)
    ∙ sym (normal_decimal-dotted whole fraction d.whole_digits d.given d.fraction_digits)
