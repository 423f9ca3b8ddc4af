-- ===== src/Money/Digits.antt =====
-- Printing a number in decimal digits and reading it back.
use native.Mathlib.Nat.{pow-suc, sub-zero, suc-sub-suc}
use mathlib.Core.List.{append_assoc}
use treasury_backend.Prelude.{
  ℕ, zero, suc, ◌+◌, ◌-◌, ◌*◌, ◌/◌, ◌%◌, ◌^◌, ◌≤◌, ◌<◌, ◌≡◌, refl, true, ◌&&◌, inl, inr, [], ◌∷◌,
  ◌++◌, ap, ◌∙◌, arith, ltb, ◌==◌, ==_iff, Bool-cases, if◌then◌else◌, length, replicate,
  length-append, All,
}
use treasury_backend.Money.{
  Text, is_digit, big_int_from, digits_fuel, digits, strip_zeros, is_empty, pad_end,
}

abbrev pub IsDigit : ℕ → Type 0
IsDigit c = is_digit c ≡ true

digit_IsDigit : (n : ℕ) → n < 10 → is_digit (b'0' + n) ≡ true
digit_IsDigit n h = ground arith

big_int_from_digit :
    (acc n : ℕ) (s : Text)
    → n < 10
    → big_int_from acc ((b'0' + n) ∷ s) ≡ big_int_from (acc * 10 + n) s
unfolding big_int_from
big_int_from_digit acc n s h =
    let e : b'0' + n - b'0' ≡ n = omega arith in rw (digit_IsDigit n h, e)

lt→ltb : (a b : ℕ) → a < b → ltb a b ≡ true
lt→ltb a b h = ground arith

tenth_lt : (k n : ℕ) → n < 10 ^ suc (suc k) → n / 10 < 10 ^ suc k
tenth_lt k n h = let h' = pow-suc 10 (suc k) in omega arith

big_int_from-digits_fuel :
    (f n : ℕ) (s : Text) → n < f → big_int_from 0 (digits_fuel f n ++ s) ≡ big_int_from n s
unfolding digits_fuel
big_int_from-digits_fuel zero n s h = absurd (omega arith)
big_int_from-digits_fuel (suc f) n s h = elim (Bool-cases (ltb n 10)) [
  | inl small ↦
      rw small (big_int_from_digit 0 n s (ground arith) ∙ ap (λ k. big_int_from k s) (omega arith))
  | inr large ↦
      rw (large, append_assoc)
        (big_int_from-digits_fuel f (n / 10) ((b'0' + n % 10) ∷ s) (ground arith)
          ∙ big_int_from_digit (n / 10) (n % 10) s (omega arith)
          ∙ ap (λ k. big_int_from k s) (omega arith))
]

-- What `String(n)` prints, `BigInt` reads.
pub big_int_from-digits : (n : ℕ) (s : Text) → big_int_from 0 (digits n ++ s) ≡ big_int_from n s
unfolding digits
big_int_from-digits n s = big_int_from-digits_fuel (suc n) n s (omega arith)

length-digits_fuel : (k f n : ℕ) → n < 10 ^ suc k → length (digits_fuel f n) ≤ suc k
unfolding digits_fuel
length-digits_fuel k zero n h = omega arith
length-digits_fuel zero (suc f) n h = rw (lt→ltb n 10 (rw pow-suc at h)) (omega arith)
length-digits_fuel (suc k) (suc f) n h = elim (Bool-cases (ltb n 10)) [
  | inl small ↦ rw small (omega arith)
  | inr large ↦
      rw (large, length-append) (omega (arith, length-digits_fuel k f (n / 10) (tenth_lt k n h)))
]

pub length-digits : (k n : ℕ) → n < 10 ^ suc k → length (digits n) ≤ suc k
unfolding digits
length-digits k n h = length-digits_fuel k (suc n) n h

pub All-append : (P : ℕ → Type 0) (xs ys : Text) → All P xs → All P ys → All P (xs ++ ys)
All-append P [] ys h k = k
All-append P (x ∷ xs) ys (p, h) k = (p, All-append P xs ys h k)

digits_fuel-IsDigit : (f n : ℕ) → All IsDigit (digits_fuel f n)
unfolding digits_fuel
digits_fuel-IsDigit zero n = tt
digits_fuel-IsDigit (suc f) n = elim (Bool-cases (ltb n 10)) [
  | inl small ↦ rw small (digit_IsDigit n (ground arith), tt)
  | inr large ↦ rw large (
      All-append IsDigit _ _ (digits_fuel-IsDigit f (n / 10))
        (digit_IsDigit (n % 10) (omega arith), tt))
]

pub digits-IsDigit : (n : ℕ) → All IsDigit (digits n)
unfolding digits
digits-IsDigit n = digits_fuel-IsDigit (suc n) n

-- Leading zeros do not count.
pub big_int_from-zeros :
    (k : ℕ) (s : Text) → big_int_from 0 (replicate k b'0' ++ s) ≡ big_int_from 0 s
unfolding big_int_from
big_int_from-zeros zero s = refl
big_int_from-zeros (suc k) s = big_int_from-zeros k s

pad_step :
    (c : ℕ) (s r : Text)
    → r ++ replicate (length s - length r) b'0' ≡ s
    → let r' = if c == b'0' && is_empty r then [] else c ∷ r in
      r' ++ replicate (suc (length s) - length r') b'0' ≡ c ∷ s
pad_step c s [] e = elim (Bool-cases (c == b'0')) [
  | inl zero_digit ↦
      rw (zero_digit, sub-zero)
        (let filled = rw sub-zero at e in cc ((==_iff c b'0').0 zero_digit, filled))
  | inr other ↦
      rw other
        (let same : suc (length s) - 1 ≡ length s - 0 = omega arith in rw same (ap (λ t. c ∷ t) e))
]
pad_step c s (x ∷ r) e = elim (Bool-cases (c == b'0')) [
  | inl zero_digit ↦ rw (zero_digit, suc-sub-suc) (ap (λ t. c ∷ t) e)
  | inr other ↦ rw (other, suc-sub-suc) (ap (λ t. c ∷ t) e)
]

-- The zeros that are stripped at the end are the ones that the padding puts back.
strip_zeros_pad :
    (s : Text) → strip_zeros s ++ replicate (length s - length (strip_zeros s)) b'0' ≡ s
unfolding strip_zeros
strip_zeros_pad [] = refl
strip_zeros_pad (c ∷ s) = pad_step c s (strip_zeros s) (strip_zeros_pad s)

pub pad_end-strip_zeros : (n : ℕ) (s : Text) → length s ≡ n → pad_end n b'0' (strip_zeros s) ≡ s
pad_end-strip_zeros n s e = rw (← e) (strip_zeros_pad s)
