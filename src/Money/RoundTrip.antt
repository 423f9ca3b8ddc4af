-- ===== src/Money/RoundTrip.antt =====
-- Reading back what `amount` printed, for every integer at scale eight.
use mathlib.Core.List.{append-nil}
use treasury_backend.Prelude.{
  ◌≢◌, ℕ, zero, suc, ◌+◌, ◌-◌, ◌*◌, ◌/◌, ◌%◌, ◌≤◌, ◌≡◌, refl, false, some, [], ◌∷◌, ◌++◌, ap, ◌∙◌,
  arith, length, replicate, length-append, length-replicate, All,
}
use treasury_backend.Prelude.Int.{
  ℤ, eq_of_parts, neg_parts, mul_parts, neg_ℤ, mul_ℕ, ◌+ℤ◌, pos, negsuc, int_laws,
}
use treasury_backend.Money.{
  Text, scale, positive, starts_with_minus, big_int_from, big_int, split, whole_of, fraction_of,
  pad_end, pad_start, strip_zeros, digits, decimal, units, dotted, fraction_text, amount,
}
use treasury_backend.Money.Digits.{
  IsDigit, All-append, big_int_from-digits, length-digits, digits-IsDigit, big_int_from-zeros,
  pad_end-strip_zeros,
}

split_digits : (w f : Text) → All IsDigit w → split b'.' (w ++ b'.' ∷ f) ≡ w ∷ split b'.' f
unfolding split
split_digits [] f h = refl
split_digits (c ∷ w) f (d, h) = ground (arith, split_digits w f h)

split_only : (w : Text) → All IsDigit w → split b'.' w ≡ w ∷ []
unfolding split
split_only [] h = refl
split_only (c ∷ w) (d, h) = ground (arith, split_only w h)

-- The two parts of a text without a sign are found again.
pub split_parts :
    (w f : Text)
    → All IsDigit w
    → All IsDigit f
    → (whole_of (split b'.' (w ++ dotted f)) ≡ w) × (fraction_of (split b'.' (w ++ dotted f)) ≡ f)
split_parts w [] h k = rw (append-nil, split_only w h) (refl, refl)
split_parts w (c ∷ f) h k = rw (split_digits w (c ∷ f) h, split_only (c ∷ f) k) (refl, refl)

pub big_int_digits : (s : Text) → All IsDigit s → big_int s ≡ positive (big_int_from 0 s)
unfolding big_int big_int_from
big_int_digits [] h = refl
big_int_digits (c ∷ s) (d, h) = ground arith

no_minus : (w f : Text) → All IsDigit w → starts_with_minus (w ++ dotted f) ≡ false
no_minus [] [] h = refl
no_minus [] (c ∷ f) h = refl
no_minus (c ∷ w) f (d, h) = ground arith

replicate-IsDigit : (k : ℕ) → All IsDigit (replicate k b'0')
replicate-IsDigit zero = tt
replicate-IsDigit (suc k) = (refl, replicate-IsDigit k)

strip_zeros-IsDigit : (s : Text) → All IsDigit s → All IsDigit (strip_zeros s)
unfolding strip_zeros
strip_zeros-IsDigit [] h = tt
strip_zeros-IsDigit (c ∷ s) (d, h) = ground (arith, strip_zeros-IsDigit s h)

-- A text `w.f` without a sign is read as the number that its two parts spell.
pub decimal_parts :
    (w f : Text) (W F : ℕ)
    → All IsDigit w
    → All IsDigit f
    → big_int_from 0 w ≡ some W
    → big_int_from 0 (pad_end 8 b'0' f) ≡ some F
    → decimal (w ++ dotted f) ≡ some (pos (W * scale + F))
unfolding decimal
decimal_parts w f W F h k ew ef =
    let (pw, pf) = split_parts w f h k in
    rw
      (
        pw,
        pf,
        big_int_digits w h,
        big_int_digits (pad_end 8 b'0' f) (All-append IsDigit f _ k (replicate-IsDigit _)),
        ew,
        ef,
      )
      (ap some (omega int_laws))

fraction-IsDigit : (n : ℕ) → All IsDigit (fraction_text n)
unfolding fraction_text
fraction-IsDigit n =
    let filled = digits (n % scale) in
    strip_zeros-IsDigit (pad_start 8 b'0' filled) (
      All-append IsDigit (replicate (8 - length filled) b'0') filled
        (replicate-IsDigit (8 - length filled)) (digits-IsDigit (n % scale)))

whole_value : (n : ℕ) → big_int_from 0 (digits n) ≡ some n
unfolding big_int_from
whole_value n = rw (← append-nil (digits n)) (big_int_from-digits n [])

length_padded : (n : ℕ) → length (pad_start 8 b'0' (digits (n % scale))) ≡ 8
length_padded n =
    let short : length (digits (n % scale)) ≤ 8 = length-digits 7 (n % scale) (omega arith) in
    rw (length-append, length-replicate) (omega arith)

fraction_value : (n : ℕ) → big_int_from 0 (pad_end 8 b'0' (fraction_text n)) ≡ some (n % scale)
unfolding fraction_text big_int_from
fraction_value n =
    rw
      (
        pad_end-strip_zeros 8 (pad_start 8 b'0' (digits (n % scale))) (length_padded n),
        big_int_from-zeros,
      )
      (whole_value (n % scale))

decimal_printed : (n : ℕ) → decimal (digits (n / scale) ++ dotted (fraction_text n)) ≡ some (pos n)
decimal_printed n =
    decimal_parts (digits (n / scale)) (fraction_text n) (n / scale) (n % scale) (digits-IsDigit _)
      (fraction-IsDigit n) (whole_value (n / scale)) (fraction_value n)
    ∙ ap (λ k. some (pos k)) (omega arith)

pub decimal-amount : (n : ℕ) → decimal (amount (pos n)) ≡ some (pos n)
unfolding amount
decimal-amount n = decimal_printed n

-- Every bigint that `amount` prints is read back by `units`, whatever its sign.
pub units-amount : (value : ℤ) → units (amount value) ≡ some value
unfolding units amount
units-amount (pos n) = rw (
  no_minus (digits (n / scale)) (fraction_text n) (digits-IsDigit (n / scale)),
  decimal_printed n,
)
units-amount (negsuc n) = rw (decimal_printed (suc n))

split_parts_minus :
    (w f : Text)
    → All IsDigit w
    → All IsDigit f
    → let parts = split b'.' (b'-' ∷ w ++ dotted f) in
      (whole_of parts ≡ b'-' ∷ w) × (fraction_of parts ≡ f)
unfolding split
split_parts_minus w [] h k = rw (append-nil, split_only w h) (refl, refl)
split_parts_minus w (c ∷ f) h k =
    let tail = split_only (c ∷ f) k in rw (split_digits w (c ∷ f) h, tail) (refl, refl)

big_int_minus :
    (w : Text) (W : ℕ)
    → w ≢ []
    → big_int_from 0 w ≡ some W
    → big_int (b'-' ∷ w) ≡ some (neg_ℤ (pos W))
unfolding big_int
big_int_minus [] W nonempty e = absurd (nonempty refl)
big_int_minus (c ∷ w) W nonempty e = rw e

decimal_minus :
    (w f : Text) (W F : ℕ)
    → w ≢ []
    → All IsDigit w
    → All IsDigit f
    → big_int_from 0 w ≡ some W
    → big_int_from 0 (pad_end 8 b'0' f) ≡ some F
    → decimal (b'-' ∷ w ++ dotted f) ≡ some (mul_ℕ (neg_ℤ (pos W)) scale +ℤ pos F)
unfolding decimal
decimal_minus w f W F nonempty h k ew ef =
    let (pw, pf) = split_parts_minus w f h k in
    rw (
      pw,
      pf,
      big_int_minus w W nonempty ew,
      big_int_digits (pad_end 8 b'0' f) (All-append IsDigit f _ k (replicate-IsDigit _)),
      ef,
    )

twice_more :
    (W F : ℕ) → mul_ℕ (neg_ℤ (pos W)) scale +ℤ pos F ≡ neg_ℤ (pos (W * scale + F)) +ℤ pos (2 * F)
twice_more W F = eq_of_parts _ _ (
    omega (
      int_laws,
      mul_parts (neg_ℤ (pos W)) scale,
      neg_parts (pos W),
      neg_parts (pos (W * scale + F)),
    ))

-- `units` takes the sign off before it reads; `decimal`, given the same negative text, adds the
-- fraction to the negated whole part, which is too large by twice the fraction.
pub decimal_negative :
    (w f : Text) (W F : ℕ)
    → w ≢ []
    → All IsDigit w
    → All IsDigit f
    → big_int_from 0 w ≡ some W
    → big_int_from 0 (pad_end 8 b'0' f) ≡ some F
    → (units (b'-' ∷ w ++ dotted f) ≡ some (neg_ℤ (pos (W * scale + F))))
      × (decimal (b'-' ∷ w ++ dotted f) ≡ some (neg_ℤ (pos (W * scale + F)) +ℤ pos (2 * F)))
unfolding units
decimal_negative w f W F nonempty h k ew ef = (
  rw (decimal_parts w f W F h k ew ef),
  decimal_minus w f W F nonempty h k ew ef ∙ ap some (twice_more W F),
)
