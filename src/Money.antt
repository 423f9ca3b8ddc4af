-- ===== src/Money.antt =====
-- Exact decimal amounts: `units` and `amount` of
-- src/collection-and-settlement/settlement.service.ts, `decimal` and `amountString` of
-- src/payments/payment-execution.service.ts. A text is the list of its UTF-16 code units; what
-- throws a SyntaxError in `BigInt` is `none`. `big_int` reads an optional minus sign and decimal
-- digits: the white space and the radix prefixes that `BigInt` also takes come from no DTO pattern
-- and from no numeric column.
pub mod Digits
pub mod RoundTrip
pub mod Texts
mod Tests
use treasury_backend.Prelude.{
  ℕ, zero, suc, ◌+◌, ◌-◌, ◌*◌, ◌/◌, ◌%◌, Bool, true, false, ◌&&◌, Option, none, some, List, [], ◌∷◌,
  ◌++◌, ltb, leb, ◌==◌, if◌then◌else◌, length, replicate,
}
use treasury_backend.Prelude.Int.{ℤ, pos, negsuc, ◌+ℤ◌, neg_ℤ, mul_ℕ, pos_part, neg_part}

abbrev pub Text : Type 0
Text = List ℕ

infixl 5 ◌>>=◌
abbrev pub ◌>>=◌ {ℓ κ} : {A : Type ℓ} {B : Type κ} → Option A → (A → Option B) → Option B
none >>= k = none
some a >>= k = k a

-- 10 ^ 8: amounts are integers at scale eight.
abbrev pub scale : ℕ
scale = 100000000

abbrev pub is_digit : ℕ → Bool
is_digit c = leb b'0' c && leb c b'9'

unfoldable pub big_int_from : ℕ → Text → Option ℕ
big_int_from n [] = some n
big_int_from n (c ∷ s) = if is_digit c then big_int_from (n * 10 + (c - b'0')) s else none

abbrev negated : Option ℕ → Option ℤ
negated none = none
negated (some n) = some (neg_ℤ (pos n))

abbrev pub positive : Option ℕ → Option ℤ
positive none = none
positive (some n) = some (pos n)

-- A lone sign is a SyntaxError, the empty text is 0n.
abbrev signed : Text → Option ℤ
signed [] = none
signed (c ∷ s) = negated (big_int_from 0 (c ∷ s))

-- `BigInt(text)`
unfoldable pub big_int : Text → Option ℤ
big_int [] = some (pos 0)
big_int (c ∷ s) = if c == b'-' then signed s else positive (big_int_from 0 (c ∷ s))

abbrev pub cons_head : ℕ → List Text → List Text
cons_head c [] = (c ∷ []) ∷ []
cons_head c (w ∷ ws) = (c ∷ w) ∷ ws

-- `text.split(separator)`, for a separator of one code unit
unfoldable pub split : ℕ → Text → List Text
split separator [] = [] ∷ []
split separator (c ∷ s) =
    let rest = split separator s in if c == separator then [] ∷ rest else cons_head c rest

abbrev pub whole_of : List Text → Text
whole_of [] = []
whole_of (w ∷ ws) = w

-- the default `fraction = ''`
abbrev pub fraction_of : List Text → Text
fraction_of [] = []
fraction_of (w ∷ []) = []
fraction_of (w ∷ f ∷ ws) = f

abbrev pub pad_end : ℕ → ℕ → Text → Text
pad_end n c s = s ++ replicate (n - length s) c

abbrev pub pad_start : ℕ → ℕ → Text → Text
pad_start n c s = replicate (n - length s) c ++ s

abbrev pub is_empty : Text → Bool
is_empty [] = true
is_empty (c ∷ s) = false

-- `text.replace(/0+$/u, '')`
unfoldable pub strip_zeros : Text → Text
strip_zeros [] = []
strip_zeros (c ∷ s) =
    let rest = strip_zeros s in if c == b'0' && is_empty rest then [] else c ∷ rest

unfoldable pub digits_fuel : ℕ → ℕ → Text
digits_fuel zero n = []
digits_fuel (suc f) n =
    let rest = digits_fuel f (n / 10) in
    if ltb n 10 then (b'0' + n) ∷ [] else rest ++ (b'0' + n % 10) ∷ []

-- `String(n)`: a number below its fuel is printed whole (`big_int_from-digits`).
unfoldable pub digits : ℕ → Text
digits n = digits_fuel (suc n) n

abbrev pub starts_with_minus : Text → Bool
starts_with_minus [] = false
starts_with_minus (c ∷ s) = c == b'-'

abbrev pub slice_one : Text → Text
slice_one [] = []
slice_one (c ∷ s) = s

-- Without a sign of its own; shared by `units` and `decimal`.
unfoldable pub decimal : Text → Option ℤ
decimal value = do
  let parts = split b'.' value
  whole ← big_int (whole_of parts)
  fraction ← big_int (pad_end 8 b'0' (fraction_of parts))
  some (mul_ℕ whole scale +ℤ fraction)

unfoldable pub units : Text → Option ℤ
units value = do
  let negative = starts_with_minus value
  result ← decimal (if negative then slice_one value else value)
  some (if negative then neg_ℤ result else result)

abbrev pub is_negative : ℤ → Bool
is_negative (pos n) = false
is_negative (negsuc n) = true

abbrev pub absolute : ℤ → ℕ
absolute (pos n) = n
absolute (negsuc n) = suc n

abbrev pub dotted : Text → Text
dotted [] = []
dotted (c ∷ s) = b'.' ∷ c ∷ s

unfoldable pub fraction_text : ℕ → Text
fraction_text n = strip_zeros (pad_start 8 b'0' (digits (n % scale)))

unfoldable pub amount : ℤ → Text
amount value =
    (if is_negative value then b'-' ∷ [] else [])
    ++ (digits (absolute value / scale) ++ dotted (fraction_text (absolute value)))
