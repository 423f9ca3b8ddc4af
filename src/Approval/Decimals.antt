-- ===== src/Approval/Decimals.antt =====
-- `decimalParts` and `compareDecimal` of src/payments/payment-approval.service.ts.
pub mod Order
use mathlib.Core.Option
use treasury_backend.Prelude.{
  Bool, Option, Ordering, false, if◌then◌else◌, length, max, true, ℕ, ◌++◌, ◌-◌, ◌^◌,
}
use treasury_backend.Prelude.Int.{ltb_ℤ, mul_ℕ, pos, ℤ}
use treasury_backend.Money.{Text, big_int, fraction_of, split, whole_of}
use treasury_backend.Store.{or_default}

pub record DecimalParts : Type 0 where
  pub value : ℤ
  pub scale : ℕ

-- `decimalParts`; what throws a SyntaxError in `BigInt` is `none`.
unfoldable pub decimal_parts : Text → Option DecimalParts
decimal_parts value =
    let parts = split b'.' value in
    let fraction = fraction_of parts in
    Option.map (λ v. record { value = v; scale = length fraction })
      (big_int (whole_of parts ++ fraction))

-- The parts of a numeric column; there are some in every row.
abbrev pub parts_of : Text → DecimalParts
parts_of value = or_default (decimal_parts value) (record { value = pos 0; scale = 0 })

abbrev pub scaled : ℕ → DecimalParts → ℤ
scaled k d = mul_ℕ d.value (10 ^ (k - d.scale))

abbrev pub order_of : ℤ → ℤ → Ordering
order_of a b = if ltb_ℤ a b then Ordering.lt else if ltb_ℤ b a then Ordering.gt else Ordering.eq

unfoldable pub compare_parts : DecimalParts → DecimalParts → Ordering
compare_parts a b = let k = max a.scale b.scale in order_of (scaled k a) (scaled k b)

-- `compareDecimal`
abbrev pub compare_decimal : Text → Text → Ordering
compare_decimal left right = compare_parts (parts_of left) (parts_of right)

-- `comparison <= 0`, `>= 0`, `< 0` and `> 0`
abbrev pub at_most : Ordering → Bool
at_most o = elim o [ Ordering.gt ↦ false | _ ↦ true ]

abbrev pub at_least : Ordering → Bool
at_least o = elim o [ Ordering.lt ↦ false | _ ↦ true ]

abbrev pub below : Ordering → Bool
below o = elim o [ Ordering.lt ↦ true | _ ↦ false ]

abbrev pub above : Ordering → Bool
above o = elim o [ Ordering.gt ↦ true | _ ↦ false ]
