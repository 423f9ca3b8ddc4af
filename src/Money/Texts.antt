-- ===== src/Money/Texts.antt =====
-- Trimming, and the tests for an absent or blank text (`!text?.trim()`, `text ? … : …`).
use treasury_backend.Prelude.{
  Bool, Option, [], false, if◌then◌else◌, leb, length, ltb, none, not, some, ℕ, ◌&&◌, ◌*◌, ◌+◌, ◌-◌,
  ◌==◌, ◌||◌, ◌∷◌,
}
use treasury_backend.Money.{Text, is_digit, is_empty}

-- The code units that `String.prototype.trim` removes.
abbrev pub is_space : ℕ → Bool
is_space c =
    leb 9 c && leb c 13
    || c == 32
    || c == 0xa0
    || c == 0x1680
    || leb 0x2000 c && leb c 0x200a
    || c == 0x2028
    || c == 0x2029
    || c == 0x202f
    || c == 0x205f
    || c == 0x3000
    || c == 0xfeff

unfoldable pub trim_start : Text → Text
trim_start [] = []
trim_start (c ∷ s) = let rest = trim_start s in if is_space c then rest else c ∷ s

unfoldable pub trim_end : Text → Text
trim_end [] = []
trim_end (c ∷ s) = let rest = trim_end s in if is_space c && is_empty rest then [] else c ∷ rest

unfoldable pub trim : Text → Text
unfolding trim_start trim_end
trim s = trim_end (trim_start s)

abbrev pub trim_option : Option Text → Option Text
trim_option none = none
trim_option (some s) = some (trim s)

-- the truth of an optional text
abbrev pub is_given : Option Text → Bool
is_given none = false
is_given (some s) = not (is_empty s)

-- `s || undefined`
abbrev pub non_empty : Option Text → Option Text
non_empty o = if is_given o then o else none

-- `!key || key.length < 8 || key.length > 128`
abbrev pub bad_key : Text → Bool
bad_key s = ltb (length s) 8 || ltb 128 (length s)

-- `!requestId || requestId.length > 128`
abbrev pub bad_request_id : Text → Bool
bad_request_id s = is_empty s || ltb 128 (length s)

unfoldable pub quoted_from : ℕ → Text → Option ℕ
quoted_from n [] = none
quoted_from n (c ∷ s) =
    let more = quoted_from (n * 10 + (c - b'0')) s in
    if is_digit c then more else if c == b'"' && is_empty s then some n else none

abbrev after_quote : Text → Option ℕ
after_quote [] = none
after_quote (c ∷ s) = if is_digit c then quoted_from 0 (c ∷ s) else none

-- /^"([0-9]+)"$/u and `Number`, which is exact below 2 ^ 53
unfoldable pub parse_if_match : Text → Option ℕ
unfolding quoted_from
parse_if_match [] = none
parse_if_match (c ∷ s) = if c == b'"' then after_quote s else none
