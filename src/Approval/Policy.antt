-- ===== src/Approval/Policy.antt =====
-- The choice of the policy of a payment: `uniqueMaximal` and `dominates` of
-- src/payments/payment-approval.service.ts.
pub mod Order
pub mod Unique
use treasury_backend.Prelude.{
  Bool, List, Option, [], any, false, filter, if◌then◌else◌, is_some, none, not, option_eq, some,
  true, ℕ, ◌&&◌, ◌==◌, ◌||◌, ◌∷◌,
}
use treasury_backend.Money.{Text}
use treasury_backend.Approval.Decimals.{above, at_least, at_most, below, compare_decimal}

-- `ApprovalPolicy`, less its names, its steps and its aggregation.
pub record ApprovalPolicy : Type 0 where
  pub id : ℕ
  pub branch_id : Option ℕ
  pub treasury_unit_id : Option ℕ
  pub currency : Option ℕ
  pub method_category : Option ℕ
  pub amount_minimum : Option Text
  pub amount_maximum : Option Text

pub record Narrowing : Type 0 where
  pub allowed : Bool
  pub strict : Bool

abbrev pub optional_narrower : Option ℕ → Option ℕ → Narrowing
optional_narrower left none = record { allowed = true; strict = is_some left }
optional_narrower left (some r) = record { allowed = option_eq left (some r); strict = false }

abbrev pub lower_narrower : Option Text → Option Text → Narrowing
lower_narrower left none = record { allowed = true; strict = is_some left }
lower_narrower none (some r) = record { allowed = false; strict = false }
lower_narrower (some l) (some r) =
    let comparison = compare_decimal l r in
    record { allowed = at_least comparison; strict = above comparison }

abbrev pub upper_narrower : Option Text → Option Text → Narrowing
upper_narrower left none = record { allowed = true; strict = is_some left }
upper_narrower none (some r) = record { allowed = false; strict = false }
upper_narrower (some l) (some r) =
    let comparison = compare_decimal l r in
    record { allowed = at_most comparison; strict = below comparison }

-- The loop over the keys; `none` is its `return false`.
abbrev pub narrower_keys : Bool → List Narrowing → Option Bool
narrower_keys strict [] = some strict
narrower_keys strict (n ∷ ns) = if n.allowed then narrower_keys (strict || n.strict) ns else none

abbrev pub keys : ApprovalPolicy → ApprovalPolicy → List Narrowing
keys left right =
    optional_narrower left.branch_id right.branch_id
    ∷ optional_narrower left.treasury_unit_id right.treasury_unit_id
    ∷ optional_narrower left.currency right.currency
    ∷ optional_narrower left.method_category right.method_category
    ∷ []

abbrev pub with_amounts : Option Bool → Narrowing → Narrowing → Bool
with_amounts none minimum maximum = false
with_amounts (some strict) minimum maximum =
    minimum.allowed && maximum.allowed && (strict || minimum.strict || maximum.strict)

unfoldable pub dominates : ApprovalPolicy → ApprovalPolicy → Bool
dominates left right =
    with_amounts (narrower_keys false (keys left right))
      (lower_narrower left.amount_minimum right.amount_minimum)
      (upper_narrower left.amount_maximum right.amount_maximum)

-- Another candidate that dominates.
abbrev pub is_dominated : List ApprovalPolicy → ApprovalPolicy → Bool
is_dominated candidates c =
    any (λ (other : ApprovalPolicy). not (other.id == c.id) && dominates other c) candidates

abbrev pub only_one {ℓ} : {A : Type ℓ} → List A → Option A
only_one [] = none
only_one (x ∷ []) = some x
only_one (x ∷ y ∷ zs) = none

-- `uniqueMaximal`
unfoldable pub unique_maximal : List ApprovalPolicy → Option ApprovalPolicy
unique_maximal candidates = only_one (filter (λ c. not (is_dominated candidates c)) candidates)
