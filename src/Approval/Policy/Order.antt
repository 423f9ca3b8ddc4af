-- ===== src/Approval/Policy/Order.antt =====
-- `dominates` is a strict order.
use treasury_backend.Prelude.{
  ==_iff, ==_refl, All, Bool, Bool-cases, List, Option, [], all, and-true, ap, false, false_of_not,
  if◌then◌else◌, inl, inr, map, none, not, or_assoc, or_false, refl, some, sym, true, ℕ, ◌&&◌, ◌==◌,
  ◌||◌, ◌∙◌, ◌∷◌, ◌≡◌,
}
use treasury_backend.Money.{Text}
use treasury_backend.Approval.Decimals.{at_least, at_most, compare_decimal, parts_of}
use treasury_backend.Approval.Decimals.Order.{
  AtMost-trans, above-at_most, at_least-at_most, at_most-AtMost, below-at_most,
}
use treasury_backend.Approval.Policy.{
  ApprovalPolicy, Narrowing, dominates, keys, lower_narrower, narrower_keys, optional_narrower,
  upper_narrower, with_amounts,
}

-- Every field allows the first policy to be the narrower one.
abbrev pub allows : ApprovalPolicy → ApprovalPolicy → Bool
allows left right =
    all (λ (n : Narrowing). n.allowed) (keys left right)
    && (lower_narrower left.amount_minimum right.amount_minimum).allowed
    && (upper_narrower left.amount_maximum right.amount_maximum).allowed

-- In a field that may be narrower, strictly narrower is not narrower the other way round.
abbrev IsStrict : Narrowing → Bool → Type 0
IsStrict n reverse_allowed = n.allowed ≡ true → n.strict ≡ not reverse_allowed

optional-IsStrict :
    (l r : Option ℕ) → IsStrict (optional_narrower l r) (optional_narrower r l).allowed
optional-IsStrict none none e = refl
optional-IsStrict (some x) none e = refl
optional-IsStrict none (some y) e = cc
optional-IsStrict (some x) (some y) e =
    let same : x ≡ y = (==_iff x y).0 e in rw (same, ==_refl y) refl

lower-IsStrict : (l r : Option Text) → IsStrict (lower_narrower l r) (lower_narrower r l).allowed
lower-IsStrict none none e = refl
lower-IsStrict (some x) none e = refl
lower-IsStrict none (some y) e = cc
lower-IsStrict (some x) (some y) e =
    above-at_most (parts_of x) (parts_of y)
    ∙ ap not (sym (at_least-at_most (parts_of y) (parts_of x)))

upper-IsStrict : (l r : Option Text) → IsStrict (upper_narrower l r) (upper_narrower r l).allowed
upper-IsStrict none none e = refl
upper-IsStrict (some x) none e = refl
upper-IsStrict none (some y) e = cc
upper-IsStrict (some x) (some y) e = below-at_most (parts_of x) (parts_of y)

-- The loop over the keys, with what holds the other way round beside each of them.
abbrev Sided : Type 0
Sided = List (Narrowing × Bool)

abbrev forward : Sided → List Narrowing
forward list = map (λ (p : Narrowing × Bool). p.0) list

abbrev backward : Sided → Bool
backward list = all (λ (p : Narrowing × Bool). p.1) list

not_and : (s r rest : Bool) → ((s || not r) || not rest) ≡ (s || not (r && rest))
not_and s true rest = ap (λ b. b || not rest) (or_false s)
not_and s false rest = or_assoc s true (not rest)

narrower_keys-all :
    (strict : Bool) (list : Sided)
    → All (λ (p : Narrowing × Bool). IsStrict p.0 p.1) list
    → narrower_keys strict (forward list) ≡ (
        if all (λ (n : Narrowing). n.allowed) (forward list)
        then some (strict || not (backward list))
        else none)
narrower_keys-all strict [] holds = ap (λ (b : Bool). some b) (sym (or_false strict))
narrower_keys-all strict ((n, r) ∷ list) (is_strict, holds) = elim (Bool-cases n.allowed) [
  | inr wider ↦ rw wider refl
  | inl may ↦ rw may (
      narrower_keys-all (strict || n.strict) list holds
      ∙ ap
          (λ (b : Bool). if all (λ (n : Narrowing). n.allowed) (forward list) then some b else none)
          (rw (is_strict may) (not_and strict r (backward list))))
]

nots : (a b c : Bool) → (not a || not b || not c) ≡ not (a && b && c)
nots false false c = refl
nots false true c = refl
nots true false c = refl
nots true true c = refl

amounts_last :
    (a back : Bool) (m x : Narrowing) (rm rx : Bool)
    → IsStrict m rm
    → IsStrict x rx
    → with_amounts (if a then some (not back) else none) m x
      ≡ ((a && m.allowed && x.allowed) && not (back && rm && rx))
amounts_last false back m x rm rx sm sx = refl
amounts_last true back m x rm rx sm sx = elim (Bool-cases m.allowed) [
  | inr wider ↦ rw wider refl
  | inl may ↦ elim (Bool-cases x.allowed) [
    | inr wider ↦ rw (may, wider) refl
    | inl may' ↦ rw (may, may', sm may, sx may') (nots back rm rx)
  ]
]

dominates-allows : (l r : ApprovalPolicy) → dominates l r ≡ (allows l r && not (allows r l))
unfolding dominates
dominates-allows l r =
    let sided : Sided =
      (
        optional_narrower l.branch_id r.branch_id,
        (optional_narrower r.branch_id l.branch_id).allowed,
      )
      ∷ (
        optional_narrower l.treasury_unit_id r.treasury_unit_id,
        (optional_narrower r.treasury_unit_id l.treasury_unit_id).allowed,
      )
      ∷ (optional_narrower l.currency r.currency, (optional_narrower r.currency l.currency).allowed)
      ∷ (
        optional_narrower l.method_category r.method_category,
        (optional_narrower r.method_category l.method_category).allowed,
      )
      ∷ [] in
    ap
      (λ o.
        with_amounts o (lower_narrower l.amount_minimum r.amount_minimum)
          (upper_narrower l.amount_maximum r.amount_maximum))
      (narrower_keys-all false sided (
        optional-IsStrict l.branch_id r.branch_id,
        (
          optional-IsStrict l.treasury_unit_id r.treasury_unit_id,
          (
            optional-IsStrict l.currency r.currency,
            (optional-IsStrict l.method_category r.method_category, tt),
          ),
        ),
      ))
    ∙ amounts_last (all (λ (n : Narrowing). n.allowed) (keys l r))
        (all (λ (n : Narrowing). n.allowed) (keys r l)) _ _ _ _
        (lower-IsStrict l.amount_minimum r.amount_minimum)
        (upper-IsStrict l.amount_maximum r.amount_maximum)

-- The fields of the right policy that the left one may have: any where the right one leaves it open,
-- else the same one.
abbrev is_within : Option ℕ → Option ℕ → Bool
is_within left none = true
is_within none (some r) = false
is_within (some l) (some r) = l == r

-- The minimum of the left policy is not below that of the right one, if that has one.
abbrev starts_within : Option Text → Option Text → Bool
starts_within left none = true
starts_within none (some r) = false
starts_within (some l) (some r) = at_least (compare_decimal l r)

-- The maximum of the left policy is not above that of the right one, if that has one.
abbrev ends_within : Option Text → Option Text → Bool
ends_within left none = true
ends_within none (some r) = false
ends_within (some l) (some r) = at_most (compare_decimal l r)

-- Every payment under the left policy is under the right one too: its branch, treasury unit, currency
-- and category of methods, its minimum and its maximum lie within.
abbrev pub covers : ApprovalPolicy → ApprovalPolicy → Bool
covers l r =
    is_within l.branch_id r.branch_id
    && is_within l.treasury_unit_id r.treasury_unit_id
    && is_within l.currency r.currency
    && is_within l.method_category r.method_category
    && starts_within l.amount_minimum r.amount_minimum
    && ends_within l.amount_maximum r.amount_maximum

optional-is_within : (l r : Option ℕ) → (optional_narrower l r).allowed ≡ is_within l r
optional-is_within left none = refl
optional-is_within none (some r) = refl
optional-is_within (some l) (some r) = refl

lower-starts_within : (l r : Option Text) → (lower_narrower l r).allowed ≡ starts_within l r
lower-starts_within left none = refl
lower-starts_within none (some r) = refl
lower-starts_within (some l) (some r) = refl

upper-ends_within : (l r : Option Text) → (upper_narrower l r).allowed ≡ ends_within l r
upper-ends_within left none = refl
upper-ends_within none (some r) = refl
upper-ends_within (some l) (some r) = refl

four_and :
    (a b c d e f : Bool)
    → ((a && (b && (c && (d && true)))) && e && f) ≡ (a && b && c && d && e && f)
four_and false b c d e f = refl
four_and true false c d e f = refl
four_and true true false d e f = refl
four_and true true true false e f = refl
four_and true true true true e f = refl

allows-covers : (l r : ApprovalPolicy) → allows l r ≡ covers l r
allows-covers l r =
    rw
      (
        optional-is_within l.branch_id r.branch_id,
        optional-is_within l.treasury_unit_id r.treasury_unit_id,
        optional-is_within l.currency r.currency,
        optional-is_within l.method_category r.method_category,
        lower-starts_within l.amount_minimum r.amount_minimum,
        upper-ends_within l.amount_maximum r.amount_maximum,
      )
      (four_and (is_within l.branch_id r.branch_id)
        (is_within l.treasury_unit_id r.treasury_unit_id) (is_within l.currency r.currency)
        (is_within l.method_category r.method_category)
        (starts_within l.amount_minimum r.amount_minimum)
        (ends_within l.amount_maximum r.amount_maximum))

-- A policy dominates another one if it is as narrow in every field and not the other way round.
pub dominates-covers : (l r : ApprovalPolicy) → dominates l r ≡ (covers l r && not (covers r l))
dominates-covers l r =
    dominates-allows l r
    ∙ ap (λ (b : Bool). b && not (allows r l)) (allows-covers l r)
    ∙ ap (λ (b : Bool). covers l r && not b) (allows-covers r l)

optional_trans :
    (a b c : Option ℕ)
    → (optional_narrower a b).allowed ≡ true
    → (optional_narrower b c).allowed ≡ true
    → (optional_narrower a c).allowed ≡ true
optional_trans a b none ab bc = refl
optional_trans a none (some z) ab bc = cc
optional_trans a (some y) (some z) ab bc = rw ((==_iff y z).0 bc) at ab

lower_trans :
    (a b c : Option Text)
    → (lower_narrower a b).allowed ≡ true
    → (lower_narrower b c).allowed ≡ true
    → (lower_narrower a c).allowed ≡ true
lower_trans a b none ab bc = refl
lower_trans a none (some z) ab bc = cc
lower_trans none (some y) (some z) ab bc = cc
lower_trans (some x) (some y) (some z) ab bc =
    let p = parts_of x in
    let q = parts_of y in
    let r = parts_of z in
    at_least-at_most p r
    ∙ (at_most-AtMost r p).1 (
        AtMost-trans r q p ((at_most-AtMost r q).0 (sym (at_least-at_most q r) ∙ bc))
          ((at_most-AtMost q p).0 (sym (at_least-at_most p q) ∙ ab)))

upper_trans :
    (a b c : Option Text)
    → (upper_narrower a b).allowed ≡ true
    → (upper_narrower b c).allowed ≡ true
    → (upper_narrower a c).allowed ≡ true
upper_trans a b none ab bc = refl
upper_trans a none (some z) ab bc = cc
upper_trans none (some y) (some z) ab bc = cc
upper_trans (some x) (some y) (some z) ab bc =
    let p = parts_of x in
    let q = parts_of y in
    let r = parts_of z in
    (at_most-AtMost p r).1
      (AtMost-trans p q r ((at_most-AtMost p q).0 ab) ((at_most-AtMost q r).0 bc))

abbrev Fields : ApprovalPolicy → ApprovalPolicy → Type 0
Fields l r =
    ((optional_narrower l.branch_id r.branch_id).allowed ≡ true)
    × ((optional_narrower l.treasury_unit_id r.treasury_unit_id).allowed ≡ true)
    × ((optional_narrower l.currency r.currency).allowed ≡ true)
    × ((optional_narrower l.method_category r.method_category).allowed ≡ true)
    × ((lower_narrower l.amount_minimum r.amount_minimum).allowed ≡ true)
    × ((upper_narrower l.amount_maximum r.amount_maximum).allowed ≡ true)

allows-Fields : (l r : ApprovalPolicy) → allows l r ≡ true → Fields l r
allows-Fields l r e =
    let some_keys = all (λ (n : Narrowing). n.allowed) (keys l r) in
    let lower = (lower_narrower l.amount_minimum r.amount_minimum).allowed in
    let (front, upper) = and-true (some_keys && lower) _ e in
    let (all_keys, is_lower) = and-true some_keys lower front in
    let (branch, e1) = and-true (optional_narrower l.branch_id r.branch_id).allowed _ all_keys in
    let (unit, e2) =
      and-true (optional_narrower l.treasury_unit_id r.treasury_unit_id).allowed _ e1 in
    let (money, e3) = and-true (optional_narrower l.currency r.currency).allowed _ e2 in
    let (method, e4) =
      and-true (optional_narrower l.method_category r.method_category).allowed _ e3 in
    (branch, unit, money, method, is_lower, upper)

Fields-allows : (l r : ApprovalPolicy) → Fields l r → allows l r ≡ true
Fields-allows l r (branch, unit, money, method, lower, upper) =
    rw (branch, unit, money, method, lower, upper) refl

covers_trans : (a b c : ApprovalPolicy) → allows a b ≡ true → allows b c ≡ true → allows a c ≡ true
covers_trans a b c ab bc =
    let (b1, u1, m1, c1, l1, h1) = allows-Fields a b ab in
    let (b2, u2, m2, c2, l2, h2) = allows-Fields b c bc in
    Fields-allows a c (
      optional_trans a.branch_id b.branch_id c.branch_id b1 b2,
      optional_trans a.treasury_unit_id b.treasury_unit_id c.treasury_unit_id u1 u2,
      optional_trans a.currency b.currency c.currency m1 m2,
      optional_trans a.method_category b.method_category c.method_category c1 c2,
      lower_trans a.amount_minimum b.amount_minimum c.amount_minimum l1 l2,
      upper_trans a.amount_maximum b.amount_maximum c.amount_maximum h1 h2,
    )

dominates-both :
    (l r : ApprovalPolicy) → dominates l r ≡ true → (allows l r ≡ true) × (allows r l ≡ false)
dominates-both l r e =
    let (one, other) = and-true (allows l r) (not (allows r l)) (sym (dominates-allows l r) ∙ e) in
    (one, false_of_not (allows r l) other)

pub dominates_irreflexive : (a : ApprovalPolicy) → dominates a a ≡ false
dominates_irreflexive a = elim (Bool-cases (dominates a a)) [
  | inr not_so ↦ not_so
  | inl so ↦ (let (one, other) = dominates-both a a so in cc (one, other))
]

pub dominates_trans :
    (a b c : ApprovalPolicy) → dominates a b ≡ true → dominates b c ≡ true → dominates a c ≡ true
dominates_trans a b c ab bc =
    let (ab_in, ba_out) = dominates-both a b ab in
    let (bc_in, cb_out) = dominates-both b c bc in
    let narrower = covers_trans a b c ab_in bc_in in
    elim (Bool-cases (allows c a)) [
      | inr out ↦ dominates-allows a c ∙ rw (narrower, out) refl
      | inl back ↦ (let cb = covers_trans c a b back ab_in in cc (cb, cb_out))
    ]
