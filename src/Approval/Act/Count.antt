-- ===== src/Approval/Act/Count.antt =====
-- The approvals that are recorded at a step, before and after an action.
use treasury_backend.Prelude.{
  ==_iff, Bool, Bool-cases, List, [], and-true, and_false, any, ap, arith, false, filter, includes,
  inl, inr, map, option_eq, or-false, or_assoc, or_false, refl, some, suc, sym, true, ℕ, ◌&&◌, ◌++◌,
  ◌==◌, ◌||◌, ◌∙◌, ◌∷◌, ◌≡◌, ◌≤◌,
}
use treasury_backend.Approval.Act.{ApprovalStep, StepAction, approves, count_distinct, recorded}

includes-append : (x y : ℕ) (xs : List ℕ) → includes x (xs ++ y ∷ []) ≡ (includes x xs || x == y)
includes-append x y [] = or_false (x == y)
includes-append x y (z ∷ zs) =
    ap (λ (b : Bool). (x == z) || b) (includes-append x y zs)
    ∙ sym (or_assoc (x == z) (includes x zs) (x == y))

-- One more value, which is new, counts.
count_distinct-new :
    (y : ℕ) (xs : List ℕ)
    → any (λ (x : ℕ). x == y) xs ≡ false
    → count_distinct (xs ++ y ∷ []) ≡ suc (count_distinct xs)
count_distinct-new y [] new = refl
count_distinct-new y (x ∷ xs) new =
    let (other, rest) = or-false (x == y) _ new in
    let same : includes x (xs ++ y ∷ []) ≡ includes x xs =
      includes-append x y xs
      ∙ ap (λ (b : Bool). includes x xs || b) other
      ∙ or_false (includes x xs) in
    elim (Bool-cases (includes x xs)) [
      | inl seen ↦ rw (same, seen) (count_distinct-new y xs rest)
      | inr first ↦ rw (same, first) (ap (λ (n : ℕ). suc n) (count_distinct-new y xs rest))
    ]

module _ (a : StepAction) (c : ApprovalStep) where
  -- The approvals that the new action adds at a step.
  appended :
      (actions : List StepAction)
      → approves c.id a ≡ true
      → map (λ (b : StepAction). b.actor_user_id) (filter (approves c.id) (actions ++ a ∷ []))
        ≡ map (λ (b : StepAction). b.actor_user_id) (filter (approves c.id) actions)
          ++ a.actor_user_id ∷ []
  appended [] counts = rw counts refl
  appended (b ∷ rest) counts = elim (Bool-cases (approves c.id b)) [
    | inl kept ↦ rw kept (ap (λ (l : List ℕ). b.actor_user_id ∷ l) (appended rest counts))
    | inr dropped ↦ rw dropped (appended rest counts)
  ]

  not_yet :
      (actions : List StepAction)
      → any
          (λ (b : StepAction).
            option_eq b.step_id (some c.id) && b.actor_user_id == a.actor_user_id)
          actions
        ≡ false
      → any
          (λ (x : ℕ). x == a.actor_user_id)
          (map (λ (b : StepAction). b.actor_user_id) (filter (approves c.id) actions))
        ≡ false
  not_yet [] none_acted = refl
  not_yet (b ∷ rest) none_acted =
      let (this, others) =
        or-false (option_eq b.step_id (some c.id) && b.actor_user_id == a.actor_user_id) _
          none_acted in
      elim (Bool-cases (approves c.id b)) [
        | inr dropped ↦ rw dropped (not_yet rest others)
        | inl kept ↦
            (let (at_step, approval) = and-true (option_eq b.step_id (some c.id)) _ kept in
              let other_actor = and_false _ _ at_step this in
              rw (kept, other_actor) (not_yet rest others))
      ]

  pub recorded-new :
      (actions : List StepAction)
      → approves c.id a ≡ true
      → any
          (λ (b : StepAction).
            option_eq b.step_id (some c.id) && b.actor_user_id == a.actor_user_id)
          actions
        ≡ false
      → recorded (actions ++ a ∷ []) c ≡ suc (recorded actions c)
  recorded-new actions counts none_acted =
      ap count_distinct (appended actions counts)
      ∙ count_distinct-new a.actor_user_id _ (not_yet actions none_acted)

==_comm : (a b : ℕ) → (a == b) ≡ (b == a)
==_comm a b = ground arith

any_comm : (y : ℕ) (xs : List ℕ) → any (λ (x : ℕ). x == y) xs ≡ includes y xs
any_comm y [] = refl
any_comm y (x ∷ xs) = rw (==_comm x y, any_comm y xs) refl

count_distinct_le : (y : ℕ) (xs : List ℕ) → count_distinct xs ≤ count_distinct (xs ++ y ∷ [])
count_distinct_le y [] = omega arith
count_distinct_le y (x ∷ xs) =
    let rest = count_distinct_le y xs in
    elim (Bool-cases (includes x xs)) [
      | inl seen ↦ rw (includes-append x y xs, seen) rest
      | inr first ↦ elim (Bool-cases (x == y)) [
        | inr other ↦ rw (includes-append x y xs, first, other) (omega (arith, rest))
        | inl same ↦
            (let is_y : x ≡ y = (==_iff x y).0 same in
              let new = count_distinct-new y xs (any_comm y xs ∙ rw is_y at first) in
              rw (includes-append x y xs, first, same, new) (omega arith))
      ]
    ]

filter-skip :
    (p : StepAction → Bool) (a : StepAction) (xs : List StepAction)
    → p a ≡ false
    → filter p (xs ++ a ∷ []) ≡ filter p xs
filter-skip p a [] skipped = rw skipped refl
filter-skip p a (x ∷ xs) skipped = elim (Bool-cases (p x)) [
  | inl kept ↦ rw kept (ap (λ (l : List StepAction). x ∷ l) (filter-skip p a xs skipped))
  | inr dropped ↦ rw dropped (filter-skip p a xs skipped)
]

unchanged :
    (a : StepAction) (s : ApprovalStep) (actions : List StepAction)
    → approves s.id a ≡ false
    → recorded (actions ++ a ∷ []) s ≡ recorded actions s
unchanged a s actions another =
    ap (λ (l : List StepAction). count_distinct (map (λ (b : StepAction). b.actor_user_id) l))
      (filter-skip (approves s.id) a actions another)

-- An action takes nothing from a step.
pub recorded_le :
    (a : StepAction) (s : ApprovalStep) (actions : List StepAction)
    → recorded actions s ≤ recorded (actions ++ a ∷ []) s
recorded_le a s actions = elim (Bool-cases (approves s.id a)) [
  | inl counts ↦ rw (appended a s actions counts) (
      count_distinct_le a.actor_user_id
        (map (λ (b : StepAction). b.actor_user_id) (filter (approves s.id) actions)))
  | inr another ↦ rw (unchanged a s actions another) (omega arith)
]
