-- ===== src/Approval/Policy/Unique.antt =====
-- The policy that `uniqueMaximal` returns.
use treasury_backend.Prelude.{
  Bool, Bool-cases, List, [], and-true, any, ap, arith, false, filter, inl, inr, length, not, refl,
  some, some-injective, subst, suc, sym, true, zero, ℕ, ◌&&◌, ◌<◌, ◌==◌, ◌∙◌, ◌∷◌, ◌≡◌, ◌≤◌, ◌⊎◌,
}
use treasury_backend.Approval.Decimals.{above}
use treasury_backend.Approval.Policy.{
  ApprovalPolicy, dominates, is_dominated, only_one, unique_maximal,
}
use treasury_backend.Approval.Policy.Order.{dominates_irreflexive, dominates_trans}

abbrev pub Mem : ApprovalPolicy → List ApprovalPolicy → Type 0
Mem x [] = ⊥
Mem x (y ∷ ys) = (x ≡ y) ⊎ Mem x ys

-- What `some` and `filter` say of the members.
any-Mem :
    (p : ApprovalPolicy → Bool) (xs : List ApprovalPolicy)
    → any p xs ≡ true
    → (x : ApprovalPolicy) × Mem x xs × (p x ≡ true)
any-Mem p [] e = cc
any-Mem p (y ∷ ys) e = elim (Bool-cases (p y)) [
  | inl here ↦ (y, inl refl, here)
  | inr elsewhere ↦
      (let (x, member, holds) = any-Mem p ys (rw elsewhere at e) in (x, inr member, holds))
]

Mem-filter :
    (p : ApprovalPolicy → Bool) (x : ApprovalPolicy) (xs : List ApprovalPolicy)
    → p x ≡ true
    → Mem x xs
    → Mem x (filter p xs)
Mem-filter p x [] holds member = member
Mem-filter p x (y ∷ ys) holds (inl same) = rw (ap p (sym same) ∙ holds) (inl same)
Mem-filter p x (y ∷ ys) holds (inr member) = elim (Bool-cases (p y)) [
  | inl kept ↦ rw kept (inr (Mem-filter p x ys holds member))
  | inr dropped ↦ rw dropped (Mem-filter p x ys holds member)
]

kept_Mem :
    (x y : ApprovalPolicy) (ys kept : List ApprovalPolicy)
    → (Mem x kept → Mem x ys)
    → Mem x (y ∷ kept)
    → Mem x (y ∷ ys)
kept_Mem x y ys kept inner (inl same) = inl same
kept_Mem x y ys kept inner (inr member) = inr (inner member)

only_member : (x c : ApprovalPolicy) → Mem x (c ∷ []) → x ≡ c
only_member x c (inl same) = same
only_member x c (inr member) = elim member [ ]

filter-Mem :
    (p : ApprovalPolicy → Bool) (x : ApprovalPolicy) (xs : List ApprovalPolicy)
    → Mem x (filter p xs)
    → Mem x xs
filter-Mem p x [] member = member
filter-Mem p x (y ∷ ys) member = elim (Bool-cases (p y)) [
  | inl kept ↦ kept_Mem x y ys (filter p ys) (filter-Mem p x ys) (rw kept at member)
  | inr dropped ↦ inr (filter-Mem p x ys (rw dropped at member))
]

-- A stronger test keeps less, and strictly less where it drops a member.
filter_monotone :
    (p q : ApprovalPolicy → Bool) (xs : List ApprovalPolicy)
    → ((x : ApprovalPolicy) → p x ≡ true → q x ≡ true)
    → length (filter p xs) ≤ length (filter q xs)
filter_monotone p q [] stronger = omega arith
filter_monotone p q (y ∷ ys) stronger =
    let rest = filter_monotone p q ys stronger in
    elim (Bool-cases (p y)) [
      | inl kept ↦ rw (kept, stronger y kept) (omega (arith, rest))
      | inr dropped ↦ elim (Bool-cases (q y)) [
        | inl kept ↦ rw (dropped, kept) (omega (arith, rest))
        | inr dropped' ↦ rw (dropped, dropped') rest
      ]
    ]

filter_strict :
    (p q : ApprovalPolicy → Bool) (xs : List ApprovalPolicy) (x : ApprovalPolicy)
    → ((y : ApprovalPolicy) → p y ≡ true → q y ≡ true)
    → Mem x xs
    → p x ≡ false
    → q x ≡ true
    → length (filter p xs) < length (filter q xs)
filter_strict p q [] x stronger member out in_q = elim member [ ]
filter_strict p q (y ∷ ys) x stronger (inl same) out in_q =
    let rest = filter_monotone p q ys stronger in
    rw (ap p (sym same) ∙ out, ap q (sym same) ∙ in_q) (omega (arith, rest))
filter_strict p q (y ∷ ys) x stronger (inr member) out in_q =
    let rest = filter_strict p q ys x stronger member out in_q in
    elim (Bool-cases (p y)) [
      | inl kept ↦ rw (kept, stronger y kept) (omega (arith, rest))
      | inr dropped ↦ elim (Bool-cases (q y)) [
        | inl kept ↦ rw (dropped, kept) (omega (arith, rest))
        | inr dropped' ↦ rw (dropped, dropped') rest
      ]
    ]

only_one-some : (xs : List ApprovalPolicy) (c : ApprovalPolicy) → only_one xs ≡ some c → xs ≡ c ∷ []
only_one-some [] c e = cc
only_one-some (x ∷ []) c e = ap (λ (y : ApprovalPolicy). y ∷ []) (some-injective e)
only_one-some (x ∷ y ∷ zs) c e = cc

no_rank : (a b : ℕ) → a < b → b ≤ 0 → ⊥
no_rank a b falls bound = omega arith

lower_rank : (a b n : ℕ) → a < b → b ≤ suc n → a ≤ n
lower_rank a b n falls bound = omega arith

climb :
    (c above o : ApprovalPolicy)
    → dominates above o ≡ true
    → (above ≡ c) ⊎ (dominates c above ≡ true)
    → dominates c o ≡ true
climb c above o over (inl same) = ap (λ (x : ApprovalPolicy). dominates x o) (sym same) ∙ over
climb c above o over (inr higher) = dominates_trans c above o higher over

module _ (cs : List ApprovalPolicy) (c : ApprovalPolicy)
    (chosen : filter (λ x. not (is_dominated cs x)) cs ≡ c ∷ []) where
  -- The number of candidates that dominate a policy.
  abbrev rank : ApprovalPolicy → ℕ
  rank o = length (filter (λ x. dominates x o) cs)

  rank_falls :
      (above o : ApprovalPolicy) → Mem above cs → dominates above o ≡ true → rank above < rank o
  rank_falls above o member over =
      filter_strict (λ x. dominates x above) (λ x. dominates x o) cs above
        (λ y e. dominates_trans y above o e over) member (dominates_irreflexive above) over

  undominated : (o : ApprovalPolicy) → Mem o cs → is_dominated cs o ≡ false → o ≡ c
  undominated o member free =
      only_member o c (
        subst (Mem o) chosen (Mem-filter (λ x. not (is_dominated cs x)) o cs (rw free refl) member))

  next_up :
      (o : ApprovalPolicy)
      → is_dominated cs o ≡ true
      → (above : ApprovalPolicy) × Mem above cs × (dominates above o ≡ true)
  next_up o dominated =
      let (above, member, both) =
        any-Mem (λ (x : ApprovalPolicy). not (x.id == o.id) && dominates x o) cs dominated in
      (above, member, (and-true (not (above.id == o.id)) _ both).1)

  pub reached :
      (n : ℕ) (o : ApprovalPolicy) → Mem o cs → rank o ≤ n → (o ≡ c) ⊎ (dominates c o ≡ true)
  reached zero o member bound = elim (Bool-cases (is_dominated cs o)) [
    | inr free ↦ inl (undominated o member free)
    | inl dominated ↦
        (let (above, member', over) = next_up o dominated in
          let falls = rank_falls above o member' over in
          elim (no_rank (rank above) (rank o) falls bound) [ ])
  ]
  reached (suc n) o member bound = elim (Bool-cases (is_dominated cs o)) [
    | inr free ↦ inl (undominated o member free)
    | inl dominated ↦
        (let (above, member', over) = next_up o dominated in
          let falls = rank_falls above o member' over in
          inr (
            climb c above o over
              (reached n above member' (lower_rank (rank above) (rank o) n falls bound))))
  ]

-- The policy that `uniqueMaximal` returns is a candidate that dominates every other candidate: it is
-- at least as narrow as each of them in every field, and they are not as narrow as it is.
pub unique_maximal-dominates :
    (cs : List ApprovalPolicy) (c : ApprovalPolicy)
    → unique_maximal cs ≡ some c
    → Mem c cs × ((o : ApprovalPolicy) → Mem o cs → (o ≡ c) ⊎ (dominates c o ≡ true))
unfolding unique_maximal
unique_maximal-dominates cs c e =
    let chosen = only_one-some (filter (λ x. not (is_dominated cs x)) cs) c e in
    (
      filter-Mem (λ x. not (is_dominated cs x)) c cs (subst (Mem c) (sym chosen) (inl refl)),
      λ o member.
          reached cs c chosen (length (filter (λ x. dominates x o) cs)) o member (omega arith),
    )
