-- ===== src/Approval/Steps/Terminates.antt =====
-- The loop of `composeSteps` ends.
use mathlib.Core.Option
use treasury_backend.Prelude.{
  Bool, Bool-cases, List, Option, [], ap, arith, false, filter, if◌then◌else◌, inl, inr, is_some,
  length, length-append, none, present, refl, some, suc, true, zero, ℕ, ◌++◌, ◌+◌, ◌∙◌, ◌∷◌, ◌≡◌,
  ◌≤◌,
}
use treasury_backend.Prelude.Int.{ltb_ℤ, pos, ℤ, ◌-ℤ◌, ◌==ℤ◌}
use treasury_backend.Approval.Steps.{
  ApprovalContext, Graph, Locale, Node, StepKey, comes_first, compose_steps, first_or, graph_of,
  initially_ready, insert_sorted, node_of, order_nodes, others, release, same_step, set_at, sort,
  steps_of, value_at,
}

-- The keys that still have an edge to them.
abbrev positives : List (StepKey × ℤ) → ℕ
positives [] = 0
positives ((k, v) ∷ rest) = if ltb_ℤ (pos 0) v then suc (positives rest) else positives rest

abbrev decremented : StepKey → List (StepKey × ℤ) → List (StepKey × ℤ)
decremented key list = set_at key (λ d. d -ℤ pos 1) list

still_positive : (v : ℤ) → ltb_ℤ (pos 0) v ≡ false → ltb_ℤ (pos 0) (v -ℤ pos 1) ≡ false
unfolding ◌-ℤ◌
still_positive v e = ground arith

was_one :
    (v : ℤ)
    → (v -ℤ pos 1 ==ℤ pos 0) ≡ true
    → (ltb_ℤ (pos 0) v ≡ true) × (ltb_ℤ (pos 0) (v -ℤ pos 1) ≡ false)
unfolding ◌-ℤ◌
was_one v e = ground arith

positives-decremented_le :
    (key : StepKey) (list : List (StepKey × ℤ)) → positives (decremented key list) ≤ positives list
positives-decremented_le key [] = omega arith
positives-decremented_le key ((k, v) ∷ rest) = elim (Bool-cases (same_step k key)) [
  | inl here ↦ elim (Bool-cases (ltb_ℤ (pos 0) v)) [
    | inl more ↦ elim (Bool-cases (ltb_ℤ (pos 0) (v -ℤ pos 1))) [
      | inl still ↦ rw (here, more, still) (omega arith)
      | inr none_left ↦ rw (here, more, none_left) (omega arith)
    ]
    | inr nothing ↦ rw (here, nothing, still_positive v nothing) (omega arith)
  ]
  | inr elsewhere ↦
      (let below = positives-decremented_le key rest in
        elim (Bool-cases (ltb_ℤ (pos 0) v)) [
          | inl more ↦ rw (elsewhere, more) (omega (arith, below))
          | inr nothing ↦ rw (elsewhere, nothing) below
        ])
]

positives-decremented_lt :
    (key : StepKey) (list : List (StepKey × ℤ))
    → (value_at (pos 1) key (decremented key list) ==ℤ pos 0) ≡ true
    → suc (positives (decremented key list)) ≤ positives list
positives-decremented_lt key [] e = cc
positives-decremented_lt key ((k, v) ∷ rest) e = elim (Bool-cases (same_step k key)) [
  | inl here ↦
      (let (more, nothing) = was_one v (rw (here, here) at e) in
        rw (here, more, nothing) (omega arith))
  | inr elsewhere ↦
      (let below = positives-decremented_lt key rest (rw (elsewhere, elsewhere) at e) in
        elim (Bool-cases (ltb_ℤ (pos 0) v)) [
          | inl more ↦ rw (elsewhere, more) (omega (arith, below))
          | inr nothing ↦ rw (elsewhere, nothing) below
        ])
]

length-insert_sorted :
    (before : Node → Node → Bool) (x : Node) (ys : List Node)
    → length (insert_sorted before x ys) ≡ suc (length ys)
unfolding insert_sorted
length-insert_sorted before x [] = refl
length-insert_sorted before x (y ∷ ys) = elim (Bool-cases (before y x)) [
  | inl first ↦ rw first (ap (λ (n : ℕ). suc n) (length-insert_sorted before x ys))
  | inr after ↦ rw after refl
]

length-sort : (before : Node → Node → Bool) (xs : List Node) → length (sort before xs) ≡ length xs
unfolding sort
length-sort before [] = refl
length-sort before (x ∷ xs) =
    length-insert_sorted before x (sort before xs) ∙ ap (λ (n : ℕ). suc n) (length-sort before xs)

length-present : (o : Option Node) → length (present (o ∷ [])) ≤ 1
length-present none = omega arith
length-present (some n) = omega arith

chain_le : (a b c : ℕ) → a ≤ b → b ≤ c → a ≤ c
chain_le a b c ab bc = omega arith

no_fuel : (a b : ℕ) → suc a + b ≤ 0 → ⊥
no_fuel a b enough = omega arith

-- A key that becomes ready is one that had an edge.
freed_measure :
    (nodes : List Node) (target : StepKey) (indegree : List (StepKey × ℤ)) (ready : List Node)
    → length (
          if value_at (pos 1) target (decremented target indegree) ==ℤ pos 0
          then ready ++ present (node_of target nodes ∷ [])
          else ready)
        + positives (decremented target indegree)
      ≤ length ready + positives indegree
freed_measure nodes target indegree ready =
    elim (Bool-cases (value_at (pos 1) target (decremented target indegree) ==ℤ pos 0)) [
      | inl freed ↦
          (let fewer = positives-decremented_lt target indegree freed in
            let count = length-append ready (present (node_of target nodes ∷ [])) in
            let one = length-present (node_of target nodes) in
            rw (freed, count) (omega (arith, fewer, one)))
      | inr waits ↦
          (let fewer = positives-decremented_le target indegree in rw waits (omega (arith, fewer)))
    ]

release-measure :
    (nodes : List Node) (targets : List StepKey) (indegree : List (StepKey × ℤ)) (ready : List Node)
    → length (release nodes targets indegree ready).1
        + positives (release nodes targets indegree ready).0
      ≤ length ready + positives indegree
unfolding release
release-measure nodes [] indegree ready = omega arith
release-measure nodes (target ∷ targets) indegree ready =
    let step = freed_measure nodes target indegree ready in
    let rest = release-measure nodes targets (decremented target indegree) (
      if value_at (pos 1) target (decremented target indegree) ==ℤ pos 0
      then ready ++ present (node_of target nodes ∷ [])
      else ready) in
    chain_le _ _ _ rest step

length-others : (xs : List Node) (n : ℕ) → length xs ≡ suc n → length (others xs) ≡ n
length-others [] n e = omega (arith, e)
length-others (x ∷ xs) n e = omega (arith, e)

order_nodes-ends :
    (fuel : ℕ) (locale : Locale) (g : Graph) (indegree : List (StepKey × ℤ))
    (ready ordered : List Node)
    → length ready + positives indegree ≤ fuel
    → is_some (order_nodes fuel locale g indegree ready ordered) ≡ true
unfolding order_nodes
order_nodes-ends fuel locale g indegree [] ordered enough = refl
order_nodes-ends zero locale g indegree (n ∷ ns) ordered enough =
    elim (no_fuel (length ns) (positives indegree) enough) [ ]
order_nodes-ends (suc fuel) locale g indegree (n ∷ ns) ordered enough =
    let sorted = sort (comes_first locale) (n ∷ ns) in
    let node = first_or n sorted in
    let targets = value_at [] node.key g.edges in
    let measure = release-measure g.nodes targets indegree (others sorted) in
    let count = length-others sorted (length ns) (length-sort (comes_first locale) (n ∷ ns)) in
    order_nodes-ends fuel locale g (release g.nodes targets indegree (others sorted)).0
      (release g.nodes targets indegree (others sorted)).1 (ordered ++ node ∷ [])
      (omega (arith, measure, count, enough))

positives_le : (list : List (StepKey × ℤ)) → positives list ≤ length list
positives_le [] = omega arith
positives_le ((k, v) ∷ rest) =
    let below = positives_le rest in
    elim (Bool-cases (ltb_ℤ (pos 0) v)) [
      | inl more ↦ rw more (omega (arith, below))
      | inr nothing ↦ rw nothing (omega (arith, below))
    ]

length-filter_le : (p : Node → Bool) (xs : List Node) → length (filter p xs) ≤ length xs
length-filter_le p [] = omega arith
length-filter_le p (x ∷ xs) =
    let below = length-filter_le p xs in
    elim (Bool-cases (p x)) [
      | inl kept ↦ rw kept (omega (arith, below))
      | inr dropped ↦ rw dropped (omega (arith, below))
    ]

is_some-map :
    {A B : Type 0} (f : A → B) (o : Option A) → is_some o ≡ true → is_some (Option.map f o) ≡ true
is_some-map f none e = cc
is_some-map f (some a) e = refl

-- The loop of `composeSteps` ends for every list of contexts, whatever the order of the texts: as many
-- rounds as there are nodes and keys are enough.
pub compose_steps-ends :
    (locale : Locale) (contexts : List ApprovalContext)
    → is_some (compose_steps locale contexts) ≡ true
unfolding compose_steps
compose_steps-ends locale contexts =
    let g = graph_of contexts (record { nodes = []; edges = []; indegree = [] }) in
    let ready =
      length-filter_le (λ (n : Node). value_at (pos 1) n.key g.indegree ==ℤ pos 0) g.nodes in
    let keys = positives_le g.indegree in
    is_some-map (steps_of g) (order_nodes _ locale g g.indegree (initially_ready g) []) (
      order_nodes-ends (length g.nodes + length g.indegree) locale g g.indegree (initially_ready g)
        [] (omega (arith, ready, keys)))
