-- ===== src/Approval/Tests.antt =====
-- The choice of a policy and the composition of its steps, on small inputs.
use treasury_backend.Prelude.{
  List, Option, Ordering, [], compare, is_some, map, none, not, refl, some, true, ℕ, ◌&&◌, ◌∷◌, ◌≡◌,
  ◌⊎◌,
}
use treasury_backend.Prelude.Int.{◌+ℤ◌, ◌-ℤ◌}
use treasury_backend.Money.{Text, big_int, big_int_from, split}
use treasury_backend.Store.{Result, approval_policy_unavailable, err, ok}
use treasury_backend.Approval.Decimals.{compare_parts, decimal_parts}
use treasury_backend.Approval.Policy.{ApprovalPolicy, dominates, unique_maximal}
use treasury_backend.Approval.Policy.Order.{covers, dominates-covers}
use treasury_backend.Approval.Policy.Unique.{Mem, unique_maximal-dominates}
use treasury_backend.Approval.Steps.{
  ApprovalContext, ComposedStep, Locale, PolicyStep, Subject, add_edge, add_node, add_steps,
  compose_steps, graph_of, insert_sorted, order_nodes, release, role_subject, sort,
}
use treasury_backend.Approval.Steps.Terminates.{compose_steps-ends}

abbrev policy : ℕ → Option ℕ → Option Text → ApprovalPolicy
policy id branch minimum = record {
  id = id;
  branch_id = branch;
  treasury_unit_id = none;
  currency = some 1;
  method_category = none;
  amount_minimum = minimum;
  amount_maximum = none;
}

-- One for all, one for a branch, and one for the branch from 2.50 on.
abbrev widest : ApprovalPolicy
widest = policy 1 none none

abbrev of_branch : ApprovalPolicy
of_branch = policy 2 (some 7) (some (b'2' ∷ []))

abbrev narrowest : ApprovalPolicy
narrowest = policy 3 (some 7) (some (b'2' ∷ b'.' ∷ b'5' ∷ b'0' ∷ []))

abbrev candidates : List ApprovalPolicy
candidates = widest ∷ of_branch ∷ narrowest ∷ []

chosen : unique_maximal candidates ≡ some narrowest
unfolding unique_maximal dominates compare_parts decimal_parts split big_int big_int_from
chosen = refl

unique_maximal-dominates_example :
    Mem narrowest candidates
    × ((o : ApprovalPolicy) → Mem o candidates → (o ≡ narrowest) ⊎ (dominates narrowest o ≡ true))
unique_maximal-dominates_example = unique_maximal-dominates candidates narrowest chosen

dominates-covers_example :
    dominates narrowest of_branch ≡ (covers narrowest of_branch && not (covers of_branch narrowest))
dominates-covers_example = dominates-covers narrowest of_branch

-- Two policies that are narrower in different fields leave no choice.
no_choice : unique_maximal (policy 4 (some 7) none ∷ policy 5 none (some (b'2' ∷ [])) ∷ []) ≡ none
unfolding unique_maximal dominates compare_parts decimal_parts split big_int big_int_from
no_choice = refl

abbrev locale : Locale
locale = record { compare_ids = compare; compare_keys = λ a b. Ordering.eq }

abbrev step : ℕ → ℕ → PolicyStep
step order role = record {
  step_order = order;
  subject = role_subject role;
  approvals_required = 1;
  separation_rules = [];
}

abbrev context : ℕ → List PolicyStep → ApprovalContext
context order steps = record { order = order; policy_id = order; policy_version = 1; steps = steps }

-- The clerk and the chief, then the auditor and the chief: the chief comes last, and once.
abbrev contexts : List ApprovalContext
contexts = context 1 (step 1 10 ∷ step 2 30 ∷ []) ∷ context 2 (step 1 20 ∷ step 2 30 ∷ []) ∷ []

abbrev subjects : Option (Result (List ComposedStep)) → List Subject
subjects (some (ok steps)) = map (λ (s : ComposedStep). s.key.subject) steps
subjects _ = []

composed :
    subjects (compose_steps locale contexts)
    ≡ role_subject 10 ∷ role_subject 20 ∷ role_subject 30 ∷ []
unfolding compose_steps order_nodes release graph_of add_steps add_edge add_node sort insert_sorted
    ◌+ℤ◌ ◌-ℤ◌
composed = refl

-- Two contexts that ask for opposite orders are refused.
opposite :
    compose_steps locale
      (context 1 (step 1 10 ∷ step 2 30 ∷ []) ∷ context 2 (step 1 30 ∷ step 2 10 ∷ []) ∷ [])
    ≡ some (err approval_policy_unavailable)
unfolding compose_steps order_nodes release graph_of add_steps add_edge add_node sort insert_sorted
    ◌+ℤ◌ ◌-ℤ◌
opposite = refl

compose_steps-ends_example : is_some (compose_steps locale contexts) ≡ true
compose_steps-ends_example = compose_steps-ends locale contexts
