-- ===== src/Approval/Steps.antt =====
-- `composeSteps` of src/payments/payment-approval.service.ts: the steps of the policies of all
-- contexts in one order. Separation rules are numbers in the order of their names.
pub mod Terminates
use mathlib.Core.Option
use treasury_backend.Prelude.{
  Bool, List, Option, Ordering, [], any, compare, false, filter, find, if◌then◌else◌, includes,
  length, ltb, none, not, present, some, suc, true, unique, update_where, zero, ℕ, ◌&&◌, ◌++◌, ◌+◌,
  ◌==◌, ◌||◌, ◌∷◌,
}
use treasury_backend.Prelude.Int.{pos, ℤ, ◌+ℤ◌, ◌-ℤ◌, ◌==ℤ◌}
use treasury_backend.Store.{Result, approval_policy_unavailable, ok, throw_if, ◌>>=◌, ◌>>◌}

pub data Subject : Type 0 where
  role_subject user_subject : ℕ → Subject

-- `ApprovalPolicyStep`; a step has a role or an approver.
pub record PolicyStep : Type 0 where
  pub step_order : ℕ
  pub subject : Subject
  pub approvals_required : ℕ
  pub separation_rules : List ℕ

-- `ApprovalContext`, with what the composition reads of its policy.
pub record ApprovalContext : Type 0 where
  pub order : ℕ
  pub policy_id : ℕ
  pub policy_version : ℕ
  pub steps : List PolicyStep

-- The text `${subject}|${approvalsRequired}|${separationRules}`.
pub record StepKey : Type 0 where
  pub subject : Subject
  pub approvals_required : ℕ
  pub separation_rules : List ℕ

pub record Node : Type 0 where
  pub key : StepKey
  pub source_context_orders : List ℕ
  pub context_order : ℕ
  pub policy_id : ℕ
  pub policy_version : ℕ
  pub step_order : ℕ

-- The Maps `nodes`, `edges` and `indegree`, in the order of insertion.
pub record Graph : Type 0 where
  pub nodes : List Node
  pub edges : List (StepKey × List StepKey)
  pub indegree : List (StepKey × ℤ)

-- `ComposedApprovalStep`, less its identifier and names.
pub record ComposedStep : Type 0 where
  pub order : ℕ
  pub key : StepKey
  pub source_context_orders : List ℕ

abbrev pub same_subject : Subject → Subject → Bool
same_subject (role_subject a) (role_subject b) = a == b
same_subject (user_subject a) (user_subject b) = a == b
same_subject _ _ = false

abbrev pub same_numbers : List ℕ → List ℕ → Bool
same_numbers [] [] = true
same_numbers [] (y ∷ ys) = false
same_numbers (x ∷ xs) [] = false
same_numbers (x ∷ xs) (y ∷ ys) = x == y && same_numbers xs ys

abbrev pub same_step : StepKey → StepKey → Bool
same_step a b =
    same_subject a.subject b.subject
    && a.approvals_required == b.approvals_required
    && same_numbers a.separation_rules b.separation_rules

-- `Array.prototype.sort`, which is stable, for a test that one element comes before another.
unfoldable pub insert_sorted {ℓ} : {A : Type ℓ} → (A → A → Bool) → A → List A → List A
insert_sorted before x [] = x ∷ []
insert_sorted before x (y ∷ ys) =
    let rest = insert_sorted before x ys in if before y x then y ∷ rest else x ∷ y ∷ ys

unfoldable pub sort {ℓ} : {A : Type ℓ} → (A → A → Bool) → List A → List A
sort before [] = []
sort before (x ∷ xs) = insert_sorted before x (sort before xs)

abbrev pub key_of_step : PolicyStep → StepKey
key_of_step s = record {
  subject = s.subject;
  approvals_required = s.approvals_required;
  separation_rules = sort ltb (unique s.separation_rules);
}

-- `nodes.get(key)`, `edges.get(key)` and `indegree.get(key)`
abbrev pub node_of : StepKey → List Node → Option Node
node_of key = find (λ (n : Node). same_step n.key key)

abbrev pub value_at {ℓ} : {A : Type ℓ} → A → StepKey → List (StepKey × A) → A
value_at absent key [] = absent
value_at absent key ((k, v) ∷ rest) = if same_step k key then v else value_at absent key rest

abbrev pub set_at {ℓ} : {A : Type ℓ} → StepKey → (A → A) → List (StepKey × A) → List (StepKey × A)
set_at key f [] = []
set_at key f ((k, v) ∷ rest) =
    if same_step k key then (k, f v) ∷ rest else (k, v) ∷ set_at key f rest

abbrev pub add_to_set : ℕ → List ℕ → List ℕ
add_to_set x xs = if includes x xs then xs else xs ++ x ∷ []

unfoldable pub add_node : ApprovalContext → PolicyStep → Graph → Graph
add_node c s g =
    let key = key_of_step s in
    elim (node_of key g.nodes) [
      | some existing ↦ record g {
        nodes =
            update_where (λ (n : Node). same_step n.key key)
              (λ n. record n { source_context_orders = add_to_set c.order n.source_context_orders })
              g.nodes;
      }
      | none ↦ record {
        nodes =
            g.nodes
            ++ record {
              key = key;
              source_context_orders = c.order ∷ [];
              context_order = c.order;
              policy_id = c.policy_id;
              policy_version = c.policy_version;
              step_order = s.step_order;
            }
              ∷ [];
        edges = g.edges ++ (key, []) ∷ [];
        indegree = g.indegree ++ (key, pos 0) ∷ [];
      }
    ]

-- An edge from the previous step of the context.
unfoldable pub add_edge : Option StepKey → StepKey → Graph → Graph
add_edge none key g = g
add_edge (some previous) key g =
    if same_step previous key || any (λ k. same_step k key) (value_at [] previous g.edges)
    then g
    else record g {
      edges = set_at previous (λ targets. targets ++ key ∷ []) g.edges;
      indegree = set_at key (λ d. d +ℤ pos 1) g.indegree;
    }

unfoldable pub add_steps : ApprovalContext → Option StepKey → List PolicyStep → Graph → Graph
add_steps c previous [] g = g
add_steps c previous (s ∷ ss) g =
    add_steps c (some (key_of_step s)) ss (add_edge previous (key_of_step s) (add_node c s g))

unfoldable pub graph_of : List ApprovalContext → Graph → Graph
graph_of [] g = g
graph_of (c ∷ cs) g = graph_of cs (add_steps c none c.steps g)

abbrev pub or_next : Ordering → Ordering → Ordering
or_next Ordering.lt next = Ordering.lt
or_next Ordering.eq next = next
or_next Ordering.gt next = Ordering.gt

-- The comparisons of `localeCompare` on policy identifiers and on keys.
pub record Locale : Type 0 where
  pub compare_ids : ℕ → ℕ → Ordering
  pub compare_keys : StepKey → StepKey → Ordering

-- `comparePriority`
abbrev pub compare_priority : Locale → Node → Node → Ordering
compare_priority locale a b = or_next (compare a.context_order b.context_order) (
    or_next (locale.compare_ids a.policy_id b.policy_id) (
      or_next (compare a.policy_version b.policy_version)
        (or_next (compare a.step_order b.step_order) (locale.compare_keys a.key b.key))))

abbrev pub comes_first : Locale → Node → Node → Bool
comes_first locale a b = elim (compare_priority locale a b) [ Ordering.lt ↦ true | _ ↦ false ]

-- The inner loop: the targets of a node lose an edge, and one without edges is ready.
unfoldable pub release :
    List Node → List StepKey → List (StepKey × ℤ) → List Node → List (StepKey × ℤ) × List Node
release nodes [] indegree ready = (indegree, ready)
release nodes (target ∷ targets) indegree ready =
    let left = set_at target (λ d. d -ℤ pos 1) indegree in
    release nodes targets left (
      if value_at (pos 1) target left ==ℤ pos 0
      then ready ++ present (node_of target nodes ∷ [])
      else ready)

-- `ready.shift()`
abbrev pub first_or : Node → List Node → Node
first_or n [] = n
first_or n (x ∷ xs) = x

abbrev pub others : List Node → List Node
others [] = []
others (x ∷ xs) = xs

-- The loop; `none` is a loop that has not ended within its fuel.
unfoldable pub order_nodes :
    ℕ → Locale → Graph → List (StepKey × ℤ) → List Node → List Node → Option (List Node)
order_nodes fuel locale g indegree [] ordered = some ordered
order_nodes zero locale g indegree (n ∷ ns) ordered = none
order_nodes (suc fuel) locale g indegree (n ∷ ns) ordered =
    let sorted = sort (comes_first locale) (n ∷ ns) in
    let node = first_or n sorted in
    let (left, ready) = release g.nodes (value_at [] node.key g.edges) indegree (others sorted) in
    order_nodes fuel locale g left ready (ordered ++ node ∷ [])

abbrev pub numbered : ℕ → List Node → List ComposedStep
numbered order [] = []
numbered order (n ∷ ns) =
    record { order = order; key = n.key; source_context_orders = sort ltb n.source_context_orders }
    ∷ numbered (suc order) ns

abbrev pub steps_of : Graph → List Node → Result (List ComposedStep)
steps_of g ordered = do
  throw_if (not (length ordered == length g.nodes)) approval_policy_unavailable
  ok (numbered 1 ordered)

abbrev pub initially_ready : Graph → List Node
initially_ready g = filter (λ (n : Node). value_at (pos 1) n.key g.indegree ==ℤ pos 0) g.nodes

-- `composeSteps`
unfoldable pub compose_steps : Locale → List ApprovalContext → Option (Result (List ComposedStep))
compose_steps locale contexts =
    let g = graph_of contexts (record { nodes = []; edges = []; indegree = [] }) in
    Option.map (steps_of g)
      (order_nodes (length g.nodes + length g.indegree) locale g g.indegree (initially_ready g) [])
