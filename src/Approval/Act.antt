-- ===== src/Approval/Act.antt =====
-- The decision of `act` of src/payments/payment-approval.service.ts on the steps of a snapshot, with
-- `currentSteps` and `insertAction` of src/payments/payment-approval.repository.ts. The lookups and
-- the permission before it, and the aggregation, are not part of it.
pub mod Count
pub mod Complete
use treasury_backend.Prelude.{
  Bool, List, Option, [], any, false, filter, find, if◌then◌else◌, includes, is_nil, is_some, leb,
  ltb, map, none, not, option_eq, present, some, suc, true, ℕ, ◌&&◌, ◌++◌, ◌==◌, ◌∷◌,
}
use treasury_backend.Store.{Result, ok, scope_denied, state_conflict, throw_if, ◌>>=◌, ◌>>◌}
use treasury_backend.Payment.{
  ApprovalAction, PaymentState, action_approved, action_rejected, action_returned, approval_pending,
  approved, draft, rejected,
}

pub data ActCommand : Type 0 where
  approve reject give_back : ActCommand

pub data SeparationRule : Type 0 where
  creator_not_approver requester_not_approver other_rule : SeparationRule

-- A row of payment_approval_snapshot_steps.
pub record ApprovalStep : Type 0 where
  pub id : ℕ
  pub order : ℕ
  pub approver_user_id : Option ℕ
  pub approvals_required : ℕ
  pub separation_rules : List SeparationRule

-- A row of payment_approval_actions of the snapshot.
pub record StepAction : Type 0 where
  pub step_id : Option ℕ
  pub actor_user_id : ℕ
  pub delegated_from_user_id : Option ℕ
  pub action : ApprovalAction

-- The payment and the authority that the decision is made on.
pub record ActContext : Type 0 where
  pub state : PaymentState
  pub creator_user_id : ℕ
  pub requester_user_id : Option ℕ
  pub actor_user_id : ℕ
  pub delegated_from_user_id : Option ℕ

-- count(DISTINCT …)
abbrev pub count_distinct : List ℕ → ℕ
count_distinct [] = 0
count_distinct (x ∷ xs) = if includes x xs then count_distinct xs else suc (count_distinct xs)

abbrev pub is_approval : ApprovalAction → Bool
is_approval action_approved = true
is_approval _ = false

abbrev pub approves : ℕ → StepAction → Bool
approves step a = option_eq a.step_id (some step) && is_approval a.action

-- `approvalsRecorded` of `currentSteps`
abbrev pub recorded : List StepAction → ApprovalStep → ℕ
recorded actions s =
    count_distinct (map (λ (a : StepAction). a.actor_user_id) (filter (approves s.id) actions))

abbrev pub is_unfinished : List StepAction → ApprovalStep → Bool
is_unfinished actions s = ltb (recorded actions s) s.approvals_required

abbrev pub can_act : ActCommand → PaymentState → Bool
can_act give_back approval_pending = true
can_act give_back approved = true
can_act give_back _ = false
can_act _ approval_pending = true
can_act _ _ = false

abbrev pub is_give_back : ActCommand → Bool
is_give_back give_back = true
is_give_back _ = false

abbrev last_step : List ApprovalStep → Option ApprovalStep
last_step [] = none
last_step (s ∷ []) = some s
last_step (s ∷ t ∷ rest) = last_step (t ∷ rest)

-- `current ?? (RETURN ? steps.at(-1) : undefined)`
abbrev pub step_for : ActCommand → Option ApprovalStep → List ApprovalStep → Option ApprovalStep
step_for command (some s) steps = some s
step_for command none steps = if is_give_back command then last_step steps else none

abbrev same_rule : SeparationRule → SeparationRule → Bool
same_rule creator_not_approver creator_not_approver = true
same_rule requester_not_approver requester_not_approver = true
same_rule other_rule other_rule = true
same_rule _ _ = false

abbrev has_rule : SeparationRule → List SeparationRule → Bool
has_rule rule rules = any (same_rule rule) rules

abbrev subjects_of : ActContext → List ℕ
subjects_of ctx = ctx.actor_user_id ∷ present (ctx.delegated_from_user_id ∷ [])

abbrev without : Option ℕ → List ℕ → Bool
without none subjects = false
without (some id) subjects = not (includes id subjects)

abbrev among : Option ℕ → List ℕ → Bool
among none subjects = true
among (some id) subjects = includes id subjects

-- `assertStepEligibility`
unfoldable pub assert_step_eligibility : ActContext → Option ApprovalStep → Result (Unit {0})
assert_step_eligibility ctx none = ok tt
assert_step_eligibility ctx (some s) = do
  throw_if (without s.approver_user_id (subjects_of ctx)) scope_denied
  throw_if
      (has_rule creator_not_approver s.separation_rules
        && includes ctx.creator_user_id (subjects_of ctx))
      scope_denied
  throw_if
      (has_rule requester_not_approver s.separation_rules
        && among ctx.requester_user_id (subjects_of ctx))
      scope_denied

abbrev pub step_id_of : Option ApprovalStep → Option ℕ
step_id_of none = none
step_id_of (some s) = some s.id

abbrev action_of : ActCommand → ApprovalAction
action_of approve = action_approved
action_of reject = action_rejected
action_of give_back = action_returned

-- The unique indexes on the actions of an actor at a step, or at no step.
abbrev pub has_acted : ActContext → Option ℕ → StepAction → Bool
has_acted ctx step a = option_eq a.step_id step && a.actor_user_id == ctx.actor_user_id

unfoldable pub insert_action :
    ActContext → ActCommand → Option ApprovalStep → List StepAction → Result (List StepAction)
insert_action ctx command step actions = do
  throw_if (any (has_acted ctx (step_id_of step)) actions) state_conflict
  ok (
      actions
      ++ record {
        step_id = step_id_of step;
        actor_user_id = ctx.actor_user_id;
        delegated_from_user_id = ctx.delegated_from_user_id;
        action = action_of command;
      }
        ∷ [])

-- The state after an approval at the current step.
abbrev pub after_approval : List StepAction → Option ApprovalStep → List ApprovalStep → PaymentState
after_approval actions none steps = approval_pending
after_approval actions (some c) steps =
    if leb c.approvals_required (suc (recorded actions c))
      && not (any (λ (s : ApprovalStep). ltb c.order s.order) steps)
    then approved
    else approval_pending

abbrev pub next_state :
    ActCommand → List StepAction → Option ApprovalStep → List ApprovalStep → PaymentState
next_state approve actions current steps = after_approval actions current steps
next_state reject actions current steps = rejected
next_state give_back actions current steps = draft

unfoldable pub decide :
    ActContext
    → ActCommand
    → List ApprovalStep
    → List StepAction
    → Result (PaymentState × List StepAction)
decide ctx command steps actions = do
  throw_if (not (can_act command ctx.state)) state_conflict
  let current = find (is_unfinished actions) steps
  let step = step_for command current steps
  throw_if (not (is_nil steps) && not (is_some step)) state_conflict
  throw_if (not (is_give_back command) && not (is_some current)) state_conflict
  assert_step_eligibility ctx step
  actions' ← insert_action ctx command step actions
  ok (next_state command actions current steps, actions')
