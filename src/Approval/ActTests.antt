-- ===== src/Approval/ActTests.antt =====
-- The last approval of a payment of two steps.
use treasury_backend.Prelude.{All, List, [], arith, none, refl, some, ℕ, ◌++◌, ◌∷◌, ◌≡◌}
use treasury_backend.Store.{err, ok, scope_denied, state_conflict}
use treasury_backend.Payment.{action_approved, approval_pending, approved}
use treasury_backend.Approval.Act.{
  ActContext, ApprovalStep, StepAction, approve, assert_step_eligibility, creator_not_approver,
  decide, insert_action,
}
use treasury_backend.Approval.Act.Complete.{IsComplete, decide-IsComplete}

abbrev clerks : ApprovalStep
clerks = record {
  id = 1;
  order = 1;
  approver_user_id = none;
  approvals_required = 2;
  separation_rules = creator_not_approver ∷ [];
}

abbrev chief : ApprovalStep
chief = record clerks { id = 2; order = 2; approver_user_id = some 22; approvals_required = 1 }

abbrev approval_by : ℕ → StepAction
approval_by user = record {
  step_id = some 1;
  actor_user_id = user;
  delegated_from_user_id = none;
  action = action_approved;
}

abbrev actions : List StepAction
actions = approval_by 20 ∷ approval_by 21 ∷ []

abbrev by : ℕ → ActContext
by user = record {
  state = approval_pending;
  creator_user_id = 10;
  requester_user_id = none;
  actor_user_id = user;
  delegated_from_user_id = none;
}

abbrev steps : List ApprovalStep
steps = clerks ∷ chief ∷ []

abbrev final : List StepAction
final = actions ++ record (approval_by 22) { step_id = some 2 } ∷ []

approves_last : decide (by 22) approve steps actions ≡ ok (approved, final)
unfolding decide insert_action assert_step_eligibility
approves_last = refl

-- One of two clerks leaves the payment pending, and may not approve a second time.
one_of_two : decide (by 20) approve steps [] ≡ ok (approval_pending, approval_by 20 ∷ [])
unfolding decide insert_action assert_step_eligibility
one_of_two = refl

not_twice : decide (by 20) approve steps (approval_by 20 ∷ []) ≡ err state_conflict
unfolding decide insert_action assert_step_eligibility
not_twice = refl

creator_denied : decide (by 10) approve steps [] ≡ err scope_denied
unfolding decide insert_action assert_step_eligibility
creator_denied = refl

decide-IsComplete_example : All (IsComplete final) steps
decide-IsComplete_example =
    decide-IsComplete (by 22) steps actions final ((omega arith, tt), (tt, tt)) approves_last
