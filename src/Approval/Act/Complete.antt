-- ===== src/Approval/Act/Complete.antt =====
-- A payment is approved only when every step is complete.
use treasury_backend.Prelude.{
  All, Bool-cases, List, [], and-true, any, ap, arith, false, false_of_not, find, inl, inr, is_nil,
  is_some, leb, ltb, not, option_eq_refl, or-false, refl, some, some-injective, some_of, subst, suc,
  true, true_of_not, ℕ, ◌&&◌, ◌++◌, ◌<◌, ◌∙◌, ◌∷◌, ◌≡◌, ◌≤◌,
}
use treasury_backend.Store.{>>=-eq-ok, ok, ok-injective, state_conflict, throw_if-eq-ok}
use treasury_backend.Payment.{PaymentState, action_approved, approved}
use treasury_backend.Approval.Act.{
  ActContext, ApprovalStep, StepAction, after_approval, approve, assert_step_eligibility, can_act,
  decide, has_acted, insert_action, is_unfinished, recorded, step_for, step_id_of,
}
use treasury_backend.Approval.Act.Count.{recorded-new, recorded_le}

-- The steps stand in their order.
abbrev pub Increasing : List ApprovalStep → Type 0
Increasing [] = Unit
Increasing (s ∷ rest) = All (λ (t : ApprovalStep). s.order < t.order) rest × Increasing rest

ltb_not : (a b : ℕ) → a < b → ltb a b ≡ false → ⊥
ltb_not a b less e = ground arith

enough_kept : (required n m : ℕ) → ltb n required ≡ false → n ≤ m → required ≤ m
enough_kept required n m e le = ground arith

none_after :
    (c : ApprovalStep) (rest : List ApprovalStep)
    → All (λ (t : ApprovalStep). c.order < t.order) rest
    → any (λ (t : ApprovalStep). ltb c.order t.order) rest ≡ false
    → rest ≡ []
none_after c [] later none_later = refl
none_after c (t ∷ rest) (after, later) none_later =
    let (not_after, others) = or-false (ltb c.order t.order) _ none_later in
    elim (ltb_not c.order t.order after not_after) [ ]

abbrev pub IsComplete : List StepAction → ApprovalStep → Type 0
IsComplete actions s = s.approvals_required ≤ recorded actions s

All-IsComplete :
    (a : StepAction) (c : ApprovalStep) (actions : List StepAction) (steps : List ApprovalStep)
    → find (is_unfinished actions) steps ≡ some c
    → Increasing steps
    → any (λ (s : ApprovalStep). ltb c.order s.order) steps ≡ false
    → IsComplete (actions ++ a ∷ []) c
    → All (IsComplete (actions ++ a ∷ [])) steps
All-IsComplete a c actions [] found increasing none_later done = cc
All-IsComplete a c actions (s ∷ rest) found (after, increasing) none_later done =
    let (first, others) = or-false (ltb c.order s.order) _ none_later in
    elim (Bool-cases (is_unfinished actions s)) [
      | inl here ↦
          (let same : s ≡ c = some-injective (rw here at found) in
            let ends = none_after c rest (rw same at after) others in rw (same, ends) (done, tt))
      | inr finished ↦ (
        enough_kept s.approvals_required (recorded actions s) _ finished (recorded_le a s actions),
        All-IsComplete a c actions rest (rw finished at found) increasing others done,
      )
    ]

approval_completes :
    (actions : List StepAction) (c : ApprovalStep) (steps : List ApprovalStep)
    → after_approval actions (some c) steps ≡ approved
    → (leb c.approvals_required (suc (recorded actions c)) ≡ true)
      × (any (λ (s : ApprovalStep). ltb c.order s.order) steps ≡ false)
approval_completes actions c steps e =
    elim (Bool-cases (
      leb c.approvals_required (suc (recorded actions c))
      && not (any (λ (s : ApprovalStep). ltb c.order s.order) steps))) [
        | inl both ↦
            (let (enough, none_later) =
                and-true (leb c.approvals_required (suc (recorded actions c))) _ both in
              (enough, false_of_not _ none_later))
        | inr open_still ↦ cc (rw open_still at e)
      ]

leb_le : (a b : ℕ) → leb a b ≡ true → a ≤ b
leb_le a b e = ground arith

-- An approval that `act` accepts and that makes the payment approved leaves every step of the snapshot
-- with as many approvals, by different actors, as it requires, where the steps stand in their
-- order.
pub decide-IsComplete :
    (ctx : ActContext) (steps : List ApprovalStep) (actions actions' : List StepAction)
    → Increasing steps
    → decide ctx approve steps actions ≡ ok (approved, actions')
    → All (IsComplete actions') steps
unfolding decide insert_action
decide-IsComplete ctx steps actions actions' increasing e =
    let (state, e1) = throw_if-eq-ok (not (can_act approve ctx.state)) state_conflict _ e in
    let current = find (is_unfinished actions) steps in
    let (present_step, e2) =
      throw_if-eq-ok (not (is_nil steps) && not (is_some (step_for approve current steps)))
        state_conflict _ e1 in
    let (is_current, e3) = throw_if-eq-ok (not (is_some current)) state_conflict _ e2 in
    let (c, found) = some_of current (true_of_not _ is_current) in
    let (u, eligible, e4) =
      >>=-eq-ok {B = PaymentState × List StepAction}
        (assert_step_eligibility ctx (step_for approve current steps)) _ e3 in
    let (made, inserted, e5) =
      >>=-eq-ok {B = PaymentState × List StepAction}
        (insert_action ctx approve (step_for approve current steps) actions) _ e4 in
    let (fresh, e6) =
      throw_if-eq-ok (any (has_acted ctx (step_id_of (step_for approve current steps))) actions)
        state_conflict _ inserted in
    let pair : ◌≡◌ {A = PaymentState × List StepAction} (after_approval actions current steps, made)
        (approved, actions') =
      ok-injective e5 in
    let is_approved : after_approval actions current steps ≡ approved =
      ap (λ (q : PaymentState × List StepAction). q.0) pair in
    let (enough, none_later) = approval_completes actions c steps (rw found at is_approved) in
    let a : StepAction = record {
      step_id = some c.id;
      actor_user_id = ctx.actor_user_id;
      delegated_from_user_id = ctx.delegated_from_user_id;
      action = action_approved;
    } in
    let new = recorded-new a c actions (rw (option_eq_refl (some c.id)) refl) (rw found at fresh) in
    let listed : made ≡ actions' = ap (λ (q : PaymentState × List StepAction). q.1) pair in
    let final : actions ++ a ∷ [] ≡ actions' = ok-injective (rw found at e6) ∙ listed in
    subst (λ (l : List StepAction). All (IsComplete l) steps) final
      (All-IsComplete a c actions steps found increasing none_later (rw new (leb_le _ _ enough)))
