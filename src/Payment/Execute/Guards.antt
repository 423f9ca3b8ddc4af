-- ===== src/Payment/Execute/Guards.antt =====
-- What an `execute` that returns has checked.
use treasury_backend.Prelude.{
  ==_iff, All, List, Option, [], and-true, any, ap, arith, false, inl, inr, is_nil, is_some, none,
  not, or-false, refl, some, subst, true, true_of_not, ℕ, ◌&&◌, ◌==◌, ◌||◌, ◌∙◌, ◌∷◌, ◌≡◌, ◌≢◌, ◌≤◌,
  ◌⊎◌,
}
use treasury_backend.Prelude.Int.{==ℤ_iff, pos, ℤ, ◌==ℤ◌}
use treasury_backend.Store.{
  >>=-eq-ok, aggregate_stale, find_idempotency, ok, ok-injective, or_throw-eq-ok, scope_denied,
  source_invalid, stale_version, state_conflict, throw_if-eq-ok, throw_if-false, total_mismatch,
}
use treasury_backend.Payment.{
  LockedLine, LockedPayment, PaymentDb, PaymentReservation, PaymentState, PaymentView,
  ReservationState, accounting_posted, accounting_ready, active, approval_pending, approved,
  cancelled, consumed, draft, executed, rejected, released, reversed, review_required, scheduled,
  submitted,
}
use treasury_backend.Payment.Checks.{
  CommandContext, OverrideCheck, PaymentServices, SeparationOverride, accept_override,
  authorization_context, conflicts_of, consume_payment_proof, exact_total, invalid_evidence,
  lock_payment, not_independent, override_approval_valid, override_separation, payment_execute,
  valid_override, validate,
}
use treasury_backend.Payment.Checks.Approvers.{
  Approves, HasNotApproved, IsEvidence, conflicts_of-none, override_approval_valid-IsEvidence,
}
use treasury_backend.Payment.Checks.Allocations.{IsAllocated, check_payment_allocations-IsAllocated}
use treasury_backend.Payment.Sources.{decimal_or_throw, is_reserving, sum_decimals}
use treasury_backend.Payment.Totals.{
  Totals, check_reservations, delete_total, is_overdue, key_of, match_reservations, reservations,
  source_totals, total_at,
}
use treasury_backend.Payment.Execute.{execute, execute_guards, execute_scope, is_approved}
use treasury_backend.Payment.Execute.Run.{execute_ran, started_execute}
use treasury_backend.Payment.Execute.Frame.{Checked, execute_checks-Checked}

-- Every reservation has the amount of its source, and none is overdue.
abbrev pub Reserves : ℕ → Totals → List PaymentReservation → Type 0
Reserves now totals [] = Unit
Reserves now totals (r ∷ rs) =
    ((r.state ≡ active) ⊎ (r.state ≡ review_required))
    × (¬ ((r.state ≡ active) × (r.review_due_at ≤ now)))
    × ((v : ℤ) × (decimal_or_throw r.amount ≡ ok v) × (total_at (key_of r) totals ≡ some v))
    × Reserves now (delete_total (key_of r) totals) rs

reserving_state :
    (s : ReservationState) → is_reserving s ≡ true → (s ≡ active) ⊎ (s ≡ review_required)
reserving_state active e = inl refl
reserving_state review_required e = inr refl
reserving_state consumed e = cc
reserving_state released e = cc

not_overdue :
    (now : ℕ) (r : PaymentReservation)
    → is_overdue now r ≡ false
    → ¬ ((r.state ≡ active) × (r.review_due_at ≤ now))
not_overdue now r e (is_active, due) = let early = rw is_active at e in ground (arith, early, due)

match_reservations-Reserves :
    (now : ℕ) (totals : Totals) (rs : List PaymentReservation)
    → match_reservations now totals rs ≡ ok tt
    → Reserves now totals rs
unfolding match_reservations
match_reservations-Reserves now totals [] e = tt
match_reservations-Reserves now totals (r ∷ rs) e =
    let (held, e1) = throw_if-eq-ok (not (is_reserving r.state)) source_invalid _ e in
    let (t, found, e2) = or_throw-eq-ok (total_at (key_of r) totals) source_invalid _ e1 in
    let (v, reads, e3) = >>=-eq-ok (decimal_or_throw r.amount) _ e2 in
    let (equal, e4) = throw_if-eq-ok (not (t ==ℤ v)) source_invalid _ e3 in
    let (due, e5) = throw_if-eq-ok (is_overdue now r) source_invalid _ e4 in
    let same = (==ℤ_iff t v).0 (true_of_not _ equal) in
    (
      reserving_state r.state (true_of_not _ held),
      not_overdue now r due,
      (v, reads, found ∙ ap some same),
      match_reservations-Reserves now (delete_total (key_of r) totals) rs e5,
    )

-- The actor has neither created nor approved the payment, in person or through another who acted for
-- the actor; or the actor may override, proves it, and names evidence of it.
abbrev pub IsSeparate :
    PaymentServices
    → CommandContext
    → LockedPayment
    → Option SeparationOverride
    → PaymentDb
    → PaymentDb
    → Type 0
IsSeparate services ctx p body db checked =
    ((p.document.creator_user_id ≢ ctx.actor) × HasNotApproved ctx.actor p db)
    ⊎ ((o : SeparationOverride) × (body ≡ some o)
        × (services.has_separation_override ctx.actor ≡ true)
        × (consume_payment_proof ctx db ≡ ok checked)
        × IsEvidence p o ctx.actor checked)

accept_override-valid : (c : OverrideCheck) → accept_override c ≡ ok tt → c ≡ valid_override
accept_override-valid valid_override e = refl
accept_override-valid invalid_evidence e = cc
accept_override-valid not_independent e = cc

separation-IsSeparate :
    (services : PaymentServices) (ctx : CommandContext) (payment_id : ℕ) (p : LockedPayment)
    (body : Option SeparationOverride) (conflicting : List ℕ) (origin db checked : PaymentDb)
    → lock_payment payment_id origin ≡ some p
    → origin.actions ≡ db.actions
    → conflicts_of ctx p ≡ conflicting
    → override_separation services ctx p body conflicting db ≡ ok checked
    → IsSeparate services ctx p body db checked
unfolding override_separation
separation-IsSeparate services ctx payment_id p body [] origin db checked found same no_conflict e =
    let (creator, approver) = conflicts_of-none ctx payment_id p origin found no_conflict in
    inl (
      creator,
      subst (All (λ a. ¬ Approves ctx.actor p.document.current_approval_snapshot_id a)) same
          approver,
    )
separation-IsSeparate services ctx payment_id p body (c ∷ cs) origin db checked found same_actions
      conflict e =
    let (o, given, e1) = or_throw-eq-ok body scope_denied _ e in
    let (allowed, e2) =
      throw_if-eq-ok (not (services.has_separation_override ctx.actor)) scope_denied _ e1 in
    let (proved, by_proof, e3) = >>=-eq-ok (consume_payment_proof ctx db) _ e2 in
    let (u, valid, e4) =
      >>=-eq-ok (accept_override (override_approval_valid p o ctx.actor (c ∷ cs) proved)) _ e3 in
    let same : proved ≡ checked = ok-injective e4 in
    inr (
      o,
      given,
      true_of_not _ allowed,
      by_proof ∙ ap ok same,
      subst (IsEvidence p o ctx.actor) same (
          override_approval_valid-IsEvidence p o ctx.actor (c ∷ cs) proved
            (accept_override-valid _ valid)),
    )

pub record IsExecutable (services : PaymentServices) (ctx : CommandContext)
    (body : Option SeparationOverride) (expected_version : ℕ) (p : LockedPayment)
    (db checked : PaymentDb) : Type 0 where
  pub current : p.document.version ≡ expected_version
  pub was_approved : p.document.state ≡ approved
  pub has_snapshot : is_some p.document.current_approval_snapshot_id ≡ true
  pub has_lines : is_nil p.lines ≡ false
  pub active_methods : any (λ (l : LockedLine). not l.method_is_active) p.lines ≡ false
  pub total :
      (v : ℤ) × (sum_decimals (λ (l : LockedLine). l.line.base_amount) (pos 0) p.lines ≡ ok v)
      × (decimal_or_throw p.document.total_base_amount ≡ ok v)
  pub separate : IsSeparate services ctx p body db checked
  pub allocated : All (IsAllocated db.allocations) p.allocations
  pub reserves :
      (p.reservations ≡ [])
      ⊎ ((totals : Totals) × (source_totals p ≡ ok totals) × Reserves ctx.now totals p.reservations)

approved_state : (s : PaymentState) → is_approved s ≡ true → s ≡ approved
approved_state approved e = refl
approved_state draft e = cc
approved_state submitted e = cc
approved_state approval_pending e = cc
approved_state rejected e = cc
approved_state scheduled e = cc
approved_state executed e = cc
approved_state accounting_ready e = cc
approved_state accounting_posted e = cc
approved_state cancelled e = cc
approved_state reversed e = cc

exact_total-total :
    (p : LockedPayment)
    → exact_total p ≡ ok tt
    → (v : ℤ) × (sum_decimals (λ (l : LockedLine). l.line.base_amount) (pos 0) p.lines ≡ ok v)
      × (decimal_or_throw p.document.total_base_amount ≡ ok v)
unfolding exact_total
exact_total-total p e =
    let (total, summed, e1) = >>=-eq-ok (sum_decimals _ (pos 0) p.lines) _ e in
    let (stated, reads, e2) = >>=-eq-ok (decimal_or_throw p.document.total_base_amount) _ e1 in
    let same = (==ℤ_iff total stated).0 (true_of_not _ (throw_if-false _ total_mismatch e2)) in
    (stated, summed ∙ ap ok same, reads)

check_reservations-cases :
    (now : ℕ) (p : LockedPayment) (rs : List PaymentReservation)
    → check_reservations now p rs ≡ ok tt
    → (rs ≡ []) ⊎ ((totals : Totals) × (source_totals p ≡ ok totals) × Reserves now totals rs)
unfolding check_reservations
check_reservations-cases now p [] e = inl refl
check_reservations-cases now p (r ∷ rs) e =
    let (totals, summed, e1) = >>=-eq-ok (source_totals p) _ e in
    inr (totals, summed, match_reservations-Reserves now totals (r ∷ rs) e1)

reservations-cases :
    (now : ℕ) (p : LockedPayment) (ids : List ℕ)
    → reservations now p ≡ ok ids
    → (p.reservations ≡ [])
      ⊎ ((totals : Totals) × (source_totals p ≡ ok totals) × Reserves now totals p.reservations)
unfolding reservations
reservations-cases now p ids e =
    let (u, matched, e1) = >>=-eq-ok (check_reservations now p p.reservations) _ e in
    check_reservations-cases now p p.reservations matched

pub locked-IsExecutable :
    (services : PaymentServices) (ctx : CommandContext) (body : Option SeparationOverride)
    (payment_id expected_version : ℕ) (p : LockedPayment) (ids : List ℕ)
    (origin db checked : PaymentDb)
    → lock_payment payment_id origin ≡ some p
    → origin.actions ≡ db.actions
    → execute_guards expected_version p ≡ ok tt
    → Checked services ctx p body db ids checked
    → IsExecutable services ctx body expected_version p db checked
unfolding execute_guards
locked-IsExecutable services ctx body payment_id expected_version p ids origin db checked found same
      e checks =
    let d = p.document in
    let (v, e1) = throw_if-eq-ok (not (d.version == expected_version)) stale_version _ e in
    let (s, e2) =
      throw_if-eq-ok (not (is_approved d.state && is_some d.current_approval_snapshot_id))
        state_conflict _ e1 in
    let (lines, e3) =
      throw_if-eq-ok (is_nil p.lines || any (λ (l : LockedLine). not l.method_is_active) p.lines)
        aggregate_stale _ e2 in
    let (state, snapshot) = and-true (is_approved d.state) _ (true_of_not _ s) in
    let (nonempty, methods) = or-false (is_nil p.lines) _ lines in
    record {
      current = (==_iff _ _).0 (true_of_not _ v);
      was_approved = approved_state d.state state;
      has_snapshot = snapshot;
      has_lines = nonempty;
      active_methods = methods;
      total = exact_total-total p e3;
      separate =
          separation-IsSeparate services ctx payment_id p body (conflicts_of ctx p) origin db
            checked found same refl checks.separated;
      allocated =
          subst (λ (d : PaymentDb). All (IsAllocated d.allocations) p.allocations)
            checks.only_proofs.1
            (check_payment_allocations-IsAllocated p.allocations checked checks.allocated);
      reserves = reservations-cases ctx.now p ids checks.reserved_ids;
    }

-- An `execute` under a new key returns only for a permitted user and a payment of the stated version
-- that is approved with a snapshot and has lines, all of an active method, whose base amounts sum
-- up to the total; whose creator is another user and which no approval action of that user, or for
-- that user, has approved, unless an override is given by a user who may and who proves it, with an
-- approval action of another user as its evidence; whose allocations are active, agree on the known
-- total with the active allocations to the same object and stay within it, or, where none is known,
-- have at most one among them that no action overrides; and whose reservations, if it has any, are
-- active and not due or under review, and each the amount of its source.
pub execute-IsExecutable :
    (services : PaymentServices) (ctx : CommandContext) (body : Option SeparationOverride)
    (db : PaymentDb) (response : PaymentView) (db' : PaymentDb) (payment_id expected_version : ℕ)
    → validate ctx ≡ ok (payment_id, expected_version)
    → find_idempotency (execute_scope ctx.actor payment_id) ctx.key db.idempotency ≡ none
    → execute services ctx body db ≡ ok (response, db')
    → (p : LockedPayment) × (checked : PaymentDb) × (lock_payment payment_id db ≡ some p)
      × (services.can_operate_payment ctx.actor (authorization_context p) payment_execute ≡ true)
      × IsExecutable services ctx body expected_version p
          (started_execute services ctx body db payment_id)
          checked
execute-IsExecutable services ctx body db response db' payment_id expected_version request unused
      done =
    let run =
      execute_ran services ctx body db response db' payment_id expected_version request unused
        done in
    (
      run.locked,
      run.checked,
      run.is_locked,
      run.authorized,
      locked-IsExecutable services ctx body payment_id expected_version run.locked run.ids db
          (started_execute services ctx body db payment_id) run.checked run.is_locked refl
          run.guarded
          (execute_checks-Checked services ctx run.locked body _ run.ids run.checked run.checks),
    )
