-- ===== src/Payment/Reverse/Guards.antt =====
-- What a `reverse` that returns has checked.
use treasury_backend.Prelude.{
  ==_iff, ==_refl, All, Bool, List, [], any, ap, false, filter, find, inl, inr, is_some, length,
  map, none, none_of, not, option_eq, or-false, refl, some, sym, true, true_of_not, ℕ, ◌==◌, ◌||◌,
  ◌∙◌, ◌∷◌, ◌≡◌, ◌≢◌, ◌⊎◌,
}
use treasury_backend.Money.{is_empty}
use treasury_backend.Money.Texts.{trim}
use treasury_backend.Store.{
  >>=-eq-ok, check_violation, find_idempotency, ok, ok-injective, or_throw-eq-ok, reversal_blocked,
  scope_denied, stale_version, throw_if-eq-ok, throw_if-false, type_error,
}
use treasury_backend.Payment.{
  AccountingState, LockedLine, LockedPayment, PaymentDb, PaymentEffect, PaymentState, accepted,
  accounting_posted, accounting_ready, approval_pending, approved, cancelled, draft, executed,
  queued, rejected, reversed, scheduled, sending, sending_unknown, submitted,
}
use treasury_backend.Payment.Checks.{
  CommandContext, PaymentReverseDto, PaymentServices, approvers, authorization_context,
  consume_payment_proof, lock_payment, payment_reverse, validate,
}
use treasury_backend.Payment.Checks.Approvers.{HasNotApproved, locked-HasNotApproved}
use treasury_backend.Payment.Totals.{SourceKey, source_of}
use treasury_backend.Payment.Execute.{is_evident}
use treasury_backend.Payment.Reversal.{
  PaymentReversalResult, blocks_reversal, check_reversal_sources, effects_of, has_outcome,
  is_executed, is_movement, reversal_effects, reverse_guards,
}
use treasury_backend.Payment.Reverse.{check_reversal_evidence, is_outgoing, reverse, reverse_scope}
use treasury_backend.Payment.Reverse.Run.{reverse_ran, started_reverse}

-- The fact of the effect is at the source of its line.
abbrev pub IsOutgoing : LockedPayment → PaymentEffect → Type 0
IsOutgoing p e =
    (l : LockedLine) × (key : SourceKey) × (is_outgoing e ≡ true)
    × (find (λ (k : LockedLine). k.line.id == e.payment_line_id) p.lines ≡ some l)
    × (source_of l.line ≡ some key)
    × (is_evident l.line e.effect_type key.source_id ≡ true)

check_reversal_evidence-IsOutgoing :
    (p : LockedPayment) (es : List PaymentEffect)
    → check_reversal_evidence p es ≡ ok tt
    → All (IsOutgoing p) es
unfolding check_reversal_evidence
check_reversal_evidence-IsOutgoing p [] e = tt
check_reversal_evidence-IsOutgoing p (f ∷ es) e =
    let (is_out, e1) = throw_if-eq-ok (not (is_outgoing f)) check_violation _ e in
    let (l, found, e2) =
      or_throw-eq-ok (find (λ (k : LockedLine). k.line.id == f.payment_line_id) p.lines) type_error
        _ e1 in
    let (key, has_source, e3) = or_throw-eq-ok (source_of l.line) check_violation _ e2 in
    let (evident, e4) =
      throw_if-eq-ok (not (is_evident l.line f.effect_type key.source_id)) check_violation _ e3 in
    (
      (l, key, true_of_not _ is_out, found, has_source, true_of_not _ evident),
      check_reversal_evidence-IsOutgoing p es e4,
    )

pub record IsReversiblePayment (actor expected_version : ℕ) (p : LockedPayment) (db : PaymentDb)
    : Type 0 where
  pub current : p.document.version ≡ expected_version
  pub not_reversed : p.document.reversed_payment_id ≡ none
  pub was_executed :
      (p.document.state ≡ executed)
      ⊎ (p.document.state ≡ accounting_ready)
      ⊎ (p.document.state ≡ accounting_posted)
  pub not_queued : p.document.accounting_state ≢ queued
  pub not_sending : p.document.accounting_state ≢ sending
  pub not_unknown : p.document.accounting_state ≢ sending_unknown
  pub not_accepted : p.document.accounting_state ≢ accepted
  pub not_creator : p.document.creator_user_id ≢ actor
  pub not_executor : p.document.executed_by_user_id ≢ some actor
  pub not_approver : HasNotApproved actor p db

executed_state :
    (s : PaymentState)
    → is_executed s ≡ true
    → (s ≡ executed) ⊎ (s ≡ accounting_ready) ⊎ (s ≡ accounting_posted)
executed_state executed e = inl refl
executed_state accounting_ready e = inr (inl refl)
executed_state accounting_posted e = inr (inr refl)
executed_state draft e = cc
executed_state submitted e = cc
executed_state approval_pending e = cc
executed_state approved e = cc
executed_state rejected e = cc
executed_state scheduled e = cc
executed_state cancelled e = cc
executed_state reversed e = cc

-- A state of accounting that does not block is none of those that do.
not_blocking :
    (s t : AccountingState) → blocks_reversal s ≡ false → blocks_reversal t ≡ true → s ≢ t
not_blocking s t free blocked same = let wrong = rw same at free in cc (wrong, blocked)

any-some :
    (user : ℕ) (ids : List ℕ)
    → any (λ id. option_eq id (some user)) (map (λ id. some id) ids) ≡ any (λ id. id == user) ids
any-some user [] = refl
any-some user (x ∷ xs) = ap (λ (b : Bool). (x == user) || b) (any-some user xs)

pub reverse_guards-IsReversiblePayment :
    (actor payment_id expected_version : ℕ) (p : LockedPayment) (db : PaymentDb)
    → lock_payment payment_id db ≡ some p
    → reverse_guards actor expected_version p ≡ ok tt
    → IsReversiblePayment actor expected_version p db
unfolding reverse_guards
reverse_guards-IsReversiblePayment actor payment_id expected_version p db found e =
    let d = p.document in
    let (v, e1) = throw_if-eq-ok (not (d.version == expected_version)) stale_version _ e in
    let (blocked, e2) =
      throw_if-eq-ok
        (is_some d.reversed_payment_id
          || not (is_executed d.state)
          || blocks_reversal d.accounting_state)
        reversal_blocked _ e1 in
    let (first, accounting) =
      or-false (is_some d.reversed_payment_id || not (is_executed d.state)) _ blocked in
    let (missing, state) = or-false (is_some d.reversed_payment_id) _ first in
    let conflict = throw_if-false _ scope_denied e2 in
    let (creator, others) = or-false (d.creator_user_id == actor) _ conflict in
    let (executor, approvers) = or-false (option_eq d.executed_by_user_id (some actor)) _ others in
    record {
      current = (==_iff _ _).0 (true_of_not _ v);
      not_reversed = none_of _ missing;
      was_executed = executed_state d.state (true_of_not _ state);
      not_queued = not_blocking _ queued accounting refl;
      not_sending = not_blocking _ sending accounting refl;
      not_unknown = not_blocking _ sending_unknown accounting refl;
      not_accepted = not_blocking _ accepted accounting refl;
      not_creator = λ (same : d.creator_user_id ≡ actor).
          cc (creator, (==_iff d.creator_user_id actor).1 same);
      not_executor = λ (same : d.executed_by_user_id ≡ some actor).
          (let wrong = rw same at executor in cc (wrong, ==_refl actor));
      not_approver =
          locked-HasNotApproved actor payment_id p db found
            (sym (any-some actor p.approver_user_ids) ∙ approvers);
    }

-- The effects that `reverse` undoes.
pub record HasMoved (date : ℕ) (p : LockedPayment) (moved : List PaymentEffect) (db : PaymentDb)
    : Type 0 where
  pub no_outcome : any (has_outcome db) (effects_of p.document.id db) ≡ false
  pub are_movements : moved ≡ filter is_movement (effects_of p.document.id db)
  pub one_for_each : length moved ≡ length p.lines
  pub can_receive : check_reversal_sources date p.lines db ≡ ok tt

pub reversal_effects-HasMoved :
    (date : ℕ) (p : LockedPayment) (moved : List PaymentEffect) (db : PaymentDb)
    → reversal_effects date p db ≡ ok moved
    → HasMoved date p moved db
unfolding reversal_effects
reversal_effects-HasMoved date p moved db e =
    let effects = effects_of p.document.id db in
    let (outcome, e1) = throw_if-eq-ok (any (has_outcome db) effects) reversal_blocked _ e in
    let (count, e2) =
      throw_if-eq-ok (not (length (filter is_movement effects) == length p.lines)) reversal_blocked
        _ e1 in
    let (u, sources, e3) = >>=-eq-ok (check_reversal_sources date p.lines db) _ e2 in
    let same : filter is_movement effects ≡ moved = ok-injective e3 in
    record {
      no_outcome = outcome;
      are_movements = sym same;
      one_for_each = ap length (sym same) ∙ (==_iff _ _).0 (true_of_not _ count);
      can_receive = sources;
    }

pub reverse-IsReversiblePayment :
    (services : PaymentServices) (ctx : CommandContext) (body : PaymentReverseDto) (db : PaymentDb)
    (result : PaymentReversalResult) (db' : PaymentDb) (payment_id expected_version : ℕ)
    → validate ctx ≡ ok (payment_id, expected_version)
    → find_idempotency (reverse_scope ctx.actor payment_id) ctx.key db.idempotency ≡ none
    → reverse services ctx body db ≡ ok (result, db')
    → (p : LockedPayment) × (proved : PaymentDb) × (moved : List PaymentEffect) × (is_empty
          (trim body.reason)
        ≡ false)
      × (lock_payment payment_id db ≡ some p)
      × (services.can_operate_payment ctx.actor (authorization_context p) payment_reverse ≡ true)
      × (consume_payment_proof ctx (started_reverse services ctx body db payment_id) ≡ ok proved)
      × IsReversiblePayment ctx.actor expected_version p db
      × HasMoved body.business_date p moved proved
      × All (IsOutgoing p) moved
reverse-IsReversiblePayment services ctx body db result db' payment_id expected_version request
      unused done =
    let (p, is_locked, explained, run) =
      reverse_ran services ctx body db result db' payment_id expected_version request unused done in
    (
      p,
      run.proved,
      run.moved,
      explained,
      is_locked,
      run.authorized,
      run.by_proof,
      reverse_guards-IsReversiblePayment ctx.actor payment_id expected_version p db is_locked
          run.guarded,
      reversal_effects-HasMoved body.business_date p run.moved run.proved run.effects,
      check_reversal_evidence-IsOutgoing p run.moved run.evident,
    )
