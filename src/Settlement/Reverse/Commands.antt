-- ===== src/Settlement/Reverse/Commands.antt =====
-- What a `reverse` that returns has checked, and what a repeated one answers.
use treasury_backend.Prelude.{
  ==_iff, ==_refl, any, false, none, not, option_eq, or-false, refl, some, true, true_of_not, ℕ,
  ◌==◌, ◌||◌, ◌≡◌, ◌≢◌,
}
use treasury_backend.Money.{is_empty}
use treasury_backend.Money.Texts.{trim}
use treasury_backend.Store.{
  ProofInput, consume_step_up_proof, find_idempotency, ok, or_throw-eq-ok, reversal_conflict,
  scope_denied, step_up_required, throw_if, throw_if-eq-ok, throw_if-false,
}
use treasury_backend.Settlement.{
  BatchState, LockedSettlement, Response, SettlementDb, confirmed, in_discrepancy, matched,
  reversal, reversed,
}
use treasury_backend.Settlement.Repository.{lock}
use treasury_backend.Settlement.Service.{
  Context, Services, authorized_for_batch, consume_proof, reverse_scope, settlement_reverse,
  validate_command,
}
use treasury_backend.Settlement.Reverse.{
  ReverseDto, is_bank_credit, is_confirmed, reverse, reverse_guards,
}
use treasury_backend.Settlement.Reverse.Run.{reverse_ran, started_reverse}

-- The guards in the words of the rules.
pub record IsReversible (actor expected_version : ℕ) (locked : LockedSettlement) : Type 0 where
  pub current : locked.batch.version ≡ expected_version
  pub was_confirmed : locked.batch.state ≡ confirmed
  pub not_by_creator : locked.batch.creator_user_id ≢ actor
  pub not_by_confirmer : locked.batch.confirmed_by ≢ some actor
  pub credited : any is_bank_credit locked.effects ≡ true

confirmed_state : (s : BatchState) → is_confirmed s ≡ true → s ≡ confirmed
confirmed_state matched e = cc
confirmed_state in_discrepancy e = cc
confirmed_state confirmed e = refl
confirmed_state reversed e = cc
confirmed_state reversal e = cc

reverse_guards-IsReversible :
    (actor expected_version : ℕ) (locked : LockedSettlement)
    → reverse_guards actor expected_version locked ≡ ok tt
    → IsReversible actor expected_version locked
unfolding reverse_guards
reverse_guards-IsReversible actor expected_version locked e =
    let b = locked.batch in
    let (v, e1) = throw_if-eq-ok (not (b.version == expected_version)) _ _ e in
    let (s, e2) = throw_if-eq-ok (not (is_confirmed b.state)) _ _ e1 in
    let (c, e3) =
      throw_if-eq-ok (b.creator_user_id == actor || option_eq b.confirmed_by (some actor))
        scope_denied (throw_if (not (any is_bank_credit locked.effects)) reversal_conflict) e2 in
    let (creator, confirmer) = or-false (b.creator_user_id == actor) _ c in
    record {
      current = (==_iff _ _).0 (true_of_not _ v);
      was_confirmed = confirmed_state b.state (true_of_not _ s);
      not_by_creator = λ same. cc (creator, (==_iff _ _).1 same);
      not_by_confirmer = λ same. cc (rw same at confirmer, ==_refl actor);
      credited = true_of_not _ (throw_if-false _ reversal_conflict e3);
    }

proof_of :
    (ctx : Context) (db proved : SettlementDb)
    → consume_proof ctx db ≡ ok proved
    → (proof : ProofInput) × (ctx.step_up ≡ some proof)
      × ((consume_step_up_proof proof ctx.now db.foundation).0 ≡ true)
unfolding consume_proof
proof_of ctx db proved e =
    let (proof, given, e1) = or_throw-eq-ok ctx.step_up step_up_required _ e in
    let (consumed, e2) =
      throw_if-eq-ok (not (consume_step_up_proof proof ctx.now db.foundation).0) step_up_required _
        e1 in
    (proof, given, true_of_not _ consumed)

-- A `reverse` under a new key that returns was given a reason that is not blank and a step-up proof
-- that was accepted; it has locked a batch with the version of the If-Match header, in the state
-- CONFIRMED and with a bank credit; the user is authorized for it, did not create it and did not
-- confirm it.
pub reverse-IsReversible :
    (services : Services) (ctx : Context) (body : ReverseDto) (db : SettlementDb)
    (response : Response) (db' : SettlementDb) (batch_id expected_version : ℕ)
    → validate_command ctx ≡ ok (batch_id, expected_version)
    → find_idempotency (reverse_scope ctx.actor batch_id) ctx.key db.idempotency ≡ none
    → reverse services ctx body db ≡ ok (response, db')
    → (is_empty (trim body.reason) ≡ false)
      × ((proof : ProofInput) × (ctx.step_up ≡ some proof)
          × ((consume_step_up_proof proof ctx.now db.foundation).0 ≡ true))
      × ((locked : LockedSettlement) × (lock batch_id db ≡ some locked)
          × (authorized_for_batch services ctx.actor locked settlement_reverse ≡ true)
          × IsReversible ctx.actor expected_version locked)
reverse-IsReversible services ctx body db response db' batch_id expected_version request unused
      done =
    let run =
      reverse_ran services ctx body db response db' batch_id expected_version request unused done in
    (
      run.explained,
      proof_of ctx (started_reverse services ctx body db batch_id) run.proved run.consumed,
      (
        run.locked,
        run.is_locked,
        run.authorized,
        reverse_guards-IsReversible ctx.actor expected_version run.locked run.guarded,
      ),
    )
