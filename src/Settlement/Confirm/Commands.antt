-- ===== src/Settlement/Confirm/Commands.antt =====
-- What a `confirm` that returns has checked, and what a repeated one answers.
-- A `confirm` under a new key that returns has locked a batch with the version of the If-Match
-- header, in the state MATCHED or DISCREPANCY; the user is authorized for it and did not create it;
-- its discrepancy is zero or an approved difference; the bank account and the evidence are current,
-- and its allocations fit their items.
use treasury_backend.Prelude.{ap, none, refl, some, suc, true, ℕ, ◌∙◌, ◌≡◌}
use treasury_backend.Store.{
  Scope, find-finish-start, find_idempotency, finish_idempotency, ok, replay_response-finished,
  start_idempotency,
}
use treasury_backend.Settlement.{LockedSettlement, Response, SettlementDb}
use treasury_backend.Settlement.Repository.{confirmation_facts, lock}
use treasury_backend.Settlement.Service.{
  Context, Services, authorized_for_batch, confirm_command, confirm_scope, settlement_confirm,
  validate_command,
}
use treasury_backend.Settlement.Confirm.{confirm, confirm_effects, confirm_response}
use treasury_backend.Settlement.Confirm.Run.{confirm_digest, confirm_ran, started_confirm}
use treasury_backend.Settlement.Frame.{confirm_effects-idempotency, confirm_response-steps}
use treasury_backend.Settlement.Confirm.Guards.{IsConfirmable, confirm_guards-IsConfirmable}

-- A `confirm` under a new key returns only for an authorized user other than the creator and a batch of
-- the expected version that is matched or in discrepancy; without a discrepancy, or with an approved
-- one; whose bank account is active, can receive and has the currency of the batch; that has
-- attachments, all active and with the content that was linked; and that has allocations, one for each
-- item, all proposed, each at the version of an item that can be allocated, of the same account and
-- currency, and no more than what remains of it.
pub confirm-IsConfirmable :
    (services : Services) (ctx : Context) (db : SettlementDb) (response : Response)
    (db' : SettlementDb) (batch_id expected_version : ℕ)
    → validate_command ctx ≡ ok (batch_id, expected_version)
    → find_idempotency (confirm_scope ctx.actor batch_id) ctx.key db.idempotency ≡ none
    → confirm services ctx db ≡ ok (response, db')
    → (locked : LockedSettlement) × (lock batch_id db ≡ some locked)
      × (authorized_for_batch services ctx.actor locked settlement_confirm ≡ true)
      × IsConfirmable ctx.actor expected_version locked (confirmation_facts locked.batch db)
unfolding confirmation_facts
confirm-IsConfirmable services ctx db response db' batch_id expected_version request unused done =
    let run =
      confirm_ran services ctx db response db' batch_id expected_version request unused done in
    (
      run.locked,
      run.is_locked,
      run.authorized,
      confirm_guards-IsConfirmable ctx.actor expected_version run.locked
          (started_confirm services ctx db batch_id) run.guarded,
    )

-- The record of the key at the end of a run.
module _ (ctx : Context) (scope : Scope) (batch_id digest expected_version : ℕ)
    (db done db' : SettlementDb) (response : Response) (locked : LockedSettlement) where
  confirmed-find :
      confirm_effects ctx batch_id
          (suc expected_version)
          locked
          (record db { idempotency = start_idempotency scope ctx.key digest db.idempotency })
        ≡ ok done
      → confirm_response ctx scope batch_id (suc expected_version) done ≡ ok (response, db')
      → find_idempotency scope ctx.key db'.idempotency
        ≡ some (record {
          scope = scope;
          key = ctx.key;
          request_digest = digest;
          response = some response;
        })
  confirmed-find effects answered =
      let started = record db {
        idempotency = start_idempotency scope ctx.key digest db.idempotency;
      } in
      let kept =
        confirm_effects-idempotency ctx batch_id (suc expected_version) locked started done
          effects in
      let (items, ended) =
        confirm_response-steps ctx scope batch_id (suc expected_version) done answered in
      ap (find_idempotency scope ctx.key)
        (ended ∙ ap (finish_idempotency scope ctx.key response) kept)
      ∙ find-finish-start scope ctx.key digest response db.idempotency

replayed :
    (services : Services) (ctx : Context) (db : SettlementDb) (locked : LockedSettlement)
    (batch_id expected_version : ℕ) (response : Response)
    → validate_command ctx ≡ ok (batch_id, expected_version)
    → lock batch_id db ≡ some locked
    → authorized_for_batch services ctx.actor locked settlement_confirm ≡ true
    → find_idempotency (confirm_scope ctx.actor batch_id) ctx.key db.idempotency
      ≡ some (record {
        scope = confirm_scope ctx.actor batch_id;
        key = ctx.key;
        request_digest = services.command_digest (confirm_command ctx.actor batch_id ctx.if_match);
        response = some response;
      })
    → confirm services ctx db ≡ ok (response, db)
unfolding confirm
replayed services ctx db locked batch_id expected_version response request found authorized
      recorded =
    rw (request, found, authorized, recorded, replay_response-finished) refl

-- After a `confirm` under a new key has returned a response, the same request returns that response
-- again and changes nothing, on every later state that has kept the record of the key, as long as
-- the batch is found and the user is authorized for it.
pub confirm-confirm :
    (services : Services) (ctx : Context) (db : SettlementDb) (response : Response)
    (db' later : SettlementDb) (locked : LockedSettlement) (batch_id expected_version : ℕ)
    → validate_command ctx ≡ ok (batch_id, expected_version)
    → find_idempotency (confirm_scope ctx.actor batch_id) ctx.key db.idempotency ≡ none
    → confirm services ctx db ≡ ok (response, db')
    → find_idempotency (confirm_scope ctx.actor batch_id) ctx.key later.idempotency
      ≡ find_idempotency (confirm_scope ctx.actor batch_id) ctx.key db'.idempotency
    → lock batch_id later ≡ some locked
    → authorized_for_batch services ctx.actor locked settlement_confirm ≡ true
    → confirm services ctx later ≡ ok (response, later)
confirm-confirm services ctx db response db' later locked batch_id expected_version request unused
      done kept found authorized =
    let run =
      confirm_ran services ctx db response db' batch_id expected_version request unused done in
    let scope = confirm_scope ctx.actor batch_id in
    let digest = confirm_digest services ctx db batch_id in
    let recorded =
      kept
      ∙ confirmed-find ctx scope batch_id digest expected_version db run.done db' response
          run.locked run.effects run.answered in
    replayed services ctx later locked batch_id expected_version response request found authorized
      recorded
