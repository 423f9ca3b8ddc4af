-- ===== src/Settlement/Reverse/Replay.antt =====
-- What a repeated `reverse` answers.
use treasury_backend.Prelude.{ap, false, none, refl, some, sym, true, ℕ, ◌∙◌, ◌≡◌}
use treasury_backend.Money.{Text, is_empty}
use treasury_backend.Money.Texts.{trim}
use treasury_backend.Store.{
  >>=-eq-ok, Scope, find-finish-start, find_idempotency, finish_idempotency, ok, ok-injective,
  or_throw-eq-ok, replay_response-finished, reversal_conflict,
}
use treasury_backend.Settlement.{LockedSettlement, Response, SettlementDb}
use treasury_backend.Settlement.Repository.{
  insert_reversal, lock, next_number, random_uuid, reversal_view, reverse_batch, view,
}
use treasury_backend.Settlement.Service.{
  Context, Services, authorized_for_batch, reverse_scope, settlement_reverse, validate_command,
}
use treasury_backend.Settlement.Reverse.{
  ReverseDto, reverse, reverse_allocations, reverse_effects, reverse_response, reverse_updates,
}
use treasury_backend.Settlement.Reverse.Run.{ReverseRun, reverse_digest, reverse_ran}
use treasury_backend.Settlement.Reverse.Balances.{reverse_allocations-OnlyBalances}
use treasury_backend.Settlement.Reverse.Soundness.{
  consume_proof-OnlyEffects, random_uuid-OnlyEffects, reverse_effects-OnlyEffects,
}

reverse_updates-idempotency :
    (ctx : Context) (batch_id reversal_id : ℕ) (locked : LockedSettlement) (reason : Text)
    (date : ℕ) (db db' : SettlementDb)
    → reverse_updates ctx batch_id reversal_id locked reason date db ≡ ok db'
    → db'.idempotency ≡ db.idempotency
unfolding reverse_updates reverse_batch insert_reversal
reverse_updates-idempotency ctx batch_id reversal_id locked reason date db db' e =
    let closed = reverse_batch batch_id ctx.actor ctx.now db in
    let start =
      insert_reversal reversal_id (next_number closed) locked.batch ctx.actor reason date closed in
    let (released, e1, e2) =
      >>=-eq-ok (reverse_allocations locked.items locked.allocations start) _ e in
    let (undone, e3, e4) =
      >>=-eq-ok (reverse_effects reversal_id locked.batch date locked.effects released) _ e2 in
    let (a, i, balances) =
      reverse_allocations-OnlyBalances locked.items locked.allocations start released e1 in
    let (f, g, effects) =
      reverse_effects-OnlyEffects reversal_id locked.batch date locked.effects released undone e3 in
    ap (λ (d : SettlementDb). d.idempotency) (sym (ok-injective e4))
    ∙ ap (λ (d : SettlementDb). d.idempotency) effects
    ∙ ap (λ (d : SettlementDb). d.idempotency) balances

reverse_response-idempotency :
    (ctx : Context) (scope : Scope) (batch_id reversal_id version : ℕ) (db : SettlementDb)
    {response : Response} {db' : SettlementDb}
    → reverse_response ctx scope batch_id reversal_id version db ≡ ok (response, db')
    → db'.idempotency ≡ finish_idempotency scope ctx.key response db.idempotency
unfolding reverse_response
reverse_response-idempotency ctx scope batch_id reversal_id version db {response} {db'} e =
    let (original, seen, e1) = or_throw-eq-ok (view batch_id db) reversal_conflict _ e in
    let (inverse, seen', e2) =
      or_throw-eq-ok (reversal_view reversal_id db) reversal_conflict _ e1 in
    let made = sym (ok-injective e2) in
    ap (λ (p : Response × SettlementDb). p.1.idempotency) made
    ∙ ap (λ (p : Response × SettlementDb). finish_idempotency scope ctx.key p.0 db.idempotency)
        (sym made)

-- The record of the key at the end of a run.
module _ (services : Services) (ctx : Context) (body : ReverseDto) (db : SettlementDb) where
  reversed-find :
      (batch_id expected_version : ℕ) (response : Response) (db' : SettlementDb)
      → ReverseRun services ctx body db batch_id expected_version response db'
      → find_idempotency (reverse_scope ctx.actor batch_id) ctx.key db'.idempotency
        ≡ some (record {
          scope = reverse_scope ctx.actor batch_id;
          key = ctx.key;
          request_digest = reverse_digest services ctx body db batch_id;
          response = some response;
        })
  reversed-find batch_id expected_version response db' run =
      let scope = reverse_scope ctx.actor batch_id in
      let (e, f, proved) = consume_proof-OnlyEffects ctx _ run.proved run.consumed in
      let (e', f', numbered) = random_uuid-OnlyEffects run.proved in
      let kept =
        reverse_updates-idempotency ctx batch_id (random_uuid run.proved).0 run.locked
          (trim body.reason) body.business_date _ run.done run.updates
        ∙ ap (λ (d : SettlementDb). d.idempotency) numbered
        ∙ ap (λ (d : SettlementDb). d.idempotency) proved in
      ap (find_idempotency scope ctx.key) (
        reverse_response-idempotency ctx scope batch_id _ _ run.done run.answered
        ∙ ap (finish_idempotency scope ctx.key response) kept)
      ∙ find-finish-start scope ctx.key (reverse_digest services ctx body db batch_id) response
          db.idempotency

replayed :
    (services : Services) (ctx : Context) (body : ReverseDto) (db : SettlementDb)
    (locked : LockedSettlement) (batch_id expected_version : ℕ) (response : Response)
    → validate_command ctx ≡ ok (batch_id, expected_version)
    → is_empty (trim body.reason) ≡ false
    → lock batch_id db ≡ some locked
    → authorized_for_batch services ctx.actor locked settlement_reverse ≡ true
    → find_idempotency (reverse_scope ctx.actor batch_id) ctx.key db.idempotency
      ≡ some (record {
        scope = reverse_scope ctx.actor batch_id;
        key = ctx.key;
        request_digest = reverse_digest services ctx body db batch_id;
        response = some response;
      })
    → reverse services ctx body db ≡ ok (response, db)
unfolding reverse
replayed services ctx body db locked batch_id expected_version response request explained found
      authorized recorded =
    rw (request, explained, found, authorized, recorded, replay_response-finished) refl

-- After a `reverse` under a new key has returned a response, the same request returns that response
-- again and changes nothing, on every later state that has kept the record of the key, as long as
-- the batch is found and the user is authorized for it. No second proof is asked for.
pub reverse-reverse :
    (services : Services) (ctx : Context) (body : ReverseDto) (db : SettlementDb)
    (response : Response) (db' later : SettlementDb) (locked : LockedSettlement)
    (batch_id expected_version : ℕ)
    → validate_command ctx ≡ ok (batch_id, expected_version)
    → find_idempotency (reverse_scope ctx.actor batch_id) ctx.key db.idempotency ≡ none
    → reverse services ctx body db ≡ ok (response, db')
    → find_idempotency (reverse_scope ctx.actor batch_id) ctx.key later.idempotency
      ≡ find_idempotency (reverse_scope ctx.actor batch_id) ctx.key db'.idempotency
    → lock batch_id later ≡ some locked
    → authorized_for_batch services ctx.actor locked settlement_reverse ≡ true
    → reverse services ctx body later ≡ ok (response, later)
reverse-reverse services ctx body db response db' later locked batch_id expected_version request
      unused done kept found authorized =
    let run =
      reverse_ran services ctx body db response db' batch_id expected_version request unused done in
    replayed services ctx body later locked batch_id expected_version response request run.explained
      found authorized
      (kept ∙ reversed-find services ctx body db batch_id expected_version response db' run)
