-- ===== src/Settlement/Confirm/Run.antt =====
-- A `confirm` that returns is a replay, or has made each of its steps.
use treasury_backend.Prelude.{
  inl, inr, none, not, other_side, some, subst, suc, sym, true, true_of_not, ℕ, ◌∙◌, ◌≡◌, ◌≢◌, ◌⊎◌,
}
use treasury_backend.Store.{
  >>=-eq-ok, find_idempotency, ok, ok-injective, or_throw-eq-ok, resource_hidden, scope_denied,
  start_idempotency, throw_if-eq-ok, unless_replayed-eq-ok,
}
use treasury_backend.Settlement.{LockedSettlement, Response, SettlementDb}
use treasury_backend.Settlement.Repository.{lock}
use treasury_backend.Settlement.Service.{
  Context, Services, authorized_for_batch, confirm_command, confirm_scope, settlement_confirm,
  validate_command,
}
use treasury_backend.Settlement.Confirm.{
  confirm, confirm_effects, confirm_fresh, confirm_guards, confirm_response,
}

module _ (services : Services) (ctx : Context) (db : SettlementDb) where
  abbrev pub confirm_digest : ℕ → ℕ
  confirm_digest batch_id =
      services.command_digest (confirm_command ctx.actor batch_id ctx.if_match)

  abbrev pub started_confirm : ℕ → SettlementDb
  started_confirm batch_id = record db {
    idempotency =
        start_idempotency (confirm_scope ctx.actor batch_id) ctx.key (confirm_digest batch_id)
          db.idempotency;
  }

  pub record ConfirmRun (batch_id expected_version : ℕ) (response : Response) (db' : SettlementDb)
      : Type 0 where
    pub locked : LockedSettlement
    pub done : SettlementDb
    pub request : validate_command ctx ≡ ok (batch_id, expected_version)
    pub is_locked : lock batch_id db ≡ some locked
    pub authorized : authorized_for_batch services ctx.actor locked settlement_confirm ≡ true
    pub guarded :
        confirm_guards ctx.actor expected_version locked (started_confirm batch_id) ≡ ok tt
    pub effects :
        confirm_effects ctx batch_id (suc expected_version) locked (started_confirm batch_id)
        ≡ ok done
    pub answered :
        confirm_response ctx (confirm_scope ctx.actor batch_id) batch_id (suc expected_version) done
        ≡ ok (response, db')

  fresh-ConfirmRun :
      (batch_id expected_version : ℕ) (locked : LockedSettlement) (response : Response)
      (db' : SettlementDb)
      → validate_command ctx ≡ ok (batch_id, expected_version)
      → lock batch_id db ≡ some locked
      → authorized_for_batch services ctx.actor locked settlement_confirm ≡ true
      → confirm_fresh ctx
          (confirm_scope ctx.actor batch_id)
          (confirm_digest batch_id)
          batch_id
          expected_version
          locked
          db
        ≡ ok (response, db')
      → ConfirmRun batch_id expected_version response db'
  unfolding confirm_fresh
  fresh-ConfirmRun batch_id expected_version locked response db' request is_locked authorized e =
      let (u, guarded, e1) =
        >>=-eq-ok (confirm_guards ctx.actor expected_version locked (started_confirm batch_id)) _
          e in
      let (done, effects, answered) =
        >>=-eq-ok
          (confirm_effects ctx batch_id (suc expected_version) locked (started_confirm batch_id)) _
          e1 in
      record {
        locked = locked;
        done = done;
        request = request;
        is_locked = is_locked;
        authorized = authorized;
        guarded = guarded;
        effects = effects;
        answered = answered;
      }

  pub confirm_cases :
      (response : Response) (db' : SettlementDb)
      → confirm services ctx db ≡ ok (response, db')
      → (batch_id : ℕ) × (expected_version : ℕ) × (validate_command ctx
          ≡ ok (batch_id, expected_version))
        × (((find_idempotency (confirm_scope ctx.actor batch_id) ctx.key db.idempotency ≢ none)
              × (db' ≡ db))
            ⊎ ConfirmRun batch_id expected_version response db')
  unfolding confirm
  confirm_cases response db' e =
      let ((batch_id, expected_version), request, e1) = >>=-eq-ok (validate_command ctx) _ e in
      let scope = confirm_scope ctx.actor batch_id in
      let (locked, is_locked, e2) = or_throw-eq-ok (lock batch_id db) resource_hidden _ e1 in
      let (authorized, e3) =
        throw_if-eq-ok (not (authorized_for_batch services ctx.actor locked settlement_confirm))
          scope_denied _ e2 in
      (
        batch_id,
        expected_version,
        request,
        elim (unless_replayed-eq-ok (confirm_digest batch_id)
            (find_idempotency scope ctx.key db.idempotency) db
            (confirm_fresh ctx scope (confirm_digest batch_id) batch_id expected_version locked db)
            e3) [
              | inl replayed ↦ inl replayed
              | inr (unused, ran) ↦ inr (
                  fresh-ConfirmRun batch_id expected_version locked response db' request is_locked
                    (true_of_not _ authorized) ran)
            ],
      )

  -- Under a key that is new the run is not a replay.
  pub confirm_ran :
      (response : Response) (db' : SettlementDb) (batch_id expected_version : ℕ)
      → validate_command ctx ≡ ok (batch_id, expected_version)
      → find_idempotency (confirm_scope ctx.actor batch_id) ctx.key db.idempotency ≡ none
      → confirm services ctx db ≡ ok (response, db')
      → ConfirmRun batch_id expected_version response db'
  confirm_ran response db' batch_id expected_version request unused e =
      let (id, version, parsed, cases) = confirm_cases response db' e in
      let same : ◌≡◌ {A = ℕ × ℕ} (id, version) (batch_id, expected_version) =
        ok-injective (sym parsed ∙ request) in
      subst
        (λ (p : ℕ × ℕ).
          find_idempotency (confirm_scope ctx.actor p.0) ctx.key db.idempotency ≡ none
          → ConfirmRun p.0 p.1 response db')
        same (other_side cases) unused
