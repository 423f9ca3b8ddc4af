-- ===== src/Settlement/Reverse/Run.antt =====
-- A `reverse` that returns is a replay, or has made each of its steps.
use treasury_backend.Prelude.{
  false, inl, inr, none, not, other_side, some, subst, suc, sym, true, true_of_not, ℕ, ◌∙◌, ◌≡◌,
  ◌≢◌, ◌⊎◌,
}
use treasury_backend.Money.{is_empty}
use treasury_backend.Money.Texts.{trim}
use treasury_backend.Store.{
  >>=-eq-ok, find_idempotency, ok, ok-injective, or_throw-eq-ok, resource_hidden, scope_denied,
  start_idempotency, throw_if-eq-ok, unless_replayed-eq-ok, validation,
}
use treasury_backend.Settlement.{LockedSettlement, Response, SettlementDb}
use treasury_backend.Settlement.Repository.{lock, random_uuid}
use treasury_backend.Settlement.Service.{
  Context, Services, authorized_for_batch, consume_proof, reverse_command, reverse_scope,
  settlement_reverse, validate_command,
}
use treasury_backend.Settlement.Reverse.{
  ReverseDto, reverse, reverse_fresh, reverse_guards, reverse_response, reverse_updates,
}

module _ (services : Services) (ctx : Context) (body : ReverseDto) (db : SettlementDb) where
  abbrev pub reverse_digest : ℕ → ℕ
  reverse_digest batch_id =
      services.command_digest
        (reverse_command ctx.actor batch_id ctx.if_match (trim body.reason) body.business_date)

  abbrev pub started_reverse : ℕ → SettlementDb
  started_reverse batch_id = record db {
    idempotency =
        start_idempotency (reverse_scope ctx.actor batch_id) ctx.key (reverse_digest batch_id)
          db.idempotency;
  }

  pub record ReverseRun (batch_id expected_version : ℕ) (response : Response) (db' : SettlementDb)
      : Type 0 where
    pub locked : LockedSettlement
    pub proved : SettlementDb
    pub done : SettlementDb
    pub explained : is_empty (trim body.reason) ≡ false
    pub is_locked : lock batch_id db ≡ some locked
    pub authorized : authorized_for_batch services ctx.actor locked settlement_reverse ≡ true
    pub guarded : reverse_guards ctx.actor expected_version locked ≡ ok tt
    pub consumed : consume_proof ctx (started_reverse batch_id) ≡ ok proved
    pub updates :
        reverse_updates ctx batch_id
          (random_uuid proved).0
          locked
          (trim body.reason)
          body.business_date
          (random_uuid proved).1
        ≡ ok done
    pub answered :
        reverse_response ctx
          (reverse_scope ctx.actor batch_id)
          batch_id
          (random_uuid proved).0
          (suc expected_version)
          done
        ≡ ok (response, db')

  fresh-ReverseRun :
      (batch_id expected_version : ℕ) (locked : LockedSettlement) (response : Response)
      (db' : SettlementDb)
      → is_empty (trim body.reason) ≡ false
      → lock batch_id db ≡ some locked
      → authorized_for_batch services ctx.actor locked settlement_reverse ≡ true
      → reverse_fresh ctx
          (reverse_scope ctx.actor batch_id)
          (reverse_digest batch_id)
          batch_id
          expected_version
          locked
          (trim body.reason)
          body.business_date
          db
        ≡ ok (response, db')
      → ReverseRun batch_id expected_version response db'
  unfolding reverse_fresh
  fresh-ReverseRun batch_id expected_version locked response db' explained is_locked authorized e =
      let (u, guarded, e1) = >>=-eq-ok (reverse_guards ctx.actor expected_version locked) _ e in
      let (proved, consumed, e2) = >>=-eq-ok (consume_proof ctx (started_reverse batch_id)) _ e1 in
      let (id, numbered) = random_uuid proved in
      let (done, updates, answered) =
        >>=-eq-ok
          (reverse_updates ctx batch_id id locked (trim body.reason) body.business_date numbered) _
          e2 in
      record {
        locked = locked;
        proved = proved;
        done = done;
        explained = explained;
        is_locked = is_locked;
        authorized = authorized;
        guarded = guarded;
        consumed = consumed;
        updates = updates;
        answered = answered;
      }

  pub reverse_cases :
      (response : Response) (db' : SettlementDb)
      → reverse services ctx body db ≡ ok (response, db')
      → (batch_id : ℕ) × (expected_version : ℕ) × (validate_command ctx
          ≡ ok (batch_id, expected_version))
        × (((find_idempotency (reverse_scope ctx.actor batch_id) ctx.key db.idempotency ≢ none)
              × (db' ≡ db))
            ⊎ ReverseRun batch_id expected_version response db')
  unfolding reverse
  reverse_cases response db' e =
      let ((batch_id, expected_version), request, e1) = >>=-eq-ok (validate_command ctx) _ e in
      let scope = reverse_scope ctx.actor batch_id in
      let (explained, e2) = throw_if-eq-ok (is_empty (trim body.reason)) validation _ e1 in
      let (locked, is_locked, e3) = or_throw-eq-ok (lock batch_id db) resource_hidden _ e2 in
      let (authorized, e4) =
        throw_if-eq-ok (not (authorized_for_batch services ctx.actor locked settlement_reverse))
          scope_denied _ e3 in
      (
        batch_id,
        expected_version,
        request,
        elim (unless_replayed-eq-ok (reverse_digest batch_id)
            (find_idempotency scope ctx.key db.idempotency) db
            (reverse_fresh ctx scope (reverse_digest batch_id) batch_id expected_version locked
              (trim body.reason) body.business_date db)
            e4) [
              | inl replayed ↦ inl replayed
              | inr (unused, ran) ↦ inr (
                  fresh-ReverseRun batch_id expected_version locked response db' explained is_locked
                    (true_of_not _ authorized) ran)
            ],
      )

  -- Under a key that is new the run is not a replay.
  pub reverse_ran :
      (response : Response) (db' : SettlementDb) (batch_id expected_version : ℕ)
      → validate_command ctx ≡ ok (batch_id, expected_version)
      → find_idempotency (reverse_scope ctx.actor batch_id) ctx.key db.idempotency ≡ none
      → reverse services ctx body db ≡ ok (response, db')
      → ReverseRun batch_id expected_version response db'
  reverse_ran response db' batch_id expected_version request unused e =
      let (id, version, parsed, cases) = reverse_cases response db' e in
      let same : ◌≡◌ {A = ℕ × ℕ} (id, version) (batch_id, expected_version) =
        ok-injective (sym parsed ∙ request) in
      subst
        (λ (p : ℕ × ℕ).
          find_idempotency (reverse_scope ctx.actor p.0) ctx.key db.idempotency ≡ none
          → ReverseRun p.0 p.1 response db')
        same (other_side cases) unused
