-- ===== src/Payment/Execute/Run.antt =====
-- An `execute` that returns is a replay, or has made each of its steps.
use treasury_backend.Prelude.{
  List, Option, inl, inr, none, not, other_side, some, subst, suc, sym, true, true_of_not, ℕ, ◌∙◌,
  ◌≡◌, ◌≢◌, ◌⊎◌,
}
use treasury_backend.Store.{
  >>=-eq-ok, find_idempotency, ok, ok-injective, or_throw-eq-ok, resource_hidden, scope_denied,
  start_idempotency, throw_if-eq-ok, unless_replayed-eq-ok,
}
use treasury_backend.Payment.{LockedPayment, PaymentDb, PaymentView}
use treasury_backend.Payment.Checks.{
  CommandContext, PaymentServices, SeparationOverride, authorization_context, execute_payment,
  lock_payment, payment_execute, validate,
}
use treasury_backend.Payment.Execute.{
  check_evidence, execute, execute_checks, execute_fresh, execute_guards, execute_response,
  execute_scope, execute_updates,
}

module _ (services : PaymentServices) (ctx : CommandContext) (body : Option SeparationOverride)
    (db : PaymentDb) where
  abbrev pub execute_digest : ℕ → ℕ
  execute_digest payment_id =
      services.command_digest (execute_payment ctx.actor payment_id ctx.if_match body)

  abbrev pub started_execute : ℕ → PaymentDb
  started_execute payment_id = record db {
    idempotency =
        start_idempotency (execute_scope ctx.actor payment_id) ctx.key (execute_digest payment_id)
          db.idempotency;
  }

  pub record ExecuteRun (payment_id expected_version : ℕ) (response : PaymentView) (db' : PaymentDb)
      : Type 0 where
    pub locked : LockedPayment
    pub ids : List ℕ
    pub checked : PaymentDb
    pub done : PaymentDb
    pub is_locked : lock_payment payment_id db ≡ some locked
    pub authorized :
        services.can_operate_payment ctx.actor (authorization_context locked) payment_execute ≡ true
    pub guarded : execute_guards expected_version locked ≡ ok tt
    pub checks :
        execute_checks services ctx locked body (started_execute payment_id) ≡ ok (ids, checked)
    pub updates : execute_updates ctx payment_id (suc expected_version) locked ids checked ≡ ok done
    pub answered :
        execute_response ctx
          (execute_scope ctx.actor payment_id)
          payment_id
          (suc expected_version)
          done
        ≡ ok (response, db')
    pub evident : check_evidence locked.lines ≡ ok tt

  fresh-ExecuteRun :
      (payment_id expected_version : ℕ) (locked : LockedPayment) (response : PaymentView)
      (db' : PaymentDb)
      → lock_payment payment_id db ≡ some locked
      → services.can_operate_payment ctx.actor (authorization_context locked) payment_execute ≡ true
      → execute_fresh services ctx
          (execute_scope ctx.actor payment_id)
          (execute_digest payment_id)
          payment_id
          expected_version
          locked
          body
          db
        ≡ ok (response, db')
      → ExecuteRun payment_id expected_version response db'
  unfolding execute_fresh
  fresh-ExecuteRun payment_id expected_version locked response db' is_locked authorized e =
      let (u, guarded, e1) = >>=-eq-ok (execute_guards expected_version locked) _ e in
      let ((ids, checked), checks, e2) =
        >>=-eq-ok (execute_checks services ctx locked body (started_execute payment_id)) _ e1 in
      let (done, updates, e3) =
        >>=-eq-ok (execute_updates ctx payment_id (suc expected_version) locked ids checked) _ e2 in
      let ((seen, final), answered, e4) =
        >>=-eq-ok
          (execute_response ctx (execute_scope ctx.actor payment_id) payment_id
            (suc expected_version) done)
          _ e3 in
      let (v, evident, e5) =
        >>=-eq-ok {B = PaymentView × PaymentDb} (check_evidence locked.lines) _ e4 in
      record {
        locked = locked;
        ids = ids;
        checked = checked;
        done = done;
        is_locked = is_locked;
        authorized = authorized;
        guarded = guarded;
        checks = checks;
        updates = updates;
        answered = answered ∙ e5;
        evident = evident;
      }

  pub execute_cases :
      (response : PaymentView) (db' : PaymentDb)
      → execute services ctx body db ≡ ok (response, db')
      → (payment_id : ℕ) × (expected_version : ℕ) × (validate ctx
          ≡ ok (payment_id, expected_version))
        × (((find_idempotency (execute_scope ctx.actor payment_id) ctx.key db.idempotency ≢ none)
              × (db' ≡ db))
            ⊎ ExecuteRun payment_id expected_version response db')
  unfolding execute
  execute_cases response db' e =
      let ((payment_id, expected_version), request, e1) = >>=-eq-ok (validate ctx) _ e in
      let scope = execute_scope ctx.actor payment_id in
      let (locked, is_locked, e2) =
        or_throw-eq-ok (lock_payment payment_id db) resource_hidden _ e1 in
      let (authorized, e3) =
        throw_if-eq-ok
          (not
            (services.can_operate_payment ctx.actor (authorization_context locked) payment_execute))
          scope_denied _ e2 in
      (
        payment_id,
        expected_version,
        request,
        elim (unless_replayed-eq-ok (execute_digest payment_id)
            (find_idempotency scope ctx.key db.idempotency) db
            (execute_fresh services ctx scope (execute_digest payment_id) payment_id
              expected_version locked body db)
            e3) [
              | inl replayed ↦ inl replayed
              | inr (unused, ran) ↦ inr (
                  fresh-ExecuteRun payment_id expected_version locked response db' is_locked
                    (true_of_not _ authorized) ran)
            ],
      )

  -- Under a key that is new the run is not a replay.
  pub execute_ran :
      (response : PaymentView) (db' : PaymentDb) (payment_id expected_version : ℕ)
      → validate ctx ≡ ok (payment_id, expected_version)
      → find_idempotency (execute_scope ctx.actor payment_id) ctx.key db.idempotency ≡ none
      → execute services ctx body db ≡ ok (response, db')
      → ExecuteRun payment_id expected_version response db'
  execute_ran response db' payment_id expected_version request unused e =
      let (id, version, parsed, cases) = execute_cases response db' e in
      let same : ◌≡◌ {A = ℕ × ℕ} (id, version) (payment_id, expected_version) =
        ok-injective (sym parsed ∙ request) in
      subst
        (λ (p : ℕ × ℕ).
          find_idempotency (execute_scope ctx.actor p.0) ctx.key db.idempotency ≡ none
          → ExecuteRun p.0 p.1 response db')
        same (other_side cases) unused
