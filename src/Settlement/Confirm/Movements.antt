-- ===== src/Settlement/Confirm/Movements.antt =====
-- The movement facts that `confirm` appends.
use treasury_backend.Prelude.{
  Bool-cases, List, [], ap, inl, inr, none, not, refl, some, some-injective, suc, sym, ℕ, ◌++◌,
  ◌==◌, ◌∙◌, ◌∷◌, ◌≡◌,
}
use treasury_backend.Prelude.Int.{pos, ◌==ℤ◌}
use treasury_backend.Money.{Text}
use treasury_backend.Store.{
  >>=-eq-ok, Audit, EffectKey, Movement, Scope, append_audit, append_movement, append_outbox,
  bank_account_endpoint, collection_and_settlement, confirmation_unknown, credit, deduction_key,
  fee_key, find_idempotency, movement_row, ok, ok-injective, or_throw-eq-ok, posted_fact,
  settlement_confirmed, settlement_source, throw_if-eq-ok,
}
use treasury_backend.Settlement.{
  Allocation, Batch, EffectType, LockedSettlement, Response, SettlementDb, deduction_evidence,
  fee_evidence,
}
use treasury_backend.Settlement.Repository.{
  EffectInput, append_effect, confirm_batch, lock, post_movement, view,
}
use treasury_backend.Settlement.Service.{
  Context, Services, confirm_scope, units_or_throw-eq-ok, validate_command,
}
use treasury_backend.Settlement.Confirm.{
  append_bank_credit, append_consumptions, append_evidence, append_optional_evidence_effects,
  audit_entry, bank_credit_movement, confirm, confirm_allocations, confirm_effects,
  confirm_response, with_audit,
}
use treasury_backend.Settlement.Confirm.Run.{confirm_ran, started_confirm}
use treasury_backend.Settlement.Frame.{confirm_allocations-OnlyBalances}

abbrev pub movements : SettlementDb → List Movement
movements db = db.foundation.movements

pub movements-append_effect :
    (input : EffectInput) (db : SettlementDb) → movements (append_effect input db) ≡ movements db
unfolding append_effect
movements-append_effect input db = refl

movements-append_consumptions :
    (batch : Batch) (version : ℕ) (list : List Allocation) (db : SettlementDb)
    → movements (append_consumptions batch version list db) ≡ movements db
unfolding append_consumptions
movements-append_consumptions batch version [] db = refl
movements-append_consumptions batch version (a ∷ rest) db =
    movements-append_consumptions batch version rest _ ∙ movements-append_effect _ db

movements-append_evidence :
    (batch : Batch) (version : ℕ) (type : EffectType) (key : EffectKey) (value : Text)
    (db db' : SettlementDb)
    → append_evidence batch version type key value db ≡ ok db'
    → movements db' ≡ movements db
unfolding append_evidence
movements-append_evidence batch version type key value db db' e =
    let (v, reads, done) = units_or_throw-eq-ok value _ e in
    elim (Bool-cases (v ==ℤ pos 0)) [
      | inl nothing ↦ ap movements (sym (ok-injective (rw nothing at done)))
      | inr something ↦
          ap movements (sym (ok-injective (rw something at done))) ∙ movements-append_effect _ db
    ]

movements-append_optional_evidence_effects :
    (batch : Batch) (version : ℕ) (db db' : SettlementDb)
    → append_optional_evidence_effects batch version db ≡ ok db'
    → movements db' ≡ movements db
unfolding append_optional_evidence_effects
movements-append_optional_evidence_effects batch version db db' e =
    let (one, e1, r1) =
      >>=-eq-ok (append_evidence batch version fee_evidence fee_key batch.fee_amount db) _ e in
    let (two, e2, e3) =
      >>=-eq-ok
        (append_evidence batch version deduction_evidence deduction_key batch.deduction_amount one)
        _ r1 in
    movements-append_evidence batch version _ _ _ two db' e3
    ∙ movements-append_evidence batch version _ _ _ one two e2
    ∙ movements-append_evidence batch version _ _ _ db one e1

abbrev posted : Batch → SettlementDb → List Movement
posted batch db =
    movements db ++ movement_row db.foundation.next_uuid (bank_credit_movement batch) ∷ []

movements-append_bank_credit :
    (batch : Batch) (version : ℕ) (db : SettlementDb)
    → movements (append_bank_credit batch version db) ≡ posted batch db
unfolding append_bank_credit append_effect post_movement append_movement
movements-append_bank_credit batch version db = refl

pub movements-with_audit :
    (entry : Audit) (db : SettlementDb) → movements (with_audit entry db) ≡ movements db
unfolding append_audit
movements-with_audit entry db = refl

movements-confirm_effects :
    (ctx : Context) (batch_id version : ℕ) (locked : LockedSettlement) (db db' : SettlementDb)
    → confirm_effects ctx batch_id version locked db ≡ ok db'
    → movements db' ≡ posted locked.batch db
unfolding confirm_effects confirm_batch
movements-confirm_effects ctx batch_id version locked db db' e =
    let b = locked.batch in
    let (allocated, e1, e2) =
      >>=-eq-ok
        (confirm_allocations locked.items locked.allocations
          (confirm_batch batch_id ctx.actor ctx.now db))
        _ e in
    let credited = append_bank_credit b version allocated in
    let consumed = append_consumptions b version locked.allocations credited in
    let (evidenced, e3, e4) =
      >>=-eq-ok (append_optional_evidence_effects b version consumed) _ e2 in
    let (a, i, balances) =
      confirm_allocations-OnlyBalances locked.items locked.allocations _ allocated e1 in
    ap movements (sym (ok-injective e4))
    ∙ movements-with_audit (audit_entry ctx batch_id settlement_confirmed none) evidenced
    ∙ movements-append_optional_evidence_effects b version consumed evidenced e3
    ∙ movements-append_consumptions b version locked.allocations credited
    ∙ movements-append_bank_credit b version allocated
    ∙ ap (posted b) balances

movements-confirm_response :
    (ctx : Context) (scope : Scope) (batch_id version : ℕ) (db : SettlementDb) {response : Response}
    {db' : SettlementDb}
    → confirm_response ctx scope batch_id version db ≡ ok (response, db')
    → movements db' ≡ movements db
unfolding confirm_response append_outbox
movements-confirm_response ctx scope batch_id version db e =
    let (seen, e1, e2) = or_throw-eq-ok (view batch_id db) confirmation_unknown _ e in
    let (u, e3) = throw_if-eq-ok (not (seen.batch.version == version)) confirmation_unknown _ e2 in
    ap (λ (p : Response × SettlementDb). movements p.1) (sym (ok-injective e3))

-- The fact is the credit of a batch to its bank account.
pub record IsBankCredit (batch : Batch) (m : Movement) : Type 0 where
  pub of_batch :
      (m.owner ≡ collection_and_settlement)
      × (m.source_type ≡ settlement_source)
      × (m.source_id ≡ batch.id)
  pub at_account :
      (m.endpoint_type ≡ bank_account_endpoint)
      × (m.endpoint_id ≡ batch.destination_bank_account_id)
  pub credits : m.direction ≡ credit
  pub net_amount : m.amount ≡ batch.actual_net_amount
  pub in_currency : m.currency ≡ batch.currency
  pub at_date : m.business_date ≡ batch.settlement_date
  pub reverses_nothing : m.reversal_of_fact_id ≡ none
  pub is_posted : m.state ≡ posted_fact

-- A `confirm` under a new key that returns has appended exactly one movement fact: a posted credit of
-- the actual net amount of the batch, in its currency and at its settlement date, to its bank
-- account, which reverses no other fact. No other movement fact is added or changed.
pub confirm-movements :
    (services : Services) (ctx : Context) (db : SettlementDb) (response : Response)
    (db' : SettlementDb) (batch_id expected_version : ℕ) (locked : LockedSettlement)
    → validate_command ctx ≡ ok (batch_id, expected_version)
    → find_idempotency (confirm_scope ctx.actor batch_id) ctx.key db.idempotency ≡ none
    → lock batch_id db ≡ some locked
    → confirm services ctx db ≡ ok (response, db')
    → (fact : Movement) × (db'.foundation.movements ≡ db.foundation.movements ++ fact ∷ [])
      × IsBankCredit locked.batch fact
confirm-movements services ctx db response db' batch_id expected_version locked request unused found
      done =
    let run =
      confirm_ran services ctx db response db' batch_id expected_version request unused done in
    let same : run.locked ≡ locked = some-injective (sym run.is_locked ∙ found) in
    (
      movement_row db.foundation.next_uuid (bank_credit_movement locked.batch),
      movements-confirm_response ctx _ batch_id _ run.done run.answered
          ∙ movements-confirm_effects ctx batch_id (suc expected_version) run.locked
              (started_confirm services ctx db batch_id) run.done run.effects
          ∙ ap (λ (l : LockedSettlement). posted l.batch db) same,
      record {
        of_batch = (refl, refl, refl);
        at_account = (refl, refl);
        credits = refl;
        net_amount = refl;
        in_currency = refl;
        at_date = refl;
        reverses_nothing = refl;
        is_posted = refl;
      },
    )
