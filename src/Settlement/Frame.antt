-- ===== src/Settlement/Frame.antt =====
-- The updates that leave most tables alone.
-- Only effects, movements, audits, events and proofs are new.
use treasury_backend.Prelude.{
  Bool-cases, List, [], ap, inl, inr, not, refl, subst, sym, ℕ, ◌==◌, ◌∙◌, ◌∷◌, ◌≡◌,
}
use treasury_backend.Prelude.Int.{pos, ◌==ℤ◌}
use treasury_backend.Money.{Text}
use treasury_backend.Store.{
  >>=-eq-ok, Audit, EffectKey, Foundation, MovementCommand, Scope, append_audit, append_movement,
  confirmation_unknown, deduction_key, fee_key, finish_idempotency, ok, ok-injective,
  or_throw-eq-ok, throw_if-eq-ok,
}
use treasury_backend.Settlement.{
  Allocation, Batch, CollectionItem, Effect, EffectType, LockedSettlement, Response, SettlementDb,
  deduction_evidence, fee_evidence,
}
use treasury_backend.Settlement.Repository.{
  EffectInput, allocation_state, append_effect, collection_balance, confirm_batch, post_movement,
  view,
}
use treasury_backend.Settlement.Service.{Context, units_or_throw-eq-ok}
use treasury_backend.Settlement.Confirm.{
  append_bank_credit, append_consumptions, append_evidence, append_optional_evidence_effects,
  confirm_allocation, confirm_allocations, confirm_effects, confirm_response, with_audit,
}
use treasury_backend.Settlement.Confirm.Balances.{confirm_allocation-Round}

abbrev pub OnlyEffects : SettlementDb → SettlementDb → Type 0
OnlyEffects db db' =
    (effects : List Effect) × (foundation : Foundation) × (db'
      ≡ record db { effects = effects; foundation = foundation })

-- Only the states of allocations and the balances of items are new.
abbrev pub OnlyBalances : SettlementDb → SettlementDb → Type 0
OnlyBalances db db' =
    (allocations : List Allocation) × (items : List CollectionItem) × (db'
      ≡ record db { allocations = allocations; items = items })

pub OnlyEffects-trans :
    (db db' db'' : SettlementDb) → OnlyEffects db db' → OnlyEffects db' db'' → OnlyEffects db db''
OnlyEffects-trans db db' db'' (e, f, one) (e', f', two) =
    (e', f', two ∙ ap (λ (d : SettlementDb). record d { effects = e'; foundation = f' }) one)

pub OnlyBalances-trans :
    (db db' db'' : SettlementDb)
    → OnlyBalances db db'
    → OnlyBalances db' db''
    → OnlyBalances db db''
OnlyBalances-trans db db' db'' (a, i, one) (a', i', two) =
    (a', i', two ∙ ap (λ (d : SettlementDb). record d { allocations = a'; items = i' }) one)

pub items-OnlyEffects : (db db' : SettlementDb) → OnlyEffects db db' → db'.items ≡ db.items
items-OnlyEffects db db' (e, f, same) = ap (λ (d : SettlementDb). d.items) same

pub append_effect-OnlyEffects :
    (input : EffectInput) (db : SettlementDb) → OnlyEffects db (append_effect input db)
unfolding append_effect
append_effect-OnlyEffects input db = (_, _, refl)

pub post_movement-OnlyEffects :
    (command : MovementCommand) (db : SettlementDb) → OnlyEffects db (post_movement command db).1
unfolding post_movement
post_movement-OnlyEffects command db = (_, _, refl)

append_bank_credit-OnlyEffects :
    (batch : Batch) (version : ℕ) (db : SettlementDb)
    → OnlyEffects db (append_bank_credit batch version db)
unfolding append_bank_credit append_effect post_movement append_movement
append_bank_credit-OnlyEffects batch version db = (_, _, refl)

append_consumptions-OnlyEffects :
    (batch : Batch) (version : ℕ) (list : List Allocation) (db : SettlementDb)
    → OnlyEffects db (append_consumptions batch version list db)
unfolding append_consumptions
append_consumptions-OnlyEffects batch version [] db = (db.effects, db.foundation, refl)
append_consumptions-OnlyEffects batch version (a ∷ rest) db =
    OnlyEffects-trans db _ _ (append_effect-OnlyEffects _ db)
      (append_consumptions-OnlyEffects batch version rest _)

append_evidence-OnlyEffects :
    (batch : Batch) (version : ℕ) (type : EffectType) (key : EffectKey) (value : Text)
    (db db' : SettlementDb)
    → append_evidence batch version type key value db ≡ ok db'
    → OnlyEffects db db'
unfolding append_evidence
append_evidence-OnlyEffects batch version type key value db db' e =
    let (v, reads, done) = units_or_throw-eq-ok value _ e in
    elim (Bool-cases (v ==ℤ pos 0)) [
      | inl nothing ↦
          subst (OnlyEffects db) (ok-injective (rw nothing at done))
            (db.effects, db.foundation, refl)
      | inr something ↦
          subst (OnlyEffects db) (ok-injective (rw something at done))
            (append_effect-OnlyEffects _ db)
    ]

append_optional_evidence_effects-OnlyEffects :
    (batch : Batch) (version : ℕ) (db db' : SettlementDb)
    → append_optional_evidence_effects batch version db ≡ ok db'
    → OnlyEffects db db'
unfolding append_optional_evidence_effects
append_optional_evidence_effects-OnlyEffects batch version db db' e =
    let (one, e1, r1) =
      >>=-eq-ok (append_evidence batch version fee_evidence fee_key batch.fee_amount db) _ e in
    let (two, e2, e3) =
      >>=-eq-ok
        (append_evidence batch version deduction_evidence deduction_key batch.deduction_amount one)
        _ r1 in
    OnlyEffects-trans db one db' (append_evidence-OnlyEffects batch version _ _ _ db one e1) (
      OnlyEffects-trans one two db' (append_evidence-OnlyEffects batch version _ _ _ one two e2)
        (append_evidence-OnlyEffects batch version _ _ _ two db' e3))

confirm_allocation-OnlyBalances :
    (items : List CollectionItem) (a : Allocation) (db db' : SettlementDb)
    → confirm_allocation items a db ≡ ok db'
    → OnlyBalances db db'
unfolding collection_balance allocation_state
confirm_allocation-OnlyBalances items a db db' e =
    (_, _, (confirm_allocation-Round items a db e).result)

pub confirm_allocations-OnlyBalances :
    (items : List CollectionItem) (list : List Allocation) (db db' : SettlementDb)
    → confirm_allocations items list db ≡ ok db'
    → OnlyBalances db db'
unfolding confirm_allocations
confirm_allocations-OnlyBalances items [] db db' e =
    subst (OnlyBalances db) (ok-injective e) (db.allocations, db.items, refl)
confirm_allocations-OnlyBalances items (a ∷ rest) db db' e =
    let (next, one, more) = >>=-eq-ok (confirm_allocation items a db) _ e in
    OnlyBalances-trans db next db' (confirm_allocation-OnlyBalances items a db next one)
      (confirm_allocations-OnlyBalances items rest next db' more)

pub items-confirm_batch :
    (id actor at : ℕ) (db : SettlementDb) → (confirm_batch id actor at db).items ≡ db.items
unfolding confirm_batch
items-confirm_batch id actor at db = refl

with_audit-OnlyEffects : (entry : Audit) (db : SettlementDb) → OnlyEffects db (with_audit entry db)
with_audit-OnlyEffects entry db = (db.effects, append_audit entry db.foundation, refl)

-- The updates of `confirm` are the balances, and then effects alone.
pub confirm_effects-steps :
    (ctx : Context) (batch_id version : ℕ) (locked : LockedSettlement) (db db' : SettlementDb)
    → confirm_effects ctx batch_id version locked db ≡ ok db'
    → (allocated : SettlementDb) × (confirm_allocations locked.items locked.allocations
          (confirm_batch batch_id ctx.actor ctx.now db)
        ≡ ok allocated)
      × OnlyEffects allocated db'
unfolding confirm_effects
confirm_effects-steps ctx batch_id version locked db db' e =
    let b = locked.batch in
    let (allocated, e1, e2) =
      >>=-eq-ok
        (confirm_allocations locked.items locked.allocations
          (confirm_batch batch_id ctx.actor ctx.now db))
        _ e in
    let credited = append_bank_credit b version allocated in
    let consumed = append_consumptions b version locked.allocations credited in
    let (evidenced, e3, e4) =
      >>=-eq-ok (append_optional_evidence_effects b version consumed) _ e2 in
    (
      allocated,
      e1,
      OnlyEffects-trans allocated evidenced db'
          (OnlyEffects-trans allocated credited evidenced
            (append_bank_credit-OnlyEffects b version allocated)
            (OnlyEffects-trans credited consumed evidenced
              (append_consumptions-OnlyEffects b version locked.allocations credited)
              (append_optional_evidence_effects-OnlyEffects b version consumed evidenced e3)))
          (subst (OnlyEffects evidenced) (ok-injective e4) (with_audit-OnlyEffects _ evidenced)),
    )

-- The response leaves the items alone and ends the record of the key.
pub confirm_response-steps :
    (ctx : Context) (scope : Scope) (batch_id version : ℕ) (db : SettlementDb) {response : Response}
    {db' : SettlementDb}
    → confirm_response ctx scope batch_id version db ≡ ok (response, db')
    → (db'.items ≡ db.items)
      × (db'.idempotency ≡ finish_idempotency scope ctx.key response db.idempotency)
unfolding confirm_response
confirm_response-steps ctx scope batch_id version db {response} {db'} e =
    let (seen, e1, e2) = or_throw-eq-ok (view batch_id db) confirmation_unknown _ e in
    let (u, e3) = throw_if-eq-ok (not (seen.batch.version == version)) confirmation_unknown _ e2 in
    let made = sym (ok-injective e3) in
    (
      ap (λ (p : Response × SettlementDb). p.1.items) made,
      ap (λ (p : Response × SettlementDb). p.1.idempotency) made
          ∙ ap
              (λ (p : Response × SettlementDb). finish_idempotency scope ctx.key p.0 db.idempotency)
              (sym made),
    )

pub confirm_effects-idempotency :
    (ctx : Context) (batch_id version : ℕ) (locked : LockedSettlement) (db db' : SettlementDb)
    → confirm_effects ctx batch_id version locked db ≡ ok db'
    → db'.idempotency ≡ db.idempotency
unfolding confirm_batch
confirm_effects-idempotency ctx batch_id version locked db db' e =
    let (allocated, moved, (f, g, only)) =
      confirm_effects-steps ctx batch_id version locked db db' e in
    let (a, i, balances) =
      confirm_allocations-OnlyBalances locked.items locked.allocations _ allocated moved in
    ap (λ (d : SettlementDb). d.idempotency) only
    ∙ ap (λ (d : SettlementDb). d.idempotency) balances
