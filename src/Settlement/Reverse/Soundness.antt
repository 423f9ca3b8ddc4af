-- ===== src/Settlement/Reverse/Soundness.antt =====
-- What `reverse` keeps of the table of collection items.
use treasury_backend.Prelude.{
  All, Bool-cases, List, Option, [], ap, inl, inr, refl, subst, sym, ℕ, ◌∙◌, ◌∷◌, ◌≡◌,
}
use treasury_backend.Money.{Text, positive}
use treasury_backend.Money.Texts.{trim}
use treasury_backend.Store.{
  >>=-eq-ok, Scope, ok, ok-injective, or_throw-eq-ok, reversal_conflict, step_up_required,
  throw_if-eq-ok,
}
use treasury_backend.Settlement.{Batch, Effect, LockedSettlement, Response, SettlementDb}
use treasury_backend.Settlement.Repository.{
  append_effect, insert_reversal, items_of, next_number, random_uuid, reversal_view, reverse_batch,
  view,
}
use treasury_backend.Settlement.Service.{Context, Services, consume_proof}
use treasury_backend.Settlement.Reverse.{
  ReverseDto, inverse_effect, is_bank_credit, reverse, reverse_allocations, reverse_effects,
  reverse_movement, reverse_response, reverse_updates,
}
use treasury_backend.Settlement.Reverse.Run.{reverse_cases, started_reverse}
use treasury_backend.Settlement.Reverse.Balances.{reverse_allocations-Kept}
use treasury_backend.Settlement.Frame.{
  OnlyEffects, OnlyEffects-trans, append_effect-OnlyEffects, items-OnlyEffects,
  post_movement-OnlyEffects,
}
use treasury_backend.Settlement.Items.{
  AllSound, AllSound-items, IsPositive, Kept-items, lock-allocations, lock-items, locked-IsSound,
  locked-Kept,
}

pub consume_proof-OnlyEffects :
    (ctx : Context) (db db' : SettlementDb) → consume_proof ctx db ≡ ok db' → OnlyEffects db db'
unfolding consume_proof
consume_proof-OnlyEffects ctx db db' e =
    let (proof, given, e1) = or_throw-eq-ok ctx.step_up step_up_required _ e in
    let (consumed, e2) = throw_if-eq-ok _ step_up_required _ e1 in (_, _, sym (ok-injective e2))

pub random_uuid-OnlyEffects : (db : SettlementDb) → OnlyEffects db (random_uuid db).1
unfolding random_uuid
random_uuid-OnlyEffects db = (_, _, refl)

reverse_movement-OnlyEffects :
    (reversal_id : ℕ) (batch : Batch) (date : ℕ) (f : Effect) (db : SettlementDb)
    {p : Option ℕ × SettlementDb}
    → reverse_movement reversal_id batch date f db ≡ ok p
    → OnlyEffects db p.1
unfolding reverse_movement
reverse_movement-OnlyEffects reversal_id batch date f db e = elim (Bool-cases (is_bank_credit f)) [
  | inl moves ↦
      (let (fact, given, e1) =
          or_throw-eq-ok {B = Option ℕ × SettlementDb} f.movement_fact_id reversal_conflict _
            (rw moves at e) in
        subst (λ (q : Option ℕ × SettlementDb). OnlyEffects db q.1) (ok-injective e1)
          (post_movement-OnlyEffects _ db))
  | inr still ↦
      subst (λ (q : Option ℕ × SettlementDb). OnlyEffects db q.1) (ok-injective (rw still at e))
        (db.effects, db.foundation, refl)
]

pub reverse_effects-OnlyEffects :
    (reversal_id : ℕ) (batch : Batch) (date : ℕ) (list : List Effect) (db db' : SettlementDb)
    → reverse_effects reversal_id batch date list db ≡ ok db'
    → OnlyEffects db db'
unfolding reverse_effects
reverse_effects-OnlyEffects reversal_id batch date [] db db' e =
    subst (OnlyEffects db) (ok-injective e) (db.effects, db.foundation, refl)
reverse_effects-OnlyEffects reversal_id batch date (f ∷ rest) db db' e =
    let ((movement, moved), one, more) =
      >>=-eq-ok (reverse_movement reversal_id batch date f db) _ e in
    let next = append_effect (inverse_effect reversal_id date f movement) moved in
    OnlyEffects-trans db moved db' (reverse_movement-OnlyEffects reversal_id batch date f db one) (
      OnlyEffects-trans moved next db' (append_effect-OnlyEffects _ moved)
        (reverse_effects-OnlyEffects reversal_id batch date rest next db' more))

abbrev inserted : Context → ℕ → ℕ → Batch → Text → ℕ → SettlementDb → SettlementDb
inserted ctx batch_id reversal_id batch reason date db =
    let closed = reverse_batch batch_id ctx.actor ctx.now db in
    insert_reversal reversal_id (next_number closed) batch ctx.actor reason date closed

items-inserted :
    (ctx : Context) (batch_id reversal_id : ℕ) (batch : Batch) (reason : Text) (date : ℕ)
    (db : SettlementDb)
    → (inserted ctx batch_id reversal_id batch reason date db).items ≡ db.items
unfolding reverse_batch insert_reversal
items-inserted ctx batch_id reversal_id batch reason date db = refl

reverse_updates-AllSound :
    (ctx : Context) (batch_id reversal_id : ℕ) (locked : LockedSettlement) (reason : Text)
    (date : ℕ) (db db' : SettlementDb)
    → locked.items ≡ items_of locked.allocations db.items
    → All IsPositive locked.allocations
    → reverse_updates ctx batch_id reversal_id locked reason date db ≡ ok db'
    → AllSound db
    → AllSound db'
unfolding reverse_updates
reverse_updates-AllSound ctx batch_id reversal_id locked reason date db db' same positive e
      all_sound =
    let start = inserted ctx batch_id reversal_id locked.batch reason date db in
    let (released, e1, e2) =
      >>=-eq-ok (reverse_allocations locked.items locked.allocations start) _ e in
    let (undone, e3, e4) =
      >>=-eq-ok (reverse_effects reversal_id locked.batch date locked.effects released) _ e2 in
    let (kept, keeps) =
      reverse_allocations-Kept locked.items (locked-IsSound db locked same all_sound)
        locked.allocations start released positive e1
        (Kept-items locked.items db start
          (items-inserted ctx batch_id reversal_id locked.batch reason date db)
          (locked-Kept db locked same all_sound)) in
    AllSound-items released db'
      (ap (λ (d : SettlementDb). d.items) (sym (ok-injective e4))
        ∙ items-OnlyEffects released undone (
            reverse_effects-OnlyEffects reversal_id locked.batch date locked.effects released undone
              e3))
      kept

items-reverse_response :
    (ctx : Context) (scope : Scope) (batch_id reversal_id version : ℕ) (db : SettlementDb)
    {response : Response} {db' : SettlementDb}
    → reverse_response ctx scope batch_id reversal_id version db ≡ ok (response, db')
    → db'.items ≡ db.items
unfolding reverse_response
items-reverse_response ctx scope batch_id reversal_id version db e =
    let (original, seen, e1) = or_throw-eq-ok (view batch_id db) reversal_conflict _ e in
    let (inverse, seen', e2) =
      or_throw-eq-ok (reversal_view reversal_id db) reversal_conflict _ e1 in
    ap (λ (p : Response × SettlementDb). p.1.items) (sym (ok-injective e2))

-- If every collection item satisfies the constraints of its table, and every allocation has a
-- positive amount, then every collection item satisfies them after a `reverse` that returns.
pub reverse-AllSound :
    (services : Services) (ctx : Context) (body : ReverseDto) (db : SettlementDb)
    (response : Response) (db' : SettlementDb)
    → AllSound db
    → All IsPositive db.allocations
    → reverse services ctx body db ≡ ok (response, db')
    → AllSound db'
reverse-AllSound services ctx body db response db' all_sound positive e =
    let (batch_id, expected_version, request, cases) =
      reverse_cases services ctx body db response db' e in
    elim cases [
      | inl (used, same) ↦ subst AllSound (sym same) all_sound
      | inr run ↦
          (let started = started_reverse services ctx body db batch_id in
            let numbered = (random_uuid run.proved).1 in
            let same = items-OnlyEffects started numbered (
              OnlyEffects-trans started run.proved numbered
                (consume_proof-OnlyEffects ctx started run.proved run.consumed)
                (random_uuid-OnlyEffects run.proved)) in
            AllSound-items run.done db'
              (items-reverse_response ctx _ batch_id _ _ run.done run.answered)
              (reverse_updates-AllSound ctx batch_id (random_uuid run.proved).0 run.locked
                (trim body.reason) body.business_date numbered run.done
                (lock-items batch_id db run.is_locked
                  ∙ ap (items_of run.locked.allocations) (sym same))
                (lock-allocations IsPositive batch_id db run.is_locked positive) run.updates
                (AllSound-items db numbered same all_sound)))
    ]
