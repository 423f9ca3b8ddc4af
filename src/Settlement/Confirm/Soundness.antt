-- ===== src/Settlement/Confirm/Soundness.antt =====
-- What `confirm` keeps of the table of collection items.
use treasury_backend.Prelude.{All, inl, inr, subst, suc, sym, ℕ, ◌≡◌}
use treasury_backend.Money.{positive}
use treasury_backend.Store.{allocation_conflict, ok, throw_if-eq-ok}
use treasury_backend.Settlement.{LockedSettlement, Response, SettlementDb}
use treasury_backend.Settlement.Repository.{confirm_batch, items_of}
use treasury_backend.Settlement.Service.{Context, Services}
use treasury_backend.Settlement.Confirm.{
  check_allocations, confirm, confirm_effects, validate_locked_allocations,
}
use treasury_backend.Settlement.Confirm.Run.{confirm_cases, started_confirm}
use treasury_backend.Settlement.Confirm.Balances.{confirm_allocations-Kept}
use treasury_backend.Settlement.Frame.{
  confirm_effects-steps, confirm_response-steps, items-OnlyEffects, items-confirm_batch,
}
use treasury_backend.Settlement.Items.{
  AllSound, AllSound-items, IsPositive, Kept-items, lock-allocations, lock-items, locked-IsSound,
  locked-Kept,
}
use treasury_backend.Settlement.Confirm.Guards.{confirm_guards-IsConfirmable}

module _ (ctx : Context) (batch_id source_version : ℕ) (locked : LockedSettlement) where
  confirm_effects-AllSound :
      (db db' : SettlementDb)
      → locked.items ≡ items_of locked.allocations db.items
      → check_allocations locked.batch locked.items locked.allocations ≡ ok tt
      → All IsPositive locked.allocations
      → confirm_effects ctx batch_id source_version locked db ≡ ok db'
      → AllSound db
      → AllSound db'
  confirm_effects-AllSound db db' same checked positive e all_sound =
      let confirmed_db = confirm_batch batch_id ctx.actor ctx.now db in
      let (allocated, e1, only) =
        confirm_effects-steps ctx batch_id source_version locked db db' e in
      let (kept, keeps) =
        confirm_allocations-Kept locked.items (locked-IsSound db locked same all_sound) locked.batch
          locked.allocations confirmed_db allocated checked positive e1
          (Kept-items locked.items db confirmed_db
            (items-confirm_batch batch_id ctx.actor ctx.now db)
            (locked-Kept db locked same all_sound)) in
      AllSound-items allocated db' (items-OnlyEffects allocated db' only) kept

pub checked_allocations :
    (locked : LockedSettlement)
    → validate_locked_allocations locked ≡ ok tt
    → check_allocations locked.batch locked.items locked.allocations ≡ ok tt
unfolding validate_locked_allocations
checked_allocations locked e = (throw_if-eq-ok _ allocation_conflict _ e).1

-- If every collection item satisfies the constraints of its table, and every allocation has a
-- positive amount, then every collection item satisfies them after a `confirm` that returns: the
-- allocated and the remaining amount add up to the gross amount, neither is negative, and the state
-- has the shape of the amounts.
pub confirm-AllSound :
    (services : Services) (ctx : Context) (db : SettlementDb) (response : Response)
    (db' : SettlementDb)
    → AllSound db
    → All IsPositive db.allocations
    → confirm services ctx db ≡ ok (response, db')
    → AllSound db'
confirm-AllSound services ctx db response db' all_sound positive e =
    let (batch_id, expected_version, request, cases) =
      confirm_cases services ctx db response db' e in
    elim cases [
      | inl (used, same) ↦ subst AllSound (sym same) all_sound
      | inr run ↦
          (let guards =
              confirm_guards-IsConfirmable ctx.actor expected_version run.locked _ run.guarded in
            AllSound-items run.done db'
              (confirm_response-steps ctx _ batch_id _ run.done run.answered).0
              (confirm_effects-AllSound ctx batch_id (suc expected_version) run.locked
                (started_confirm services ctx db batch_id) run.done
                (lock-items batch_id db run.is_locked)
                (checked_allocations run.locked guards.allocated)
                (lock-allocations IsPositive batch_id db run.is_locked positive) run.effects
                all_sound))
    ]
