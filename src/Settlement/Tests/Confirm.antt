-- ===== src/Settlement/Tests/Confirm.antt =====
-- Runs of `confirm`, and the theorems applied to them.
use treasury_backend.Prelude.{
  Bool-cases, [], arith, inl, inr, none, refl, some, some-injective, subst, true, ◌==◌, ◌∷◌, ◌≡◌,
}
use treasury_backend.Prelude.Int.{pos, ◌+ℤ◌, ◌-ℤ◌}
use treasury_backend.Money.{
  amount, big_int, big_int_from, decimal, digits, digits_fuel, fraction_text, split, strip_zeros,
  units,
}
use treasury_backend.Money.Texts.{parse_if_match, quoted_from, trim, trim_end, trim_start}
use treasury_backend.Store.{
  append_audit, append_movement, append_outbox, consume_step_up_proof, err, find_idempotency,
  Movement, finish_idempotency, ok, replay_response, scope_denied, stale_version, start_idempotency,
}
use treasury_backend.Settlement.{LockedSettlement}
use treasury_backend.Settlement.Repository.{
  allocation_state, append_effect, collection_balance, confirm_batch, confirmation_facts,
  insert_reversal, lock, max_number, next_number, post_movement, random_uuid, reversal_view,
  reverse_batch, view,
}
use treasury_backend.Settlement.Service.{
  authorized_for_batch, confirm_scope, consume_proof, settlement_confirm, units_or_throw,
  validate_command,
}
use treasury_backend.Settlement.Confirm.{
  append_bank_credit, append_consumptions, append_evidence, append_optional_evidence_effects,
  check_allocation, check_allocations, confirm, confirm_allocation, confirm_allocations,
  confirm_effects, confirm_fresh, confirm_guards, confirm_response, validate_locked_allocations,
}
use treasury_backend.Settlement.Confirm.Commands.{confirm-IsConfirmable, confirm-confirm}
use treasury_backend.Settlement.Confirm.Guards.{IsConfirmable}
use treasury_backend.Settlement.Confirm.Soundness.{confirm-AllSound}
use treasury_backend.Settlement.Confirm.Movements.{IsBankCredit, confirm-movements}
use treasury_backend.Settlement.Reverse.{
  reverse, reverse_allocation, reverse_allocations, reverse_effects, reverse_fresh, reverse_guards,
  reverse_movement, reverse_response, reverse_updates,
}
use treasury_backend.Settlement.Items.{AllSound, IsPositive, IsSound}
use treasury_backend.Settlement.Tests.Fixtures.{
  allocation, confirmed_run, confirms, ctx, db, item, lock_or, locked, run_db, run_response,
  services,
}

-- The small database satisfies the constraints of the item table.
item-IsSound : IsSound item
unfolding units decimal big_int big_int_from split ◌+ℤ◌
item-IsSound = record {
  allocated = pos 0;
  remaining = pos 900000000;
  gross = pos 900000000;
  reads_allocated = refl;
  reads_remaining = refl;
  reads_gross = refl;
  balanced = refl;
  allocated_nonneg = omega arith;
  remaining_nonneg = omega arith;
  gross_positive = omega arith;
  shaped = (refl, refl);
}

pub db-AllSound : AllSound db
db-AllSound j i e = elim (Bool-cases (1 == j)) [
  | inl here ↦ subst IsSound (some-injective (rw here at e)) item-IsSound
  | inr gone ↦ (let nothing = rw gone at e in cc nothing)
]

pub allocation-IsPositive : IsPositive allocation
unfolding units decimal big_int big_int_from split ◌+ℤ◌
allocation-IsPositive = (pos 500000000, refl, λ le. omega (arith, le))

confirm-AllSound_example : AllSound (run_db confirmed_run)
confirm-AllSound_example =
    confirm-AllSound services ctx db (run_response confirmed_run) (run_db confirmed_run) db-AllSound
      (allocation-IsPositive, tt) confirms

pub request : validate_command ctx ≡ ok (7, 0)
unfolding validate_command parse_if_match quoted_from
request = refl

pub unused : find_idempotency (confirm_scope 11 7) ctx.key db.idempotency ≡ none
unfolding find_idempotency
unused = refl

db-lock : lock 7 db ≡ some locked
unfolding lock
db-lock = refl

confirm-IsConfirmable_example :
    (l : LockedSettlement) × (lock 7 db ≡ some l)
    × (authorized_for_batch services 11 l settlement_confirm ≡ true)
    × IsConfirmable 11 0 l (confirmation_facts l.batch db)
confirm-IsConfirmable_example =
    confirm-IsConfirmable services ctx db (run_response confirmed_run) (run_db confirmed_run) 7 0
      request unused confirms

confirm-movements_example :
    (fact : Movement) × ((run_db confirmed_run).foundation.movements ≡ fact ∷ [])
    × IsBankCredit locked.batch fact
confirm-movements_example =
    confirm-movements services ctx db (run_response confirmed_run) (run_db confirmed_run) 7 0 locked
      request unused db-lock confirms

abbrev locked_after : LockedSettlement
locked_after = lock_or (lock 7 (run_db confirmed_run))

confirm-confirm_example :
    confirm services ctx (run_db confirmed_run)
    ≡ ok (run_response confirmed_run, run_db confirmed_run)
unfolding big_int_from big_int split strip_zeros digits_fuel digits decimal units fraction_text
    amount trim_start trim_end trim append_movement append_audit append_outbox consume_step_up_proof
    find_idempotency start_idempotency finish_idempotency lock confirmation_facts confirm_batch
    reverse_batch allocation_state collection_balance random_uuid append_effect post_movement
    max_number next_number insert_reversal view reversal_view units_or_throw quoted_from
    parse_if_match validate_command replay_response consume_proof check_allocation check_allocations
    validate_locked_allocations confirm_guards confirm_allocation confirm_allocations
    append_bank_credit append_consumptions append_evidence append_optional_evidence_effects
    confirm_effects confirm_response confirm_fresh confirm reverse_guards reverse_allocation
    reverse_allocations reverse_movement reverse_effects reverse_updates reverse_response
    reverse_fresh reverse ◌+ℤ◌ ◌-ℤ◌
confirm-confirm_example =
    confirm-confirm services ctx db (run_response confirmed_run) (run_db confirmed_run)
      (run_db confirmed_run) locked_after 7 0 request unused confirms refl refl refl

-- The creator may not confirm, and the confirming user may not reverse.
creator_denied : confirm services (record ctx { actor = 10 }) db ≡ err scope_denied
unfolding big_int_from big_int split strip_zeros digits_fuel digits decimal units fraction_text
    amount trim_start trim_end trim append_movement append_audit append_outbox consume_step_up_proof
    find_idempotency start_idempotency finish_idempotency lock confirmation_facts confirm_batch
    reverse_batch allocation_state collection_balance random_uuid append_effect post_movement
    max_number next_number insert_reversal view reversal_view units_or_throw quoted_from
    parse_if_match validate_command replay_response consume_proof check_allocation check_allocations
    validate_locked_allocations confirm_guards confirm_allocation confirm_allocations
    append_bank_credit append_consumptions append_evidence append_optional_evidence_effects
    confirm_effects confirm_response confirm_fresh confirm reverse_guards reverse_allocation
    reverse_allocations reverse_movement reverse_effects reverse_updates reverse_response
    reverse_fresh reverse ◌+ℤ◌ ◌-ℤ◌
creator_denied = refl

-- A stale version is refused.
stale_denied :
    confirm services (record ctx { if_match = b'"' ∷ b'3' ∷ b'"' ∷ [] }) db ≡ err stale_version
unfolding big_int_from big_int split strip_zeros digits_fuel digits decimal units fraction_text
    amount trim_start trim_end trim append_movement append_audit append_outbox consume_step_up_proof
    find_idempotency start_idempotency finish_idempotency lock confirmation_facts confirm_batch
    reverse_batch allocation_state collection_balance random_uuid append_effect post_movement
    max_number next_number insert_reversal view reversal_view units_or_throw quoted_from
    parse_if_match validate_command replay_response consume_proof check_allocation check_allocations
    validate_locked_allocations confirm_guards confirm_allocation confirm_allocations
    append_bank_credit append_consumptions append_evidence append_optional_evidence_effects
    confirm_effects confirm_response confirm_fresh confirm reverse_guards reverse_allocation
    reverse_allocations reverse_movement reverse_effects reverse_updates reverse_response
    reverse_fresh reverse ◌+ℤ◌ ◌-ℤ◌
stale_denied = refl

-- The guards of the first run hold, so it returns.
guarded : confirm_guards 11 0 locked db ≡ ok tt
unfolding big_int_from big_int split strip_zeros digits_fuel digits decimal units fraction_text
    amount trim_start trim_end trim append_movement append_audit append_outbox consume_step_up_proof
    find_idempotency start_idempotency finish_idempotency lock confirmation_facts confirm_batch
    reverse_batch allocation_state collection_balance random_uuid append_effect post_movement
    max_number next_number insert_reversal view reversal_view units_or_throw quoted_from
    parse_if_match validate_command replay_response consume_proof check_allocation check_allocations
    validate_locked_allocations confirm_guards confirm_allocation confirm_allocations
    append_bank_credit append_consumptions append_evidence append_optional_evidence_effects
    confirm_effects confirm_response confirm_fresh confirm reverse_guards reverse_allocation
    reverse_allocations reverse_movement reverse_effects reverse_updates reverse_response
    reverse_fresh reverse ◌+ℤ◌ ◌-ℤ◌
guarded = refl
