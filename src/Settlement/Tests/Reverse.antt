-- ===== src/Settlement/Tests/Reverse.antt =====
-- A run of `reverse` after a `confirm`, and the theorems applied to it.
use treasury_backend.Prelude.{All, [], arith, false, filter, map, none, refl, some, true, ◌∷◌, ◌≡◌}
use treasury_backend.Prelude.Int.{pos, ◌+ℤ◌, ◌-ℤ◌}
use treasury_backend.Money.{
  amount, big_int, big_int_from, decimal, digits, digits_fuel, fraction_text, is_empty, split,
  strip_zeros, units,
}
use treasury_backend.Money.Texts.{parse_if_match, quoted_from, trim, trim_end, trim_start}
use treasury_backend.Store.{
  ProofInput, Result, append_audit, append_movement, append_outbox, consume_step_up_proof,
  find_idempotency, finish_idempotency, ok, replay_response, start_idempotency,
}
use treasury_backend.Settlement.{LockedSettlement, Response, SettlementDb}
use treasury_backend.Settlement.Repository.{
  allocation_state, append_effect, collection_balance, confirm_batch, confirmation_facts,
  insert_reversal, lock, max_number, next_number, post_movement, random_uuid, reversal_view,
  reverse_batch, view,
}
use treasury_backend.Settlement.Service.{
  Context, authorized_for_batch, consume_proof, reverse_scope, settlement_reverse, units_or_throw,
  validate_command,
}
use treasury_backend.Settlement.Confirm.{
  append_bank_credit, append_consumptions, append_evidence, append_optional_evidence_effects,
  check_allocation, check_allocations, confirm, confirm_allocation, confirm_allocations,
  confirm_effects, confirm_fresh, confirm_guards, confirm_response, validate_locked_allocations,
}
use treasury_backend.Settlement.Confirm.Soundness.{confirm-AllSound}
use treasury_backend.Settlement.Reverse.{
  ReverseDto, is_bank_credit, reverse, reverse_allocation, reverse_allocations, reverse_effects,
  reverse_fresh, reverse_guards, reverse_movement, reverse_response, reverse_updates,
}
use treasury_backend.Settlement.Reverse.Commands.{IsReversible, reverse-IsReversible}
use treasury_backend.Settlement.Reverse.Soundness.{reverse-AllSound}
use treasury_backend.Settlement.Reverse.Movements.{Appends, reverse-Appends, undoing}
use treasury_backend.Settlement.Items.{AllSound, IsPositive}
use treasury_backend.Settlement.Tests.Fixtures.{
  confirmed_run, confirms, ctx, db, lock_or, run_db, run_response, services, step_up,
}
use treasury_backend.Settlement.Tests.Confirm.{allocation-IsPositive, db-AllSound}

-- The batch is reversed by another user, under a proof.
abbrev pub reverse_ctx : Context
reverse_ctx = record ctx { actor = 12; if_match = b'"' ∷ b'1' ∷ b'"' ∷ []; step_up = some step_up }

abbrev pub body : ReverseDto
body = record { reason = b'x' ∷ []; business_date = 21 }

abbrev pub reversed_run : Result (Response × SettlementDb)
reversed_run = reverse services reverse_ctx body (run_db confirmed_run)

pub reverses : reversed_run ≡ ok (run_response reversed_run, run_db reversed_run)
unfolding big_int_from big_int split strip_zeros digits_fuel digits decimal units fraction_text
    amount trim_start trim_end trim append_movement append_audit append_outbox consume_step_up_proof
    find_idempotency start_idempotency finish_idempotency lock confirmation_facts confirm_batch
    reverse_batch allocation_state collection_balance random_uuid append_effect post_movement
    max_number next_number insert_reversal view reversal_view units_or_throw quoted_from
    parse_if_match validate_command replay_response consume_proof check_allocation check_allocations
    validate_locked_allocations confirm_guards confirm_allocation confirm_allocations
    append_bank_credit append_consumptions append_evidence append_optional_evidence_effects
    confirm_effects confirm_response confirm_fresh confirm reverse_guards reverse_allocation
    reverse_allocations reverse_movement reverse_effects reverse_updates reverse_response
    reverse_fresh reverse ◌+ℤ◌ ◌-ℤ◌
reverses = refl

pub reverse_request : validate_command reverse_ctx ≡ ok (7, 1)
unfolding validate_command parse_if_match quoted_from
reverse_request = refl

confirmed-AllPositive : All IsPositive (run_db confirmed_run).allocations
unfolding big_int_from big_int split strip_zeros digits_fuel digits decimal units fraction_text
    amount trim_start trim_end trim append_movement append_audit append_outbox consume_step_up_proof
    find_idempotency start_idempotency finish_idempotency lock confirmation_facts confirm_batch
    reverse_batch allocation_state collection_balance random_uuid append_effect post_movement
    max_number next_number insert_reversal view reversal_view units_or_throw quoted_from
    parse_if_match validate_command replay_response consume_proof check_allocation check_allocations
    validate_locked_allocations confirm_guards confirm_allocation confirm_allocations
    append_bank_credit append_consumptions append_evidence append_optional_evidence_effects
    confirm_effects confirm_response confirm_fresh confirm reverse_guards reverse_allocation
    reverse_allocations reverse_movement reverse_effects reverse_updates reverse_response
    reverse_fresh reverse ◌+ℤ◌ ◌-ℤ◌
confirmed-AllPositive = ((pos 500000000, refl, λ le. omega (arith, le)), tt)

confirmed-AllSound : AllSound (run_db confirmed_run)
confirmed-AllSound =
    confirm-AllSound services ctx db (run_response confirmed_run) (run_db confirmed_run) db-AllSound
      (allocation-IsPositive, tt) confirms

reverse-AllSound_example : AllSound (run_db reversed_run)
reverse-AllSound_example =
    reverse-AllSound services reverse_ctx body (run_db confirmed_run) (run_response reversed_run)
      (run_db reversed_run) confirmed-AllSound confirmed-AllPositive reverses

pub unused_reverse :
    find_idempotency (reverse_scope 12 7) reverse_ctx.key (run_db confirmed_run).idempotency ≡ none
unfolding big_int_from big_int split strip_zeros digits_fuel digits decimal units fraction_text
    amount trim_start trim_end trim append_movement append_audit append_outbox consume_step_up_proof
    find_idempotency start_idempotency finish_idempotency lock confirmation_facts confirm_batch
    reverse_batch allocation_state collection_balance random_uuid append_effect post_movement
    max_number next_number insert_reversal view reversal_view units_or_throw quoted_from
    parse_if_match validate_command replay_response consume_proof check_allocation check_allocations
    validate_locked_allocations confirm_guards confirm_allocation confirm_allocations
    append_bank_credit append_consumptions append_evidence append_optional_evidence_effects
    confirm_effects confirm_response confirm_fresh confirm reverse_guards reverse_allocation
    reverse_allocations reverse_movement reverse_effects reverse_updates reverse_response
    reverse_fresh reverse ◌+ℤ◌ ◌-ℤ◌
unused_reverse = refl

reverse-IsReversible_example :
    (is_empty (trim body.reason) ≡ false)
    × ((p : ProofInput) × (some step_up ≡ some p)
        × ((consume_step_up_proof p 1000 (run_db confirmed_run).foundation).0 ≡ true))
    × ((l : LockedSettlement) × (lock 7 (run_db confirmed_run) ≡ some l)
        × (authorized_for_batch services 12 l settlement_reverse ≡ true)
        × IsReversible 12 1 l)
reverse-IsReversible_example =
    reverse-IsReversible services reverse_ctx body (run_db confirmed_run)
      (run_response reversed_run) (run_db reversed_run) 7 1 reverse_request unused_reverse reverses

abbrev locked_confirmed : LockedSettlement
locked_confirmed = lock_or (lock 7 (run_db confirmed_run))

confirmed-lock : lock 7 (run_db confirmed_run) ≡ some locked_confirmed
unfolding big_int_from big_int split strip_zeros digits_fuel digits decimal units fraction_text
    amount trim_start trim_end trim append_movement append_audit append_outbox consume_step_up_proof
    find_idempotency start_idempotency finish_idempotency lock confirmation_facts confirm_batch
    reverse_batch allocation_state collection_balance random_uuid append_effect post_movement
    max_number next_number insert_reversal view reversal_view units_or_throw quoted_from
    parse_if_match validate_command replay_response consume_proof check_allocation check_allocations
    validate_locked_allocations confirm_guards confirm_allocation confirm_allocations
    append_bank_credit append_consumptions append_evidence append_optional_evidence_effects
    confirm_effects confirm_response confirm_fresh confirm reverse_guards reverse_allocation
    reverse_allocations reverse_movement reverse_effects reverse_updates reverse_response
    reverse_fresh reverse ◌+ℤ◌ ◌-ℤ◌
confirmed-lock = refl

reverse-Appends_example :
    Appends
      (run_db confirmed_run)
      (run_db reversed_run)
      (map (undoing locked_confirmed.batch) (filter is_bank_credit locked_confirmed.effects))
reverse-Appends_example =
    reverse-Appends services reverse_ctx body (run_db confirmed_run) (run_response reversed_run)
      (run_db reversed_run) 7 1 locked_confirmed reverse_request unused_reverse confirmed-lock
      reverses
