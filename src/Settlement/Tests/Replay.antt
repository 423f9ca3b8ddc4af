-- ===== src/Settlement/Tests/Replay.antt =====
-- What the reversal leaves, and the same request again.
use treasury_backend.Prelude.{refl, some, true, ◌≡◌}
use treasury_backend.Prelude.Int.{pos, ◌+ℤ◌, ◌-ℤ◌}
use treasury_backend.Money.{
  amount, big_int, big_int_from, decimal, digits, digits_fuel, fraction_text, split, strip_zeros,
  units,
}
use treasury_backend.Money.Texts.{parse_if_match, quoted_from, trim, trim_end, trim_start}
use treasury_backend.Store.{
  append_audit, append_movement, append_outbox, consume_step_up_proof, err, find_idempotency,
  finish_idempotency, ok, replay_response, scope_denied, start_idempotency,
}
use treasury_backend.Settlement.{LockedSettlement, reopened_after_reversal}
use treasury_backend.Settlement.Repository.{
  allocation_state, append_effect, collection_balance, confirm_batch, confirmation_facts,
  insert_reversal, item_by_id, lock, max_number, next_number, post_movement, random_uuid,
  reversal_view, reverse_batch, view,
}
use treasury_backend.Settlement.Service.{
  authorized_for_batch, consume_proof, settlement_reverse, units_or_throw, validate_command,
}
use treasury_backend.Settlement.Confirm.{
  append_bank_credit, append_consumptions, append_evidence, append_optional_evidence_effects,
  check_allocation, check_allocations, confirm, confirm_allocation, confirm_allocations,
  confirm_effects, confirm_fresh, confirm_guards, confirm_response, validate_locked_allocations,
}
use treasury_backend.Settlement.Reverse.{
  reverse, reverse_allocation, reverse_allocations, reverse_effects, reverse_fresh, reverse_guards,
  reverse_movement, reverse_response, reverse_updates,
}
use treasury_backend.Settlement.Reverse.Replay.{reverse-reverse}
use treasury_backend.Settlement.Tests.Fixtures.{
  confirmed_run, item, lock_or, run_db, run_response, services,
}
use treasury_backend.Settlement.Tests.Reverse.{
  body, reverse_ctx, reverse_request, reversed_run, reverses, unused_reverse,
}

-- The item has its first balance again, two versions later.
reopened :
    item_by_id 1 (run_db reversed_run).items
    ≡ some (record item {
      allocated_amount = amount (pos 0);
      remaining_amount = amount (pos 900000000);
      state = reopened_after_reversal;
      version = 2;
    })
unfolding big_int_from big_int split strip_zeros digits_fuel digits decimal units fraction_text
    amount trim_start trim_end trim append_movement append_audit append_outbox consume_step_up_proof
    find_idempotency start_idempotency finish_idempotency lock confirmation_facts confirm_batch
    reverse_batch allocation_state collection_balance random_uuid append_effect post_movement
    max_number next_number insert_reversal view reversal_view units_or_throw quoted_from
    parse_if_match validate_command replay_response consume_proof check_allocation check_allocations
    validate_locked_allocations confirm_guards confirm_allocation confirm_allocations
    append_bank_credit append_consumptions append_evidence append_optional_evidence_effects
    confirm_effects confirm_response confirm_fresh confirm reverse_guards reverse_allocation
    reverse_allocations reverse_movement reverse_effects reverse_updates reverse_response
    reverse_fresh reverse ◌+ℤ◌ ◌-ℤ◌
reopened = refl

confirmer_denied :
    reverse services (record reverse_ctx { actor = 11 }) body (run_db confirmed_run)
    ≡ err scope_denied
unfolding big_int_from big_int split strip_zeros digits_fuel digits decimal units fraction_text
    amount trim_start trim_end trim append_movement append_audit append_outbox consume_step_up_proof
    find_idempotency start_idempotency finish_idempotency lock confirmation_facts confirm_batch
    reverse_batch allocation_state collection_balance random_uuid append_effect post_movement
    max_number next_number insert_reversal view reversal_view units_or_throw quoted_from
    parse_if_match validate_command replay_response consume_proof check_allocation check_allocations
    validate_locked_allocations confirm_guards confirm_allocation confirm_allocations
    append_bank_credit append_consumptions append_evidence append_optional_evidence_effects
    confirm_effects confirm_response confirm_fresh confirm reverse_guards reverse_allocation
    reverse_allocations reverse_movement reverse_effects reverse_updates reverse_response
    reverse_fresh reverse ◌+ℤ◌ ◌-ℤ◌
confirmer_denied = refl

abbrev locked_reversed : LockedSettlement
locked_reversed = lock_or (lock 7 (run_db reversed_run))

reversed-lock : lock 7 (run_db reversed_run) ≡ some locked_reversed
unfolding big_int_from big_int split strip_zeros digits_fuel digits decimal units fraction_text
    amount trim_start trim_end trim append_movement append_audit append_outbox consume_step_up_proof
    find_idempotency start_idempotency finish_idempotency lock confirmation_facts confirm_batch
    reverse_batch allocation_state collection_balance random_uuid append_effect post_movement
    max_number next_number insert_reversal view reversal_view units_or_throw quoted_from
    parse_if_match validate_command replay_response consume_proof check_allocation check_allocations
    validate_locked_allocations confirm_guards confirm_allocation confirm_allocations
    append_bank_credit append_consumptions append_evidence append_optional_evidence_effects
    confirm_effects confirm_response confirm_fresh confirm reverse_guards reverse_allocation
    reverse_allocations reverse_movement reverse_effects reverse_updates reverse_response
    reverse_fresh reverse ◌+ℤ◌ ◌-ℤ◌
reversed-lock = refl

still_authorized : authorized_for_batch services 12 locked_reversed settlement_reverse ≡ true
still_authorized = refl

reverse-reverse_example :
    reverse services reverse_ctx body (run_db reversed_run)
    ≡ ok (run_response reversed_run, run_db reversed_run)
reverse-reverse_example =
    reverse-reverse services reverse_ctx body (run_db confirmed_run) (run_response reversed_run)
      (run_db reversed_run) (run_db reversed_run) locked_reversed 7 1 reverse_request unused_reverse
      reverses refl reversed-lock still_authorized
