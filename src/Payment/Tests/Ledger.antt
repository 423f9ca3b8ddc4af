-- ===== src/Payment/Tests/Ledger.antt =====
-- The ledger of the payment of the fixtures, before, after, and after the reversal.
use treasury_backend.Prelude.{All, filter, none, refl, ◌≡◌}
use treasury_backend.Prelude.Int.{◌+ℤ◌, ◌-ℤ◌}
use treasury_backend.Money.{
  amount, big_int, big_int_from, decimal, digits, digits_fuel, fraction_text, split, strip_zeros,
  units,
}
use treasury_backend.Money.Texts.{parse_if_match, quoted_from, trim, trim_end, trim_start}
use treasury_backend.Store.{
  append_audit, append_movement, append_outbox, consume_step_up_proof, find_idempotency,
  finish_idempotency, replay_response, start_idempotency,
}
use treasury_backend.Payment.Sources.{
  above_floor, account_payable, account_receivable, balance, cashbox_funds, cashbox_payable,
  cashbox_receivable, decimal_or_throw, position, reserved, sum_decimals,
}
use treasury_backend.Payment.Checks.{
  check_known_total, check_payment_allocation, check_payment_allocations, consume_payment_proof,
  exact_total, lock_payment, override_approval_valid, override_separation, validate,
}
use treasury_backend.Payment.Totals.{
  add_total, add_totals, check_reservations, check_source, check_sources, check_totals,
  delete_total, match_reservations, reservations, total_at,
}
use treasury_backend.Payment.Execute.{
  append_instruction, append_payment_effect, check_evidence, complete_execution,
  consume_reservations, execute, execute_checks, execute_fresh, execute_guards, execute_line,
  execute_lines, execute_response, execute_updates, payment_uuid, payment_view,
  post_payment_movement,
}
use treasury_backend.Payment.Tests.Fixtures.{
  ctx, db, db_of, executed_run, executes, locked, services, view_of,
}
use treasury_backend.Payment.Execute.Evidence.{IsPayable}
use treasury_backend.Payment.Reversal.{
  check_reversal_sources, complete_reversal, create_lines, create_reversal, effects_of, is_movement,
  next_payment_number, reversal_effects, reverse_guards,
}
use treasury_backend.Payment.Reverse.{
  check_reversal_evidence, replay_reversal, reverse, reverse_effect, reverse_fresh,
  reverse_payment_effects, reverse_response, reverse_updates,
}
use treasury_backend.Payment.Ledger.{ledger_of, ledger_of-execute, spend}
use treasury_backend.Payment.Ledger.Refund.{ledger_of-reverse, refund}
use treasury_backend.Payment.Tests.Execute.{
  bank_line-IsPayable, cash_line-IsPayable, is_locked, request, unused,
}
use treasury_backend.Payment.Tests.Reverse.{
  body, paid, paid_is_locked, paid_locked, result_of, reverse_ctx, reverse_request, reverse_unused,
  reversed_db, reversed_run, reverses,
}

ledger_of-execute_example : ledger_of paid ≡ spend locked.lines (ledger_of db)
ledger_of-execute_example =
    ledger_of-execute services ctx none db (view_of executed_run) (db_of executed_run) 1 4 locked
      request unused is_locked (cash_line-IsPayable, (bank_line-IsPayable, tt)) executes

paid-IsPayable : All IsPayable paid_locked.lines
unfolding ◌+ℤ◌ ◌-ℤ◌ big_int_from big_int split strip_zeros digits_fuel digits decimal units
    fraction_text amount trim_start trim_end trim quoted_from parse_if_match append_movement
    append_audit append_outbox consume_step_up_proof find_idempotency start_idempotency
    finish_idempotency replay_response decimal_or_throw sum_decimals balance reserved position
    above_floor cashbox_funds cashbox_payable account_payable cashbox_receivable account_receivable
    validate lock_payment exact_total consume_payment_proof override_approval_valid
    override_separation check_known_total check_payment_allocation check_payment_allocations
    add_total total_at delete_total add_totals match_reservations check_reservations reservations
    check_source check_totals check_sources consume_reservations complete_execution payment_uuid
    append_payment_effect post_payment_movement append_instruction execute_line execute_lines
    payment_view execute_guards execute_checks execute_updates execute_response check_evidence
    execute_fresh execute reverse_guards check_reversal_sources reversal_effects next_payment_number
    create_lines create_reversal complete_reversal reverse_effect reverse_payment_effects
    reverse_updates reverse_response check_reversal_evidence reverse_fresh replay_reversal reverse
paid-IsPayable =
    (((300000000, refl, refl), λ id e. cc), (((200000000, refl, refl), λ id e. cc), tt))

ledger_of-reverse_example :
    ledger_of (reversed_db reversed_run)
    ≡ refund paid_locked
        (filter is_movement (effects_of paid_locked.document.id paid))
        (ledger_of paid)
ledger_of-reverse_example =
    ledger_of-reverse services reverse_ctx body paid (result_of reversed_run)
      (reversed_db reversed_run) 1 5 paid_locked reverse_request reverse_unused paid_is_locked
      paid-IsPayable reverses
