-- ===== src/Payment/Tests/Execute.antt =====
-- The theorems on `execute`, on the run of the fixtures.
use treasury_backend.Prelude.{List, [], arith, map, none, refl, replicate, some, true, ◌∷◌, ◌≡◌}
use treasury_backend.Prelude.Int.{pos, ◌+ℤ◌, ◌-ℤ◌, ◌≤ℤ◌}
use treasury_backend.Money.{
  amount, big_int, big_int_from, decimal, digits, digits_fuel, fraction_text, split, strip_zeros,
  units,
}
use treasury_backend.Money.Texts.{parse_if_match, quoted_from, trim, trim_end, trim_start}
use treasury_backend.Store.{
  Movement, append_audit, append_movement, append_outbox, bank_account_endpoint, cashbox_endpoint,
  consume_step_up_proof, err, find_idempotency, finish_idempotency, ok, replay_response,
  scope_denied, start_idempotency, state_conflict,
}
use treasury_backend.Payment.{LockedPayment, PaymentDb, bank_account_source, cashbox_source}
use treasury_backend.Payment.Sources.{
  above_floor, account_payable, account_receivable, balance, cashbox_funds, cashbox_payable,
  cashbox_receivable, decimal_or_throw, position, reserved, sum_decimals,
}
use treasury_backend.Payment.Checks.{
  authorization_context, check_known_total, check_payment_allocation, check_payment_allocations,
  consume_payment_proof, exact_total, lock_payment, override_approval_valid, override_separation,
  payment_execute, validate,
}
use treasury_backend.Payment.Totals.{
  add_total, add_totals, check_reservations, check_source, check_sources, check_totals,
  delete_total, match_reservations, reservations, total_at,
}
use treasury_backend.Payment.Execute.{
  append_instruction, append_payment_effect, check_evidence, complete_execution,
  consume_reservations, execute, execute_checks, execute_fresh, execute_guards, execute_line,
  execute_lines, execute_response, execute_scope, execute_updates, payment_uuid, payment_view,
  post_payment_movement,
}
use treasury_backend.Payment.Execute.Run.{started_execute}
use treasury_backend.Payment.Execute.Movements.{
  Appends, Debits, execute-Appends, movements, posting_of,
}
use treasury_backend.Payment.Execute.Floor.{execute-covered, execute-minimum}
use treasury_backend.Payment.Execute.Guards.{IsExecutable, execute-IsExecutable}
use treasury_backend.Payment.Execute.Replay.{execute-execute}
use treasury_backend.Payment.Tests.Fixtures.{
  amount_2, bank_line, cash_line, control, ctx, db, db_of, executed_run, executes, locked,
  locked_or, services, view_of,
}
use treasury_backend.Payment.Execute.Evidence.{IsPayable}

pub request : validate ctx ≡ ok (1, 4)
unfolding ◌+ℤ◌ ◌-ℤ◌ big_int_from big_int split strip_zeros digits_fuel digits decimal units
    fraction_text amount trim_start trim_end trim quoted_from parse_if_match append_movement
    append_audit append_outbox consume_step_up_proof find_idempotency start_idempotency
    finish_idempotency replay_response decimal_or_throw sum_decimals balance reserved position
    above_floor cashbox_funds cashbox_payable account_payable cashbox_receivable account_receivable
    validate lock_payment exact_total consume_payment_proof override_approval_valid
    override_separation check_known_total check_payment_allocation check_payment_allocations
    add_total total_at delete_total add_totals match_reservations check_reservations reservations
    check_source check_totals check_sources consume_reservations complete_execution payment_uuid
    append_payment_effect post_payment_movement append_instruction execute_line execute_lines
    payment_view execute_guards execute_checks execute_updates execute_response check_evidence
    execute_fresh execute
request = refl

pub unused : find_idempotency (execute_scope 11 1) ctx.key db.idempotency ≡ none
unfolding ◌+ℤ◌ ◌-ℤ◌ big_int_from big_int split strip_zeros digits_fuel digits decimal units
    fraction_text amount trim_start trim_end trim quoted_from parse_if_match append_movement
    append_audit append_outbox consume_step_up_proof find_idempotency start_idempotency
    finish_idempotency replay_response decimal_or_throw sum_decimals balance reserved position
    above_floor cashbox_funds cashbox_payable account_payable cashbox_receivable account_receivable
    validate lock_payment exact_total consume_payment_proof override_approval_valid
    override_separation check_known_total check_payment_allocation check_payment_allocations
    add_total total_at delete_total add_totals match_reservations check_reservations reservations
    check_source check_totals check_sources consume_reservations complete_execution payment_uuid
    append_payment_effect post_payment_movement append_instruction execute_line execute_lines
    payment_view execute_guards execute_checks execute_updates execute_response check_evidence
    execute_fresh execute
unused = refl

pub is_locked : lock_payment 1 db ≡ some locked
unfolding ◌+ℤ◌ ◌-ℤ◌ big_int_from big_int split strip_zeros digits_fuel digits decimal units
    fraction_text amount trim_start trim_end trim quoted_from parse_if_match append_movement
    append_audit append_outbox consume_step_up_proof find_idempotency start_idempotency
    finish_idempotency replay_response decimal_or_throw sum_decimals balance reserved position
    above_floor cashbox_funds cashbox_payable account_payable cashbox_receivable account_receivable
    validate lock_payment exact_total consume_payment_proof override_approval_valid
    override_separation check_known_total check_payment_allocation check_payment_allocations
    add_total total_at delete_total add_totals match_reservations check_reservations reservations
    check_source check_totals check_sources consume_reservations complete_execution payment_uuid
    append_payment_effect post_payment_movement append_instruction execute_line execute_lines
    payment_view execute_guards execute_checks execute_updates execute_response check_evidence
    execute_fresh execute
is_locked = refl

pub cash_line-IsPayable : IsPayable (record { line = cash_line; method_is_active = true })
unfolding ◌+ℤ◌ ◌-ℤ◌ big_int_from big_int split strip_zeros digits_fuel digits decimal units
    fraction_text amount trim_start trim_end trim quoted_from parse_if_match append_movement
    append_audit append_outbox consume_step_up_proof find_idempotency start_idempotency
    finish_idempotency replay_response decimal_or_throw sum_decimals balance reserved position
    above_floor cashbox_funds cashbox_payable account_payable cashbox_receivable account_receivable
    validate lock_payment exact_total consume_payment_proof override_approval_valid
    override_separation check_known_total check_payment_allocation check_payment_allocations
    add_total total_at delete_total add_totals match_reservations check_reservations reservations
    check_source check_totals check_sources consume_reservations complete_execution payment_uuid
    append_payment_effect post_payment_movement append_instruction execute_line execute_lines
    payment_view execute_guards execute_checks execute_updates execute_response check_evidence
    execute_fresh execute
cash_line-IsPayable = ((300000000, refl, refl), λ id e. cc)

pub bank_line-IsPayable : IsPayable (record { line = bank_line; method_is_active = true })
unfolding ◌+ℤ◌ ◌-ℤ◌ big_int_from big_int split strip_zeros digits_fuel digits decimal units
    fraction_text amount trim_start trim_end trim quoted_from parse_if_match append_movement
    append_audit append_outbox consume_step_up_proof find_idempotency start_idempotency
    finish_idempotency replay_response decimal_or_throw sum_decimals balance reserved position
    above_floor cashbox_funds cashbox_payable account_payable cashbox_receivable account_receivable
    validate lock_payment exact_total consume_payment_proof override_approval_valid
    override_separation check_known_total check_payment_allocation check_payment_allocations
    add_total total_at delete_total add_totals match_reservations check_reservations reservations
    check_source check_totals check_sources consume_reservations complete_execution payment_uuid
    append_payment_effect post_payment_movement append_instruction execute_line execute_lines
    payment_view execute_guards execute_checks execute_updates execute_response check_evidence
    execute_fresh execute
bank_line-IsPayable = ((200000000, refl, refl), λ id e. cc)

execute-Appends_example :
    (new : List Movement) × Appends db (db_of executed_run) new
    × Debits locked.lines (map posting_of new)
execute-Appends_example =
    execute-Appends services ctx none db (view_of executed_run) (db_of executed_run) 1 4 locked
      request unused is_locked executes

-- The other payment has reserved 4 of the cashbox.
others_reserved : reserved cashbox_source 5 1 1 db ≡ ok (pos 400000000)
unfolding ◌+ℤ◌ ◌-ℤ◌ big_int_from big_int split strip_zeros digits_fuel digits decimal units
    fraction_text amount trim_start trim_end trim quoted_from parse_if_match append_movement
    append_audit append_outbox consume_step_up_proof find_idempotency start_idempotency
    finish_idempotency replay_response decimal_or_throw sum_decimals balance reserved position
    above_floor cashbox_funds cashbox_payable account_payable cashbox_receivable account_receivable
    validate lock_payment exact_total consume_payment_proof override_approval_valid
    override_separation check_known_total check_payment_allocation check_payment_allocations
    add_total total_at delete_total add_totals match_reservations check_reservations reservations
    check_source check_totals check_sources consume_reservations complete_execution payment_uuid
    append_payment_effect post_payment_movement append_instruction execute_line execute_lines
    payment_view execute_guards execute_checks execute_updates execute_response check_evidence
    execute_fresh execute
others_reserved = refl

minimum : decimal_or_throw amount_2 ≡ ok (pos 200000000)
unfolding ◌+ℤ◌ ◌-ℤ◌ big_int_from big_int split strip_zeros digits_fuel digits decimal units
    fraction_text amount trim_start trim_end trim quoted_from parse_if_match append_movement
    append_audit append_outbox consume_step_up_proof find_idempotency start_idempotency
    finish_idempotency replay_response decimal_or_throw sum_decimals balance reserved position
    above_floor cashbox_funds cashbox_payable account_payable cashbox_receivable account_receivable
    validate lock_payment exact_total consume_payment_proof override_approval_valid
    override_separation check_known_total check_payment_allocation check_payment_allocations
    add_total total_at delete_total add_totals match_reservations check_reservations reservations
    check_source check_totals check_sources consume_reservations complete_execution payment_uuid
    append_payment_effect post_payment_movement append_instruction execute_line execute_lines
    payment_view execute_guards execute_checks execute_updates execute_response check_evidence
    execute_fresh execute
minimum = refl

cashbox_not_negative : pos 0 ≤ℤ balance cashbox_endpoint 5 1 (movements db)
unfolding ◌+ℤ◌ ◌-ℤ◌ big_int_from big_int split strip_zeros digits_fuel digits decimal units
    fraction_text amount trim_start trim_end trim quoted_from parse_if_match append_movement
    append_audit append_outbox consume_step_up_proof find_idempotency start_idempotency
    finish_idempotency replay_response decimal_or_throw sum_decimals balance reserved position
    above_floor cashbox_funds cashbox_payable account_payable cashbox_receivable account_receivable
    validate lock_payment exact_total consume_payment_proof override_approval_valid
    override_separation check_known_total check_payment_allocation check_payment_allocations
    add_total total_at delete_total add_totals match_reservations check_reservations reservations
    check_source check_totals check_sources consume_reservations complete_execution payment_uuid
    append_payment_effect post_payment_movement append_instruction execute_line execute_lines
    payment_view execute_guards execute_checks execute_updates execute_response check_evidence
    execute_fresh execute
cashbox_not_negative = omega arith

execute-minimum_example :
    pos 200000000 ≤ℤ balance cashbox_endpoint 5 1 (movements (db_of executed_run)) -ℤ pos 400000000
execute-minimum_example =
    execute-minimum services ctx none db (view_of executed_run) (db_of executed_run) 1 4 locked 5 1
      control amount_2 (pos 200000000) (pos 400000000) request unused is_locked
      (cash_line-IsPayable, (bank_line-IsPayable, tt)) refl refl refl minimum others_reserved
      cashbox_not_negative executes

no_reserve : reserved bank_account_source 6 1 1 db ≡ ok (pos 0)
unfolding ◌+ℤ◌ ◌-ℤ◌ big_int_from big_int split strip_zeros digits_fuel digits decimal units
    fraction_text amount trim_start trim_end trim quoted_from parse_if_match append_movement
    append_audit append_outbox consume_step_up_proof find_idempotency start_idempotency
    finish_idempotency replay_response decimal_or_throw sum_decimals balance reserved position
    above_floor cashbox_funds cashbox_payable account_payable cashbox_receivable account_receivable
    validate lock_payment exact_total consume_payment_proof override_approval_valid
    override_separation check_known_total check_payment_allocation check_payment_allocations
    add_total total_at delete_total add_totals match_reservations check_reservations reservations
    check_source check_totals check_sources consume_reservations complete_execution payment_uuid
    append_payment_effect post_payment_movement append_instruction execute_line execute_lines
    payment_view execute_guards execute_checks execute_updates execute_response check_evidence
    execute_fresh execute
no_reserve = refl

account_not_negative : pos 0 ≤ℤ balance bank_account_endpoint 6 1 (movements db)
unfolding ◌+ℤ◌ ◌-ℤ◌ big_int_from big_int split strip_zeros digits_fuel digits decimal units
    fraction_text amount trim_start trim_end trim quoted_from parse_if_match append_movement
    append_audit append_outbox consume_step_up_proof find_idempotency start_idempotency
    finish_idempotency replay_response decimal_or_throw sum_decimals balance reserved position
    above_floor cashbox_funds cashbox_payable account_payable cashbox_receivable account_receivable
    validate lock_payment exact_total consume_payment_proof override_approval_valid
    override_separation check_known_total check_payment_allocation check_payment_allocations
    add_total total_at delete_total add_totals match_reservations check_reservations reservations
    check_source check_totals check_sources consume_reservations complete_execution payment_uuid
    append_payment_effect post_payment_movement append_instruction execute_line execute_lines
    payment_view execute_guards execute_checks execute_updates execute_response check_evidence
    execute_fresh execute
account_not_negative = omega arith

execute-covered_example :
    pos 0 ≤ℤ balance bank_account_endpoint 6 1 (movements (db_of executed_run)) -ℤ pos 0
execute-covered_example =
    execute-covered services ctx none db (view_of executed_run) (db_of executed_run) 1 4 locked 6 1
      (pos 0) request unused is_locked (cash_line-IsPayable, (bank_line-IsPayable, tt)) refl
      no_reserve account_not_negative executes

execute-IsExecutable_example :
    (p : LockedPayment) × (checked : PaymentDb) × (lock_payment 1 db ≡ some p)
    × (services.can_operate_payment 11 (authorization_context p) payment_execute ≡ true)
    × IsExecutable services ctx none 4 p (started_execute services ctx none db 1) checked
execute-IsExecutable_example =
    execute-IsExecutable services ctx none db (view_of executed_run) (db_of executed_run) 1 4
      request unused executes

abbrev executed_locked : LockedPayment
executed_locked = locked_or (lock_payment 1 (db_of executed_run))

locked_again : lock_payment 1 (db_of executed_run) ≡ some executed_locked
unfolding ◌+ℤ◌ ◌-ℤ◌ big_int_from big_int split strip_zeros digits_fuel digits decimal units
    fraction_text amount trim_start trim_end trim quoted_from parse_if_match append_movement
    append_audit append_outbox consume_step_up_proof find_idempotency start_idempotency
    finish_idempotency replay_response decimal_or_throw sum_decimals balance reserved position
    above_floor cashbox_funds cashbox_payable account_payable cashbox_receivable account_receivable
    validate lock_payment exact_total consume_payment_proof override_approval_valid
    override_separation check_known_total check_payment_allocation check_payment_allocations
    add_total total_at delete_total add_totals match_reservations check_reservations reservations
    check_source check_totals check_sources consume_reservations complete_execution payment_uuid
    append_payment_effect post_payment_movement append_instruction execute_line execute_lines
    payment_view execute_guards execute_checks execute_updates execute_response check_evidence
    execute_fresh execute
locked_again = refl

execute-execute_example :
    execute services ctx none (db_of executed_run) ≡ ok (view_of executed_run, db_of executed_run)
execute-execute_example =
    execute-execute services ctx none db (view_of executed_run) (db_of executed_run)
      (db_of executed_run) executed_locked 1 4 request unused executes refl locked_again refl

-- The creator may not execute.
creator_denied : execute services (record ctx { actor = 10 }) none db ≡ err scope_denied
unfolding ◌+ℤ◌ ◌-ℤ◌ big_int_from big_int split strip_zeros digits_fuel digits decimal units
    fraction_text amount trim_start trim_end trim quoted_from parse_if_match append_movement
    append_audit append_outbox consume_step_up_proof find_idempotency start_idempotency
    finish_idempotency replay_response decimal_or_throw sum_decimals balance reserved position
    above_floor cashbox_funds cashbox_payable account_payable cashbox_receivable account_receivable
    validate lock_payment exact_total consume_payment_proof override_approval_valid
    override_separation check_known_total check_payment_allocation check_payment_allocations
    add_total total_at delete_total add_totals match_reservations check_reservations reservations
    check_source check_totals check_sources consume_reservations complete_execution payment_uuid
    append_payment_effect post_payment_movement append_instruction execute_line execute_lines
    payment_view execute_guards execute_checks execute_updates execute_response check_evidence
    execute_fresh execute
creator_denied = refl

-- A second payment of the same line finds a payment that is not approved.
no_second_execution :
    execute services
      (record ctx { key = replicate 9 b'k'; if_match = b'"' ∷ b'5' ∷ b'"' ∷ [] })
      none
      (db_of executed_run)
    ≡ err state_conflict
unfolding ◌+ℤ◌ ◌-ℤ◌ big_int_from big_int split strip_zeros digits_fuel digits decimal units
    fraction_text amount trim_start trim_end trim quoted_from parse_if_match append_movement
    append_audit append_outbox consume_step_up_proof find_idempotency start_idempotency
    finish_idempotency replay_response decimal_or_throw sum_decimals balance reserved position
    above_floor cashbox_funds cashbox_payable account_payable cashbox_receivable account_receivable
    validate lock_payment exact_total consume_payment_proof override_approval_valid
    override_separation check_known_total check_payment_allocation check_payment_allocations
    add_total total_at delete_total add_totals match_reservations check_reservations reservations
    check_source check_totals check_sources consume_reservations complete_execution payment_uuid
    append_payment_effect post_payment_movement append_instruction execute_line execute_lines
    payment_view execute_guards execute_checks execute_updates execute_response check_evidence
    execute_fresh execute
no_second_execution = refl
