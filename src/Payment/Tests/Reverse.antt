-- ===== src/Payment/Tests/Reverse.antt =====
-- The theorems on `reverse`, on the reversal of the payment of the fixtures.
use treasury_backend.Prelude.{
  List, Option, [], filter, map, none, refl, replicate, some, ◌∷◌, ◌≡◌, ◌≢◌,
}
use treasury_backend.Prelude.Int.{pos, ◌+ℤ◌, ◌-ℤ◌}
use treasury_backend.Money.{
  amount, big_int, big_int_from, decimal, digits, digits_fuel, fraction_text, split, strip_zeros,
  units,
}
use treasury_backend.Money.Texts.{parse_if_match, quoted_from, trim, trim_end, trim_start}
use treasury_backend.Store.{
  Movement, Result, append_audit, append_movement, append_outbox, bank_account_endpoint,
  cashbox_endpoint, check_violation, consume_step_up_proof, err, find_idempotency,
  finish_idempotency, ok, replay_response, start_idempotency,
}
use treasury_backend.Payment.{LockedPayment, PaymentDb, PaymentView}
use treasury_backend.Payment.Sources.{
  above_floor, account_payable, account_receivable, balance, cashbox_funds, cashbox_payable,
  cashbox_receivable, decimal_or_throw, position, reserved, sum_decimals,
}
use treasury_backend.Payment.Checks.{
  CommandContext, PaymentReverseDto, SeparationOverride, check_known_total,
  check_payment_allocation, check_payment_allocations, consume_payment_proof, exact_total,
  lock_payment, override_approval_valid, override_separation, validate,
}
use treasury_backend.Payment.Totals.{
  add_total, add_totals, check_reservations, check_source, check_sources, check_totals,
  delete_total, match_reservations, reservations, total_at,
}
use treasury_backend.Payment.Execute.{
  append_instruction, append_payment_effect, check_evidence, complete_execution,
  consume_reservations, execute, execute_checks, execute_fresh, execute_guards, execute_line,
  execute_lines, execute_response, execute_scope, execute_updates, payment_uuid, payment_view,
  post_payment_movement,
}
use treasury_backend.Payment.Execute.Movements.{Appends, movements, posting_of}
use treasury_backend.Payment.Tests.Fixtures.{
  ctx, db, db_of, executed_run, locked_or, services, view_of,
}
use treasury_backend.Payment.Reversal.{
  PaymentReversalResult, check_reversal_sources, complete_reversal, create_lines, create_reversal,
  effects_of, is_movement, next_payment_number, reversal_effects, reverse_guards,
}
use treasury_backend.Payment.Reverse.{
  check_reversal_evidence, replay_reversal, reverse, reverse_effect, reverse_fresh,
  reverse_payment_effects, reverse_response, reverse_scope, reverse_updates,
}
use treasury_backend.Payment.Reverse.Final.{reverse-once}
use treasury_backend.Payment.Reverse.Movements.{Credits, reverse-Credits}

abbrev pub paid : PaymentDb
paid = db_of executed_run

abbrev pub reverse_ctx : CommandContext
reverse_ctx = record ctx {
  actor = 12;
  key = replicate 9 b'k';
  if_match = b'"' ∷ b'5' ∷ b'"' ∷ [];
  step_up = some (record { proof_digest = 5; physical_session_id = 6; command = 7 });
}

abbrev pub body : PaymentReverseDto
body = record { reason = b'x' ∷ []; business_date = 21 }

abbrev pub result_of : Result (PaymentReversalResult × PaymentDb) → PaymentReversalResult
result_of (ok (r, d)) = r
result_of (err e) = record { original = view_of executed_run; reversal = view_of executed_run }

abbrev pub reversed_db : Result (PaymentReversalResult × PaymentDb) → PaymentDb
reversed_db (ok (r, d)) = d
reversed_db (err e) = paid

abbrev pub reversed_run : Result (PaymentReversalResult × PaymentDb)
reversed_run = reverse services reverse_ctx body paid

pub reverses : reversed_run ≡ ok (result_of reversed_run, reversed_db reversed_run)
unfolding ◌+ℤ◌ ◌-ℤ◌ big_int_from big_int split strip_zeros digits_fuel digits decimal units
    fraction_text amount trim_start trim_end trim quoted_from parse_if_match append_movement
    append_audit append_outbox consume_step_up_proof find_idempotency start_idempotency
    finish_idempotency replay_response decimal_or_throw sum_decimals balance reserved position
    above_floor cashbox_funds cashbox_payable account_payable cashbox_receivable account_receivable
    validate lock_payment exact_total consume_payment_proof override_approval_valid
    override_separation check_known_total check_payment_allocation check_payment_allocations
    add_total total_at delete_total add_totals match_reservations check_reservations reservations
    check_source check_totals check_sources consume_reservations complete_execution payment_uuid
    append_payment_effect post_payment_movement append_instruction execute_line execute_lines
    payment_view execute_guards execute_checks execute_updates execute_response check_evidence
    execute_fresh execute reverse_guards check_reversal_sources reversal_effects next_payment_number
    create_lines create_reversal complete_reversal reverse_effect reverse_payment_effects
    reverse_updates reverse_response check_reversal_evidence reverse_fresh replay_reversal reverse
reverses = refl

pub reverse_request : validate reverse_ctx ≡ ok (1, 5)
unfolding ◌+ℤ◌ ◌-ℤ◌ big_int_from big_int split strip_zeros digits_fuel digits decimal units
    fraction_text amount trim_start trim_end trim quoted_from parse_if_match append_movement
    append_audit append_outbox consume_step_up_proof find_idempotency start_idempotency
    finish_idempotency replay_response decimal_or_throw sum_decimals balance reserved position
    above_floor cashbox_funds cashbox_payable account_payable cashbox_receivable account_receivable
    validate lock_payment exact_total consume_payment_proof override_approval_valid
    override_separation check_known_total check_payment_allocation check_payment_allocations
    add_total total_at delete_total add_totals match_reservations check_reservations reservations
    check_source check_totals check_sources consume_reservations complete_execution payment_uuid
    append_payment_effect post_payment_movement append_instruction execute_line execute_lines
    payment_view execute_guards execute_checks execute_updates execute_response check_evidence
    execute_fresh execute reverse_guards check_reversal_sources reversal_effects next_payment_number
    create_lines create_reversal complete_reversal reverse_effect reverse_payment_effects
    reverse_updates reverse_response check_reversal_evidence reverse_fresh replay_reversal reverse
reverse_request = refl

pub reverse_unused : find_idempotency (reverse_scope 12 1) reverse_ctx.key paid.idempotency ≡ none
unfolding ◌+ℤ◌ ◌-ℤ◌ big_int_from big_int split strip_zeros digits_fuel digits decimal units
    fraction_text amount trim_start trim_end trim quoted_from parse_if_match append_movement
    append_audit append_outbox consume_step_up_proof find_idempotency start_idempotency
    finish_idempotency replay_response decimal_or_throw sum_decimals balance reserved position
    above_floor cashbox_funds cashbox_payable account_payable cashbox_receivable account_receivable
    validate lock_payment exact_total consume_payment_proof override_approval_valid
    override_separation check_known_total check_payment_allocation check_payment_allocations
    add_total total_at delete_total add_totals match_reservations check_reservations reservations
    check_source check_totals check_sources consume_reservations complete_execution payment_uuid
    append_payment_effect post_payment_movement append_instruction execute_line execute_lines
    payment_view execute_guards execute_checks execute_updates execute_response check_evidence
    execute_fresh execute reverse_guards check_reversal_sources reversal_effects next_payment_number
    create_lines create_reversal complete_reversal reverse_effect reverse_payment_effects
    reverse_updates reverse_response check_reversal_evidence reverse_fresh replay_reversal reverse
reverse_unused = refl

abbrev pub paid_locked : LockedPayment
paid_locked = locked_or (lock_payment 1 paid)

pub paid_is_locked : lock_payment 1 paid ≡ some paid_locked
unfolding ◌+ℤ◌ ◌-ℤ◌ big_int_from big_int split strip_zeros digits_fuel digits decimal units
    fraction_text amount trim_start trim_end trim quoted_from parse_if_match append_movement
    append_audit append_outbox consume_step_up_proof find_idempotency start_idempotency
    finish_idempotency replay_response decimal_or_throw sum_decimals balance reserved position
    above_floor cashbox_funds cashbox_payable account_payable cashbox_receivable account_receivable
    validate lock_payment exact_total consume_payment_proof override_approval_valid
    override_separation check_known_total check_payment_allocation check_payment_allocations
    add_total total_at delete_total add_totals match_reservations check_reservations reservations
    check_source check_totals check_sources consume_reservations complete_execution payment_uuid
    append_payment_effect post_payment_movement append_instruction execute_line execute_lines
    payment_view execute_guards execute_checks execute_updates execute_response check_evidence
    execute_fresh execute reverse_guards check_reversal_sources reversal_effects next_payment_number
    create_lines create_reversal complete_reversal reverse_effect reverse_payment_effects
    reverse_updates reverse_response check_reversal_evidence reverse_fresh replay_reversal reverse
paid_is_locked = refl

reverse-Credits_example :
    (new : List Movement) × Appends paid (reversed_db reversed_run) new
    × Credits paid_locked
        (filter is_movement (effects_of paid_locked.document.id paid))
        (map posting_of new)
reverse-Credits_example =
    reverse-Credits services reverse_ctx body paid (result_of reversed_run)
      (reversed_db reversed_run) 1 5 paid_locked reverse_request reverse_unused paid_is_locked
      reverses

abbrev other_ctx : CommandContext
other_ctx = record reverse_ctx { actor = 14; if_match = b'"' ∷ b'6' ∷ b'"' ∷ [] }

other_request : validate other_ctx ≡ ok (1, 6)
unfolding ◌+ℤ◌ ◌-ℤ◌ big_int_from big_int split strip_zeros digits_fuel digits decimal units
    fraction_text amount trim_start trim_end trim quoted_from parse_if_match append_movement
    append_audit append_outbox consume_step_up_proof find_idempotency start_idempotency
    finish_idempotency replay_response decimal_or_throw sum_decimals balance reserved position
    above_floor cashbox_funds cashbox_payable account_payable cashbox_receivable account_receivable
    validate lock_payment exact_total consume_payment_proof override_approval_valid
    override_separation check_known_total check_payment_allocation check_payment_allocations
    add_total total_at delete_total add_totals match_reservations check_reservations reservations
    check_source check_totals check_sources consume_reservations complete_execution payment_uuid
    append_payment_effect post_payment_movement append_instruction execute_line execute_lines
    payment_view execute_guards execute_checks execute_updates execute_response check_evidence
    execute_fresh execute reverse_guards check_reversal_sources reversal_effects next_payment_number
    create_lines create_reversal complete_reversal reverse_effect reverse_payment_effects
    reverse_updates reverse_response check_reversal_evidence reverse_fresh replay_reversal reverse
other_request = refl

reverse-once_example :
    ((body' : PaymentReverseDto) (answer : PaymentReversalResult × PaymentDb)
      → find_idempotency (reverse_scope 14 1) other_ctx.key (reversed_db reversed_run).idempotency
        ≡ none
      → reverse services other_ctx body' (reversed_db reversed_run) ≢ ok answer)
    × ((body' : Option SeparationOverride) (answer : PaymentView × PaymentDb)
        → find_idempotency (execute_scope 14 1) other_ctx.key (reversed_db reversed_run).idempotency
          ≡ none
        → execute services other_ctx body' (reversed_db reversed_run) ≢ ok answer)
reverse-once_example =
    reverse-once services reverse_ctx body paid (result_of reversed_run) (reversed_db reversed_run)
      1 5 (reversed_db reversed_run) other_ctx 6 reverse_request reverse_unused reverses refl
      other_request

-- The money is back in the cashbox and on the account.
restored :
    (balance cashbox_endpoint 5 1 (movements (reversed_db reversed_run)) ≡ pos 900000000)
    × (balance bank_account_endpoint 6 1 (movements (reversed_db reversed_run)) ≡ pos 200000000)
unfolding ◌+ℤ◌ ◌-ℤ◌ big_int_from big_int split strip_zeros digits_fuel digits decimal units
    fraction_text amount trim_start trim_end trim quoted_from parse_if_match append_movement
    append_audit append_outbox consume_step_up_proof find_idempotency start_idempotency
    finish_idempotency replay_response decimal_or_throw sum_decimals balance reserved position
    above_floor cashbox_funds cashbox_payable account_payable cashbox_receivable account_receivable
    validate lock_payment exact_total consume_payment_proof override_approval_valid
    override_separation check_known_total check_payment_allocation check_payment_allocations
    add_total total_at delete_total add_totals match_reservations check_reservations reservations
    check_source check_totals check_sources consume_reservations complete_execution payment_uuid
    append_payment_effect post_payment_movement append_instruction execute_line execute_lines
    payment_view execute_guards execute_checks execute_updates execute_response check_evidence
    execute_fresh execute reverse_guards check_reversal_sources reversal_effects next_payment_number
    create_lines create_reversal complete_reversal reverse_effect reverse_payment_effects
    reverse_updates reverse_response check_reversal_evidence reverse_fresh replay_reversal reverse
restored = (refl, refl)

-- A second proof.
abbrev with_proof : PaymentDb → PaymentDb
with_proof db = record db {
  foundation = record db.foundation {
    proofs =
        record {
          token_digest = 8;
          session_id = 6;
          command = 7;
          expires_at = 2000;
          consumed_at = none;
        }
        ∷ [];
  };
}

-- The reversal itself, a payment with the identifier 106, is executed, but it cannot be reversed.
no_reversal_of_reversal :
    reverse services
      (record reverse_ctx {
        payment_id = some 106;
        actor = 14;
        if_match = b'"' ∷ b'1' ∷ b'"' ∷ [];
        step_up = some (record { proof_digest = 8; physical_session_id = 6; command = 7 });
      })
      body
      (with_proof (reversed_db reversed_run))
    ≡ err check_violation
unfolding ◌+ℤ◌ ◌-ℤ◌ big_int_from big_int split strip_zeros digits_fuel digits decimal units
    fraction_text amount trim_start trim_end trim quoted_from parse_if_match append_movement
    append_audit append_outbox consume_step_up_proof find_idempotency start_idempotency
    finish_idempotency replay_response decimal_or_throw sum_decimals balance reserved position
    above_floor cashbox_funds cashbox_payable account_payable cashbox_receivable account_receivable
    validate lock_payment exact_total consume_payment_proof override_approval_valid
    override_separation check_known_total check_payment_allocation check_payment_allocations
    add_total total_at delete_total add_totals match_reservations check_reservations reservations
    check_source check_totals check_sources consume_reservations complete_execution payment_uuid
    append_payment_effect post_payment_movement append_instruction execute_line execute_lines
    payment_view execute_guards execute_checks execute_updates execute_response check_evidence
    execute_fresh execute reverse_guards check_reversal_sources reversal_effects next_payment_number
    create_lines create_reversal complete_reversal reverse_effect reverse_payment_effects
    reverse_updates reverse_response check_reversal_evidence reverse_fresh replay_reversal reverse
no_reversal_of_reversal = refl
