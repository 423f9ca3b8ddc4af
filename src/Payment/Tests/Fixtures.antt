-- ===== src/Payment/Tests/Fixtures.antt =====
-- A small database with an approved payment of two lines, and its execution.
use treasury_backend.Prelude.{
  Option, [], false, leb, none, refl, replicate, some, true, ℕ, ◌∷◌, ◌≡◌,
}
use treasury_backend.Prelude.Int.{◌+ℤ◌, ◌-ℤ◌}
use treasury_backend.Money.{
  Text, amount, big_int, big_int_from, decimal, digits, digits_fuel, fraction_text, split,
  strip_zeros, units,
}
use treasury_backend.Money.Texts.{parse_if_match, quoted_from, trim, trim_end, trim_start}
use treasury_backend.Store.{
  EndpointType, Movement, Result, append_audit, append_movement, append_outbox,
  bank_account_endpoint, bank_credit_key, cashbox_endpoint, consume_step_up_proof, credit, err,
  find_idempotency, finish_idempotency, ok, posted_fact, receipt_source, receipts, replay_response,
  start_idempotency,
}
use treasury_backend.Payment.{
  CurrencyControl, LockedPayment, PaymentDb, PaymentDocument, PaymentLine, PaymentView,
  action_approved, active, approved, bank_transfer, cash, cashbox_source, line_reserved,
  not_executed, not_ready,
}
use treasury_backend.Payment.Sources.{
  above_floor, account_payable, account_receivable, balance, cashbox_funds, cashbox_payable,
  cashbox_receivable, decimal_or_throw, position, reserved, sum_decimals,
}
use treasury_backend.Payment.Checks.{
  CommandContext, PaymentServices, check_known_total, check_payment_allocation,
  check_payment_allocations, consume_payment_proof, exact_total, lock_payment, locked_rows,
  override_approval_valid, override_separation, validate,
}
use treasury_backend.Payment.Totals.{
  add_total, add_totals, check_reservations, check_source, check_sources, check_totals,
  delete_total, match_reservations, reservations, total_at,
}
use treasury_backend.Payment.Execute.{
  append_instruction, append_payment_effect, check_evidence, complete_execution,
  consume_reservations, execute, execute_checks, execute_fresh, execute_guards, execute_line,
  execute_lines, execute_response, execute_updates, payment_uuid, payment_view,
  post_payment_movement,
}

abbrev pub amount_3 : Text
amount_3 = b'3' ∷ []

abbrev pub amount_2 : Text
amount_2 = b'2' ∷ []

abbrev pub services : PaymentServices
services = record {
  command_digest = λ c. 42;
  can_operate_payment = λ user context permission. leb user 20;
  has_separation_override = λ user. false;
}

abbrev pub document : PaymentDocument
document = record {
  id = 1;
  number_date = 20;
  number = 1;
  business_date = 20;
  branch_id = none;
  treasury_unit_id = 3;
  beneficiary_party_id = 8;
  base_currency = 1;
  total_base_amount = b'5' ∷ [];
  creator_user_id = 10;
  current_approval_snapshot_id = some 70;
  state = approved;
  execution_state = not_executed;
  accounting_state = not_ready;
  executed_at = none;
  executed_by_user_id = none;
  reversed_payment_id = none;
  reversal_reason = none;
  version = 4;
}

abbrev pub cash_line : PaymentLine
cash_line = record {
  id = 11;
  payment_document_id = 1;
  line_number = 1;
  method_id = 60;
  method_category = cash;
  amount = amount_3;
  currency = 1;
  base_amount = amount_3;
  cashbox_id = some 5;
  bank_account_id = none;
  beneficiary_account_reference = none;
  state = line_reserved;
  executed_at = none;
  executed_by_user_id = none;
  version = 1;
}

abbrev pub bank_line : PaymentLine
bank_line = record cash_line {
  id = 12;
  line_number = 2;
  method_id = 61;
  method_category = bank_transfer;
  amount = amount_2;
  base_amount = amount_2;
  cashbox_id = none;
  bank_account_id = some 6;
  beneficiary_account_reference = some (b'r' ∷ []);
}

abbrev pub control : CurrencyControl
control = record {
  cashbox_id = 5;
  currency = 1;
  transaction_ceiling = none;
  minimum_position = some amount_2;
  allow_negative = false;
}

-- A fact that paid `value` in at an endpoint.
abbrev received : ℕ → EndpointType → ℕ → Text → Movement
received id type endpoint value = record {
  id = id;
  owner = receipts;
  source_type = receipt_source;
  source_id = 2;
  source_line_id = none;
  effect_key = bank_credit_key;
  endpoint_type = type;
  endpoint_id = endpoint;
  direction = credit;
  amount = value;
  currency = 1;
  business_date = 1;
  reversal_of_fact_id = none;
  state = posted_fact;
}

-- 9 in the cashbox, 2 on the account; another payment has reserved 4 in the cashbox.
abbrev pub db : PaymentDb
db = record {
  documents = document ∷ [];
  lines = cash_line ∷ bank_line ∷ [];
  methods = record { id = 60; is_active = true } ∷ record { id = 61; is_active = true } ∷ [];
  units = record { id = 3; branch_id = some 2 } ∷ [];
  actions =
      record {
        id = 80;
        approval_snapshot_id = 70;
        actor_user_id = 13;
        delegated_from_user_id = none;
        action = action_approved;
        reason = none;
      }
      ∷ [];
  snapshots = record { id = 70; document_version = 3 } ∷ [];
  allocations = [];
  reservations =
      record {
        id = 90;
        payment_document_id = 1;
        source_type = cashbox_source;
        source_id = 5;
        currency = 1;
        amount = amount_3;
        review_due_at = 2000;
        state = active;
        version = 0;
      }
      ∷ record {
        id = 91;
        payment_document_id = 2;
        source_type = cashbox_source;
        source_id = 5;
        currency = 1;
        amount = b'4' ∷ [];
        review_due_at = 2000;
        state = active;
        version = 0;
      }
      ∷ [];
  effects = [];
  instructions = [];
  cashboxes =
      record {
        id = 5;
        is_active = true;
        can_pay = true;
        can_receive = true;
        active_from = 0;
        active_to = none;
      }
      ∷ [];
  controls = control ∷ [];
  days = [];
  accounts =
      record {
        id = 6;
        currency = 1;
        is_active = true;
        can_pay = true;
        can_receive = true;
        opening_date = 1;
        closing_date = none;
        withdrawal_ceiling = none;
      }
      ∷ [];
  counters = [];
  idempotency = [];
  foundation = record {
    movements =
        received 1 cashbox_endpoint 5 (b'9' ∷ [])
        ∷ received 2 bank_account_endpoint 6 amount_2
        ∷ [];
    audits = [];
    outbox = [];
    proofs =
        record {
          token_digest = 5;
          session_id = 6;
          command = 7;
          expires_at = 2000;
          consumed_at = none;
        }
        ∷ [];
    next_uuid = 100;
  };
}

abbrev pub ctx : CommandContext
ctx = record {
  actor = 11;
  payment_id = some 1;
  key = replicate 8 b'k';
  if_match = b'"' ∷ b'4' ∷ b'"' ∷ [];
  request_id = b'r' ∷ [];
  step_up = none;
  now = 1000;
}

abbrev pub locked_or : Option LockedPayment → LockedPayment
locked_or none = locked_rows db document
locked_or (some p) = p

abbrev pub locked : LockedPayment
locked = locked_rows db document

abbrev pub view_of : Result (PaymentView × PaymentDb) → PaymentView
view_of (ok (r, d)) = r
view_of (err e) = record { document = document; lines = []; allocations = []; effects = [] }

abbrev pub db_of : Result (PaymentView × PaymentDb) → PaymentDb
db_of (ok (r, d)) = d
db_of (err e) = db

abbrev pub executed_run : Result (PaymentView × PaymentDb)
executed_run = execute services ctx none db

pub executes : executed_run ≡ ok (view_of executed_run, db_of executed_run)
unfolding ◌+ℤ◌ ◌-ℤ◌ big_int_from big_int split strip_zeros digits_fuel digits decimal units
    fraction_text amount trim_start trim_end trim quoted_from parse_if_match append_movement
    append_audit append_outbox consume_step_up_proof find_idempotency start_idempotency
    finish_idempotency replay_response decimal_or_throw sum_decimals balance reserved position
    above_floor cashbox_funds cashbox_payable account_payable cashbox_receivable account_receivable
    validate lock_payment exact_total consume_payment_proof override_approval_valid
    override_separation check_known_total check_payment_allocation check_payment_allocations
    add_total total_at delete_total add_totals match_reservations check_reservations reservations
    check_source check_totals check_sources consume_reservations complete_execution payment_uuid
    append_payment_effect post_payment_movement append_instruction execute_line execute_lines
    payment_view execute_guards execute_checks execute_updates execute_response check_evidence
    execute_fresh execute
executes = refl
