-- ===== src/Settlement/Tests/Fixtures.antt =====
-- A small database, and the first confirm on it.
use treasury_backend.Prelude.{Option, [], leb, none, refl, replicate, some, true, ◌∷◌, ◌≡◌}
use treasury_backend.Prelude.Int.{◌+ℤ◌, ◌-ℤ◌}
use treasury_backend.Money.{
  Text, amount, big_int, big_int_from, decimal, digits, digits_fuel, fraction_text, split,
  strip_zeros, units,
}
use treasury_backend.Money.Texts.{parse_if_match, quoted_from, trim, trim_end, trim_start}
use treasury_backend.Store.{
  Proof, ProofInput, Result, append_audit, append_movement, append_outbox, consume_step_up_proof,
  err, find_idempotency, finish_idempotency, ok, replay_response, start_idempotency,
}
use treasury_backend.Settlement.{
  Allocation, Batch, CollectionItem, LockedSettlement, Response, SettlementDb, batch_view, matched,
  no_discrepancy, open_item, proposed, receipt_line,
}
use treasury_backend.Settlement.Repository.{
  allocation_state, append_effect, collection_balance, confirm_batch, confirmation_facts,
  insert_reversal, lock, max_number, next_number, post_movement, random_uuid, reversal_view,
  reverse_batch, view,
}
use treasury_backend.Settlement.Service.{
  Context, Services, consume_proof, units_or_throw, validate_command,
}
use treasury_backend.Settlement.Confirm.{
  append_bank_credit, append_consumptions, append_evidence, append_optional_evidence_effects,
  check_allocation, check_allocations, confirm, confirm_allocation, confirm_allocations,
  confirm_effects, confirm_fresh, confirm_guards, confirm_response, validate_locked_allocations,
}
use treasury_backend.Settlement.Reverse.{
  reverse, reverse_allocation, reverse_allocations, reverse_effects, reverse_fresh, reverse_guards,
  reverse_movement, reverse_response, reverse_updates,
}

abbrev pub text_0 : Text
text_0 = b'0' ∷ []

abbrev pub text_4 : Text
text_4 = b'4' ∷ []

abbrev pub text_5 : Text
text_5 = b'5' ∷ []

abbrev pub services : Services
services = record {
  command_digest = λ c. 42;
  resolve_settlement_authority = λ user context permission. leb user 20;
}

-- An item of 9, of which the batch takes 5; one of them is the fee.
abbrev pub item : CollectionItem
item = record {
  id = 1;
  source_fact_type = receipt_line;
  source_fact_id = 50;
  channel_type = 1;
  channel_id = none;
  provider_reference = none;
  collected_party_id = some 8;
  collected_at = 19;
  expected_settlement_date = 20;
  branch_id = some 2;
  treasury_unit_id = 3;
  destination_bank_account_id = 4;
  currency = 1;
  gross_amount = b'9' ∷ [];
  allocated_amount = text_0;
  remaining_amount = b'9' ∷ [];
  state = open_item;
  version = 0;
}

abbrev pub batch : Batch
batch = record {
  id = 7;
  business_number = 12;
  destination_bank_account_id = 4;
  bank_statement_line_id = none;
  provider_reference = none;
  settlement_date = 20;
  match_columns = none;
  currency = 1;
  gross_amount = text_5;
  fee_amount = b'1' ∷ [];
  deduction_amount = text_0;
  expected_net_amount = text_4;
  actual_net_amount = text_4;
  discrepancy_amount = text_0;
  discrepancy_disposition = no_discrepancy;
  discrepancy_reason = none;
  creator_user_id = 10;
  confirmed_by = none;
  confirmed_at = none;
  reversed_by = none;
  reversed_at = none;
  reversal_of_batch_id = none;
  replacement_for_batch_id = none;
  reversal_reason = none;
  state = matched;
  version = 0;
}

abbrev pub allocation : Allocation
allocation = record {
  id = 20;
  settlement_batch_id = 7;
  collection_item_id = 1;
  collection_item_version = 0;
  allocated_amount = text_5;
  currency = 1;
  state = proposed;
  version = 0;
}

abbrev pub step_up : ProofInput
step_up = record { proof_digest = 5; physical_session_id = 6; command = 7 }

abbrev proof : Proof
proof = record {
  token_digest = 5;
  session_id = 6;
  command = 7;
  expires_at = 2000;
  consumed_at = none;
}

abbrev pub db : SettlementDb
db = record {
  batches = batch ∷ [];
  allocations = allocation ∷ [];
  items = item ∷ [];
  effects = [];
  accounts = record { id = 4; currency = 1; is_active = true; can_receive = true } ∷ [];
  users = record { id = 10; is_active = true } ∷ [];
  attachments = record { id = 30; content_digest = 99; is_active = true } ∷ [];
  links = record { settlement_batch_id = 7; attachment_id = 30; content_digest = 99 } ∷ [];
  idempotency = [];
  foundation = record {
    movements = [];
    audits = [];
    outbox = [];
    proofs = proof ∷ [];
    next_uuid = 100;
  };
}

abbrev pub ctx : Context
ctx = record {
  actor = 11;
  batch_id = some 7;
  key = replicate 8 b'k';
  if_match = b'"' ∷ b'0' ∷ b'"' ∷ [];
  request_id = b'r' ∷ [];
  step_up = none;
  now = 1000;
}

abbrev pub run_response : Result (Response × SettlementDb) → Response
run_response (ok (r, d)) = r
run_response (err e) =
    batch_view (record {
      batch = batch;
      allocations = [];
      links = [];
      effects = [];
      reversal_batch_id = none;
    })

abbrev pub run_db : Result (Response × SettlementDb) → SettlementDb
run_db (ok (r, d)) = d
run_db (err e) = db

abbrev pub locked : LockedSettlement
locked = record { batch = batch; allocations = allocation ∷ []; items = item ∷ []; effects = [] }

-- What the lock finds after the first run, and the same request again.
abbrev pub lock_or : Option LockedSettlement → LockedSettlement
lock_or none = locked
lock_or (some l) = l

abbrev pub confirmed_run : Result (Response × SettlementDb)
confirmed_run = confirm services ctx db

pub confirms : confirmed_run ≡ ok (run_response confirmed_run, run_db confirmed_run)
unfolding big_int_from big_int split strip_zeros digits_fuel digits decimal units fraction_text
    amount trim_start trim_end trim append_movement append_audit append_outbox consume_step_up_proof
    find_idempotency start_idempotency finish_idempotency lock confirmation_facts confirm_batch
    reverse_batch allocation_state collection_balance random_uuid append_effect post_movement
    max_number next_number insert_reversal view reversal_view units_or_throw quoted_from
    parse_if_match validate_command replay_response consume_proof check_allocation check_allocations
    validate_locked_allocations confirm_guards confirm_allocation confirm_allocations
    append_bank_credit append_consumptions append_evidence append_optional_evidence_effects
    confirm_effects confirm_response confirm_fresh confirm reverse_guards reverse_allocation
    reverse_allocations reverse_movement reverse_effects reverse_updates reverse_response
    reverse_fresh reverse ◌+ℤ◌ ◌-ℤ◌
confirms = refl
