-- ===== src/Settlement/Tests/Create.antt =====
-- A run of `create`, and the theorems applied to it.
use treasury_backend.Prelude.{[], none, refl, some, ◌∷◌, ◌≡◌}
use treasury_backend.Prelude.Int.{◌+ℤ◌, ◌-ℤ◌}
use treasury_backend.Money.{
  Text, amount, big_int, big_int_from, decimal, digits, digits_fuel, fraction_text, split,
  strip_zeros, units,
}
use treasury_backend.Money.Texts.{trim, trim_end, trim_start}
use treasury_backend.Store.{Result, find_idempotency, finish_idempotency, start_idempotency}
use treasury_backend.Settlement.{Response, SettlementDb, manual, no_discrepancy}
use treasury_backend.Settlement.Repository.{lock, max_number, next_number, random_uuid, view}
use treasury_backend.Settlement.Service.{CreateDto, Money, units_or_throw}
use treasury_backend.Settlement.Create.{
  check_item, check_items, create, create_fresh, facts, insert_allocations, insert_proposal,
  validate_facts,
}
use treasury_backend.Settlement.Request.{
  check_arithmetic, check_discrepancy, sum_units, validate_create,
}
use treasury_backend.Settlement.Tests.Fixtures.{
  batch, ctx, db, run_db, services, text_0, text_4, text_5,
}

abbrev money : Text → Money
money value = record { amount = value; currency = 1 }

abbrev dto : CreateDto
dto = record {
  destination_bank_account_id = 4;
  bank_statement_line_id = none;
  provider_reference = none;
  settlement_date = 20;
  match_input = record {
    kind = manual;
    rule_id = none;
    rule_version = none;
    reason = some (b'm' ∷ []);
  };
  gross = money text_5;
  fee = money (b'1' ∷ []);
  deduction = money text_0;
  expected_net = money text_4;
  actual_net = money text_4;
  discrepancy = money text_0;
  discrepancy_disposition = no_discrepancy;
  discrepancy_reason = none;
  replacement_for_batch_id = none;
  allocations =
      record { collection_item_id = 1; collection_item_version = 0; amount = money text_5 } ∷ [];
  attachments = record { id = 30; content_digest = 99 } ∷ [];
}

abbrev created_run : Result (Response × SettlementDb)
created_run = create services 10 dto ctx.key ctx.request_id db

-- A created batch is a proposal with the next number.
created :
    (run_db created_run).batches
    ≡ batch
      ∷ record batch {
        id = 100;
        business_number = 13;
        match_columns = some (record {
          kind = manual;
          rule_id = none;
          rule_version = none;
          reason = some (b'm' ∷ []);
        });
      }
      ∷ []
unfolding validate_create check_arithmetic check_discrepancy sum_units create create_fresh facts
    check_item check_items validate_facts insert_allocations insert_proposal big_int_from big_int
    split strip_zeros digits_fuel digits decimal units fraction_text amount trim_start trim_end trim
    find_idempotency start_idempotency finish_idempotency lock random_uuid max_number next_number
    view units_or_throw ◌+ℤ◌ ◌-ℤ◌
created = refl
