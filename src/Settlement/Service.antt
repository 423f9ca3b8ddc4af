-- ===== src/Settlement/Service.antt =====
-- What the three commands of src/collection-and-settlement/settlement.service.ts share: the request,
-- the request body, the services that it asks, and the checks on headers.
use treasury_backend.Prelude.{
  Bool, List, Option, false, map, not, present, some, true, unique, ℕ, ◌≡◌,
}
use treasury_backend.Prelude.Int.{ℤ}
use treasury_backend.Money.{Text, units}
use treasury_backend.Money.Texts.{bad_key, bad_request_id, parse_if_match}
use treasury_backend.Store.{
  ProofInput, Result, Scope, consume_step_up_proof, ok, or_throw, or_throw-eq-ok, step_up_required,
  syntax_error, throw_if, validation, ◌>>=◌, ◌>>◌,
}
use treasury_backend.Settlement.{
  CollectionItem, Disposition, ItemState, LockedSettlement, Match, SettlementDb, open_item,
  partially_allocated, reopened_after_reversal,
}

pub record Money : Type 0 where
  pub amount : Text
  pub currency : ℕ

pub record AllocationDto : Type 0 where
  pub collection_item_id : ℕ
  pub collection_item_version : ℕ
  pub amount : Money

pub record AttachmentDto : Type 0 where
  pub id : ℕ
  pub content_digest : ℕ

-- `SettlementCreateDto`, as the validation pipe hands it over.
pub record CreateDto : Type 0 where
  pub destination_bank_account_id : ℕ
  pub bank_statement_line_id : Option ℕ
  pub provider_reference : Option Text
  pub settlement_date : ℕ
  pub match_input : Match
  pub gross : Money
  pub fee : Money
  pub deduction : Money
  pub expected_net : Money
  pub actual_net : Money
  pub discrepancy : Money
  pub discrepancy_disposition : Disposition
  pub discrepancy_reason : Option Text
  pub replacement_for_batch_id : Option ℕ
  pub allocations : List AllocationDto
  pub attachments : List AttachmentDto

-- What `commandDigest` is applied to.
pub data Command : Type 0 where
  create_command : ℕ → CreateDto → Command
  confirm_command : ℕ → ℕ → Text → Command
  reverse_command : ℕ → ℕ → Text → Text → ℕ → Command

pub data Permission : Type 0 where
  settlement_create settlement_confirm settlement_reverse : Permission

-- The context that `resolveSettlementAuthority` is asked about.
pub record AuthorityContext : Type 0 where
  pub branch_ids : List ℕ
  pub treasury_unit_ids : List ℕ
  pub bank_account_id : ℕ
  pub currency : ℕ
  pub amount : Text

-- The services that settlement calls and does not write through: the keyed digest of a command, and
-- whether a user has a permission in a context.
pub record Services : Type 0 where
  pub command_digest : Command → ℕ
  pub resolve_settlement_authority : ℕ → AuthorityContext → Permission → Bool

-- `SettlementCommandContext`; a path parameter that is no UUID is `none`. `now` is the clock.
pub record Context : Type 0 where
  pub actor : ℕ
  pub batch_id : Option ℕ
  pub key : Text
  pub if_match : Text
  pub request_id : Text
  pub step_up : Option ProofInput
  pub now : ℕ

unfoldable pub units_or_throw : Text → Result ℤ
units_or_throw value = or_throw (units value) syntax_error

pub units_or_throw-eq-ok {ℓ} :
    {B : Type ℓ} (value : Text) (k : ℤ → Result B) {b : B}
    → (units_or_throw value >>= k) ≡ ok b
    → (v : ℤ) × (units value ≡ some v) × (k v ≡ ok b)
unfolding units_or_throw
units_or_throw-eq-ok value k e = or_throw-eq-ok (units value) syntax_error k e

-- `validateCommand`
unfoldable pub validate_command : Context → Result (ℕ × ℕ)
validate_command ctx = do
  batch_id ← or_throw ctx.batch_id validation
  throw_if (bad_request_id ctx.request_id) validation
  throw_if (bad_key ctx.key) validation
  expected_version ← or_throw (parse_if_match ctx.if_match) validation
  ok (batch_id, expected_version)

abbrev pub authority_context : ℕ → ℕ → Text → List CollectionItem → AuthorityContext
authority_context account currency amount items = record {
  branch_ids = unique (present (map (λ i. i.branch_id) items));
  treasury_unit_ids = unique (map (λ i. i.treasury_unit_id) items);
  bank_account_id = account;
  currency = currency;
  amount = amount;
}

-- `assertAuthorizedForBatch`
abbrev pub authorized_for_batch : Services → ℕ → LockedSettlement → Permission → Bool
authorized_for_batch services actor locked permission =
    services.resolve_settlement_authority actor
      (authority_context locked.batch.destination_bank_account_id locked.batch.currency
        locked.batch.gross_amount locked.items)
      permission

-- `consumeProof`
unfoldable pub consume_proof : Context → SettlementDb → Result SettlementDb
consume_proof ctx db = do
  proof ← or_throw ctx.step_up step_up_required
  let (consumed, foundation) = consume_step_up_proof proof ctx.now db.foundation
  throw_if (not consumed) step_up_required
  ok (record db { foundation = foundation })

abbrev pub confirm_scope : ℕ → ℕ → Scope
confirm_scope actor batch = record { operation = 1; actor = actor; subject = batch }

abbrev pub reverse_scope : ℕ → ℕ → Scope
reverse_scope actor batch = record { operation = 2; actor = actor; subject = batch }

abbrev pub create_scope : ℕ → Scope
create_scope actor = record { operation = 0; actor = actor; subject = 0 }

abbrev pub is_allocatable : ItemState → Bool
is_allocatable open_item = true
is_allocatable reopened_after_reversal = true
is_allocatable partially_allocated = true
is_allocatable _ = false
