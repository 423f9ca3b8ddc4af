-- ===== src/Settlement/Create.antt =====
-- `create` and `validateFacts` of src/collection-and-settlement/settlement.service.ts, with `facts` and `insertProposal` of
-- settlement.repository.ts.
use treasury_backend.Prelude.{
  Bool, List, Option, [], any, false, filter, find, if◌then◌else◌, includes, is_some, length, map,
  none, not, some, true, ℕ, ◌&&◌, ◌++◌, ◌==◌, ◌∷◌,
}
use treasury_backend.Prelude.Int.{ltb_ℤ, pos, ◌==ℤ◌}
use treasury_backend.Money.{Text}
use treasury_backend.Money.Texts.{bad_key, bad_request_id, non_empty, trim_option}
use treasury_backend.Store.{
  IdempotencyRecord, Result, allocation_conflict, confirmation_unknown, err, evidence_invalid,
  find_idempotency, finish_idempotency, idempotency_conflict, ok, or_throw, replay_response,
  resource_hidden, scope_denied, start_idempotency, throw_if, validation, ◌>>=◌, ◌>>◌,
}
use treasury_backend.Settlement.{
  Attachment, BankAccount, Batch, BatchState, CollectionItem, Response, SettlementDb, UserRef,
  batch_view, in_discrepancy, matched, proposed, reversal_result, reversed,
}
use treasury_backend.Settlement.Repository.{
  batch_by_id, item_by_id, lock, next_number, random_uuid, view,
}
use treasury_backend.Settlement.Service.{
  AllocationDto, AttachmentDto, CreateDto, Services, authority_context, create_command,
  create_scope, is_allocatable, settlement_create, units_or_throw,
}
use treasury_backend.Settlement.Request.{validate_create}

-- `SettlementFacts`; the organization is that of the tables.
pub record SettlementFacts : Type 0 where
  pub actor : Option UserRef
  pub account : Option BankAccount
  pub attachments : List Attachment
  pub items : List CollectionItem
  pub replacement : Option Batch

abbrev replacement_of : Option ℕ → List Batch → Option Batch
replacement_of none batches = none
replacement_of (some id) batches = batch_by_id id batches

unfoldable pub facts : ℕ → CreateDto → SettlementDb → SettlementFacts
facts actor dto db = record {
  actor = find (λ u. u.id == actor) db.users;
  account = find (λ a. a.id == dto.destination_bank_account_id) db.accounts;
  attachments =
      filter (λ a. includes a.id (map (λ (d : AttachmentDto). d.id) dto.attachments))
        db.attachments;
  items =
      filter
        (λ i. includes i.id (map (λ (d : AllocationDto). d.collection_item_id) dto.allocations))
        db.items;
  replacement = replacement_of dto.replacement_for_batch_id db.batches;
}

abbrev is_active_attachment : List Attachment → AttachmentDto → Bool
is_active_attachment found d =
    elim (find (λ a. a.id == d.id && a.content_digest == d.content_digest) found) [
      | none ↦ false
      | some a ↦ a.is_active
    ]

abbrev accepts_gross : BankAccount → CreateDto → Bool
accepts_gross a dto = a.is_active && a.can_receive && a.currency == dto.gross.currency

-- One round of the loop of `validateFacts`.
unfoldable pub check_item : CreateDto → List CollectionItem → AllocationDto → Result (Unit {0})
check_item dto items a = do
  item ← or_throw (item_by_id a.collection_item_id items) allocation_conflict
  throw_if
      (not (
        is_allocatable item.state
        && item.version == a.collection_item_version
        && item.destination_bank_account_id == dto.destination_bank_account_id
        && item.currency == dto.gross.currency))
      allocation_conflict
  taken ← units_or_throw a.amount.amount
  remaining ← units_or_throw item.remaining_amount
  throw_if (ltb_ℤ remaining taken) allocation_conflict

unfoldable pub check_items :
    CreateDto → List CollectionItem → List AllocationDto → Result (Unit {0})
check_items dto items [] = ok tt
check_items dto items (a ∷ rest) = do check_item dto items a; check_items dto items rest

abbrev is_reversed : BatchState → Bool
is_reversed reversed = true
is_reversed _ = false

abbrev replaces : CreateDto → Option Batch → Bool
replaces dto none = false
replaces dto (some b) =
    is_reversed b.state
    && b.destination_bank_account_id == dto.destination_bank_account_id
    && b.currency == dto.gross.currency

unfoldable pub validate_facts : CreateDto → SettlementFacts → Result (Unit {0})
validate_facts dto found = do
  actor ← or_throw found.actor resource_hidden
  account ← or_throw found.account resource_hidden
  throw_if (not actor.is_active) resource_hidden
  throw_if (not (accepts_gross account dto)) evidence_invalid
  throw_if (not (length found.attachments == length dto.attachments)) evidence_invalid
  throw_if (any (λ d. not (is_active_attachment found.attachments d)) dto.attachments)
      evidence_invalid
  throw_if (not (length found.items == length dto.allocations)) allocation_conflict
  check_items dto found.items dto.allocations
  throw_if (is_some dto.replacement_for_batch_id && not (replaces dto found.replacement))
      evidence_invalid

-- One row of `settlementAllocations` for each allocation, each under a new id.
unfoldable pub insert_allocations : ℕ → List AllocationDto → SettlementDb → SettlementDb
insert_allocations batch_id [] db = db
insert_allocations batch_id (a ∷ rest) db =
    let (id, named) = random_uuid db in
    insert_allocations batch_id rest (record named {
      allocations =
          named.allocations
          ++ record {
            id = id;
            settlement_batch_id = batch_id;
            collection_item_id = a.collection_item_id;
            collection_item_version = a.collection_item_version;
            allocated_amount = a.amount.amount;
            currency = a.amount.currency;
            state = proposed;
            version = 0;
          }
            ∷ [];
    })

abbrev proposal : ℕ → ℕ → ℕ → BatchState → CreateDto → Batch
proposal id actor number state dto = record {
  id = id;
  business_number = number;
  destination_bank_account_id = dto.destination_bank_account_id;
  bank_statement_line_id = dto.bank_statement_line_id;
  provider_reference = non_empty (trim_option dto.provider_reference);
  settlement_date = dto.settlement_date;
  match_columns = some (record {
    kind = dto.match_input.kind;
    rule_id = trim_option dto.match_input.rule_id;
    rule_version = trim_option dto.match_input.rule_version;
    reason = trim_option dto.match_input.reason;
  });
  currency = dto.gross.currency;
  gross_amount = dto.gross.amount;
  fee_amount = dto.fee.amount;
  deduction_amount = dto.deduction.amount;
  expected_net_amount = dto.expected_net.amount;
  actual_net_amount = dto.actual_net.amount;
  discrepancy_amount = dto.discrepancy.amount;
  discrepancy_disposition = dto.discrepancy_disposition;
  discrepancy_reason = trim_option dto.discrepancy_reason;
  creator_user_id = actor;
  confirmed_by = none;
  confirmed_at = none;
  reversed_by = none;
  reversed_at = none;
  reversal_of_batch_id = none;
  replacement_for_batch_id = dto.replacement_for_batch_id;
  reversal_reason = none;
  state = state;
  version = 0;
}

unfoldable pub insert_proposal : ℕ → ℕ → ℕ → BatchState → CreateDto → SettlementDb → SettlementDb
insert_proposal id actor number state dto db =
    let with_batch =
      insert_allocations id dto.allocations
        (record db { batches = db.batches ++ proposal id actor number state dto ∷ [] }) in
    record with_batch {
      links =
          with_batch.links
          ++ map
              (λ (d : AttachmentDto). record {
                settlement_batch_id = id;
                attachment_id = d.id;
                content_digest = d.content_digest;
              })
              dto.attachments;
    }

unfoldable pub create_fresh :
    Services → ℕ → CreateDto → Text → ℕ → SettlementDb → Result (Response × SettlementDb)
create_fresh services actor dto key digest db = do
  let found = facts actor dto db
  validate_facts dto found
  throw_if
      (not (
        services.resolve_settlement_authority actor
          (authority_context dto.destination_bank_account_id dto.gross.currency dto.gross.amount
            found.items)
          settlement_create))
      scope_denied
  let scope = create_scope actor
  let started = record db { idempotency = start_idempotency scope key digest db.idempotency }
  let (id, named) = random_uuid started
  difference ← units_or_throw dto.discrepancy.amount
  let inserted =
      insert_proposal id actor (next_number named)
        (if difference ==ℤ pos 0 then matched else in_discrepancy) dto named
  response ← or_throw (view id inserted) confirmation_unknown
  ok (
    batch_view response,
    record inserted {
      idempotency = finish_idempotency scope key (batch_view response) inserted.idempotency;
    },
  )

-- A replay is authorized again, on the rows as they are now. Only a batch view is stored here.
unfoldable pub create_replay :
    Services → ℕ → ℕ → IdempotencyRecord Response → SettlementDb → Result (Response × SettlementDb)
create_replay services actor digest r db = do
  response ← replay_response digest r
  elim response [
    | reversal_result original inverse ↦ err idempotency_conflict
    | batch_view v ↦ or_throw (lock v.batch.id db) resource_hidden >>= λ locked.
        throw_if
          (not (
            services.resolve_settlement_authority actor
              (authority_context v.batch.destination_bank_account_id v.batch.currency
                v.batch.gross_amount locked.items)
              settlement_create))
          scope_denied
        >> ok (batch_view v, db)
  ]

unfoldable pub create :
    Services → ℕ → CreateDto → Text → Text → SettlementDb → Result (Response × SettlementDb)
create services actor dto key request_id db = do
  throw_if (bad_request_id request_id) validation
  throw_if (bad_key key) validation
  clean ← validate_create dto
  let digest = services.command_digest (create_command actor clean)
  elim (find_idempotency (create_scope actor) key db.idempotency) [
    | some r ↦ create_replay services actor digest r db
    | none ↦ create_fresh services actor clean key digest db
  ]
