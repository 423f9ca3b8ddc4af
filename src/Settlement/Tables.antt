-- ===== src/Settlement/Tables.antt =====
-- The rows that settlement reads and writes (src/database/schema.ts), less labels and time stamps
-- that no decision reads.
use treasury_backend.Prelude.{ℕ, Bool, Option, List}
use treasury_backend.Money.{Text}
use treasury_backend.Store.{Foundation, IdempotencyRecord, EffectKey}

pub data ItemState : Type 0 where
  open_item partially_allocated allocated_item settled reopened_after_reversal : ItemState
  delayed disputed returned cancelled : ItemState

pub data SourceFactType : Type 0 where
  receipt_line cheque_event : SourceFactType

pub record CollectionItem : Type 0 where
  pub id : ℕ
  pub source_fact_type : SourceFactType
  pub source_fact_id : ℕ
  pub channel_type : ℕ
  pub channel_id : Option ℕ
  pub provider_reference : Option Text
  pub collected_party_id : Option ℕ
  pub collected_at : ℕ
  pub expected_settlement_date : ℕ
  pub branch_id : Option ℕ
  pub treasury_unit_id : ℕ
  pub destination_bank_account_id : ℕ
  pub currency : ℕ
  pub gross_amount : Text
  pub allocated_amount : Text
  pub remaining_amount : Text
  pub state : ItemState
  pub version : ℕ

pub data BatchState : Type 0 where
  matched in_discrepancy confirmed reversed reversal : BatchState

pub data Disposition : Type 0 where
  no_discrepancy open_discrepancy approved_difference correction_required returned_discrepancy :
      Disposition

pub data MatchKind : Type 0 where
  deterministic manual : MatchKind

pub record Match : Type 0 where
  pub kind : MatchKind
  pub rule_id : Option Text
  pub rule_version : Option Text
  pub reason : Option Text

pub record Batch : Type 0 where
  pub id : ℕ
  -- the number behind `SET-`
  pub business_number : ℕ
  pub destination_bank_account_id : ℕ
  pub bank_statement_line_id : Option ℕ
  pub provider_reference : Option Text
  pub settlement_date : ℕ
  -- the columns of the match are NULL in a reversal
  pub match_columns : Option Match
  pub currency : ℕ
  pub gross_amount : Text
  pub fee_amount : Text
  pub deduction_amount : Text
  pub expected_net_amount : Text
  pub actual_net_amount : Text
  pub discrepancy_amount : Text
  pub discrepancy_disposition : Disposition
  pub discrepancy_reason : Option Text
  pub creator_user_id : ℕ
  pub confirmed_by : Option ℕ
  pub confirmed_at : Option ℕ
  pub reversed_by : Option ℕ
  pub reversed_at : Option ℕ
  pub reversal_of_batch_id : Option ℕ
  pub replacement_for_batch_id : Option ℕ
  pub reversal_reason : Option Text
  pub state : BatchState
  pub version : ℕ

pub data AllocationState : Type 0 where
  proposed confirmed_allocation reversed_allocation : AllocationState

pub record Allocation : Type 0 where
  pub id : ℕ
  pub settlement_batch_id : ℕ
  pub collection_item_id : ℕ
  pub collection_item_version : ℕ
  pub allocated_amount : Text
  pub currency : ℕ
  pub state : AllocationState
  pub version : ℕ

pub data EffectType : Type 0 where
  bank_credit allocation_consumption fee_evidence deduction_evidence : EffectType
  approved_discrepancy_evidence : EffectType

pub data EffectDirection : Type 0 where
  settlement_effect reversal_effect : EffectDirection

pub record Effect : Type 0 where
  pub id : ℕ
  pub settlement_batch_id : ℕ
  pub effect_key : EffectKey
  pub effect_type : EffectType
  pub direction : EffectDirection
  pub amount : Text
  pub currency : ℕ
  pub business_date : ℕ
  pub source_version : ℕ
  pub movement_fact_id : Option ℕ
  pub collection_item_id : Option ℕ
  pub reversal_of_effect_id : Option ℕ

-- `state === 'ACTIVE'` is the only test on the state of these rows.
pub record BankAccount : Type 0 where
  pub id : ℕ
  pub currency : ℕ
  pub is_active : Bool
  pub can_receive : Bool

pub record UserRef : Type 0 where
  pub id : ℕ
  pub is_active : Bool

pub record Attachment : Type 0 where
  pub id : ℕ
  pub content_digest : ℕ
  pub is_active : Bool

-- Every link has the purpose BANK_CREDIT_EVIDENCE (`settlement_attachment_links_purpose`).
pub record AttachmentLink : Type 0 where
  pub settlement_batch_id : ℕ
  pub attachment_id : ℕ
  pub content_digest : ℕ

-- `SettlementBatchView`, as the rows that it is made of.
pub record BatchView : Type 0 where
  pub batch : Batch
  pub allocations : List Allocation
  pub links : List AttachmentLink
  pub effects : List Effect
  pub reversal_batch_id : Option ℕ

pub record ReversalView : Type 0 where
  pub batch : Batch
  pub effects : List Effect

pub data Response : Type 0 where
  batch_view : BatchView → Response
  reversal_result : BatchView → ReversalView → Response

pub record SettlementDb : Type 0 where
  pub batches : List Batch
  pub allocations : List Allocation
  pub items : List CollectionItem
  pub effects : List Effect
  pub accounts : List BankAccount
  pub users : List UserRef
  pub attachments : List Attachment
  pub links : List AttachmentLink
  pub idempotency : List (IdempotencyRecord Response)
  pub foundation : Foundation

pub record LockedSettlement : Type 0 where
  pub batch : Batch
  pub allocations : List Allocation
  pub items : List CollectionItem
  pub effects : List Effect
