-- ===== src/Payment/Tables.antt =====
-- The rows that the execution of payments reads and writes (src/database/schema.ts), less labels and
-- the columns that a reversal only copies.
use treasury_backend.Prelude.{Bool, List, Option, ℕ}
use treasury_backend.Money.{Text}
use treasury_backend.Store.{EffectKey, Foundation, IdempotencyRecord}

pub data PaymentState : Type 0 where
  draft submitted approval_pending approved rejected scheduled : PaymentState
  executed accounting_ready accounting_posted cancelled reversed : PaymentState

pub data ExecutionState : Type 0 where
  not_executed execution_scheduled execution_executed execution_reversed : ExecutionState

pub data AccountingState : Type 0 where
  not_ready mapping_required ready queued sending sending_unknown accepted : AccountingState
  failed rejected_by_accounting : AccountingState

pub record PaymentDocument : Type 0 where
  pub id : ℕ
  -- the date and the number in `…-PAY-…`
  pub number_date : ℕ
  pub number : ℕ
  pub business_date : ℕ
  pub branch_id : Option ℕ
  pub treasury_unit_id : ℕ
  pub beneficiary_party_id : ℕ
  pub base_currency : ℕ
  pub total_base_amount : Text
  pub creator_user_id : ℕ
  pub current_approval_snapshot_id : Option ℕ
  pub state : PaymentState
  pub execution_state : ExecutionState
  pub accounting_state : AccountingState
  pub executed_at : Option ℕ
  pub executed_by_user_id : Option ℕ
  pub reversed_payment_id : Option ℕ
  -- the reason in the purpose of a reversal
  pub reversal_reason : Option Text
  pub version : ℕ

pub data LineState : Type 0 where
  line_draft line_reserved line_executed line_reversed : LineState

-- The categories that the execution tells apart.
pub data MethodCategory : Type 0 where
  cash bank_transfer direct_deposit card_transfer foreign_remittance other_method : MethodCategory

pub record PaymentLine : Type 0 where
  pub id : ℕ
  pub payment_document_id : ℕ
  pub line_number : ℕ
  pub method_id : ℕ
  pub method_category : MethodCategory
  pub amount : Text
  pub currency : ℕ
  pub base_amount : Text
  pub cashbox_id : Option ℕ
  pub bank_account_id : Option ℕ
  pub beneficiary_account_reference : Option Text
  pub state : LineState
  pub executed_at : Option ℕ
  pub executed_by_user_id : Option ℕ
  pub version : ℕ

pub record PaymentAllocation : Type 0 where
  pub id : ℕ
  pub payment_document_id : ℕ
  pub source_namespace : ℕ
  pub external_object_type : ℕ
  pub external_object_id : ℕ
  pub currency : ℕ
  pub allocated_amount : Text
  pub known_obligation_total : Option Text
  pub override_approval_action_id : Option ℕ
  -- `ACTIVE` or `REVERSED`
  pub is_active : Bool
  pub version : ℕ

pub data ReservationState : Type 0 where
  active review_required consumed released : ReservationState

pub data FundingSource : Type 0 where
  cashbox_source bank_account_source : FundingSource

pub record PaymentReservation : Type 0 where
  pub id : ℕ
  pub payment_document_id : ℕ
  pub source_type : FundingSource
  pub source_id : ℕ
  pub currency : ℕ
  pub amount : Text
  pub review_due_at : ℕ
  pub state : ReservationState
  pub version : ℕ

pub data PaymentEffectType : Type 0 where
  cashbox_movement bank_movement bank_instruction issued_cheque : PaymentEffectType

pub data PaymentEffectDirection : Type 0 where
  outgoing reversing : PaymentEffectDirection

pub record PaymentEffect : Type 0 where
  pub id : ℕ
  pub payment_line_id : ℕ
  pub effect_key : EffectKey
  pub effect_type : PaymentEffectType
  pub direction : PaymentEffectDirection
  pub amount : Text
  pub currency : ℕ
  pub business_date : ℕ
  pub source_version : ℕ
  pub movement_fact_id : Option ℕ
  pub bank_instruction_id : Option ℕ
  pub reversal_of_effect_id : Option ℕ

pub data InstructionState : Type 0 where
  pending_confirmation instruction_confirmed instruction_rejected : InstructionState
  instruction_cancelled instruction_returned : InstructionState

pub record BankInstruction : Type 0 where
  pub id : ℕ
  pub payment_line_id : ℕ
  pub bank_account_id : ℕ
  pub amount : Text
  pub currency : ℕ
  pub beneficiary_account_reference : Text
  pub state : InstructionState

pub data ApprovalAction : Type 0 where
  action_approved action_rejected action_returned : ApprovalAction

pub record PaymentApprovalAction : Type 0 where
  pub id : ℕ
  pub approval_snapshot_id : ℕ
  pub actor_user_id : ℕ
  pub delegated_from_user_id : Option ℕ
  pub action : ApprovalAction
  pub reason : Option Text

pub record PaymentApprovalSnapshot : Type 0 where
  pub id : ℕ
  pub document_version : ℕ

-- A row that is read by its id for its state ACTIVE (a method) or its branch (a treasury unit).
pub record Method : Type 0 where
  pub id : ℕ
  pub is_active : Bool

pub record TreasuryUnit : Type 0 where
  pub id : ℕ
  pub branch_id : Option ℕ

pub record Cashbox : Type 0 where
  pub id : ℕ
  pub is_active : Bool
  pub can_pay : Bool
  pub can_receive : Bool
  pub active_from : ℕ
  pub active_to : Option ℕ

pub record CurrencyControl : Type 0 where
  pub cashbox_id : ℕ
  pub currency : ℕ
  pub transaction_ceiling : Option Text
  pub minimum_position : Option Text
  pub allow_negative : Bool

pub data DayState : Type 0 where
  day_open day_closed day_reopened : DayState

pub record CashboxDay : Type 0 where
  pub cashbox_id : ℕ
  pub business_date : ℕ
  pub close_cycle : ℕ
  pub state : DayState

pub record PayingAccount : Type 0 where
  pub id : ℕ
  pub currency : ℕ
  pub is_active : Bool
  pub can_pay : Bool
  pub can_receive : Bool
  pub opening_date : ℕ
  pub closing_date : Option ℕ
  pub withdrawal_ceiling : Option Text

-- `PaymentView`, as the rows that it is made of.
pub record PaymentView : Type 0 where
  pub document : PaymentDocument
  pub lines : List PaymentLine
  pub allocations : List PaymentAllocation
  pub effects : List PaymentEffect

pub record NumberCounter : Type 0 where
  pub business_date : ℕ
  pub next_value : ℕ

pub record PaymentDb : Type 0 where
  pub documents : List PaymentDocument
  pub lines : List PaymentLine
  pub methods : List Method
  pub units : List TreasuryUnit
  pub actions : List PaymentApprovalAction
  pub snapshots : List PaymentApprovalSnapshot
  pub allocations : List PaymentAllocation
  pub reservations : List PaymentReservation
  pub effects : List PaymentEffect
  pub instructions : List BankInstruction
  pub cashboxes : List Cashbox
  pub controls : List CurrencyControl
  pub days : List CashboxDay
  pub accounts : List PayingAccount
  pub counters : List NumberCounter
  pub idempotency : List (IdempotencyRecord PaymentView)
  pub foundation : Foundation

-- A line with the test on the state of its method.
pub record LockedLine : Type 0 where
  pub line : PaymentLine
  pub method_is_active : Bool

pub record LockedPayment : Type 0 where
  pub document : PaymentDocument
  pub lines : List LockedLine
  pub approver_user_ids : List ℕ
  pub allocations : List PaymentAllocation
  pub reservations : List PaymentReservation
  pub effective_branch_id : Option ℕ
