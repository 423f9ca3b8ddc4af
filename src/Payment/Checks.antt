-- ===== src/Payment/Checks.antt =====
-- What `execute` and `reverse` of src/payments/payment-execution.service.ts check before they write,
-- with the queries of src/payments/payment-execution.repository.ts.
pub mod Approvers
pub mod Allocations
use mathlib.Core.Option
use treasury_backend.Prelude.{
  Bool, List, Option, [], any, false, filter, find, if◌then◌else◌, includes, is_some, leb, length,
  ltb, map, none, not, option_eq, present, some, true, unique, ℕ, ◌&&◌, ◌++◌, ◌==◌, ◌||◌, ◌∷◌,
}
use treasury_backend.Prelude.Int.{ltb_ℤ, pos, ◌==ℤ◌}
use treasury_backend.Money.{Text}
use treasury_backend.Money.Texts.{bad_key, bad_request_id, parse_if_match, trim, trim_option}
use treasury_backend.Store.{
  ProofInput, Result, allocation_invalid, consume_step_up_proof, err, invalid_approval_evidence, ok,
  option_text_eq, or_throw, scope_denied, step_up_invalid, throw_if, total_mismatch, validation,
  ◌>>=◌, ◌>>◌,
}
use treasury_backend.Payment.{
  LockedLine, LockedPayment, MethodCategory, PaymentAllocation, PaymentApprovalAction,
  PaymentApprovalSnapshot, PaymentDb, PaymentDocument, PaymentLine, TreasuryUnit, action_approved,
  bank_transfer, card_transfer, cash, direct_deposit, foreign_remittance, other_method,
}
use treasury_backend.Payment.Sources.{decimal_or_throw, sum_decimals}

-- The context that `canOperatePayment` is asked about.
pub record PaymentAuthorizationContext : Type 0 where
  pub branch_id : Option ℕ
  pub treasury_unit_id : ℕ
  pub cashbox_ids : List ℕ
  pub bank_account_ids : List ℕ
  pub currencies : List ℕ
  pub method_categories : List MethodCategory
  pub amount : Text
  pub amount_currency : ℕ

pub data PaymentPermission : Type 0 where
  payment_execute payment_reverse : PaymentPermission

-- `separationOverride` of `PaymentExecuteDto`
pub record SeparationOverride : Type 0 where
  pub independent_approval_action_id : ℕ
  pub reason : Text

-- `PaymentReverseDto`
pub record PaymentReverseDto : Type 0 where
  pub reason : Text
  pub business_date : ℕ

pub data PaymentCommand : Type 0 where
  execute_payment : ℕ → ℕ → Text → Option SeparationOverride → PaymentCommand
  reverse_payment : ℕ → ℕ → Text → Text → ℕ → PaymentCommand

-- The services that payments call and that write nothing: the keyed digest of a command, and the two
-- questions on permissions.
pub record PaymentServices : Type 0 where
  pub command_digest : PaymentCommand → ℕ
  pub can_operate_payment : ℕ → PaymentAuthorizationContext → PaymentPermission → Bool
  pub has_separation_override : ℕ → Bool

-- `CommandContext`; a path parameter that is no UUID is `none`. `now` is the clock.
pub record CommandContext : Type 0 where
  pub actor : ℕ
  pub payment_id : Option ℕ
  pub key : Text
  pub if_match : Text
  pub request_id : Text
  pub step_up : Option ProofInput
  pub now : ℕ

-- `validate`
unfoldable pub validate : CommandContext → Result (ℕ × ℕ)
validate ctx = do
  payment_id ← or_throw ctx.payment_id validation
  throw_if (bad_request_id ctx.request_id) validation
  throw_if (bad_key ctx.key) validation
  expected_version ← or_throw (parse_if_match ctx.if_match) validation
  ok (payment_id, expected_version)

abbrev pub document_by_id : ℕ → List PaymentDocument → Option PaymentDocument
document_by_id id = find (λ d. d.id == id)

abbrev method_active : PaymentDb → ℕ → Bool
method_active db id = any (λ m. m.id == id && m.is_active) db.methods

abbrev pub lines_of : ℕ → PaymentDb → List PaymentLine
lines_of id db = filter (λ l. l.payment_document_id == id) db.lines

abbrev pub is_approval_of : ℕ → PaymentApprovalAction → Bool
is_approval_of snapshot a =
    a.approval_snapshot_id == snapshot && (elim a.action [ action_approved ↦ true | _ ↦ false ])

abbrev pub subjects_of : PaymentApprovalAction → List ℕ
subjects_of a = elim a.delegated_from_user_id [
  | none ↦ a.actor_user_id ∷ []
  | some d ↦ a.actor_user_id ∷ d ∷ []
]

abbrev pub flat_map {ℓ κ} : {A : Type ℓ} {B : Type κ} → (A → List B) → List A → List B
flat_map f [] = []
flat_map f (x ∷ xs) = f x ++ flat_map f xs

abbrev pub approvers : Option ℕ → PaymentDb → List ℕ
approvers none db = []
approvers (some snapshot) db =
    unique (flat_map subjects_of (filter (is_approval_of snapshot) db.actions))

abbrev or_else : Option ℕ → Option ℕ → Option ℕ
or_else none b = b
or_else (some a) b = some a

abbrev unit_branch : Option TreasuryUnit → Option ℕ
unit_branch none = none
unit_branch (some u) = u.branch_id

abbrev pub locked_rows : PaymentDb → PaymentDocument → LockedPayment
locked_rows db d = record {
  document = d;
  lines =
      map (λ l. record { line = l; method_is_active = method_active db l.method_id })
        (lines_of d.id db);
  approver_user_ids = approvers d.current_approval_snapshot_id db;
  allocations = filter (λ a. a.payment_document_id == d.id) db.allocations;
  reservations = filter (λ r. r.payment_document_id == d.id) db.reservations;
  effective_branch_id =
      or_else d.branch_id (unit_branch (find (λ u. u.id == d.treasury_unit_id) db.units));
}

-- `lockPayment`; the inner join with the method is ruled in by a foreign key.
unfoldable pub lock_payment : ℕ → PaymentDb → Option LockedPayment
lock_payment id db = Option.map (locked_rows db) (document_by_id id db.documents)

abbrev category_code : MethodCategory → ℕ
category_code cash = 0
category_code bank_transfer = 1
category_code direct_deposit = 2
category_code card_transfer = 3
category_code foreign_remittance = 4
category_code other_method = 5

abbrev unique_categories : List MethodCategory → List MethodCategory
unique_categories [] = []
unique_categories (c ∷ cs) =
    c ∷ filter (λ d. not (category_code c == category_code d)) (unique_categories cs)

-- `authorizationContext`
abbrev pub authorization_context : LockedPayment → PaymentAuthorizationContext
authorization_context p = record {
  branch_id = p.effective_branch_id;
  treasury_unit_id = p.document.treasury_unit_id;
  cashbox_ids = unique (present (map (λ l. l.line.cashbox_id) p.lines));
  bank_account_ids = unique (present (map (λ l. l.line.bank_account_id) p.lines));
  currencies = unique (p.document.base_currency ∷ map (λ l. l.line.currency) p.lines);
  method_categories = unique_categories (map (λ l. l.line.method_category) p.lines);
  amount = p.document.total_base_amount;
  amount_currency = p.document.base_currency;
}

-- `exactTotal`
unfoldable pub exact_total : LockedPayment → Result (Unit {0})
exact_total p = do
  total ← sum_decimals (λ (l : LockedLine). l.line.base_amount) (pos 0) p.lines
  stated ← decimal_or_throw p.document.total_base_amount
  throw_if (not (total ==ℤ stated)) total_mismatch

-- `consumeProof`
unfoldable pub consume_payment_proof : CommandContext → PaymentDb → Result PaymentDb
consume_payment_proof ctx db = do
  proof ← or_throw ctx.step_up step_up_invalid
  let (accepted_once, foundation) = consume_step_up_proof proof ctx.now db.foundation
  throw_if (not accepted_once) step_up_invalid
  ok (record db { foundation = foundation })

pub data OverrideCheck : Type 0 where
  valid_override invalid_evidence not_independent : OverrideCheck

abbrev pub is_override_evidence :
    LockedPayment → SeparationOverride → PaymentApprovalAction → PaymentApprovalSnapshot → Bool
is_override_evidence p o a s =
    (elim a.action [ action_approved ↦ true | _ ↦ false ])
    && option_eq (some a.approval_snapshot_id) p.document.current_approval_snapshot_id
    && option_text_eq (trim_option a.reason) (some (trim o.reason))
    && leb s.document_version p.document.version

-- `overrideApprovalValid`
unfoldable pub override_approval_valid :
    LockedPayment → SeparationOverride → ℕ → List ℕ → PaymentDb → OverrideCheck
override_approval_valid p o executor conflicting db =
    elim (find (λ a. a.id == o.independent_approval_action_id) db.actions) [
      | none ↦ invalid_evidence
      | some a ↦ elim (find (λ s. s.id == a.approval_snapshot_id) db.snapshots) [
        | none ↦ invalid_evidence
        | some s ↦
            if not (is_override_evidence p o a s)
            then invalid_evidence
            else if a.actor_user_id == executor || includes a.actor_user_id conflicting
            then not_independent
            else valid_override
      ]
    ]

abbrev pub accept_override : OverrideCheck → Result (Unit {0})
accept_override valid_override = ok tt
accept_override invalid_evidence = err invalid_approval_evidence
accept_override not_independent = err scope_denied

abbrev pub conflicts_of : CommandContext → LockedPayment → List ℕ
conflicts_of ctx p =
    filter (λ id. id == ctx.actor) (p.document.creator_user_id ∷ p.approver_user_ids)

unfoldable pub override_separation :
    PaymentServices
    → CommandContext
    → LockedPayment
    → Option SeparationOverride
    → List ℕ
    → PaymentDb
    → Result PaymentDb
override_separation services ctx p o [] db = ok db
override_separation services ctx p o (c ∷ cs) db = do
  override ← or_throw o scope_denied
  throw_if (not (services.has_separation_override ctx.actor)) scope_denied
  proved ← consume_payment_proof ctx db
  accept_override (override_approval_valid p override ctx.actor (c ∷ cs) proved)
  ok proved

-- `separation`
abbrev pub separation :
    PaymentServices
    → CommandContext
    → LockedPayment
    → Option SeparationOverride
    → PaymentDb
    → Result PaymentDb
separation services ctx p o db = override_separation services ctx p o (conflicts_of ctx p) db

-- `siblingAllocations`
abbrev pub is_sibling : PaymentAllocation → PaymentAllocation → Bool
is_sibling a b =
    b.source_namespace == a.source_namespace
    && b.external_object_type == a.external_object_type
    && b.external_object_id == a.external_object_id
    && b.currency == a.currency
    && b.is_active

abbrev pub sibling_allocations : PaymentAllocation → PaymentDb → List PaymentAllocation
sibling_allocations a db = filter (is_sibling a) db.allocations

-- The known total bounds the siblings; without one only a single sibling needs no override.
unfoldable pub check_known_total : Option Text → List PaymentAllocation → Result (Unit {0})
check_known_total (some known) siblings = do
  sum ← sum_decimals (λ (s : PaymentAllocation). s.allocated_amount) (pos 0) siblings
  limit ← decimal_or_throw known
  throw_if (ltb_ℤ limit sum) allocation_invalid
check_known_total none siblings =
    throw_if (ltb 1 (length (filter (λ s. not (is_some s.override_approval_action_id)) siblings)))
      allocation_invalid

unfoldable pub check_payment_allocation : PaymentAllocation → PaymentDb → Result (Unit {0})
check_payment_allocation a db = do
  throw_if (not a.is_active) allocation_invalid
  throw_if
      (any (λ s. not (option_text_eq s.known_obligation_total a.known_obligation_total))
        (sibling_allocations a db))
      allocation_invalid
  check_known_total a.known_obligation_total (sibling_allocations a db)

-- `allocations`
unfoldable pub check_payment_allocations : List PaymentAllocation → PaymentDb → Result (Unit {0})
check_payment_allocations [] db = ok tt
check_payment_allocations (a ∷ rest) db = do
  check_payment_allocation a db
  check_payment_allocations rest db
