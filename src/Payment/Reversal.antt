-- ===== src/Payment/Reversal.antt =====
-- What `reverse` of src/payments/payment-execution.service.ts checks, and the rows that it writes:
-- `createReversal` and `completeReversal` of src/payments/payment-execution.repository.ts and
-- `nextPaymentNumber` of src/payments/payment.repository.ts.
use mathlib.Core.Option
use treasury_backend.Prelude.{
  Bool, List, Option, [], any, false, filter, find, is_some, length, map, none, not, option_eq,
  some, suc, true, update_where, ℕ, ◌&&◌, ◌++◌, ◌==◌, ◌||◌, ◌∷◌,
}
use treasury_backend.Money.{Text}
use treasury_backend.Store.{
  EndpointType, MovementCommand, Result, bank_account_endpoint, cashbox_date_closed,
  cashbox_endpoint, credit, err, ok, payment_source, payments, posted_fact, reversal_blocked,
  reversal_key, scope_denied, stale_version, throw_if, ◌>>◌,
}
use treasury_backend.Payment.{
  AccountingState, BankInstruction, InstructionState, LockedLine, LockedPayment, NumberCounter,
  PaymentDb, PaymentDocument, PaymentEffect, PaymentEffectType, PaymentLine, PaymentState,
  PaymentView, accepted, accounting_posted, accounting_ready, cashbox_movement, executed,
  execution_executed, execution_reversed, instruction_confirmed, instruction_returned,
  line_executed, line_reversed, not_ready, queued, reversed, reversing, sending, sending_unknown,
}
use treasury_backend.Payment.Sources.{
  SourceState, account_receivable, cashbox_receivable, closed, insufficient, source_ok, unavailable,
}
use treasury_backend.Payment.Checks.{CommandContext, lines_of}
use treasury_backend.Payment.Execute.{payment_uuid}

pub record PaymentReversalResult : Type 0 where
  pub original : PaymentView
  pub reversal : PaymentView

-- `REVERSAL_BLOCKED_ACCOUNTING_STATES`
abbrev pub blocks_reversal : AccountingState → Bool
blocks_reversal queued = true
blocks_reversal sending = true
blocks_reversal sending_unknown = true
blocks_reversal accepted = true
blocks_reversal _ = false

abbrev pub is_executed : PaymentState → Bool
is_executed executed = true
is_executed accounting_ready = true
is_executed accounting_posted = true
is_executed _ = false

abbrev pub reversal_conflicts : LockedPayment → List (Option ℕ)
reversal_conflicts p =
    some p.document.creator_user_id
    ∷ p.document.executed_by_user_id
    ∷ map (λ id. some id) p.approver_user_ids

-- The checks of `reverse` before the proof is consumed.
unfoldable pub reverse_guards : ℕ → ℕ → LockedPayment → Result (Unit {0})
reverse_guards actor expected_version p = do
  throw_if (not (p.document.version == expected_version)) stale_version
  throw_if
      (is_some p.document.reversed_payment_id
        || not (is_executed p.document.state)
        || blocks_reversal p.document.accounting_state)
      reversal_blocked
  throw_if (any (λ id. option_eq id (some actor)) (reversal_conflicts p)) scope_denied

-- `effects`: the rows stand in the order of the lines and of their creation.
abbrev pub effects_of : ℕ → PaymentDb → List PaymentEffect
effects_of payment_id db =
    filter (λ e. any (λ (l : PaymentLine). l.id == e.payment_line_id) (lines_of payment_id db))
      db.effects

abbrev is_settled : InstructionState → Bool
is_settled instruction_confirmed = true
is_settled instruction_returned = true
is_settled _ = false

-- The joined state of the instruction is `CONFIRMED` or `RETURNED`.
abbrev pub has_outcome : PaymentDb → PaymentEffect → Bool
has_outcome db e =
    any (λ (i : BankInstruction). option_eq e.bank_instruction_id (some i.id) && is_settled i.state)
      db.instructions

abbrev pub is_movement : PaymentEffect → Bool
is_movement e = is_some e.movement_fact_id

abbrev accept_receiving : SourceState → Result (Unit {0})
accept_receiving source_ok = ok tt
accept_receiving closed = err cashbox_date_closed
accept_receiving unavailable = err reversal_blocked
accept_receiving insufficient = err reversal_blocked

abbrev can_return : ℕ → PaymentLine → PaymentDb → Result (Unit {0})
can_return date l db = elim l.cashbox_id [
  | some c ↦ accept_receiving (cashbox_receivable c l.currency date db)
  | none ↦ elim l.bank_account_id [
    | some b ↦ throw_if (not (account_receivable b l.currency db)) reversal_blocked
    | none ↦ err reversal_blocked
  ]
]

-- `checkReversalSources`
unfoldable pub check_reversal_sources : ℕ → List LockedLine → PaymentDb → Result (Unit {0})
check_reversal_sources date [] db = ok tt
check_reversal_sources date (l ∷ ls) db = do
  can_return date l.line db
  check_reversal_sources date ls db

-- The effects that moved money, one for each line.
unfoldable pub reversal_effects : ℕ → LockedPayment → PaymentDb → Result (List PaymentEffect)
reversal_effects date p db = do
  let effects = effects_of p.document.id db
  throw_if (any (has_outcome db) effects) reversal_blocked
  let moved = filter is_movement effects
  throw_if (not (length moved == length p.lines)) reversal_blocked
  check_reversal_sources date p.lines db
  ok moved

-- `nextPaymentNumber`
unfoldable pub next_payment_number : ℕ → PaymentDb → ℕ × PaymentDb
next_payment_number date db =
    elim (find (λ (c : NumberCounter). c.business_date == date) db.counters) [
      | none ↦ (
        1,
        record db {
          counters = db.counters ++ record { business_date = date; next_value = 2 } ∷ [];
        },
      )
      | some c ↦ (
        c.next_value,
        record db {
          counters =
              update_where (λ (k : NumberCounter). k.business_date == date)
                (λ k. record k { next_value = suc k.next_value }) db.counters;
        },
      )
    ]

abbrev pub reversal_document : CommandContext → ℕ → ℕ → ℕ → Text → PaymentDocument → PaymentDocument
reversal_document ctx id date number reason d = record {
  id = id;
  number_date = date;
  number = number;
  business_date = date;
  branch_id = d.branch_id;
  treasury_unit_id = d.treasury_unit_id;
  beneficiary_party_id = d.beneficiary_party_id;
  base_currency = d.base_currency;
  total_base_amount = d.total_base_amount;
  creator_user_id = ctx.actor;
  current_approval_snapshot_id = none;
  state = executed;
  execution_state = execution_executed;
  accounting_state = not_ready;
  executed_at = some ctx.now;
  executed_by_user_id = some ctx.actor;
  reversed_payment_id = none;
  reversal_reason = some reason;
  version = 1;
}

abbrev pub reversal_line : CommandContext → ℕ → ℕ → PaymentLine → PaymentLine
reversal_line ctx id payment_id l = record l {
  id = id;
  payment_document_id = payment_id;
  state = line_executed;
  executed_at = some ctx.now;
  executed_by_user_id = some ctx.actor;
  version = 1;
}

-- The lines of `createReversal`, and `lineIds`.
unfoldable pub create_lines :
    CommandContext → ℕ → List LockedLine → PaymentDb → List (ℕ × ℕ) × PaymentDb
create_lines ctx payment_id [] db = ([], db)
create_lines ctx payment_id (l ∷ ls) db =
    let (id, named) = payment_uuid db in
    let (ids, created) =
      create_lines ctx payment_id ls
        (record named { lines = named.lines ++ reversal_line ctx id payment_id l.line ∷ [] }) in
    ((l.line.id, id) ∷ ids, created)

-- `lineIds.get(id)`
abbrev pub line_id_of : ℕ → List (ℕ × ℕ) → Option ℕ
line_id_of id ids = Option.map (λ (p : ℕ × ℕ). p.1) (find (λ (p : ℕ × ℕ). p.0 == id) ids)

-- `createReversal`
unfoldable pub create_reversal :
    CommandContext → ℕ → ℕ → Text → LockedPayment → PaymentDb → (ℕ × List (ℕ × ℕ)) × PaymentDb
create_reversal ctx date number reason p db =
    let (id, named) = payment_uuid db in
    let (ids, created) = create_lines ctx id p.lines (record named {
      documents = named.documents ++ reversal_document ctx id date number reason p.document ∷ [];
    }) in
    ((id, ids), created)

-- `completeReversal`
unfoldable pub complete_reversal : ℕ → ℕ → ℕ → PaymentDb → PaymentDb
complete_reversal payment_id reversal_id version db = record db {
  documents =
      update_where (λ d. d.id == payment_id)
        (λ d. record d {
          reversed_payment_id = some reversal_id;
          state = reversed;
          execution_state = execution_reversed;
          version = version;
        })
        db.documents;
  lines =
      update_where (λ l. l.payment_document_id == payment_id)
        (λ l. record l { state = line_reversed; version = suc l.version }) db.lines;
  allocations =
      update_where (λ a. a.payment_document_id == payment_id && a.is_active)
        (λ a. record a { is_active = false; version = suc a.version }) db.allocations;
}

abbrev pub reversal_endpoint : PaymentEffectType → EndpointType
reversal_endpoint cashbox_movement = cashbox_endpoint
reversal_endpoint _ = bank_account_endpoint

abbrev pub reversing_movement : ℕ → ℕ → ℕ → PaymentEffect → ℕ → ℕ → MovementCommand
reversing_movement reversal_id line_id date e source fact = record {
  owner = some payments;
  source_type = some payment_source;
  source_id = reversal_id;
  source_line_id = some line_id;
  effect_key = reversal_key reversal_id line_id;
  endpoint_type = reversal_endpoint e.effect_type;
  endpoint_id = source;
  amount = e.amount;
  currency = e.currency;
  business_date = date;
  reversal_of_fact_id = some fact;
  direction = some credit;
  state = some posted_fact;
}

abbrev pub reversing_effect : ℕ → ℕ → ℕ → PaymentEffect → ℕ → ℕ → PaymentEffect
reversing_effect reversal_id line_id date e movement id = record {
  id = id;
  payment_line_id = line_id;
  effect_key = reversal_key reversal_id line_id;
  effect_type = e.effect_type;
  direction = reversing;
  amount = e.amount;
  currency = e.currency;
  business_date = date;
  source_version = 1;
  movement_fact_id = some movement;
  bank_instruction_id = none;
  reversal_of_effect_id = some e.id;
}
