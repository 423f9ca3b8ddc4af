-- ===== src/Store/Effects.antt =====
-- The append-only tables of `FoundationEffectsRepository`, and the step-up proofs. The unique keys of
-- the tables, which may refuse a row, are not modelled.
use treasury_backend.Prelude.{
  ℕ, suc, Bool, ◌&&◌, Option, none, some, List, [], ◌∷◌, ◌++◌, map, ltb, ◌==◌, if◌then◌else◌,
  is_some, not, filter, length,
}
use treasury_backend.Money.{Text}

pub data Owner : Type 0 where
  receipts payments transfers collection_and_settlement cashbox_and_custody : Owner

pub data SourceType : Type 0 where
  receipt_source payment_source transfer_source settlement_source cashbox_day_source : SourceType

pub data EndpointType : Type 0 where
  cashbox_endpoint bank_account_endpoint user_endpoint : EndpointType

pub data Direction : Type 0 where
  debit credit : Direction

pub data FactState : Type 0 where
  posted_fact reversed_fact : FactState

-- The template strings of the effect keys.
pub data EffectKey : Type 0 where
  bank_credit_key fee_key deduction_key approved_discrepancy_key : EffectKey
  allocation_key : ℕ → EffectKey
  outgoing_key instruction_key reversal_key : ℕ → ℕ → EffectKey
  close_variance_key : ℕ → EffectKey

-- `MovementFactCommand`; an absent field is `none`.
pub record MovementCommand : Type 0 where
  pub owner : Option Owner
  pub source_type : Option SourceType
  pub source_id : ℕ
  pub source_line_id : Option ℕ
  pub effect_key : EffectKey
  pub endpoint_type : EndpointType
  pub endpoint_id : ℕ
  pub amount : Text
  pub currency : ℕ
  pub business_date : ℕ
  pub reversal_of_fact_id : Option ℕ
  pub direction : Option Direction
  pub state : Option FactState

pub record Movement : Type 0 where
  pub id : ℕ
  pub owner : Owner
  pub source_type : SourceType
  pub source_id : ℕ
  pub source_line_id : Option ℕ
  pub effect_key : EffectKey
  pub endpoint_type : EndpointType
  pub endpoint_id : ℕ
  pub direction : Direction
  pub amount : Text
  pub currency : ℕ
  pub business_date : ℕ
  pub reversal_of_fact_id : Option ℕ
  pub state : FactState

pub data AuditAction : Type 0 where
  settlement_confirmed settlement_reversed payment_executed payment_reversed : AuditAction
  cashbox_day_closed cashbox_day_reopened : AuditAction

pub record Audit : Type 0 where
  pub request_id : Text
  pub actor_user_id : ℕ
  pub entity_type : SourceType
  pub entity_id : ℕ
  pub action : AuditAction
  pub reason : Option Text

pub data EventType : Type 0 where
  collection_settled settlement_reversed_event payment_executed_event : EventType
  payment_reversed_event cashbox_day_closed_event : EventType

-- The payload is a copy of the response and is left out.
pub record Outbox : Type 0 where
  pub aggregate_type : SourceType
  pub aggregate_id : ℕ
  pub aggregate_version : ℕ
  pub event_type : EventType

-- A row of `auth_step_up_proofs` joined to its challenge; `command` stands for the method, the path,
-- the body digest and the idempotency key that the proof is bound to.
pub record Proof : Type 0 where
  pub token_digest : ℕ
  pub session_id : ℕ
  pub command : ℕ
  pub expires_at : ℕ
  pub consumed_at : Option ℕ

pub record Foundation : Type 0 where
  pub movements : List Movement
  pub audits : List Audit
  pub outbox : List Outbox
  pub proofs : List Proof
  -- the identifier that the next `randomUUID()` returns
  pub next_uuid : ℕ

abbrev pub or_default {ℓ} : {A : Type ℓ} → Option A → A → A
or_default none d = d
or_default (some a) d = a

abbrev pub default_direction : Option ℕ → Direction
default_direction none = credit
default_direction (some fact) = debit

abbrev pub default_state : Option ℕ → FactState
default_state none = posted_fact
default_state (some fact) = reversed_fact

abbrev pub movement_row : ℕ → MovementCommand → Movement
movement_row id c = record {
  id = id;
  owner = or_default c.owner receipts;
  source_type = or_default c.source_type receipt_source;
  source_id = c.source_id;
  source_line_id = c.source_line_id;
  effect_key = c.effect_key;
  endpoint_type = c.endpoint_type;
  endpoint_id = c.endpoint_id;
  direction = or_default c.direction (default_direction c.reversal_of_fact_id);
  amount = c.amount;
  currency = c.currency;
  business_date = c.business_date;
  reversal_of_fact_id = c.reversal_of_fact_id;
  state = or_default c.state (default_state c.reversal_of_fact_id);
}

unfoldable pub append_movement : MovementCommand → Foundation → ℕ × Foundation
append_movement c f = (
  f.next_uuid,
  record f {
    movements = f.movements ++ movement_row f.next_uuid c ∷ [];
    next_uuid = suc f.next_uuid;
  },
)

unfoldable pub append_audit : Audit → Foundation → Foundation
append_audit a f = record f { audits = f.audits ++ a ∷ [] }

unfoldable pub append_outbox : Outbox → Foundation → Foundation
append_outbox o f = record f { outbox = f.outbox ++ o ∷ [] }

pub record ProofInput : Type 0 where
  pub proof_digest : ℕ
  pub physical_session_id : ℕ
  pub command : ℕ

abbrev pub proof_matches : ProofInput → ℕ → Proof → Bool
proof_matches i now p =
    p.token_digest == i.proof_digest
    && p.session_id == i.physical_session_id
    && p.command == i.command
    && ltb now p.expires_at
    && not (is_some p.consumed_at)

-- UPDATE … SET consumed_at = now() … RETURNING, and `rows.length === 1`
unfoldable pub consume_step_up_proof : ProofInput → ℕ → Foundation → Bool × Foundation
consume_step_up_proof i now f = (
  length (filter (proof_matches i now) f.proofs) == 1,
  record f {
    proofs =
        map (λ p. if proof_matches i now p then record p { consumed_at = some now } else p)
          f.proofs;
  },
)
