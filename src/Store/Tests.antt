-- ===== src/Store/Tests.antt =====
-- The records of the store, on small lists.
use treasury_backend.Prelude.{[], arith, false, none, refl, true, ◌∷◌, ◌≡◌}
use treasury_backend.Store.{Foundation, ProofInput, consume_step_up_proof}
use treasury_backend.Store.Proofs.{consume_step_up_proof-consume_step_up_proof}

abbrev input : ProofInput
input = record { proof_digest = 5; physical_session_id = 6; command = 7 }

abbrev foundation : Foundation
foundation = record {
  movements = [];
  audits = [];
  outbox = [];
  proofs =
      record { token_digest = 5; session_id = 6; command = 7; expires_at = 20; consumed_at = none }
      ∷ [];
  next_uuid = 1;
}

-- A proof is accepted once.
accepted : (consume_step_up_proof input 10 foundation).0 ≡ true
unfolding consume_step_up_proof
accepted = refl

consume_step_up_proof-consume_step_up_proof_example :
    (consume_step_up_proof input 11 (consume_step_up_proof input 10 foundation).1).0 ≡ false
consume_step_up_proof-consume_step_up_proof_example =
    consume_step_up_proof-consume_step_up_proof input 10 11 (omega arith) foundation
