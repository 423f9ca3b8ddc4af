-- ===== src/Store/Proofs.antt =====
-- A step-up proof is used once.
use treasury_backend.Prelude.{
  ℕ, ◌≡◌, refl, ◌≤◌, true, false, List, [], ◌∷◌, map, arith, ltb, some, if◌then◌else◌, filter,
}
use treasury_backend.Store.Effects.{
  Foundation, Proof, ProofInput, consume_step_up_proof, proof_matches,
}

module _ (i : ProofInput) (now later : ℕ) (order : now ≤ later) where
  abbrev spend : Proof → Proof
  spend p = if proof_matches i now p then record p { consumed_at = some now } else p

  still_fresh : (e : ℕ) → ltb later e ≡ true → ltb now e ≡ true
  still_fresh e h = ground arith

  spent : (p : Proof) → proof_matches i later (spend p) ≡ false
  spent p = ground (arith, still_fresh p.expires_at)

  none_left : (ps : List Proof) → filter (proof_matches i later) (map spend ps) ≡ []
  none_left [] = refl
  none_left (p ∷ ps) = rw (spent p, none_left ps) refl

  -- After `consumeStepUpProof` has run for a proof, it is refused for the same proof at every later
  -- time, whether the first use was accepted or not.
  pub consume_step_up_proof-consume_step_up_proof :
      (f : Foundation) → (consume_step_up_proof i later (consume_step_up_proof i now f).1).0 ≡ false
  unfolding consume_step_up_proof
  consume_step_up_proof-consume_step_up_proof f = rw (none_left f.proofs) refl
