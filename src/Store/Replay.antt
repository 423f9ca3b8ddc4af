-- ===== src/Store/Replay.antt =====
-- How a command answers a key that it knows, in every service.
use treasury_backend.Prelude.{
  ==_refl, Option, ap, inl, inr, none, not, refl, some, sym, ℕ, ◌==◌, ◌≡◌, ◌≢◌, ◌⊎◌,
}
use treasury_backend.Money.{Text}
use treasury_backend.Store.Errors.{
  >>=-eq-ok, Result, idempotency_conflict, ok, ok-injective, or_throw, throw_if, ◌>>=◌, ◌>>◌,
}
use treasury_backend.Store.Idempotency.{IdempotencyRecord, Scope}

module _ {R : Type 0} where
  -- A stored response is returned if the digest is that of this request.
  unfoldable pub replay_response : ℕ → IdempotencyRecord R → Result R
  replay_response digest r = do
    throw_if (not (r.request_digest == digest)) idempotency_conflict
    or_throw r.response idempotency_conflict

  pub replay_response-finished :
      (scope : Scope) (key : Text) (digest : ℕ) (response : R)
      → replay_response digest
          (record { scope = scope; key = key; request_digest = digest; response = some response })
        ≡ ok response
  unfolding replay_response
  replay_response-finished scope key digest response = rw (==_refl digest) refl

module _ {R S : Type 0} where
  -- A command that finds the record of its key replays it and changes nothing; it runs otherwise.
  abbrev pub unless_replayed :
      ℕ → Option (IdempotencyRecord R) → S → Result (R × S) → Result (R × S)
  unless_replayed digest (some r) db fresh = do
    response ← replay_response digest r
    ok (response, db)
  unless_replayed digest none db fresh = fresh

  pub unless_replayed-eq-ok :
      (digest : ℕ) (o : Option (IdempotencyRecord R)) (db : S) (fresh : Result (R × S))
      {response : R} {db' : S}
      → unless_replayed digest o db fresh ≡ ok (response, db')
      → ((o ≢ none) × (db' ≡ db)) ⊎ ((o ≡ none) × (fresh ≡ ok (response, db')))
  unless_replayed-eq-ok digest none db fresh e = inr (refl, e)
  unless_replayed-eq-ok digest (some r) db fresh {response} {db'} e =
      let (found, e1, e2) = >>=-eq-ok {B = R × S} (replay_response digest r) (λ v. ok (v, db)) e in
      inl ((λ missing. cc missing), ap (λ (p : R × S). p.1) (sym (ok-injective e2)))
