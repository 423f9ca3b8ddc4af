-- ===== src/Store/Idempotency.antt =====
-- The idempotency records: `findIdempotency`, `startIdempotency`, `finishIdempotency` of
-- src/collection-and-settlement/settlement.repository.ts, which the other repositories repeat.
use treasury_backend.Prelude.{
  ==_iff, Bool, List, Option, [], and-true, ap, arith, false, if◌then◌else◌, map, none, refl, some,
  true, ℕ, ◌&&◌, ◌==◌, ◌∷◌, ◌≡◌,
}
use treasury_backend.Money.{Text}

-- A scope such as `confirmSettlementBatch:${actor}:${batch}`.
pub record Scope : Type 0 where
  pub operation : ℕ
  pub actor : ℕ
  pub subject : ℕ

pub record IdempotencyRecord (R : Type 0) : Type 0 where
  pub scope : Scope
  pub key : Text
  pub request_digest : ℕ
  pub response : Option R

abbrev pub text_eq : Text → Text → Bool
text_eq [] [] = true
text_eq [] (d ∷ t) = false
text_eq (c ∷ s) [] = false
text_eq (c ∷ s) (d ∷ t) = c == d && text_eq s t

pub text_eq_refl : (s : Text) → text_eq s s ≡ true
text_eq_refl [] = refl
text_eq_refl (c ∷ s) = ground (arith, text_eq_refl s)

pub text_eq-eq : (s t : Text) → text_eq s t ≡ true → s ≡ t
text_eq-eq [] [] e = refl
text_eq-eq [] (d ∷ t) e = cc
text_eq-eq (c ∷ s) [] e = cc
text_eq-eq (c ∷ s) (d ∷ t) e =
    let (head, tail) = and-true (c == d) (text_eq s t) e in
    cc ((==_iff c d).0 head, text_eq-eq s t tail)

abbrev pub option_text_eq : Option Text → Option Text → Bool
option_text_eq none none = true
option_text_eq none (some t) = false
option_text_eq (some s) none = false
option_text_eq (some s) (some t) = text_eq s t

pub option_text_eq_refl : (o : Option Text) → option_text_eq o o ≡ true
option_text_eq_refl none = refl
option_text_eq_refl (some t) = text_eq_refl t

pub option_text_eq-eq : (o q : Option Text) → option_text_eq o q ≡ true → o ≡ q
option_text_eq-eq none none e = refl
option_text_eq-eq none (some t) e = cc
option_text_eq-eq (some s) none e = cc
option_text_eq-eq (some s) (some t) e = ap some (text_eq-eq s t e)

abbrev pub scope_eq : Scope → Scope → Bool
scope_eq a b = a.operation == b.operation && a.actor == b.actor && a.subject == b.subject

module _ {R : Type 0} where
  abbrev pub is_record : Scope → Text → IdempotencyRecord R → Bool
  is_record scope key r = scope_eq r.scope scope && text_eq r.key key

  unfoldable pub find_idempotency :
      Scope → Text → List (IdempotencyRecord R) → Option (IdempotencyRecord R)
  find_idempotency scope key [] = none
  find_idempotency scope key (r ∷ rs) =
      if is_record scope key r then some r else find_idempotency scope key rs

  -- Every caller has found no record of the key before, so the unique index does not refuse the row.
  unfoldable pub start_idempotency :
      Scope → Text → ℕ → List (IdempotencyRecord R) → List (IdempotencyRecord R)
  start_idempotency scope key digest rs =
      record { scope = scope; key = key; request_digest = digest; response = none } ∷ rs

  unfoldable pub finish_idempotency :
      Scope → Text → R → List (IdempotencyRecord R) → List (IdempotencyRecord R)
  finish_idempotency scope key response rs =
      map (λ r. if is_record scope key r then record r { response = some response } else r) rs

  -- What was started and finished under a scope and a key is found with its digest and its response.
  pub find-finish-start :
      (scope : Scope) (key : Text) (digest : ℕ) (response : R) (rs : List (IdempotencyRecord R))
      → find_idempotency scope key
          (finish_idempotency scope key response (start_idempotency scope key digest rs))
        ≡ some
            (record { scope = scope; key = key; request_digest = digest; response = some response })
  unfolding find_idempotency finish_idempotency start_idempotency
  find-finish-start scope key digest response rs = ground (arith, text_eq_refl key)
