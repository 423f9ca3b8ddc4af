-- ===== src/Store/Errors.antt =====
-- Errors as values, and a database transaction: an error rolls the state back, so it carries none.
use treasury_backend.Prelude.{◌≡◌, refl, Bool, true, false, Option, none, some}

-- The messages of `throw new Error(…)`. `validation` is the problem TRS-GEN-001 too, `syntax_error`
-- is the SyntaxError of `BigInt`, `type_error` a property read on undefined (`find(…)!`).
pub data Error : Type 0 where
  idempotency_conflict scope_denied resource_hidden state_conflict stale_version : Error
  allocation_conflict arithmetic_mismatch discrepancy_unresolved confirmation_unknown : Error
  reversal_conflict evidence_invalid step_up_required step_up_invalid : Error
  validation syntax_error type_error aggregate_stale approval_policy_unavailable
        inactive_reference :
      Error
  payment_incomplete total_mismatch source_invalid effect_mapping allocation_invalid : Error
  reversal_blocked cashbox_date_closed invalid_approval_evidence : Error
  collection_identity_conflict check_violation : Error
  custody_conflict approval_required valid_approval_missing day_already_closed : Error

pub data Result {ℓ} (A : Type ℓ) : Type ℓ where
  err : Error → Result A
  ok : A → Result A

-- `if (test) throw new Error(e)`
abbrev pub throw_if : Bool → Error → Result (Unit {0})
throw_if false problem = ok tt
throw_if true problem = err problem

-- A value that a query may not have found.
abbrev pub or_throw {ℓ} : {A : Type ℓ} → Option A → Error → Result A
or_throw (some row) problem = ok row
or_throw none problem = err problem

-- One step, and what follows unless it throws.
abbrev pub ◌>>=◌ {ℓ κ} : {A : Type ℓ} {B : Type κ} → Result A → (A → Result B) → Result B
err problem >>= rest = err problem
ok value >>= rest = rest value

abbrev pub ◌>>◌ {ℓ κ} : {A : Type ℓ} {B : Type κ} → Result A → Result B → Result B
step >> rest = step >>= λ value. rest

infixl 5 ◌>>=◌ ◌>>◌
pub >>=-eq-ok {ℓ κ} :
    {A : Type ℓ} {B : Type κ} (step : Result A) (rest : A → Result B) {final : B}
    → (step >>= rest) ≡ ok final
    → (value : A) × (step ≡ ok value) × (rest value ≡ ok final)
>>=-eq-ok (err problem) rest h = cc
>>=-eq-ok (ok value) rest h = (value, refl, h)

pub throw_if-eq-ok {ℓ} :
    {A : Type ℓ} (test : Bool) (e : Error) (k : Result A) {a : A}
    → (throw_if test e >> k) ≡ ok a
    → (test ≡ false) × (k ≡ ok a)
throw_if-eq-ok true e k h = cc
throw_if-eq-ok false e k h = (refl, h)

pub or_throw-eq-ok {ℓ κ} :
    {A : Type ℓ} {B : Type κ} (o : Option A) (e : Error) (k : A → Result B) {b : B}
    → (or_throw o e >>= k) ≡ ok b
    → (a : A) × (o ≡ some a) × (k a ≡ ok b)
or_throw-eq-ok none e k h = cc
or_throw-eq-ok (some a) e k h = (a, refl, h)

pub ok-injective {ℓ} : {A : Type ℓ} {a b : A} → ok a ≡ ok b → a ≡ b
ok-injective e = cc

pub throw_if-false : (test : Bool) (e : Error) → throw_if test e ≡ ok tt → test ≡ false
throw_if-false true e h = cc
throw_if-false false e h = refl
