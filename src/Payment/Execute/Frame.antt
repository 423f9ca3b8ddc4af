-- ===== src/Payment/Execute/Frame.antt =====
-- The checks of `execute` write step-up proofs only.
use treasury_backend.Prelude.{List, Option, [], ap, not, subst, sym, ℕ, ◌∙◌, ◌∷◌, ◌≡◌}
use treasury_backend.Store.{
  >>=-eq-ok, Proof, consume_step_up_proof, ok, ok-injective, or_throw-eq-ok, scope_denied,
  step_up_invalid, throw_if-eq-ok,
}
use treasury_backend.Payment.{LockedPayment, PaymentDb}
use treasury_backend.Payment.Sources.{reserved}
use treasury_backend.Payment.Checks.{
  CommandContext, PaymentServices, SeparationOverride, accept_override, check_payment_allocations,
  conflicts_of, consume_payment_proof, override_approval_valid, override_separation, separation,
}
use treasury_backend.Payment.Totals.{check_sources, reservations}
use treasury_backend.Payment.Execute.{execute_checks}

-- A state that differs in its proofs alone.
abbrev with_proofs : List Proof → PaymentDb → PaymentDb
with_proofs proofs db = record db { foundation = record db.foundation { proofs = proofs } }

abbrev pub OnlyProofs : PaymentDb → PaymentDb → Type 0
OnlyProofs db db' = (proofs : List Proof) × (db' ≡ with_proofs proofs db)

pub consume_payment_proof-OnlyProofs :
    (ctx : CommandContext) (db db' : PaymentDb)
    → consume_payment_proof ctx db ≡ ok db'
    → OnlyProofs db db'
unfolding consume_payment_proof consume_step_up_proof
consume_payment_proof-OnlyProofs ctx db db' e =
    let (proof, given, e1) = or_throw-eq-ok ctx.step_up step_up_invalid _ e in
    let (accepted_once, e2) =
      throw_if-eq-ok (not (consume_step_up_proof proof ctx.now db.foundation).0) step_up_invalid _
        e1 in
    (_, sym (ok-injective e2))

override_separation-OnlyProofs :
    (services : PaymentServices) (ctx : CommandContext) (p : LockedPayment)
    (o : Option SeparationOverride) (conflicting : List ℕ) (db db' : PaymentDb)
    → override_separation services ctx p o conflicting db ≡ ok db'
    → OnlyProofs db db'
unfolding override_separation
override_separation-OnlyProofs services ctx p o [] db db' e =
    (db.foundation.proofs, sym (ok-injective e))
override_separation-OnlyProofs services ctx p o (c ∷ cs) db db' e =
    let (override, given, e1) = or_throw-eq-ok o scope_denied _ e in
    let (allowed, e2) =
      throw_if-eq-ok (not (services.has_separation_override ctx.actor)) scope_denied _ e1 in
    let (proved, by_proof, e3) = >>=-eq-ok (consume_payment_proof ctx db) _ e2 in
    let (u, valid, e4) =
      >>=-eq-ok (accept_override (override_approval_valid p override ctx.actor (c ∷ cs) proved)) _
        e3 in
    subst (OnlyProofs db) (ok-injective e4)
      (consume_payment_proof-OnlyProofs ctx db proved by_proof)

-- What `execute_checks` has found.
pub record Checked (services : PaymentServices) (ctx : CommandContext) (p : LockedPayment)
    (body : Option SeparationOverride) (db : PaymentDb) (ids : List ℕ) (db' : PaymentDb)
    : Type 0 where
  pub separated : separation services ctx p body db ≡ ok db'
  pub allocated : check_payment_allocations p.allocations db' ≡ ok tt
  pub reserved_ids : reservations ctx.now p ≡ ok ids
  pub funded : check_sources p db' ≡ ok tt
  pub only_proofs : OnlyProofs db db'

pub execute_checks-Checked :
    (services : PaymentServices) (ctx : CommandContext) (p : LockedPayment)
    (body : Option SeparationOverride) (db : PaymentDb) (ids : List ℕ) (db' : PaymentDb)
    → execute_checks services ctx p body db ≡ ok (ids, db')
    → Checked services ctx p body db ids db'
unfolding execute_checks
execute_checks-Checked services ctx p body db ids db' e =
    let (separated, is_separated, e1) = >>=-eq-ok (separation services ctx p body db) _ e in
    let (u, allocated, e2) = >>=-eq-ok (check_payment_allocations p.allocations separated) _ e1 in
    let (found, reserved, e3) = >>=-eq-ok (reservations ctx.now p) _ e2 in
    let (v, funded, e4) = >>=-eq-ok (check_sources p separated) _ e3 in
    let same : ◌≡◌ {A = List ℕ × PaymentDb} (found, separated) (ids, db') = ok-injective e4 in
    let (same_ids, same_db) : (found ≡ ids) × (separated ≡ db') =
      (ap (λ (q : List ℕ × PaymentDb). q.0) same, ap (λ (q : List ℕ × PaymentDb). q.1) same) in
    let done : separation services ctx p body db ≡ ok db' = is_separated ∙ ap ok same_db in
    record {
      separated = done;
      allocated = rw same_db at allocated;
      reserved_ids = reserved ∙ ap ok same_ids;
      funded = rw same_db at funded;
      only_proofs =
          override_separation-OnlyProofs services ctx p body (conflicts_of ctx p) db db' done;
    }
