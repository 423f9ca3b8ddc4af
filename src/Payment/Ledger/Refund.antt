-- ===== src/Payment/Ledger/Refund.antt =====
-- What `reverse` does to the ledger.
use treasury_backend.Prelude.{
  All, Bool, Bool-cases, List, Option, [], ap, filter, find, if◌then◌else◌, inl, inr, map, none,
  refl, some, some-injective, subst, sym, ℕ, ◌==◌, ◌∙◌, ◌∷◌, ◌≡◌,
}
use treasury_backend.Prelude.Int.{int_laws, pos, ℤ, ◌+ℤ◌}
use treasury_backend.Store.{Movement, find_idempotency, ok}
use treasury_backend.Payment.{
  LockedLine, LockedPayment, PaymentDb, PaymentEffect, PaymentEffectType, bank_instruction,
  bank_movement, cashbox_movement, issued_cheque,
}
use treasury_backend.Payment.Sources.{balance, is_at, signed, value_of}
use treasury_backend.Payment.Checks.{
  CommandContext, PaymentReverseDto, PaymentServices, lock_payment, validate,
}
use treasury_backend.Payment.Totals.{SourceKey, same_key, source_of}
use treasury_backend.Payment.Execute.{endpoint_of}
use treasury_backend.Payment.Execute.Frame.{consume_payment_proof-OnlyProofs}
use treasury_backend.Payment.Execute.Movements.{movements, posting_of}
use treasury_backend.Payment.Execute.Funds.{endpoint_of_source, is_from}
use treasury_backend.Payment.Execute.Balance.{balance-append, balance_at, same_endpoint-source}
use treasury_backend.Payment.Execute.Evidence.{IsPayable, evident_source}
use treasury_backend.Payment.Reversal.{
  PaymentReversalResult, effects_of, is_movement, reversal_endpoint,
}
use treasury_backend.Payment.Reverse.{reverse, reverse_scope}
use treasury_backend.Payment.Reverse.Guards.{IsOutgoing, reverse-IsReversiblePayment}
use treasury_backend.Payment.Ledger.{Ledger, ledger_of}
use treasury_backend.Payment.Reverse.Movements.{Credits, reverse-Credits}

-- The source that an effect was paid from, in the currency of the effect.
abbrev source_of_line : Option LockedLine → Option SourceKey
source_of_line none = none
source_of_line (some l) = source_of l.line

abbrev in_currency : ℕ → Option SourceKey → Option SourceKey
in_currency currency none = none
in_currency currency (some key) = some (record key { currency = currency })

abbrev pub source_of_effect : LockedPayment → PaymentEffect → Option SourceKey
source_of_effect p e =
    in_currency e.currency
      (source_of_line (find (λ (k : LockedLine). k.line.id == e.payment_line_id) p.lines))

-- The amounts of the effects on a source.
abbrev pub given_to : SourceKey → LockedPayment → List PaymentEffect → ℤ
given_to key p [] = pos 0
given_to key p (e ∷ es) =
    (if is_from key (source_of_effect p e) then value_of e.amount else pos 0) +ℤ given_to key p es

-- The promise of a reversal: the amounts of the effects return to their sources, and nothing else
-- moves.
abbrev pub refund : LockedPayment → List PaymentEffect → Ledger → Ledger
refund p es ledger k = ledger k +ℤ given_to k p es

find-All :
    (P : LockedLine → Type 0) (q : LockedLine → Bool) (xs : List LockedLine) (x : LockedLine)
    → All P xs
    → find q xs ≡ some x
    → P x
find-All P q [] x holds e = cc
find-All P q (y ∷ ys) x (here, rest) e = elim (Bool-cases (q y)) [
  | inl hit ↦ subst P (some-injective (rw hit at e)) here
  | inr miss ↦ find-All P q ys x rest (rw miss at e)
]

same_ends : (t : PaymentEffectType) → reversal_endpoint t ≡ endpoint_of t
same_ends cashbox_movement = refl
same_ends bank_movement = refl
same_ends bank_instruction = refl
same_ends issued_cheque = refl

credit_endpoint :
    (p : LockedPayment) (e : PaymentEffect) (l : LockedLine) (key : SourceKey)
    → All IsPayable p.lines
    → IsOutgoing p e
    → find (λ (k : LockedLine). k.line.id == e.payment_line_id) p.lines ≡ some l
    → source_of l.line ≡ some key
    → reversal_endpoint e.effect_type ≡ endpoint_of_source key.source_type
credit_endpoint p e l key payable (l', key', is_out, found', has_source', evident) found
      has_source =
    let same_line : l' ≡ l = some-injective (sym found' ∙ found) in
    let source' : source_of l.line ≡ some key' = rw same_line at has_source' in
    let same_key' : key' ≡ key = some-injective (sym source' ∙ has_source) in
    same_ends e.effect_type
    ∙ evident_source l.line key e.effect_type (find-All IsPayable _ p.lines l payable found).1
        has_source (rw (same_line, same_key') at evident)

credit-is_at :
    (k key : SourceKey) (e : PaymentEffect) (m : Movement)
    → reversal_endpoint e.effect_type ≡ endpoint_of_source key.source_type
    → m.endpoint_type ≡ reversal_endpoint e.effect_type
    → m.endpoint_id ≡ key.source_id
    → m.currency ≡ e.currency
    → is_at (endpoint_of_source k.source_type) k.source_id k.currency m
      ≡ same_key (record key { currency = e.currency }) k
credit-is_at k key e m ends type id currency =
    rw (type, id, currency, ends, same_endpoint-source) refl

zero_first : (v : ℤ) → v ≡ pos 0 +ℤ v
zero_first v = omega int_laws

balance_at-Credits :
    (k : SourceKey) (p : LockedPayment) (es : List PaymentEffect) (new : List Movement)
    → All IsPayable p.lines
    → All (IsOutgoing p) es
    → Credits p es (map posting_of new)
    → balance_at k new ≡ given_to k p es
unfolding balance
balance_at-Credits k p [] [] payable outgoing_all credited = refl
balance_at-Credits k p [] (m ∷ ms) payable outgoing_all credited = elim credited [ ]
balance_at-Credits k p (e ∷ es) [] payable outgoing_all credited = elim credited [ ]
balance_at-Credits k p (e ∷ es) (m ∷ ms) payable (is_out, outgoing_all)
      (
        (l, key, fact, found, has_source, has_fact, type, id, way, value, currency, undoes),
        credited,
      ) =
    let rest = balance_at-Credits k p es ms payable outgoing_all credited in
    let ends = credit_endpoint p e l key payable is_out found has_source in
    let at = credit-is_at k key e m ends type id currency in
    let paid : signed m ≡ value_of e.amount = rw (way, value) refl in
    elim (Bool-cases (same_key (record key { currency = e.currency }) k)) [
      | inl here ↦ rw (at, found, has_source, here, paid, rest) refl
      | inr elsewhere ↦ rw (at, found, has_source, elsewhere, rest) (zero_first _)
    ]

-- `reverse` implements `refund`: a `reverse` under a new key that returns changes the ledger by the
-- effects of the payment that moved money, if the amounts of its lines read as amounts that are not
-- negative and no line has a cashbox and an account of the same identifier.
pub ledger_of-reverse :
    (services : PaymentServices) (ctx : CommandContext) (body : PaymentReverseDto) (db : PaymentDb)
    (result : PaymentReversalResult) (db' : PaymentDb) (payment_id expected_version : ℕ)
    (p : LockedPayment)
    → validate ctx ≡ ok (payment_id, expected_version)
    → find_idempotency (reverse_scope ctx.actor payment_id) ctx.key db.idempotency ≡ none
    → lock_payment payment_id db ≡ some p
    → All IsPayable p.lines
    → reverse services ctx body db ≡ ok (result, db')
    → ledger_of db' ≡ refund p (filter is_movement (effects_of p.document.id db)) (ledger_of db)
ledger_of-reverse services ctx body db result db' payment_id expected_version p request unused found
      payable done =
    let (q, proved, moved, explained, is_locked, allowed, by_proof, guards, has_moved, all_out) =
      reverse-IsReversiblePayment services ctx body db result db' payment_id expected_version
        request unused done in
    let (new, appended, credited) =
      reverse-Credits services ctx body db result db' payment_id expected_version p request unused
        found done in
    let same : q ≡ p = some-injective (sym is_locked ∙ found) in
    let (proofs, framed) = consume_payment_proof-OnlyProofs ctx _ proved by_proof in
    let effects = filter is_movement (effects_of p.document.id db) in
    let listed : moved ≡ effects =
      has_moved.are_movements
      ∙ ap (λ (d : PaymentDb). filter is_movement (effects_of q.document.id d)) framed
      ∙ ap (λ (r : LockedPayment). filter is_movement (effects_of r.document.id db)) same in
    let outgoing_all : All (IsOutgoing p) effects =
      subst (λ (r : LockedPayment). All (IsOutgoing r) effects) same
        (subst (λ es. All (IsOutgoing q) es) listed all_out) in
    λ i k.
      (ap (balance_at k) appended
          ∙ balance-append _ _ _ (movements db) new
          ∙ ap (λ z. balance_at k (movements db) +ℤ z)
              (balance_at-Credits k p effects new payable outgoing_all credited))
        i
