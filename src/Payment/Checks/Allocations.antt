-- ===== src/Payment/Checks/Allocations.antt =====
-- What the loop `allocations` of src/payments/payment-execution.service.ts accepts, said of the rows.
use treasury_backend.Prelude.{
  All, Bool, Bool-cases, List, [], any, arith, false, filter, inl, inr, is_some, length, ltb, none,
  not, or-false, refl, some, sym, true, true_of_not, ◌∙◌, ◌∷◌, ◌≡◌, ◌⊎◌, Option-cases,
}
use treasury_backend.Prelude.Int.{eq_of_parts, int_laws, ltb_ℤ, pos, ℤ, ◌+ℤ◌, ◌≤ℤ◌}
use treasury_backend.Money.{Text}
use treasury_backend.Store.{
  >>=-eq-ok, allocation_invalid, option_text_eq-eq, ok, ok-injective, option_text_eq,
  throw_if-eq-ok, throw_if-false,
}
use treasury_backend.Payment.{PaymentAllocation, PaymentDb}
use treasury_backend.Payment.Sources.{decimal_or_throw, sum_decimals}
use treasury_backend.Payment.Checks.{
  check_known_total, check_payment_allocation, check_payment_allocations, is_sibling,
  sibling_allocations,
}

-- An active allocation to the same external object, in the same currency.
abbrev pub IsSibling : PaymentAllocation → PaymentAllocation → Type 0
IsSibling a b =
    (b.source_namespace ≡ a.source_namespace)
    × (b.external_object_type ≡ a.external_object_type)
    × (b.external_object_id ≡ a.external_object_id)
    × (b.currency ≡ a.currency)
    × (b.is_active ≡ true)

is_sibling-cases :
    (a b : PaymentAllocation)
    → ((is_sibling a b ≡ true) × IsSibling a b) ⊎ ((is_sibling a b ≡ false) × (¬ IsSibling a b))
is_sibling-cases a b = elim (Bool-cases (is_sibling a b)) [
  | inl e ↦ inl (
    e,
    (ground (arith, e), ground (arith, e), ground (arith, e), ground (arith, e), ground (arith, e)),
  )
  | inr e ↦ inr (e, λ h. ground (arith, e, h.0, h.1, h.2, h.3, h.4))
]

-- The total of the allocations that are siblings.
abbrev pub Allocates : PaymentAllocation → List PaymentAllocation → ℤ → Type 0
Allocates a [] total = total ≡ pos 0
Allocates a (b ∷ bs) total =
    (IsSibling a b
      × ((v : ℤ) × (rest : ℤ) × (decimal_or_throw b.allocated_amount ≡ ok v)
          × Allocates a bs rest
          × (total ≡ v +ℤ rest)))
    ⊎ ((¬ IsSibling a b) × Allocates a bs total)

-- A sibling that no approval action has overridden.
abbrev pub IsOpen : PaymentAllocation → PaymentAllocation → Type 0
IsOpen a b = IsSibling a b × (b.override_approval_action_id ≡ none)

abbrev pub AtMostOne : PaymentAllocation → List PaymentAllocation → Type 0
AtMostOne a [] = Unit
AtMostOne a (b ∷ bs) = (IsOpen a b × All (λ c. ¬ IsOpen a c) bs) ⊎ ((¬ IsOpen a b) × AtMostOne a bs)

-- The known total of the obligation bounds what is allocated; where none is known, one allocation
-- stands without an override.
abbrev pub IsWithin : PaymentAllocation → List PaymentAllocation → Type 0
IsWithin a rows =
    ((known : Text) × (limit : ℤ) × (total : ℤ) × (a.known_obligation_total ≡ some known)
      × (decimal_or_throw known ≡ ok limit)
      × Allocates a rows total
      × (total ≤ℤ limit))
    ⊎ ((a.known_obligation_total ≡ none) × AtMostOne a rows)

pub record IsAllocated (rows : List PaymentAllocation) (a : PaymentAllocation) : Type 0 where
  pub active : a.is_active ≡ true
  pub agrees :
      All
        (λ (b : PaymentAllocation).
          (¬ IsSibling a b) ⊎ (b.known_obligation_total ≡ a.known_obligation_total))
        rows
  pub within : IsWithin a rows

sum_decimals-Allocates :
    (a : PaymentAllocation) (rows : List PaymentAllocation) (acc total : ℤ)
    → sum_decimals (λ (s : PaymentAllocation). s.allocated_amount) acc (filter (is_sibling a) rows)
      ≡ ok total
    → (sum : ℤ) × Allocates a rows sum × (total ≡ acc +ℤ sum)
unfolding sum_decimals
sum_decimals-Allocates a [] acc total e =
    (pos 0, refl, sym (ok-injective e) ∙ eq_of_parts _ _ (omega int_laws))
sum_decimals-Allocates a (b ∷ bs) acc total e = elim (is_sibling-cases a b) [
  | inl (yes_sibling, sibling) ↦
      (let (v, reads, e1) =
          >>=-eq-ok (decimal_or_throw b.allocated_amount) _ (rw yes_sibling at e) in
        let (rest, others, made) = sum_decimals-Allocates a bs (acc +ℤ v) total e1 in
        (
          v +ℤ rest,
          inl (sibling, (v, rest, reads, others, refl)),
          made ∙ eq_of_parts _ _ (omega int_laws),
        ))
  | inr (other, stranger) ↦
      (let (sum, others, made) = sum_decimals-Allocates a bs acc total (rw other at e) in
        (sum, inr (stranger, others), made))
]

abbrev is_open : PaymentAllocation → Bool
is_open s = not (is_some s.override_approval_action_id)

is_open-none :
    (s : PaymentAllocation) → is_open s ≡ false → ¬ (s.override_approval_action_id ≡ none)
is_open-none s e h = let nothing = rw h at e in cc nothing

none-IsOpen :
    (a : PaymentAllocation) (rows : List PaymentAllocation)
    → length (filter is_open (filter (is_sibling a) rows)) ≡ 0
    → All (λ b. ¬ IsOpen a b) rows
none-IsOpen a [] e = tt
none-IsOpen a (b ∷ bs) e = elim (is_sibling-cases a b) [
  | inr (other, stranger) ↦ (λ h. stranger h.0, none-IsOpen a bs (rw other at e))
  | inl (sibling, h) ↦ elim (Bool-cases (is_open b)) [
    | inl found ↦ (let nothing = rw found at (rw sibling at e) in ground (arith, nothing))
    | inr closed ↦
        (λ g. is_open-none b closed g.1, none-IsOpen a bs (rw closed at (rw sibling at e)))
  ]
]

open-AtMostOne :
    (a : PaymentAllocation) (rows : List PaymentAllocation)
    → ltb 1 (length (filter is_open (filter (is_sibling a) rows))) ≡ false
    → AtMostOne a rows
open-AtMostOne a [] e = tt
open-AtMostOne a (b ∷ bs) e = elim (is_sibling-cases a b) [
  | inr (other, stranger) ↦ inr (λ h. stranger h.0, open-AtMostOne a bs (rw other at e))
  | inl (sibling, h) ↦ elim (Option-cases b.override_approval_action_id) [
    | inl none_given ↦
        (let at_most = rw none_given at (rw sibling at e) in
          inl ((h, none_given), none-IsOpen a bs (ground (arith, at_most))))
    | inr (o, given) ↦
        inr (λ g. cc (g.1, given), open-AtMostOne a bs (rw given at (rw sibling at e)))
  ]
]

within_limit :
    (limit sum total : ℤ) → ltb_ℤ limit sum ≡ false → sum ≡ pos 0 +ℤ total → total ≤ℤ limit
within_limit limit sum total below made =
    let bound : sum ≤ℤ limit = ground (arith, below) in omega (int_laws, rw made at bound)

check_known_total-IsWithin :
    (a : PaymentAllocation) (db : PaymentDb)
    → check_known_total a.known_obligation_total (sibling_allocations a db) ≡ ok tt
    → IsWithin a db.allocations
unfolding check_known_total
check_known_total-IsWithin a db e = elim (Option-cases a.known_obligation_total) [
  | inl unknown ↦ inr (
    unknown,
    open-AtMostOne a db.allocations (throw_if-false _ allocation_invalid (rw unknown at e)),
  )
  | inr (known, is_known) ↦
      (let (sum, summed, e1) =
          >>=-eq-ok (sum_decimals _ (pos 0) (sibling_allocations a db)) _ (rw is_known at e) in
        let (limit, reads, e2) = >>=-eq-ok (decimal_or_throw known) _ e1 in
        let (total, allocated, made) = sum_decimals-Allocates a db.allocations (pos 0) sum summed in
        let below = throw_if-false _ allocation_invalid e2 in
        inl (
          known,
          limit,
          total,
          is_known,
          reads,
          allocated,
          within_limit limit sum total below made,
        ))
]

agreeing :
    (a : PaymentAllocation) (rows : List PaymentAllocation)
    → any
        (λ (s : PaymentAllocation).
          not (option_text_eq s.known_obligation_total a.known_obligation_total))
        (filter (is_sibling a) rows)
      ≡ false
    → All
        (λ (b : PaymentAllocation).
          (¬ IsSibling a b) ⊎ (b.known_obligation_total ≡ a.known_obligation_total))
        rows
agreeing a [] e = tt
agreeing a (b ∷ bs) e = elim (is_sibling-cases a b) [
  | inr (other, stranger) ↦ (inl stranger, agreeing a bs (rw other at e))
  | inl (sibling, h) ↦
      (let (here, rest) =
          or-false (not (option_text_eq b.known_obligation_total a.known_obligation_total)) _
            (rw sibling at e) in
        (inr (option_text_eq-eq _ _ (true_of_not _ here)), agreeing a bs rest))
]

pub check_payment_allocations-IsAllocated :
    (list : List PaymentAllocation) (db : PaymentDb)
    → check_payment_allocations list db ≡ ok tt
    → All (IsAllocated db.allocations) list
unfolding check_payment_allocations check_payment_allocation
check_payment_allocations-IsAllocated [] db e = tt
check_payment_allocations-IsAllocated (a ∷ rest) db e =
    let (u, here, e1) = >>=-eq-ok (check_payment_allocation a db) _ e in
    let (is_active, e2) = throw_if-eq-ok (not a.is_active) allocation_invalid _ here in
    let (agrees, e3) =
      throw_if-eq-ok
        (any
          (λ (s : PaymentAllocation).
            not (option_text_eq s.known_obligation_total a.known_obligation_total))
          (sibling_allocations a db))
        allocation_invalid _ e2 in
    (
      record {
        active = true_of_not _ is_active;
        agrees = agreeing a db.allocations agrees;
        within = check_known_total-IsWithin a db e3;
      },
      check_payment_allocations-IsAllocated rest db e1,
    )
