-- ===== src/Payment/Execute/Evidence.antt =====
-- What the trigger on the effects of `execute` says of the lines.
use treasury_backend.Prelude.{
  ==_iff, All, List, Option, Option-cases, [], ap, inl, inr, none, not, option_eq, some,
  some-injective, sym, true, true_of_not, ℕ, ◌∙◌, ◌∷◌, ◌≡◌, ◌≢◌,
}
use treasury_backend.Store.{check_violation, effect_mapping, ok, or_throw-eq-ok, throw_if-eq-ok}
use treasury_backend.Payment.{
  LockedLine, PaymentEffectType, PaymentLine, bank_account_source, bank_instruction, bank_movement,
  cashbox_movement, cashbox_source, issued_cheque,
}
use treasury_backend.Payment.Totals.{SourceKey, source_of}
use treasury_backend.Payment.Execute.{check_evidence, effect_type_of, endpoint_of, is_evident}
use treasury_backend.Payment.Execute.Funds.{IsAmount, IsConsistent, endpoint_of_source}

-- A line of an amount that reads, whose cashbox and bank account, if it had both, differ.
abbrev pub IsPayable : LockedLine → Type 0
IsPayable l =
    IsAmount l.line.amount
    × ((id : ℕ) → l.line.cashbox_id ≡ some id → l.line.bank_account_id ≢ some id)

option_eq-eq : (o : Option ℕ) (a : ℕ) → option_eq o (some a) ≡ true → o ≡ some a
option_eq-eq none a e = cc
option_eq-eq (some b) a e = ap some ((==_iff b a).0 e)

cashbox_source_of :
    (l : PaymentLine) (id : ℕ)
    → l.cashbox_id ≡ some id
    → (key : SourceKey) → source_of l ≡ some key
    → key.source_type ≡ cashbox_source
cashbox_source_of l id given key e =
    ap (λ (k : SourceKey). k.source_type) (sym (some-injective (rw given at e)))

account_source_of :
    (l : PaymentLine) (key : SourceKey)
    → ((id : ℕ) → l.cashbox_id ≡ some id → l.bank_account_id ≢ some id)
    → source_of l ≡ some key
    → l.bank_account_id ≡ some key.source_id
    → key.source_type ≡ bank_account_source
account_source_of l key differ e account = elim (Option-cases l.cashbox_id) [
  | inr (c, given) ↦
      (let same : c ≡ key.source_id =
          ap (λ (k : SourceKey). k.source_id) (some-injective (rw given at e)) in
        elim (differ c given (account ∙ ap some (sym same))) [ ])
  | inl missing ↦
      ap (λ (k : SourceKey). k.source_type) (sym (some-injective (rw (missing, account) at e)))
]

pub evident_source :
    (l : PaymentLine) (key : SourceKey) (type : PaymentEffectType)
    → ((id : ℕ) → l.cashbox_id ≡ some id → l.bank_account_id ≢ some id)
    → source_of l ≡ some key
    → is_evident l type key.source_id ≡ true
    → endpoint_of type ≡ endpoint_of_source key.source_type
evident_source l key cashbox_movement differ e evident =
    ap endpoint_of_source
      (sym (cashbox_source_of l key.source_id (option_eq-eq l.cashbox_id _ evident) key e))
evident_source l key bank_movement differ e evident =
    ap endpoint_of_source
      (sym (account_source_of l key differ e (option_eq-eq l.bank_account_id _ evident)))
evident_source l key bank_instruction differ e evident = cc
evident_source l key issued_cheque differ e evident = cc

pub check_evidence-IsConsistent :
    (ls : List LockedLine) → All IsPayable ls → check_evidence ls ≡ ok tt → All IsConsistent ls
unfolding check_evidence
check_evidence-IsConsistent [] payable e = tt
check_evidence-IsConsistent (l ∷ ls) ((is_amount, differ), payable) e =
    let (key, has_source, e1) = or_throw-eq-ok (source_of l.line) effect_mapping _ e in
    let (type, has_type, e2) =
      or_throw-eq-ok (effect_type_of l.line.method_category) effect_mapping _ e1 in
    let (evident, e3) =
      throw_if-eq-ok (not (is_evident l.line type key.source_id)) check_violation _ e2 in
    (
      (
        is_amount,
        λ key' type' s t.
            rw (sym (some-injective (sym s ∙ has_source)), sym (some-injective (sym t ∙ has_type)))
              at (evident_source l.line key type differ has_source (true_of_not _ evident)),
      ),
      check_evidence-IsConsistent ls payable e3,
    )
