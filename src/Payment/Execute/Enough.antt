-- ===== src/Payment/Execute/Enough.antt =====
-- What a source that can pay has found.
use treasury_backend.Prelude.{
  Bool, Bool-cases, Option-cases, ap, arith, false, find, if◌then◌else◌, inl, inr, ltb, not, refl,
  some, sym, true, ℕ, ◌&&◌, ◌==◌, ◌||◌, ◌∙◌, ◌≡◌,
}
use treasury_backend.Prelude.Int.{ltb_ℤ, negsuc, pos, ℤ, ◌-ℤ◌, ◌≤ℤ◌}
use treasury_backend.Money.{Text, amount}
use treasury_backend.Store.{
  >>=-eq-ok, EndpointType, bank_account_endpoint, cashbox_endpoint, ok, ok-injective, ◌>>=◌,
}
use treasury_backend.Payment.{
  Cashbox, CurrencyControl, FundingSource, PayingAccount, PaymentDb, bank_account_source,
  cashbox_source,
}
use treasury_backend.Payment.Sources.{
  SourceState, above_floor, account_payable, balance, cashbox_funds, cashbox_payable, closed,
  day_of, decimal_or_throw, exceeds, floor_of, in_service, insufficient, is_open, is_past, pays_in,
  position, reserved, source_ok, unavailable,
}
use treasury_backend.Payment.Totals.{accept_cashbox}
use treasury_backend.Money.RoundTrip.{decimal-amount}

pub accept_cashbox-ok : (s : SourceState) → accept_cashbox s ≡ ok tt → s ≡ source_ok
accept_cashbox-ok source_ok e = refl
accept_cashbox-ok closed e = cc
accept_cashbox-ok unavailable e = cc
accept_cashbox-ok insufficient e = cc

pub not_below : (a b : ℤ) → not (ltb_ℤ a b) ≡ true → b ≤ℤ a
not_below a b e = ground arith

pub above_floor-ok :
    (rest : ℤ) (floor : Text) (least : ℤ)
    → decimal_or_throw floor ≡ ok least
    → above_floor rest (some floor) ≡ ok true
    → least ≤ℤ rest
unfolding above_floor
above_floor-ok rest floor least reads e =
    let (v, read, e1) = >>=-eq-ok (decimal_or_throw floor) _ e in
    let same : v ≡ least = ok-injective (sym read ∙ reads) in
    let enough : not (ltb_ℤ rest v) ≡ true = ok-injective e1 in
    not_below rest least (rw same at enough)

-- The amounts that a source was asked about, and what it has found.
pub record Enough (type : FundingSource) (endpoint : EndpointType) (id currency payment_id : ℕ)
    (value : Text) (db : PaymentDb) : Type 0 where
  pub total : ℤ
  pub held : ℤ
  pub funds : ℤ
  pub asked : decimal_or_throw value ≡ ok total
  pub others : reserved type id currency payment_id db ≡ ok held
  pub has : position endpoint id currency db ≡ ok funds

cashbox_funds-Enough :
    (id currency payment_id : ℕ) (value : Text) (c : CurrencyControl) (db : PaymentDb)
    → cashbox_funds id currency payment_id value c db ≡ ok source_ok
    → (n : Enough cashbox_source cashbox_endpoint id currency payment_id value db) × (above_floor
          (n.funds -ℤ n.held -ℤ n.total)
          (floor_of c)
        ≡ ok true)
unfolding cashbox_funds
cashbox_funds-Enough id currency payment_id value c db e =
    let (total, asked, e1) = >>=-eq-ok (decimal_or_throw value) _ e in
    let (too_much, limit, e2) = >>=-eq-ok (exceeds total c.transaction_ceiling) _ e1 in
    elim (Bool-cases too_much) [
      | inl over ↦ cc (rw over at e2)
      | inr within ↦
          (let (held, others, e3) =
              >>=-eq-ok (reserved cashbox_source id currency payment_id db) _ (rw within at e2) in
            let (funds, has, e4) = >>=-eq-ok (position cashbox_endpoint id currency db) _ e3 in
            let (enough, above, e5) =
              >>=-eq-ok (above_floor (funds -ℤ held -ℤ total) (floor_of c)) _ e4 in
            elim (Bool-cases enough) [
              | inl is_enough ↦ (
                record {
                  total = total;
                  held = held;
                  funds = funds;
                  asked = asked;
                  others = others;
                  has = has;
                },
                above ∙ ap ok is_enough,
              )
              | inr short ↦ cc (rw short at e5)
            ])
    ]

account_open :
    (id currency payment_id : ℕ) (value : Text) (a : PayingAccount) (db : PaymentDb)
    → (decimal_or_throw value >>= λ total. exceeds total a.withdrawal_ceiling >>= λ too_much.
        if too_much
        then ok false
        else (reserved bank_account_source id currency payment_id db >>= λ held.
            position bank_account_endpoint id currency db >>= λ funds.
            ok (not (ltb_ℤ (funds -ℤ held) total))))
      ≡ ok true
    → (n : Enough bank_account_source bank_account_endpoint id currency payment_id value db) × (not
          (ltb_ℤ (n.funds -ℤ n.held) n.total)
        ≡ true)
account_open id currency payment_id value a db e =
    let (total, asked, e1) = >>=-eq-ok {B = Bool} (decimal_or_throw value) _ e in
    let (too_much, limit, e2) = >>=-eq-ok {B = Bool} (exceeds total a.withdrawal_ceiling) _ e1 in
    elim (Bool-cases too_much) [
      | inl over ↦ cc (rw over at e2)
      | inr within ↦
          (let (held, others, e3) =
              >>=-eq-ok {B = Bool} (reserved bank_account_source id currency payment_id db) _
                (rw within at e2) in
            let (funds, has, e4) =
              >>=-eq-ok {B = Bool} (position bank_account_endpoint id currency db) _ e3 in
            (
              record {
                total = total;
                held = held;
                funds = funds;
                asked = asked;
                others = others;
                has = has;
              },
              ok-injective e4,
            ))
    ]

pub account_funds-Enough :
    (id currency date payment_id : ℕ) (value : Text) (db : PaymentDb)
    → account_payable id currency date payment_id value db ≡ ok true
    → (n : Enough bank_account_source bank_account_endpoint id currency payment_id value db) × (not
          (ltb_ℤ (n.funds -ℤ n.held) n.total)
        ≡ true)
unfolding account_payable
account_funds-Enough id currency date payment_id value db e =
    elim (Option-cases (find (pays_in id currency) db.accounts)) [
      | inl missing ↦ cc (rw (account_payable, missing) at e)
      | inr (a, found) ↦
          elim (Bool-cases (ltb date a.opening_date || is_past date a.closing_date)) [
            | inl outside ↦ cc (rw (account_payable, found, outside) at e)
            | inr inside ↦
                account_open id currency payment_id value a db
                  (rw (account_payable, found, inside) at e)
          ]
    ]

pub cashbox_payable-Enough :
    (id currency date payment_id : ℕ) (value : Text) (control : CurrencyControl) (db : PaymentDb)
    → find (λ (k : CurrencyControl). k.cashbox_id == id && k.currency == currency) db.controls
      ≡ some control
    → cashbox_payable id currency date payment_id value db ≡ ok source_ok
    → (n : Enough cashbox_source cashbox_endpoint id currency payment_id value db) × (above_floor
          (n.funds -ℤ n.held -ℤ n.total)
          (floor_of control)
        ≡ ok true)
unfolding cashbox_payable
cashbox_payable-Enough id currency date payment_id value control db is_control e =
    elim (Option-cases (find (λ (c : Cashbox). c.id == id) db.cashboxes)) [
      | inl missing ↦ cc (rw (cashbox_payable, missing) at e)
      | inr (c, found) ↦ elim (Bool-cases (not (in_service c date && c.can_pay))) [
        | inl unfit ↦ cc (rw (cashbox_payable, found, is_control, unfit) at e)
        | inr fit ↦ elim (Bool-cases (not (is_open (day_of id date db)))) [
          | inl shut ↦ cc (rw (cashbox_payable, found, is_control, fit, shut) at e)
          | inr opened ↦
              cashbox_funds-Enough id currency payment_id value control db
                (rw (cashbox_payable, found, is_control, fit, opened) at e)
        ]
      ]
    ]

pub below : (n : ℕ) → ¬ (pos 0 ≤ℤ negsuc n)
below n h = omega arith

printed : (v : ℤ) → pos 0 ≤ℤ v → decimal_or_throw (amount v) ≡ ok v
unfolding decimal_or_throw
printed (pos n) not_negative = rw (decimal-amount n) refl
printed (negsuc n) not_negative = elim (below n not_negative) [ ]

-- What was found is the balance, and what was asked is the total.
pub remains :
    (type : FundingSource) (endpoint : EndpointType) (id currency payment_id : ℕ) (total : ℕ)
    (db : PaymentDb) (held : ℤ)
    (n : Enough type endpoint id currency payment_id (amount (pos total)) db)
    → reserved type id currency payment_id db ≡ ok held
    → pos 0 ≤ℤ balance endpoint id currency db.foundation.movements
    → (n.total ≡ pos total)
      × (n.held ≡ held)
      × (n.funds ≡ balance endpoint id currency db.foundation.movements)
unfolding decimal_or_throw position
remains type endpoint id currency payment_id total db held n is_held not_negative = (
  ok-injective (sym n.asked ∙ rw (decimal-amount total) refl),
  ok-injective (sym n.others ∙ is_held),
  ok-injective
      (sym n.has ∙ printed (balance endpoint id currency db.foundation.movements) not_negative),
)
