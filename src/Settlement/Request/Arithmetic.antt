-- ===== src/Settlement/Request/Arithmetic.antt =====
-- The arithmetic that `validateCreate` has checked when it accepts a request.
-- The amounts of the allocations add up to a total.
use treasury_backend.Prelude.{
  Bool, List, [], all, arith, false, not, true, ◌==◌, ◌||◌, ◌∷◌, ◌≡◌, ◌≢◌, ◌⊎◌,
}
use treasury_backend.Prelude.Int.{leb_ℤ, ltb_ℤ, pos, ℤ, ◌+ℤ◌, ◌-ℤ◌, ◌==ℤ◌, ◌≤ℤ◌}
use treasury_backend.Money.Texts.{is_given, trim_option}
use treasury_backend.Settlement.{no_discrepancy}
use treasury_backend.Settlement.Service.{AllocationDto, CreateDto}
use treasury_backend.Settlement.Request.{currencies_of}
use treasury_backend.Settlement.Items.{Reads}

abbrev pub Total : List AllocationDto → ℤ → Type 0
Total [] t = t ≡ pos 0
Total (a ∷ rest) t = (u : ℤ) × (s : ℤ) × Reads a.amount.amount u × Total rest s × (t ≡ u +ℤ s)

-- The rules for the amounts of a settlement batch.
pub record IsProposal (dto : CreateDto) : Type 0 where
  pub gross : ℤ
  pub fee : ℤ
  pub deduction : ℤ
  pub expected : ℤ
  pub actual : ℤ
  pub discrepancy : ℤ
  pub reads_gross : Reads dto.gross.amount gross
  pub reads_fee : Reads dto.fee.amount fee
  pub reads_deduction : Reads dto.deduction.amount deduction
  pub reads_expected : Reads dto.expected_net.amount expected
  pub reads_actual : Reads dto.actual_net.amount actual
  pub reads_discrepancy : Reads dto.discrepancy.amount discrepancy
  pub gross_positive : ¬ (gross ≤ℤ pos 0)
  pub net_positive : ¬ (expected ≤ℤ pos 0) × ¬ (actual ≤ℤ pos 0)
  pub fees_nonneg : (pos 0 ≤ℤ fee) × (pos 0 ≤ℤ deduction)
  pub net : expected +ℤ fee +ℤ deduction ≡ gross
  pub difference : expected +ℤ discrepancy ≡ actual
  pub allocated : Total dto.allocations gross
  pub one_currency : all (λ c. dto.gross.currency == c) (currencies_of dto) ≡ true
  pub explained :
      ((discrepancy ≡ pos 0)
        × (dto.discrepancy_disposition ≡ no_discrepancy)
        × (is_given (trim_option dto.discrepancy_reason) ≡ false))
      ⊎ ((discrepancy ≢ pos 0)
          × (dto.discrepancy_disposition ≢ no_discrepancy)
          × (is_given (trim_option dto.discrepancy_reason) ≡ true))

pub positive_of : (v : ℤ) → leb_ℤ v (pos 0) ≡ false → ¬ (v ≤ℤ pos 0)
positive_of v e = ground arith

-- The test of the amounts, read back.
module _ (g f d x a v : ℤ) where
  abbrev bad_amounts : Bool
  bad_amounts =
      leb_ℤ g (pos 0)
      || ltb_ℤ f (pos 0)
      || ltb_ℤ d (pos 0)
      || leb_ℤ x (pos 0)
      || leb_ℤ a (pos 0)
      || not (g -ℤ f -ℤ d ==ℤ x)
      || not (a -ℤ x ==ℤ v)
