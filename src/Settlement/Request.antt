-- ===== src/Settlement/Request.antt =====
-- `validateCreate` of src/collection-and-settlement/settlement.service.ts: the checks on a create
-- request that read no table.
pub mod Arithmetic
use treasury_backend.Prelude.{
  Bool, List, Option, [], all, false, if◌then◌else◌, is_some, map, not, true, ℕ, ◌==◌, ◌||◌, ◌∷◌,
}
use treasury_backend.Prelude.Int.{leb_ℤ, ltb_ℤ, pos, ℤ, ◌+ℤ◌, ◌-ℤ◌, ◌==ℤ◌}
use treasury_backend.Money.{Text}
use treasury_backend.Money.Texts.{is_given, non_empty, trim_option}
use treasury_backend.Store.{
  Result, arithmetic_mismatch, evidence_invalid, ok, throw_if, validation, ◌>>=◌, ◌>>◌,
}
use treasury_backend.Settlement.{Disposition, Match, deterministic, manual, no_discrepancy}
use treasury_backend.Settlement.Service.{AllocationDto, CreateDto, units_or_throw}

abbrev pub is_no_discrepancy : Disposition → Bool
is_no_discrepancy no_discrepancy = true
is_no_discrepancy _ = false

-- `reduce` over the allocations
unfoldable pub sum_units : ℤ → List AllocationDto → Result ℤ
sum_units acc [] = ok acc
sum_units acc (a ∷ rest) = do u ← units_or_throw a.amount.amount; sum_units (acc +ℤ u) rest

abbrev pub currencies_of : CreateDto → List ℕ
currencies_of dto =
    dto.gross.currency
    ∷ dto.fee.currency
    ∷ dto.deduction.currency
    ∷ dto.expected_net.currency
    ∷ dto.actual_net.currency
    ∷ dto.discrepancy.currency
    ∷ map (λ a. a.amount.currency) dto.allocations

-- The arithmetic of `validateCreate`; the result is the discrepancy.
unfoldable pub check_arithmetic : CreateDto → Result ℤ
check_arithmetic dto = do
  throw_if (not (all (λ c. dto.gross.currency == c) (currencies_of dto))) arithmetic_mismatch
  gross ← units_or_throw dto.gross.amount
  fee ← units_or_throw dto.fee.amount
  deduction ← units_or_throw dto.deduction.amount
  expected ← units_or_throw dto.expected_net.amount
  actual ← units_or_throw dto.actual_net.amount
  difference ← units_or_throw dto.discrepancy.amount
  throw_if
      (leb_ℤ gross (pos 0)
        || ltb_ℤ fee (pos 0)
        || ltb_ℤ deduction (pos 0)
        || leb_ℤ expected (pos 0)
        || leb_ℤ actual (pos 0)
        || not (gross -ℤ fee -ℤ deduction ==ℤ expected)
        || not (actual -ℤ expected ==ℤ difference))
      arithmetic_mismatch
  allocated ← sum_units (pos 0) dto.allocations
  throw_if (not (allocated ==ℤ gross)) arithmetic_mismatch
  ok difference

-- A discrepancy has a disposition and a reason, and only a discrepancy has them.
unfoldable pub check_discrepancy : ℤ → Disposition → Option Text → Result (Unit {0})
check_discrepancy difference disposition reason =
    throw_if
      (if difference ==ℤ pos 0
        then not (is_no_discrepancy disposition) || is_given reason
        else is_no_discrepancy disposition || not (is_given reason))
      arithmetic_mismatch

abbrev is_bad_match : Match → Bool
is_bad_match m = elim m.kind [
  | deterministic ↦
      not (is_given (trim_option m.rule_id))
      || not (is_given (trim_option m.rule_version))
      || is_given m.reason
  | manual ↦ not (is_given (trim_option m.reason)) || is_given m.rule_id || is_given m.rule_version
]

abbrev pub normalized : CreateDto → CreateDto
normalized dto = record dto {
  provider_reference = non_empty (trim_option dto.provider_reference);
  discrepancy_reason = trim_option dto.discrepancy_reason;
  match_input = record {
    kind = dto.match_input.kind;
    rule_id = trim_option dto.match_input.rule_id;
    rule_version = trim_option dto.match_input.rule_version;
    reason = trim_option dto.match_input.reason;
  };
}

unfoldable pub validate_create : CreateDto → Result CreateDto
validate_create dto = do
  difference ← check_arithmetic dto
  check_discrepancy difference dto.discrepancy_disposition (trim_option dto.discrepancy_reason)
  throw_if (is_bad_match dto.match_input) validation
  throw_if (is_some dto.bank_statement_line_id) evidence_invalid
  ok (normalized dto)
