-- ===== src/Dsl/Validation.antt =====
-- internal/validation/dsl: evaluateValidations of runtime.go, and the quality summary and the decision to
-- fail of types.go. The messages of the results are left out, and the error that comes with a decision
-- to fail. A threshold is an int; the number of the results is below 2^63.
pub mod Halt
pub mod Balances
mod Tests
use sumpter.Base.{
  ℕ, suc, Bool, true, false, not, ◌&&◌, ◌||◌, Option, none, some, List, [], ◌∷◌, length, ltb, ◌>>=◌,
  if◌then◌else◌,
}
use sumpter.Base.Int.{ℤ, pos, negsuc}
use sumpter.TextMap.{TextMap}
use sumpter.Dsl.{Text}
use sumpter.Dsl.Text.{codes, eq_text, trim_space}
use sumpter.Dsl.Scan.{is_empty}
use sumpter.Dsl.Parser.{parse_expression}
use sumpter.Dsl.Value.{Float64, Value, Fields, no_field, field, set_field, to_bool}
use sumpter.Dsl.Evaluator.{Letters, new_evaluator, evaluate_expression}
use sumpter.Dsl.Accumulator.{Accumulator, get_result}

pub record FailurePolicy : Type 0 where
  pub fail_on_fatal : Bool
  pub error_threshold : ℤ
  pub warning_threshold : ℤ
  pub halt_on_first_fatal : Bool
  pub fail_on_fatal_set : Bool
  pub halt_on_first_fatal_set : Bool

unfoldable pub apply_defaults : FailurePolicy → FailurePolicy
apply_defaults p = record p {
  fail_on_fatal = if p.fail_on_fatal_set then p.fail_on_fatal else true;
  halt_on_first_fatal = if p.halt_on_first_fatal_set then p.halt_on_first_fatal else true;
}

pub record ValidationConfig : Type 0 where
  pub name : Text
  pub rule : Text
  pub severity : Text

pub record ValidationResult : Type 0 where
  pub name : Text
  pub passed : Bool
  pub severity : Text

pub record QualitySummary : Type 0 where
  pub total_checks : ℕ
  pub passed : ℕ
  pub warnings : ℕ
  pub errors : ℕ
  pub fatals : ℕ

unfoldable pub exceeds : ℤ → ℕ → Bool
exceeds (pos threshold) n = ltb threshold n
exceeds (negsuc threshold) n = false

-- The break of evaluateValidations, on a result that has failed.
unfoldable pub stops : Bool → ValidationResult → Bool
stops halt r = not r.passed && eq_text r.severity (codes "fatal") && halt

module _ (letters : Letters) where
  unfoldable pub normalize_validation_severity : Text → Text
  normalize_validation_severity severity =
      let normalized = letters.to_lower (trim_space severity) in
      if is_empty normalized then codes "error" else normalized

  -- A round of the loop of GetQualitySummary.
  unfoldable pub count_result : ValidationResult → QualitySummary → QualitySummary
  count_result r s =
      let severity = normalize_validation_severity r.severity in
      if r.passed
      then (record s { passed = suc s.passed })
      else if eq_text severity (codes "warning")
      then (record s { warnings = suc s.warnings })
      else if eq_text severity (codes "error")
      then (record s { errors = suc s.errors })
      else if eq_text severity (codes "fatal")
      then (record s { fatals = suc s.fatals })
      else s

  unfoldable pub count_results : List ValidationResult → QualitySummary → QualitySummary
  count_results [] s = s
  count_results (r ∷ results) s = count_results results (count_result r s)

  unfoldable pub get_quality_summary : List ValidationResult → QualitySummary
  get_quality_summary results =
      count_results results
        (record { total_checks = length results; passed = 0; warnings = 0; errors = 0; fatals = 0 })

  -- A warning threshold is tested last, and does not change the decision.
  unfoldable pub should_fail_extraction : FailurePolicy → List ValidationResult → Bool
  should_fail_extraction policy results =
      let p = apply_defaults policy in
      let summary = get_quality_summary results in
      p.fail_on_fatal && ltb 0 summary.fatals || exceeds p.error_threshold summary.errors

module _ {F : Type 0} where
  unfoldable pub set_all : Fields F → Fields F → Fields F
  set_all no_field variables = variables
  set_all (field k v fs) variables = set_all fs (set_field k v variables)

module _ {F : Type 0} (fl : Float64 F) where
  unfoldable pub set_results : TextMap (Accumulator F) → Fields F → Option (Fields F)
  set_results [] variables = some variables
  set_results ((name, acc) ∷ accumulators) variables =
      get_result fl acc >>= λ result. set_results accumulators (set_field name result variables)

  unfoldable pub build_variable_context :
      TextMap (Accumulator F) → Fields F → Fields F → Fields F → Option (Fields F)
  build_variable_context accumulators aggregation_results doc reconciliation_scalars =
      set_results accumulators no_field >>= λ variables.
      some (set_all reconciliation_scalars (set_all doc (set_all aggregation_results variables)))

  module _ (letters : Letters) (parse_float : Text → Option F) where
    -- A rule's result, which has to be a boolean.
    unfoldable pub check_rule : Fields F → Text → Option Bool
    check_rule variables rule = do
      expr ← parse_expression parse_float rule
      value ← evaluate_expression fl letters (new_evaluator variables none) expr
      to_bool value

    -- The loop of evaluateValidations. `context` is built anew in each round, from the same maps.
    unfoldable pub evaluate_validations :
        Bool → Option (Fields F) → List ValidationConfig → Option (List ValidationResult)
    evaluate_validations halt context [] = some []
    evaluate_validations halt context (config ∷ configs) = do
      variables ← context
      passed ← check_rule variables config.rule
      let severity = normalize_validation_severity letters config.severity in
          let result : ValidationResult = record {
            name = config.name;
            passed = passed;
            severity = severity;
          } in
          elim (stops halt result) [
            | true ↦ some (result ∷ [])
            | false ↦ (evaluate_validations halt context configs >>= λ rest. some (result ∷ rest))
          ]
