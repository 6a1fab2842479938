-- ===== src/Dsl/Validation/Tests.antt =====
-- Tests and instances for the validation rules of a document.
use sumpter.Base.{ℕ, ◌≡◌, refl, true, false, Option, none, some, List, [], ◌∷◌}
use sumpter.Base.Int.{pos}
use sumpter.Dsl.{Text}
use sumpter.Dsl.Text.{
  codes, eq_text, has_prefix, ends_in, index_of, is_space, is_space2, is_space3, space_width,
  space_width_back, strip, trim_space, is_digit, digits_value, unsigned_value, parse_int,
}
use sumpter.Dsl.Scan.{
  next_quoting, closed_range, scan_quotes, quoted_string_ranges, in_string_range, split_round,
  split_scan, idx_valid_split_point, colon_round, colon_scan, find_ternary_colon, enclosing_round,
  enclosing_scan, has_enclosing_parens,
}
use sumpter.Dsl.Calls.{
  is_name, call_round, call_scan, is_function_call, args_round, args_scan,
  split_args_outside_strings,
}
use sumpter.Dsl.Parser.{
  inner, is_quoted, try_parse_constant, parse_operands, try_parse_binary_op, parse_ternary,
  try_parse_ternary, parse_arguments, parse_function, parse_unary, parse_grouped, parse_operand,
  parse_trimmed, parse_with, parse, parse_expression,
}
use sumpter.Dsl.Value.{boolean, Fields, no_field, field, get_field, set_field}
use sumpter.Dsl.Value.Naturals.{naturals}
use sumpter.Dsl.Evaluator.{Letters, new_evaluator, evaluate_expression}
use sumpter.Dsl.Validation.{
  FailurePolicy, apply_defaults, ValidationConfig, ValidationResult, stops,
  normalize_validation_severity, check_rule, evaluate_validations, should_fail_extraction,
}
use sumpter.Dsl.Validation.Halt.{halt-decision}

abbrev letters : Letters
letters = record { to_lower = λ s. s; to_upper = λ s. s }

abbrev no_float : Text → Option ℕ
no_float s = none

abbrev context : Option (Fields ℕ)
context = some (field (codes "paid") (boolean false) no_field)

abbrev paid : Text → ValidationConfig
paid severity = record { name = codes "paid"; rule = codes "paid"; severity = severity }

abbrev failed : Text → ValidationResult
failed severity = record { name = codes "paid"; passed = false; severity = severity }

abbrev policy : FailurePolicy
policy = record {
  fail_on_fatal = false;
  error_threshold = pos 5;
  warning_threshold = pos 0;
  halt_on_first_fatal = false;
  fail_on_fatal_set = false;
  halt_on_first_fatal_set = false;
}

-- The first rule is fatal, and the second one has the severity that is the default.
evaluated :
    evaluate_validations naturals letters no_float false context
      (paid (codes " fatal") ∷ paid [] ∷ [])
    ≡ some (failed (codes "fatal") ∷ failed (codes "error") ∷ [])
unfolding parse_expression parse parse_with parse_trimmed parse_operand parse_grouped parse_unary
    parse_function parse_arguments try_parse_ternary parse_ternary try_parse_binary_op
    parse_operands try_parse_constant is_quoted inner split_args_outside_strings args_scan
    args_round is_function_call call_scan call_round is_name has_enclosing_parens enclosing_scan
    enclosing_round find_ternary_colon colon_scan colon_round idx_valid_split_point split_scan
    split_round in_string_range quoted_string_ranges scan_quotes closed_range next_quoting parse_int
    unsigned_value digits_value is_digit trim_space strip space_width space_width_back is_space
    is_space2 is_space3 index_of ends_in has_prefix eq_text evaluate_validations check_rule stops
    normalize_validation_severity evaluate_expression new_evaluator set_field get_field
evaluated = refl

halt-decision_example :
    (rs : List ValidationResult) × (evaluate_validations naturals letters no_float true context
        (paid (codes " fatal") ∷ paid [] ∷ [])
      ≡ some rs)
    × (should_fail_extraction letters policy rs
        ≡ should_fail_extraction letters policy
            (failed (codes "fatal") ∷ failed (codes "error") ∷ []))
unfolding apply_defaults
halt-decision_example =
    halt-decision naturals letters no_float policy context (paid (codes " fatal") ∷ paid [] ∷ [])
      (failed (codes "fatal") ∷ failed (codes "error") ∷ []) refl refl evaluated
