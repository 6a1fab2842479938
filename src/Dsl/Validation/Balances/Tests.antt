-- ===== src/Dsl/Validation/Balances/Tests.antt =====
-- Tests and instances for the aggregations and the reconciliations of a document.
use sumpter.Base.{ℕ, ◌≡◌, refl, true, Option, none, some, [], ◌∷◌}
use sumpter.Base.Members.{All}
use sumpter.Dsl.{Text}
use sumpter.Dsl.Text.{
  codes, eq_text, has_prefix, ends_in, index_of, is_space, is_space2, is_space3, space_width,
  space_width_back, strip, trim_space, is_digit, digits_value, unsigned_value, parse_int,
}
use sumpter.Dsl.Scan.{
  next_quoting, closed_range, scan_quotes, quoted_string_ranges, in_string_range, split_round,
  split_scan, idx_valid_split_point, colon_round, colon_scan, find_ternary_colon, enclosing_round,
  enclosing_scan, has_enclosing_parens,
}
use sumpter.Dsl.Calls.{
  is_name, call_round, call_scan, is_function_call, args_round, args_scan,
  split_args_outside_strings,
}
use sumpter.Dsl.Parser.{
  inner, is_quoted, try_parse_constant, parse_operands, try_parse_binary_op, parse_ternary,
  try_parse_ternary, parse_arguments, parse_function, parse_unary, parse_grouped, parse_operand,
  parse_trimmed, parse_with, parse, parse_expression,
}
use sumpter.Dsl.Value.{Value, float64, string, Fields, no_field, field, get_field, set_field}
use sumpter.Dsl.Value.Naturals.{naturals}
use sumpter.Dsl.Evaluator.{Letters, new_evaluator, evaluate_expression}
use sumpter.Dsl.Validation.{set_all, set_results, build_variable_context}
use sumpter.Dsl.Validation.Balances.{
  AggregationConfig, ReconciliationConfig, Reconciled, apply_aggregation_defaults, is_close,
  evaluate_text, evaluate_number, compute_aggregation, compute_aggregations, evaluate_components,
  reconcile, reconciliation_tolerance, reconciliation_status, note_reconciliation,
  evaluate_reconciliations,
}
use sumpter.Dsl.Validation.Balances.Compared.{IsCompared, compute_aggregations-IsCompared}
use sumpter.Dsl.Validation.Balances.Totals.{AreBalances, evaluate_reconciliations-AreBalances}

abbrev letters : Letters
letters = record { to_lower = λ s. s; to_upper = λ s. s }

abbrev no_float : Text → Option ℕ
no_float s = none

-- A document with the total of 5, and a fee of 2 in it
abbrev doc : Fields ℕ
doc = field (codes "total") (float64 5) (field (codes "fee") (float64 2) no_field)

abbrev copied : AggregationConfig ℕ
copied = record {
  name = codes "sum";
  expression = codes "total";
  compare_to = codes "total";
  tolerance = 0;
  tolerance_set = true;
}

abbrev explained : ReconciliationConfig ℕ
explained = record {
  name = codes "t";
  base_expression = codes "total";
  tolerance = 0;
  severity = [];
  allow_unexplained = true;
  components = (record { name = codes "fee"; description = []; expression = codes "fee" }) ∷ [];
}

aggregated :
    compute_aggregations naturals letters no_float [] doc (copied ∷ []) no_field
    ≡ some (field (codes "sum") (float64 5) no_field)
unfolding parse_expression parse parse_with parse_trimmed parse_operand parse_grouped parse_unary
    parse_function parse_arguments try_parse_ternary parse_ternary try_parse_binary_op
    parse_operands try_parse_constant is_quoted inner split_args_outside_strings args_scan
    args_round is_function_call call_scan call_round is_name has_enclosing_parens enclosing_scan
    enclosing_round find_ternary_colon colon_scan colon_round idx_valid_split_point split_scan
    split_round in_string_range quoted_string_ranges scan_quotes closed_range next_quoting parse_int
    unsigned_value digits_value is_digit trim_space strip space_width space_width_back is_space
    is_space2 is_space3 index_of ends_in has_prefix eq_text evaluate_text evaluate_number
    evaluate_expression new_evaluator set_field get_field compute_aggregations compute_aggregation
    apply_aggregation_defaults is_close set_all set_results
aggregated = refl

compute_aggregations-IsCompared_example :
    All
      (λ c.
        (v : Value ℕ) × (get_field c.name (field (codes "sum") (float64 5) no_field) ≡ some v)
        × IsCompared naturals doc c v)
      (copied ∷ [])
compute_aggregations-IsCompared_example =
    compute_aggregations-IsCompared naturals letters no_float [] doc (copied ∷ [])
      (field (codes "sum") (float64 5) no_field) aggregated (tt, tt)

-- What is left of the total is not explained.
abbrev balanced : Reconciled ℕ
balanced = record {
  results =
      (record {
        name = codes "t";
        base_value = 5;
        components = (record { name = codes "fee"; description = []; value = 2 }) ∷ [];
        components_total = 2;
        residual = 3;
        tolerance = 0;
        status = codes "unexplained";
        allow_unexplained = true;
        severity = codes "warning";
      })
      ∷ [];
  scalars = field (codes "t_base") (float64 5) (
      field (codes "t_components_total") (float64 2) (
        field (codes "t_residual") (float64 3)
          (field (codes "t_status") (string (codes "unexplained")) no_field)));
}

reconciled :
    evaluate_reconciliations naturals letters no_float [] no_field doc
      (explained ∷ [])
      (record { results = []; scalars = no_field })
    ≡ some balanced
unfolding parse_expression parse parse_with parse_trimmed parse_operand parse_grouped parse_unary
    parse_function parse_arguments try_parse_ternary parse_ternary try_parse_binary_op
    parse_operands try_parse_constant is_quoted inner split_args_outside_strings args_scan
    args_round is_function_call call_scan call_round is_name has_enclosing_parens enclosing_scan
    enclosing_round find_ternary_colon colon_scan colon_round idx_valid_split_point split_scan
    split_round in_string_range quoted_string_ranges scan_quotes closed_range next_quoting parse_int
    unsigned_value digits_value is_digit trim_space strip space_width space_width_back is_space
    is_space2 is_space3 index_of ends_in has_prefix eq_text evaluate_text evaluate_number
    evaluate_expression new_evaluator set_field get_field evaluate_reconciliations
    build_variable_context set_all set_results reconcile evaluate_components
    reconciliation_tolerance reconciliation_status note_reconciliation
reconciled = refl

evaluate_reconciliations-AreBalances_example :
    AreBalances naturals letters no_float [] no_field doc no_field (explained ∷ []) balanced.results
evaluate_reconciliations-AreBalances_example =
    evaluate_reconciliations-AreBalances naturals letters no_float [] no_field doc (explained ∷ [])
      balanced reconciled
