-- ===== src/Dsl/Parser/Blank.antt =====
-- ParseExpression on a string of white space.
use sumpter.Base.{◌≡◌, refl, false, Option, none, some, []}
use sumpter.Dsl.{Text, Expression, variable}
use sumpter.Dsl.Text.{eq_text, has_prefix, index_of, trim_space, strip, parse_int}
use sumpter.Dsl.Scan.{
  is_empty, quoted_string_ranges, scan_quotes, idx_valid_split_point, split_scan,
  has_enclosing_parens,
}
use sumpter.Dsl.Calls.{is_function_call}
use sumpter.Dsl.Parser.{
  is_quoted, try_parse_constant, try_parse_binary_op, try_parse_ternary, parse_operand,
  parse_trimmed, parse_with, parse, parse_expression,
}

module _ {F : Type 0} (parse_float : Text → Option F) (no_digits : parse_float [] ≡ none) where
  parse_operand-empty : parse_operand parse_float [] ≡ some (variable [])
  unfolding parse_operand try_parse_constant is_quoted eq_text parse_int trim_space strip
      quoted_string_ranges scan_quotes has_prefix
  parse_operand-empty = rw (no_digits) refl

  parse_trimmed-empty :
      (rec : Text → Option (Expression F)) → parse_trimmed parse_float rec [] ≡ some (variable [])
  unfolding parse_trimmed is_function_call index_of try_parse_ternary try_parse_binary_op
      idx_valid_split_point quoted_string_ranges scan_quotes split_scan has_prefix
      has_enclosing_parens
  parse_trimmed-empty rec = parse_operand-empty

  -- Where strconv.ParseFloat refuses the empty string: a string that is not empty and holds white space
  -- only is parsed, as the variable with the empty name.
  pub parse_expression-blank :
      (s : Text)
      → is_empty s ≡ false
      → trim_space s ≡ []
      → parse_expression parse_float s ≡ some (variable [])
  unfolding parse_expression parse parse_with
  parse_expression-blank s e t = rw (e, t) (parse_trimmed-empty _)
