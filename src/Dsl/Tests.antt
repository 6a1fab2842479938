-- ===== src/Dsl/Tests.antt =====
-- Tests and instances for internal/validation/dsl, where no text is a float.
use sumpter.Base.{
  Bool, true, ℕ, ◌<◌, ◌≡◌, refl, arith, false, Option, none, some, [], ◌∷◌, length, ltb,
  if◌then◌else◌,
}
use sumpter.Base.Int.{pos, negsuc}
use sumpter.Dsl.{
  Text, int_value, string_value, Expression, variable, constant, binary, function, ternary, no_more,
  argument,
}
use sumpter.Dsl.Text.{
  codes, eq_text, has_prefix, ends_in, index_of, is_space, is_space2, is_space3, space_width,
  space_width_back, strip, trim_space, is_digit, digits_value, unsigned_value, parse_int,
}
use sumpter.Dsl.Scan.{
  next_quoting, closed_range, scan_quotes, quoted_string_ranges, in_string_range, split_round,
  split_scan, leftmost_first, idx_valid_split_point, colon_round, colon_scan, find_ternary_colon,
  enclosing_round, enclosing_scan, has_enclosing_parens,
}
use sumpter.Dsl.Calls.{
  is_name, call_round, call_scan, is_function_call, args_round, args_scan,
  split_args_outside_strings,
}
use sumpter.Dsl.Parser.{
  inner, is_quoted, try_parse_constant, parse_operands, try_parse_binary_op, parse_ternary,
  try_parse_ternary, parse_arguments, parse_function, parse_unary, parse_grouped, parse_operand,
  parse_trimmed, parse_with, parse, parse_expression, parse_value,
}
use sumpter.Dsl.Parser.Fuel.{parse_expression_unique, parse_expression_solves}
use sumpter.Dsl.Scan.Leftmost.{IsFirst, idx_valid_split_point-IsFirst}
use sumpter.Dsl.Advanced.{
  contains_outside_strings, contains_scan, contains_some, is_advanced_filter, Tells,
  contains_outside_strings-Tells,
}
use sumpter.Dsl.Filter.Parsed.{IsParsed, parse_filter-IsParsed}
use sumpter.Dsl.Filter.{FilterExpression, filter_of, filter_by, parse_filter}

abbrev no_float : Text → Option ⊥
no_float s = none

trims : trim_space (codes " \t a b\n ") ≡ codes "a b"
unfolding trim_space strip space_width space_width_back is_space is_space2 is_space3
trims = refl

-- Each lists what ParseExpression calls.
abbrev parsed : Text → Option (Expression ⊥)
unfolding parse_expression parse parse_with parse_trimmed parse_operand parse_grouped parse_unary
    parse_function parse_arguments try_parse_ternary parse_ternary try_parse_binary_op
    parse_operands try_parse_constant is_quoted inner split_args_outside_strings args_scan
    args_round is_function_call call_scan call_round is_name has_enclosing_parens enclosing_scan
    enclosing_round find_ternary_colon colon_scan colon_round idx_valid_split_point split_scan
    split_round in_string_range quoted_string_ranges scan_quotes closed_range next_quoting parse_int
    unsigned_value digits_value is_digit trim_space strip space_width space_width_back is_space
    is_space2 is_space3 index_of ends_in has_prefix eq_text
parsed s = parse_expression no_float s

sum :
    parsed (codes "a + 2")
    ≡ some (binary (variable (codes "a")) (codes "+") (constant (int_value (pos 2))))
unfolding parsed
sum = refl

left_associative :
    parsed (codes "8 - 4 - 2")
    ≡ some (
        binary
          (binary (constant (int_value (pos 8))) (codes "-") (constant (int_value (pos 4))))
          (codes "-")
          (constant (int_value (pos 2))))
unfolding parsed
left_associative = refl

quoted_operator :
    parsed (codes "name == 'a + b'")
    ≡ some (binary (variable (codes "name")) (codes "==") (constant (string_value (codes "a + b"))))
unfolding parsed
quoted_operator = refl

nested_ternary :
    parsed (codes "a ? b ? 1 : 2 : 3")
    ≡ some (
        ternary
          (variable (codes "a"))
          (ternary
            (variable (codes "b"))
            (constant (int_value (pos 1)))
            (constant (int_value (pos 2))))
          (constant (int_value (pos 3))))
unfolding parsed
nested_ternary = refl

call :
    parsed (codes "sum(x, -1)")
    ≡ some (
        function
          (codes "sum")
          (argument (variable (codes "x")) (argument (constant (int_value (negsuc 0))) no_more)))
unfolding parsed
call = refl

no_colon : parsed (codes "a ? b") ≡ none
unfolding parsed
no_colon = refl

unterminated : parsed (codes "a == 'b") ≡ none
unfolding parsed
unterminated = refl

-- The second minus is taken for a binary operator, and the text before it for a variable's name.
minus_negative :
    parsed (codes "a - -1")
    ≡ some (binary (variable (codes "a -")) (codes "-") (constant (int_value (pos 1))))
unfolding parsed
minus_negative = refl

times_negative :
    parsed (codes "2 * -3")
    ≡ some (binary (variable (codes "2 *")) (codes "-") (constant (int_value (pos 3))))
unfolding parsed
times_negative = refl

quotient_last :
    parsed (codes "a * b / c")
    ≡ some (
        binary
          (variable (codes "a"))
          (codes "*")
          (binary (variable (codes "b")) (codes "/") (variable (codes "c"))))
unfolding parsed
quotient_last = refl

-- Where the condition ends, after a question mark in a string.
abbrev conditional : Text
conditional = codes "a == '?' ? 1 : 2"

conditional_ranges :
    quoted_string_ranges conditional ≡ some ((record { start = 5; past_end = 8 }) ∷ [])
unfolding quoted_string_ranges scan_quotes closed_range next_quoting
conditional_ranges = refl

conditional_split : idx_valid_split_point conditional (codes "?") leftmost_first ≡ some (some 9)
unfolding idx_valid_split_point split_scan split_round in_string_range quoted_string_ranges
    scan_quotes closed_range next_quoting has_prefix
conditional_split = refl

idx_valid_split_point-IsFirst_example :
    (r : Option ℕ) × (idx_valid_split_point conditional (b'?' ∷ []) leftmost_first ≡ some r)
    × IsFirst ((record { start = 5; past_end = 8 }) ∷ []) (b'?' ∷ []) 0 (pos 0) conditional r
idx_valid_split_point-IsFirst_example =
    idx_valid_split_point-IsFirst conditional b'?' [] ((record { start = 5; past_end = 8 }) ∷ [])
      (λ e. omega arith) (λ e. omega arith) conditional_ranges

-- ParseExpression on fewer than 5 bytes, and an error on more
abbrev on_short : Text → Option (Expression ⊥)
on_short t = if ltb (length t) 5 then parse_expression no_float t else none

on_short-parse_expression :
    (t : Text) → length t < length (codes "a + 2") → on_short t ≡ parse_expression no_float t
on_short-parse_expression t h = ground (arith, h)

parse_expression_unique_example :
    (parse_with no_float on_short (codes "a + 2") ≡ parse_expression no_float (codes "a + 2"))
    × (parse_expression no_float (codes "a + 2") ≡ parse_expression no_float (codes "a + 2"))
parse_expression_unique_example =
    parse_expression_unique no_float (parse_expression no_float) on_short (codes "a + 2")
      on_short-parse_expression (parse_expression_solves no_float)

blank_trims : trim_space (codes "  ") ≡ []
unfolding trim_space strip space_width space_width_back is_space is_space2 is_space3
blank_trims = refl

abbrev filter_str : Text
filter_str = codes " kind != 'a == b' "

abbrev kind_filter : FilterExpression ⊥
kind_filter = record {
  field = codes "kind";
  operator = codes "!=";
  value = some (string_value (codes "a == b"));
  is_null = false;
}

parsed_filter : parse_filter no_float filter_str ≡ some (some kind_filter)
unfolding parse_filter filter_by filter_of parse_value try_parse_constant is_quoted inner
    idx_valid_split_point split_scan split_round in_string_range quoted_string_ranges scan_quotes
    closed_range next_quoting parse_int unsigned_value digits_value is_digit trim_space strip
    space_width space_width_back is_space is_space2 is_space3 ends_in has_prefix eq_text
parsed_filter = refl

parse_filter-IsParsed_example : IsParsed no_float filter_str (some (some kind_filter))
unfolding parse_filter filter_by filter_of parse_value try_parse_constant is_quoted inner
    idx_valid_split_point split_scan split_round in_string_range quoted_string_ranges scan_quotes
    closed_range next_quoting parse_int unsigned_value digits_value is_digit trim_space strip
    space_width space_width_back is_space is_space2 is_space3 ends_in has_prefix eq_text
parse_filter-IsParsed_example = parse_filter-IsParsed no_float filter_str

advanced : is_advanced_filter (codes "a == 'x' && b") ≡ some true
unfolding is_advanced_filter contains_some contains_outside_strings contains_scan in_string_range
    quoted_string_ranges scan_quotes closed_range next_quoting has_prefix
advanced = refl

contains_outside_strings-Tells_example :
    (b : Bool) × (contains_outside_strings conditional (b'?' ∷ []) ≡ some b)
    × Tells ((record { start = 5; past_end = 8 }) ∷ []) (b'?' ∷ []) 0 conditional b
contains_outside_strings-Tells_example =
    contains_outside_strings-Tells conditional b'?' [] ((record { start = 5; past_end = 8 }) ∷ [])
      conditional_ranges
