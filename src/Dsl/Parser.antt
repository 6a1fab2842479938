-- ===== src/Dsl/Parser.antt =====
-- internal/validation/dsl/parser.go: the parsers of expressions and of filters. `parse_with` is the body
-- of ParseExpression, and `rec` its calls of itself; `parse` ties them on fuel, and ParseExpression has
-- the string's length as fuel. `parse_float` is strconv.ParseFloat(s, 64), none for an error.
pub mod Shorter
pub mod Fuel
pub mod Blank
use sumpter.Base.{
  ℕ, zero, suc, ◌+◌, ◌-◌, Bool, true, false, not, ◌&&◌, ◌||◌, Option, none, some, List, [], ◌∷◌,
  take, drop, length, leb, ◌>>=◌, ◌==◌, if◌then◌else◌,
}
use sumpter.Dsl.{
  Text, Constant, bool_value, int_value, float_value, string_value, Expression, variable, constant,
  binary, unary, function, ternary, Arguments, no_more, argument,
}
use sumpter.Dsl.Text.{codes, eq_text, has_prefix, ends_in, index_of, trim_space, parse_int}
use sumpter.Dsl.Scan.{
  is_empty, quoted_string_ranges, leftmost_first, rightmost_first, idx_valid_split_point,
  find_ternary_colon, has_enclosing_parens,
}
use sumpter.Dsl.Calls.{is_function_call, split_args_outside_strings}

-- `(expr, ok, err)`: no such operator, an error, or an expression.
pub data Attempt (A : Type 0) : Type 0 where
  absent failed : Attempt A
  found : A → Attempt A

abbrev pub of_option : {A : Type 0} → Option A → Attempt A
of_option none = failed
of_option (some a) = found a

abbrev pub or_next : {A : Type 0} → Attempt A → Option A → Option A
or_next absent rest = rest
or_next failed rest = none
or_next (found a) rest = some a

-- s[1 : len(s)-1]
unfoldable pub inner : Text → Text
inner s = take (length s - 2) (drop 1 s)

unfoldable pub is_quoted : Text → Bool
is_quoted s =
    leb 2 (length s)
    && (has_prefix s (b'"' ∷ []) && ends_in s b'"' || has_prefix s (b'\'' ∷ []) && ends_in s b'\'')

module _ {F : Type 0} (parse_float : Text → Option F) where
  unfoldable pub try_parse_constant : Text → Option (Constant F)
  try_parse_constant value_str =
      let s = trim_space value_str in
      if eq_text s (codes "true")
      then some (bool_value true)
      else if eq_text s (codes "false")
      then some (bool_value false)
      else elim (parse_int s) [
        | some n ↦ some (int_value n)
        | none ↦ elim (parse_float s) [
          | some x ↦ some (float_value x)
          | none ↦ if is_quoted s then some (string_value (inner s)) else none
        ]
      ]

  -- parseValue: what is no other constant is a string.
  unfoldable pub parse_value : Text → Constant F
  parse_value value_str = elim (try_parse_constant value_str) [
    | some v ↦ v
    | none ↦ string_value (trim_space value_str)
  ]

abbrev pub logical : List Text
logical = codes "||" ∷ codes "&&" ∷ []

abbrev pub comparisons : List Text
comparisons = codes "==" ∷ codes "!=" ∷ codes ">=" ∷ codes "<=" ∷ codes ">" ∷ codes "<" ∷ []

abbrev pub sums : List Text
sums = codes "+" ∷ codes "-" ∷ []

abbrev pub products : List Text
products = codes "*" ∷ codes "/" ∷ []

module _ {F : Type 0} (rec : Text → Option (Expression F)) where
  -- The calls for the two operands.
  unfoldable pub parse_operands : Text → Text → Text → Option (Expression F)
  parse_operands op left_str right_str =
      if is_empty left_str || is_empty right_str
      then none
      else do left ← rec left_str; right ← rec right_str; some (binary left op right)

  unfoldable pub try_parse_binary_op : Text → List Text → Attempt (Expression F)
  try_parse_binary_op s [] = absent
  try_parse_binary_op s (op ∷ operators) = elim (idx_valid_split_point s op rightmost_first) [
    | none ↦ failed
    | some none ↦ try_parse_binary_op s operators
    | some (some i) ↦
        elim (parse_operands op (trim_space (take i s)) (trim_space (drop (i + length op) s))) [
          | some e ↦ found e
          | none ↦ try_parse_binary_op s operators
        ]
  ]

  unfoldable pub parse_ternary : Text → Text → Text → Option (Expression F)
  parse_ternary cond_str then_str else_str =
      if is_empty cond_str || is_empty then_str || is_empty else_str then none else do
        cond_ ← rec cond_str
        then_ ← rec then_str
        else_ ← rec else_str
        some (ternary cond_ then_ else_)

  unfoldable pub try_parse_ternary : Text → Attempt (Expression F)
  try_parse_ternary s = elim (idx_valid_split_point s (codes "?") leftmost_first) [
    | none ↦ failed
    | some none ↦ absent
    | some (some q) ↦ elim (find_ternary_colon s q) [
      | none ↦ failed
      | some none ↦ failed
      | some (some c) ↦ of_option (
          parse_ternary (trim_space (take q s)) (trim_space (take (c - (q + 1)) (drop (q + 1) s)))
            (trim_space (drop (c + 1) s)))
    ]
  ]

  unfoldable pub parse_arguments : List Text → Option (Arguments F)
  parse_arguments [] = some no_more
  parse_arguments (a ∷ rest) = do
    first ← rec (trim_space a)
    later ← parse_arguments rest
    some (argument first later)

  unfoldable pub parse_function : Text → Option (Expression F)
  parse_function s = do
    opening ← index_of b'(' s
    let name = trim_space (take opening s) in
        let args_str = trim_space (take (length s - 1 - (opening + 1)) (drop (opening + 1) s)) in
        if is_empty args_str then some (function name no_more) else do
          arg_strs ← split_args_outside_strings args_str
          args ← parse_arguments arg_strs
          some (function name args)

  unfoldable pub parse_unary : Text → Option (Expression F)
  parse_unary s = do operand ← rec (trim_space (drop 1 s)); some (unary (codes "!") operand)

  unfoldable pub parse_grouped : Text → Option (Expression F)
  parse_grouped s = let t = trim_space (inner s) in if is_empty t then none else rec t

module _ {F : Type 0} (parse_float : Text → Option F) where
  -- A constant, or else a variable.
  unfoldable pub parse_operand : Text → Option (Expression F)
  parse_operand s = elim (try_parse_constant parse_float s) [
    | some v ↦ some (constant v)
    | none ↦ elim (quoted_string_ranges s) [ none ↦ none | some _ ↦ some (variable s) ]
  ]

  unfoldable pub parse_trimmed : (Text → Option (Expression F)) → Text → Option (Expression F)
  parse_trimmed rec s =
      if is_function_call s
      then parse_function rec s
      else or_next (try_parse_ternary rec s) (
          or_next (try_parse_binary_op rec s logical) (
            or_next (try_parse_binary_op rec s comparisons) (
              or_next (try_parse_binary_op rec s sums) (
                or_next (try_parse_binary_op rec s products) (
                  if has_prefix s (codes "!")
                  then parse_unary rec s
                  else if has_enclosing_parens s
                  then parse_grouped rec s
                  else parse_operand s)))))

  unfoldable pub parse_with : (Text → Option (Expression F)) → Text → Option (Expression F)
  parse_with rec s = if is_empty s then none else parse_trimmed rec (trim_space s)

  unfoldable pub parse : ℕ → Text → Option (Expression F)
  parse zero s = none
  parse (suc fuel) s = parse_with (parse fuel) s

  unfoldable pub parse_expression : Text → Option (Expression F)
  parse_expression s = parse (suc (length s)) s
