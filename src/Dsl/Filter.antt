-- ===== src/Dsl/Filter.antt =====
-- internal/validation/dsl/parser.go: ParseFilter. The nil filter of an empty string is `some none`.
pub mod Parsed
use sumpter.Base.{
  ℕ, ◌+◌, ◌≡◌, ◌≢◌, sym, ap, Bool, true, false, ◌||◌, Option, none, some, List, [], ◌∷◌, ◌++◌, take,
  drop, length, arith, if◌then◌else◌, Bool-cases, Option-cases, inl, inr, ◌⊎◌, refl,
}
use sumpter.Base.Members.{All}
use sumpter.Dsl.{Text, Constant}
use sumpter.Dsl.Text.{codes, eq_text, trim_space}
use sumpter.Dsl.Scan.{
  is_empty, StringRange, quoted_string_ranges, leftmost_first, idx_valid_split_point,
}
use sumpter.Dsl.Scan.Leftmost.{IsFirst, idx_valid_split_point-IsFirst}
use sumpter.Base.Int.{pos}
use sumpter.Dsl.Parser.{comparisons, parse_value}

pub record FilterExpression (F : Type 0) : Type 0 where
  pub field : Text
  pub operator : Text
  pub value : Option (Constant F)
  pub is_null : Bool

module _ {F : Type 0} (parse_float : Text → Option F) where
  -- What stands before and after the operator.
  unfoldable pub filter_of : Text → Text → Text → Option (FilterExpression F)
  filter_of field op value_str =
      if is_empty field || is_empty value_str
      then none
      else if eq_text value_str (codes "null")
      then some (record { field = field; operator = op; value = none; is_null = true })
      else some (record {
        field = field;
        operator = op;
        value = some (parse_value parse_float value_str);
        is_null = false;
      })

  -- The loop over the operators.
  unfoldable pub filter_by : Text → List Text → Option (FilterExpression F)
  filter_by s [] = none
  filter_by s (op ∷ operators) = elim (idx_valid_split_point s op leftmost_first) [
    | none ↦ none
    | some none ↦ filter_by s operators
    | some (some i) ↦ filter_of (trim_space (take i s)) op (trim_space (drop (i + length op) s))
  ]

  unfoldable pub parse_filter : Text → Option (Option (FilterExpression F))
  parse_filter filter_str =
      let s = trim_space filter_str in
      if is_empty filter_str then some none else elim (quoted_string_ranges s) [
        | none ↦ none
        | some _ ↦ elim (filter_by s comparisons) [ none ↦ none | some f ↦ some (some f) ]
      ]
