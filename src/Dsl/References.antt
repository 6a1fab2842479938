-- ===== src/Dsl/References.antt =====
-- internal/validation/dsl/references.go: the tables that an expression names, for the checks before a
-- run. The list that walkReferenceCalls appends to is passed on; nil stands for no list after an error.
-- strings.ToLower is on the ASCII letters, since the parser gives a function no other name.
pub mod Calls
pub mod Total
mod Tests
use sumpter.Base.{
  ℕ, ◌+◌, Bool, ◌&&◌, ◌||◌, Option, none, some, List, [], ◌∷◌, ◌++◌, map, leb, ◌>>=◌, if◌then◌else◌,
}
use sumpter.Dsl.{
  Text, Constant, bool_value, int_value, float_value, string_value, Expression, variable, constant,
  binary, unary, function, ternary, Arguments, no_more, argument,
}
use sumpter.Dsl.Text.{codes, eq_text}

unfoldable pub lower_byte : ℕ → ℕ
lower_byte c = if leb b'A' c && leb c b'Z' then c + 32 else c

-- strings.ToLower(fc.Name) is one of the two functions.
unfoldable pub is_reference : Text → Bool
is_reference name =
    eq_text (map lower_byte name) (codes "in_reference")
    || eq_text (map lower_byte name) (codes "lookup_reference")

-- The literal string that is the first of at least two arguments, if it is one.
unfoldable pub table_name : {F : Type 0} → Arguments F → Option Text
table_name no_more = none
table_name (argument e no_more) = none
table_name (argument (constant (string_value t)) (argument e rest)) = some t
table_name (argument (constant (bool_value b)) (argument e rest)) = none
table_name (argument (constant (int_value n)) (argument e rest)) = none
table_name (argument (constant (float_value x)) (argument e rest)) = none
table_name (argument (variable x) (argument e rest)) = none
table_name (argument (binary a op b) (argument e rest)) = none
table_name (argument (unary op a) (argument e rest)) = none
table_name (argument (function f args) (argument e rest)) = none
table_name (argument (ternary a b c) (argument e rest)) = none

-- The switch on the function's name.
unfoldable pub note_table : {F : Type 0} → Text → Arguments F → List Text → Option (List Text)
note_table name args names =
    if is_reference name
    then elim (table_name args) [ none ↦ none | some t ↦ some (names ++ t ∷ []) ]
    else some names

unfoldable mutual
  pub walk_reference_calls : {F : Type 0} → Expression F → List Text → Option (List Text)
  walk_reference_calls (variable x) names = some names
  walk_reference_calls (constant v) names = some names
  walk_reference_calls (binary a op b) names =
      walk_reference_calls a names >>= λ names'. walk_reference_calls b names'
  walk_reference_calls (unary op a) names = walk_reference_calls a names
  walk_reference_calls (ternary a b c) names = walk_reference_calls a names >>= λ names'.
      walk_reference_calls b names' >>= λ names''. walk_reference_calls c names''
  walk_reference_calls (function name args) names =
      note_table name args names >>= λ names'. walk_arguments args names'

  pub walk_arguments : {F : Type 0} → Arguments F → List Text → Option (List Text)
  walk_arguments no_more names = some names
  walk_arguments (argument e rest) names =
      walk_reference_calls e names >>= λ names'. walk_arguments rest names'

unfoldable pub reference_table_names : {F : Type 0} → Expression F → Option (List Text)
reference_table_names e = walk_reference_calls e []
