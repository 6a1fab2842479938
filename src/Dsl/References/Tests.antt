-- ===== src/Dsl/References/Tests.antt =====
-- Tests and instances for internal/validation/dsl/references.go.
use mathlib.Core.List.{Memᴰ}
use sumpter.Base.{◌≡◌, refl, inl, true, none, some, [], ◌∷◌}
use sumpter.Dsl.{
  Text, string_value, Expression, Arguments, unary, variable, constant, function, no_more, argument,
}
use sumpter.Dsl.Text.{codes, eq_text}
use sumpter.Dsl.References.{
  lower_byte, is_reference, table_name, note_table, walk_reference_calls, reference_table_names,
}
use sumpter.Dsl.References.Calls.{HasCall, reference_table_names-named}

-- A lookup in a table, under a negation.
abbrev lookup_args : Arguments ⊥
lookup_args =
    argument (constant (string_value (codes "codes"))) (argument (variable (codes "kind")) no_more)

abbrev unknown : Expression ⊥
unknown = unary (codes "!") (function (codes "IN_REFERENCE") lookup_args)

unknown_tables : reference_table_names unknown ≡ some (codes "codes" ∷ [])
unfolding reference_table_names walk_reference_calls note_table table_name is_reference lower_byte
    eq_text
unknown_tables = refl

from_record :
    reference_table_names {F = ⊥} (
      function
        (codes "in_reference")
        (argument (variable (codes "kind")) (argument (variable (codes "kind")) no_more)))
    ≡ none
unfolding reference_table_names walk_reference_calls note_table table_name is_reference lower_byte
    eq_text
from_record = refl

unknown-HasCall : HasCall unknown (codes "IN_REFERENCE") lookup_args
unfolding HasCall
unknown-HasCall = inl (refl, refl)

unknown_reference : is_reference (codes "IN_REFERENCE") ≡ true
unfolding is_reference lower_byte eq_text
unknown_reference = refl

reference_table_names-named_example :
    (t : Text) × (table_name lookup_args ≡ some t) × Memᴰ t (codes "codes" ∷ [])
reference_table_names-named_example =
    reference_table_names-named unknown (codes "codes" ∷ []) (codes "IN_REFERENCE") lookup_args
      unknown_tables unknown-HasCall unknown_reference
