-- ===== src/Dsl/Evaluator/Tests.antt =====
-- Tests and instances for the evaluation of expressions.
use mathlib.Core.List.{Memᴰ}
use mathlib.Core.Bool.{false≢true}
use sumpter.Base.{
  ℕ, ◌≡◌, refl, true, false, if◌then◌else◌, none, some, [], ◌∷◌, inl, inr, Bool-cases,
}
use sumpter.Base.Int.{pos}
use sumpter.Dsl.{
  Text, int_value, string_value, Expression, variable, constant, binary, function, no_more,
  argument,
}
use sumpter.Dsl.Text.{codes, eq_text}
use sumpter.Dsl.References.{
  lower_byte, is_reference, table_name, note_table, walk_reference_calls, walk_arguments,
  reference_table_names,
}
use sumpter.Dsl.Value.{Value, float64, string, Fields, no_field, field, get_field, arithmetic}
use sumpter.Dsl.Value.Naturals.{naturals}
use sumpter.Dsl.Functions.{ReferenceLookup}
use sumpter.Dsl.Evaluator.{Letters, Evaluator, apply_binary, evaluate_expression}
use sumpter.Dsl.Evaluator.Typing.{
  truth, text, HasKind, a_string, Context, IsTypedBy, Typed, reads, whole, applies, asks, calls,
  one_more, none_left, both, below, string_length,
}
use sumpter.Dsl.Evaluator.Sound.{evaluate_expression-typed}
use sumpter.Dsl.Evaluator.Tables.{AgreeOn, evaluate-tables}

abbrev letters : Letters
letters = record { to_lower = λ s. s; to_upper = λ s. s }

abbrev vars : Fields ℕ
vars = field (codes "code") (string (codes "EUR")) no_field

-- Whether the code stands in the table of currencies.
abbrev known : Expression ℕ
known = function (codes "In_Reference") (
    argument (constant (string_value (codes "currencies")))
      (argument (variable (codes "code")) no_more))

-- A lookup that knows only the table of currencies, and one that has all keys in all others.
abbrev few : ReferenceLookup
few = record {
  contains = λ t k. if eq_text t (codes "currencies") then some true else none;
  lookup = λ t k. none;
}

abbrev many : ReferenceLookup
many = record { contains = λ t k. some true; lookup = λ t k. none }

named : reference_table_names known ≡ some (codes "currencies" ∷ [])
unfolding reference_table_names walk_reference_calls walk_arguments note_table is_reference
    table_name lower_byte eq_text
named = refl

agree : (t : Text) → Memᴰ t (codes "currencies" ∷ []) → AgreeOn few many t
unfolding eq_text
agree t (Memᴰ.head e) = rw e ((λ key. refl), (λ key. refl))
agree t (Memᴰ.tail m) = elim m [ ]

evaluate-tables_example :
    evaluate_expression naturals letters (record { variables = vars; references = some few }) known
    ≡ evaluate_expression naturals letters
        (record { variables = vars; references = some many })
        known
evaluate-tables_example =
    evaluate-tables naturals letters vars few many known (codes "currencies" ∷ []) named agree

-- 2 + 3 * 4, as parsed.
evaluate-sum :
    evaluate_expression naturals letters
      (record { variables = vars; references = none })
      (binary
        (constant (int_value (pos 2)))
        (codes "+")
        (binary (constant (int_value (pos 3))) (codes "*") (constant (int_value (pos 4)))))
    ≡ some (float64 14)
unfolding evaluate_expression apply_binary arithmetic eq_text
evaluate-sum = refl

-- The code is known, and has more than two runes.
abbrev long_known : Expression ℕ
long_known = binary known (codes "&&") (
    binary (constant (int_value (pos 2))) (codes "<")
      (function (codes "String_Length") (argument (variable (codes "code")) no_more)))

abbrev context : Context
context = record {
  variables = λ x. if eq_text (codes "code") x then some text else none;
  memberships = λ t. eq_text t (codes "currencies");
  lookups = λ t. false;
}

abbrev evaluator : Evaluator ℕ
evaluator = record { variables = vars; references = some few }

context-IsTypedBy : IsTypedBy context evaluator
unfolding get_field
context-IsTypedBy = record {
  variable_kinds = λ x k h. elim (Bool-cases (eq_text (codes "code") x)) [
    | inl e ↦
        let q : text ≡ k = cc (rw e at h) in rw e (string (codes "EUR"), refl, rw (← q) a_string)
    | inr e ↦ absurd (cc (rw e at h))
  ];
  answers_contains = λ t h. (few, refl, λ key. rw h (true, refl));
  answers_lookup = λ t h. absurd (false≢true h);
}

long_known-Typed : Typed context long_known truth
unfolding lower_byte eq_text
long_known-Typed =
    applies both (asks refl refl (reads refl))
      (applies below whole (calls string_length (one_more (reads refl) none_left)))

evaluate_expression-typed_example :
    (v : Value ℕ) × (evaluate_expression naturals letters evaluator long_known ≡ some v)
    × HasKind v truth
evaluate_expression-typed_example =
    evaluate_expression-typed naturals letters evaluator context long_known truth context-IsTypedBy
      long_known-Typed
