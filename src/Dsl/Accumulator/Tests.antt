-- ===== src/Dsl/Accumulator/Tests.antt =====
-- Tests and instances for the accumulators.
use sumpter.Base.{ℕ, ◌≡◌, refl, true, false, Option, none, some, List, [], ◌∷◌, arith, ◌>>=◌, ltb}
use sumpter.Base.Int.{pos}
use sumpter.TextMap.{TextMap, put}
use sumpter.Dsl.{Text}
use sumpter.Dsl.Text.{codes, eq_text}
use sumpter.Dsl.Value.{
  int, float64, Fields, no_field, field, get_field, split_path, walk_path, get_nested_field,
}
use sumpter.Dsl.Value.Naturals.{naturals}
use sumpter.Dsl.Evaluator.{Letters}
use sumpter.Dsl.Accumulator.{
  AccumulationConfig, Accumulator, accumulator_of, new_accumulator, is_counting, is_numeric,
  add_value, field_number, apply_operation, matches, update, update_all, update_records, get_result,
  reset, initialize_accumulators, get_all_results,
}
use sumpter.Dsl.Accumulator.Summary.{run}
use sumpter.Dsl.Accumulator.Document.{summaries, document-summaries}

abbrev letters : Letters
letters = record { to_lower = λ s. s; to_upper = λ s. s }

abbrev no_float : Text → Option ℕ
no_float s = none

abbrev average : AccumulationConfig
average = record {
  name = codes "mean";
  operation = codes "avg";
  field = codes "amount";
  filter = [];
}

abbrev number : AccumulationConfig
number = record average { name = codes "n"; operation = codes "count" }

abbrev amount : ℕ → Fields ℕ
amount n = field (codes "amount") (float64 n) no_field

-- The second record has no amount.
abbrev items : List (Fields ℕ)
items = amount 4 ∷ no_field ∷ amount 10 ∷ []

abbrev mean_of : Accumulator ℕ
unfolding accumulator_of
mean_of = accumulator_of naturals average none none

abbrev count_of : Accumulator ℕ
unfolding accumulator_of
count_of = accumulator_of naturals number none none

abbrev accumulators : TextMap (Accumulator ℕ)
accumulators = (codes "mean", mean_of) ∷ (codes "n", count_of) ∷ []

initialized :
    initialize_accumulators naturals no_float (average ∷ number ∷ []) [] ≡ some accumulators
unfolding initialize_accumulators new_accumulator accumulator_of put eq_text mean_of count_of
initialized = refl

results :
    (update_records naturals letters accumulators items >>= λ m. get_all_results naturals m)
    ≡ some ((codes "mean", float64 7) ∷ (codes "n", int (pos 3)) ∷ [])
unfolding update_records update_all update matches apply_operation is_counting is_numeric
    field_number get_nested_field split_path walk_path get_field add_value get_all_results
    get_result accumulator_of eq_text mean_of count_of
results = refl

document-summaries_example :
    (update_records naturals letters accumulators items >>= λ m. get_all_results naturals m)
    ≡ summaries naturals letters accumulators items
document-summaries_example =
    document-summaries naturals letters no_float (average ∷ number ∷ []) accumulators items
      initialized

abbrev after : Accumulator ℕ
unfolding mean_of
after = record mean_of { count = 2; sum = 14; min = 4; max = 10; values = 4 ∷ 10 ∷ [] }

ran : run naturals letters (reset naturals mean_of) items ≡ some after
unfolding run reset update matches apply_operation is_counting is_numeric field_number
    get_nested_field split_path walk_path get_field add_value accumulator_of eq_text mean_of after
ran = refl

ltb_irreflexive : (x : ℕ) → ltb x x ≡ false
ltb_irreflexive x = ground arith

ltb_transitive : (x y z : ℕ) → ltb x y ≡ true → ltb y z ≡ true → ltb x z ≡ true
ltb_transitive x y z p q = ground (arith, p, q)
