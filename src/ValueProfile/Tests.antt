-- ===== src/ValueProfile/Tests.antt =====
-- Tests and instances for internal/valueprofile: one field with the ages of some people.
use sumpter.Base.{ℕ, ◌+◌, ◌≡◌, ◌≤◌, ◌⊎◌, refl, true, false, none, some, List, [], ◌∷◌}
use sumpter.Base.Int.{ℤ, pos, negsuc}
use sumpter.TextMap.{lookup, put}
use sumpter.Dsl.{Text}
use sumpter.Dsl.Text.{codes, eq_text}
use sumpter.Dsl.Value.{int, Fields, no_field, field, get_field}
use sumpter.Dsl.Value.Naturals.{naturals}
use sumpter.ValueProfile.{FieldConfig, Normalized, has_tag}
use sumpter.ValueProfile.Collector.{
  Formats, FieldState, new_field_state, new_field_states, stringify_value, is_empty_scalar,
  to_float, observe_shape, observe_numbers, observe_text, observe_distinct, observe_value, present,
  observe_field, observe_data_into,
}
use sumpter.ValueProfile.Collector.Merging.{
  merge_distinct, merge_values, merge_lengths, merge_numbers, merge_shape, merge_from, merge_all,
}
use sumpter.ValueProfile.Collector.Inputs.{
  Collector, new_collector, begin_input, commit_input, discard_input, observe_data,
}
use sumpter.ValueProfile.Collector.History.{
  Call, begin, observe, commit, discard, perform, perform_all, texts,
}
use sumpter.ValueProfile.Collector.Runs.{IsStateOf, run-IsStateOf, observe_then, discard-restores}
use sumpter.ValueProfile.Counts.{tally}
use sumpter.ValueProfile.Snapshot.{
  FieldResult, exactly, allows_tier_a, is_blocked, is_quasi, large_cells, suppress_small_cells,
  status_of, tier_a, result, results, snapshot,
}
use sumpter.ValueProfile.Snapshot.Guard.{snapshot-shown}

-- A number is printed as one digit.
abbrev digit : ℤ → Text
digit (pos n) = (n + 48) ∷ []
digit (negsuc n) = []

abbrev formats : Formats ℕ
formats = record {
  itoa = digit;
  format_integral = λ n. [];
  format_float = λ n. [];
  sprint = λ v. [];
  parse_float = λ s. none;
  is_uuid = λ s. false;
  is_email = λ s. false;
}

abbrev age : FieldConfig
age = record {
  field = codes "age";
  safe_to_profile = true;
  sensitivity = codes "public";
  protection_tags = codes "quasi_identifier" ∷ [];
}

abbrev cfg : Normalized
cfg = record { enabled = true; max_distinct = 9; small_cell_threshold = 2; fields = age ∷ [] }

abbrev aged : ℕ → Fields ℕ
aged n = field (codes "age") (int (pos n)) no_field

-- An input that is committed, and one that is discarded.
abbrev calls : List (Call ℕ)
calls =
    begin
    ∷ observe (aged 4)
    ∷ observe (aged 7)
    ∷ observe (aged 4)
    ∷ observe no_field
    ∷ commit
    ∷ begin
    ∷ observe (aged 9)
    ∷ discard
    ∷ []

abbrev ages : FieldState ℕ
ages = record {
  cfg = age;
  count = 4;
  null_count = 1;
  distinct = some ((codes "4", 2) ∷ (codes "7", 1) ∷ []);
  capped = false;
  len_min = 1;
  len_max = 1;
  len_sum = 3;
  len_n = 3;
  shape = record { uuid = false; email = false; free = true; empty = false; init = true };
  num_min = 4;
  num_max = 7;
  has_numeric = true;
  all_numeric = true;
  saw_non_empty = true;
}

-- The collector after the calls.
abbrev profiled : Collector ℕ
profiled = record { cfg = cfg; committed = (codes "age", ages) ∷ []; staged = none }

performed : perform_all naturals formats calls (new_collector naturals formats cfg) ≡ profiled
unfolding perform_all perform new_collector begin_input commit_input discard_input observe_data
    new_field_states new_field_state observe_data_into observe_field present stringify_value
    is_empty_scalar observe_value observe_text observe_numbers observe_shape to_float
    observe_distinct merge_all merge_from merge_values merge_distinct merge_lengths merge_numbers
    merge_shape get_field lookup put eq_text
performed = refl

abbrev after_calls : Collector ℕ
after_calls = perform_all naturals formats calls (new_collector naturals formats cfg)

committed_ages : lookup (codes "age") after_calls.committed ≡ some ages
unfolding eq_text lookup
committed_ages = rw performed refl

run-IsStateOf_example :
    IsStateOf naturals formats
      (lookup (codes "age") (new_field_states naturals (age ∷ []) []))
      9
      (codes "age")
      (no_field ∷ aged 4 ∷ aged 7 ∷ aged 4 ∷ [])
      ages
run-IsStateOf_example = run-IsStateOf naturals formats cfg calls (codes "age") ages committed_ages

-- The one value that two records have.
abbrev shown_ages : FieldResult ℕ
shown_ages = record {
  tier = codes "enumeration";
  status = codes "complete";
  count = 4;
  null_count = 1;
  distinct_count = exactly 2;
  distinct = some ((codes "4", 2) ∷ []);
  shape = [];
  length_stats = none;
  min = some 4;
  max = some 7;
}

snapped : lookup (codes "age") (snapshot naturals after_calls).fields ≡ some shown_ages
unfolding snapshot results result allows_tier_a is_blocked is_quasi has_tag tier_a status_of
    suppress_small_cells large_cells lookup eq_text
snapped = rw performed refl

snapshot-shown_example :
    (b : FieldState ℕ) × (lookup (codes "age") (new_field_states naturals (age ∷ []) []) ≡ some b)
    × (allows_tier_a b.cfg ≡ true)
    × (2
        ≡ tally
            (codes "4")
            (texts naturals formats (codes "age") (no_field ∷ aged 4 ∷ aged 7 ∷ aged 4 ∷ [])))
    × ((is_quasi b.cfg ≡ false) ⊎ (2 ≤ 2))
unfolding lookup eq_text
snapshot-shown_example =
    snapshot-shown naturals formats cfg calls (codes "age") shown_ages ((codes "4", 2) ∷ [])
      (codes "4") 2 snapped refl refl

discard-restores_example :
    perform_all naturals formats
      (begin ∷ observe_then naturals formats (aged 9 ∷ []) discard)
      profiled
    ≡ profiled
discard-restores_example = discard-restores naturals formats (aged 9 ∷ []) profiled refl
