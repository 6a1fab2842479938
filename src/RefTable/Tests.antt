-- ===== src/RefTable/Tests.antt =====
-- Tests and instances for internal/reftable: two small csv tables in one registry.
use sumpter.Base.{ℕ, ◌≡◌, refl, true, none, some, List, [], ◌∷◌, map, arith}
use sumpter.Base.Int.{pos}
use sumpter.Base.Members.{here, there}
use sumpter.Dsl.{Text, string_value, Expression, variable, constant, function, no_more, argument}
use sumpter.Dsl.Text.{
  codes, eq_text, trim_space, strip, space_width, space_width_back, is_space, is_space2, is_space3,
}
use sumpter.Dsl.Value.{boolean, string, Fields, no_field, field, get_field}
use sumpter.Dsl.Value.Naturals.{naturals}
use sumpter.Dsl.Functions.{default_value, found_or}
use sumpter.Dsl.Evaluator.{Letters, evaluate_expression}
use sumpter.Dsl.Evaluator.Registry.{registry_lookup, evaluate-load, evaluate-load_lookups}
use sumpter.TextMap.{lookup, put}
use sumpter.RefTable.{
  Table, Tables, mode_membership, mode_lookup, register, new_registry, contains_key,
}
use sumpter.RefTable.Load.{
  Spec, loaded, row, line, spec_mode, known_format, columns_ok, is_valid, column_index,
  resolve_columns, cell, count_physical_row, add_membership, add_lookup, add_row, load_rows,
  new_table, load_delimited, ndjson_string, add_object, load_ndjson, load,
}
use sumpter.RefTable.Load.Cells.{appears}
use sumpter.RefTable.Load.Membership.{IsMembershipSource}
use sumpter.RefTable.Load.Lookups.{first_value}
use sumpter.RefTable.Load.Unique.{IsLookupSource}
use sumpter.RefTable.Registry.{contains_key-load}

abbrev currencies : Spec
currencies = record {
  name = codes "currencies";
  format = codes "csv";
  header = true;
  column = codes "code";
  key_column = [];
  value_column = [];
  max_rows = pos 2;
}

abbrev names : Spec
names = record currencies {
  name = codes "names";
  column = [];
  key_column = codes "code";
  value_column = codes "name";
}

abbrev header : List Text
header = codes "code" ∷ codes "name" ∷ []

abbrev euro : List Text
euro = codes "EUR" ∷ codes "euro" ∷ []

abbrev dollar : List Text
dollar = codes "USD" ∷ codes "dollar" ∷ []

abbrev rows : List (List Text)
rows = euro ∷ dollar ∷ []

currencies_valid : is_valid currencies ≡ true
unfolding is_valid known_format columns_ok trim_space strip space_width space_width_back is_space
    is_space2 is_space3 eq_text
currencies_valid = refl

names_valid : is_valid names ≡ true
unfolding is_valid known_format columns_ok trim_space strip space_width space_width_back is_space
    is_space2 is_space3 eq_text
names_valid = refl

currencies-IsMembershipSource : IsMembershipSource currencies header 0 2
unfolding spec_mode column_index eq_text
currencies-IsMembershipSource = record {
  valid = currencies_valid;
  delimited = refl;
  headed = refl;
  member = refl;
  limit = refl;
  column = refl;
}

names-IsLookupSource : IsLookupSource names header 0 1 2
unfolding spec_mode column_index eq_text
names-IsLookupSource = record {
  valid = names_valid;
  delimited = refl;
  headed = refl;
  pairs = refl;
  limit = refl;
  key = refl;
  value = refl;
}

abbrev currencies_table : Table
currencies_table = record {
  name = codes "currencies";
  mode = mode_membership;
  membership = (codes "EUR", tt) ∷ (codes "USD", tt) ∷ [];
  lookups = [];
  row_count = 2;
}

abbrev names_table : Table
names_table = record {
  name = codes "names";
  mode = mode_lookup;
  membership = [];
  lookups = (codes "EUR", codes "euro") ∷ (codes "USD", codes "dollar") ∷ [];
  row_count = 2;
}

load-currencies : load currencies (row header ∷ map row rows) [] ≡ loaded currencies_table
unfolding load is_valid known_format columns_ok trim_space strip space_width space_width_back
    is_space is_space2 is_space3 eq_text load_delimited resolve_columns column_index new_table
    spec_mode load_rows add_row cell count_physical_row add_membership put
load-currencies = refl

load-names : load names (row header ∷ map row rows) [] ≡ loaded names_table
unfolding load is_valid known_format columns_ok trim_space strip space_width space_width_back
    is_space is_space2 is_space3 eq_text load_delimited resolve_columns column_index new_table
    spec_mode load_rows add_row cell count_physical_row add_lookup put lookup
load-names = refl

-- A blank line is passed over.
load-ndjson :
    load
      (record names { format = codes "ndjson" })
      []
      (line (codes " ") none
        ∷ line
            (codes "{}")
            (some ((codes "code", some (codes "EUR")) ∷ (codes "name", some (codes "euro")) ∷ []))
        ∷ [])
    ≡ loaded (record names_table { lookups = (codes "EUR", codes "euro") ∷ []; row_count = 1 })
unfolding load is_valid known_format columns_ok trim_space strip space_width space_width_back
    is_space is_space2 is_space3 eq_text load_ndjson add_object ndjson_string new_table spec_mode
    count_physical_row add_lookup put lookup
load-ndjson = refl

abbrev registry : Tables
registry = (codes "currencies", currencies_table) ∷ (codes "names", names_table) ∷ []

registered : new_registry (currencies_table ∷ names_table ∷ []) ≡ some registry
unfolding new_registry register lookup put eq_text
registered = refl

contains_key-load_example :
    contains_key registry (codes "currencies") (codes "USD") ≡ some (appears 0 (codes "USD") rows)
contains_key-load_example =
    contains_key-load currencies header 0 2 rows [] currencies_table
      (currencies_table ∷ names_table ∷ []) (names_table ∷ []) registry (codes "USD")
      currencies-IsMembershipSource (omega arith, (omega arith, tt)) (omega arith) load-currencies
      registered here

-- The letters of the code are as they are.
abbrev letters : Letters
letters = record { to_lower = λ s. s; to_upper = λ s. s }

abbrev vars : Fields ℕ
vars = field (codes "code") (string (codes "USD")) no_field

abbrev code : Expression ℕ
code = variable (codes "code")

evaluate-load_example :
    evaluate_expression naturals letters
      (record { variables = vars; references = some (registry_lookup registry) })
      (function
        (codes "in_reference")
        (argument (constant (string_value (codes "currencies"))) (argument code no_more)))
    ≡ some (boolean (appears 0 (codes "USD") rows))
unfolding evaluate_expression get_field eq_text
evaluate-load_example =
    evaluate-load naturals letters vars currencies header 0 2 rows [] currencies_table
      (currencies_table ∷ names_table ∷ []) (names_table ∷ []) registry code b'U' (codes "SD")
      currencies-IsMembershipSource (omega arith, (omega arith, tt)) (omega arith) load-currencies
      registered here refl

evaluate-load_lookups_example :
    evaluate_expression naturals letters
      (record { variables = vars; references = some (registry_lookup registry) })
      (function (codes "lookup_reference") (
        argument
          (constant (string_value (codes "names")))
          (argument code (argument (constant (string_value (codes "none"))) no_more))))
    ≡ some (found_or (string (codes "none")) (first_value 0 1 (codes "USD") rows))
unfolding evaluate_expression get_field eq_text default_value
evaluate-load_lookups_example =
    evaluate-load_lookups naturals letters vars names header 0 1 2 rows [] names_table
      (currencies_table ∷ names_table ∷ []) (currencies_table ∷ []) registry code
      (constant (string_value (codes "none"))) b'U' (codes "SD") (string (codes "none"))
      (string (codes "none")) names-IsLookupSource
      ((omega arith, omega arith), ((omega arith, omega arith), tt)) (omega arith) refl load-names
      registered (there here) refl refl refl
