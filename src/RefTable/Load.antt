-- ===== src/RefTable/Load.antt =====
-- internal/reftable/load.go and parse.go: a table from the rows of a delimited source or the lines of
-- NDJSON. What encoding/csv, bufio.Scanner and encoding/json read is an input: the records or lines up
-- to io.EOF, one of which may be an error, and for each line its object. The row numbers, which are
-- only in messages, are left out, and so is the panic of an index out of range: encoding/csv gives
-- every record the header's length, and `cell` says what happens when it does not.
pub mod Cells
pub mod Membership
pub mod Lookups
pub mod Unique
use sumpter.Base.{
  ℕ, zero, suc, ◌+◌, Bool, true, false, not, ◌&&◌, ◌||◌, Option, none, some, List, [], ◌∷◌, ltb,
  ◌>>=◌, if◌then◌else◌,
}
use sumpter.Base.Int.{ℤ, pos, negsuc, leb_ℤ, ltb_ℤ}
use sumpter.Dsl.{Text}
use sumpter.Dsl.Text.{codes, eq_text, trim_space}
use sumpter.Dsl.Scan.{is_empty}
use sumpter.TextMap.{TextMap, lookup, put}
use sumpter.RefTable.{Mode, mode_membership, mode_lookup, Table}

pub record Spec : Type 0 where
  pub name : Text
  pub format : Text
  pub header : Bool
  pub column : Text
  pub key_column : Text
  pub value_column : Text
  pub max_rows : ℤ

pub data LoadError : Type 0 where
  invalid_spec no_header empty_source missing_column malformed over_rows duplicate_key : LoadError
  out_of_range : LoadError

pub data Loaded (A : Type 0) : Type 0 where
  loaded : A → Loaded A
  refused : LoadError → Loaded A

-- `if err != nil { return err }`
infixl 10 ◌>>◌
abbrev pub ◌>>◌ : {A B : Type 0} → Loaded A → (A → Loaded B) → Loaded B
(loaded a) >> f = f a
(refused e) >> f = refused e

unfoldable pub spec_mode : Spec → Mode
spec_mode s = if not (is_empty s.column) then mode_membership else mode_lookup

unfoldable pub known_format : Text → Bool
known_format f = eq_text f (codes "csv") || eq_text f (codes "tsv") || eq_text f (codes "ndjson")

-- The columns: one for membership, or a key and a value that differ, and not both.
unfoldable pub columns_ok : Spec → Bool
columns_ok s =
    let has_membership = not (is_empty s.column) in
    let has_lookup = not (is_empty s.key_column) || not (is_empty s.value_column) in
    if has_membership && has_lookup
    then false
    else if has_membership
    then true
    else if has_lookup
    then not (is_empty s.key_column || is_empty s.value_column)
      && not (eq_text s.key_column s.value_column)
    else false

unfoldable pub is_valid : Spec → Bool
is_valid s =
    not (is_empty (trim_space s.name))
    && known_format s.format
    && columns_ok s
    && not (leb_ℤ s.max_rows (pos 0))

-- The first position of a name in the header.
unfoldable pub column_index : Text → List Text → Option ℕ
column_index name [] = none
column_index name (h ∷ header) =
    let rest = column_index name header in
    if eq_text h name then some 0 else rest >>= λ i. some (suc i)

pub data Positions : Type 0 where
  member_at : ℕ → Positions
  pair_at : ℕ → ℕ → Positions

abbrev need : {A : Type 0} → Option A → Loaded A
need none = refused missing_column
need (some a) = loaded a

unfoldable pub resolve_columns : Spec → List Text → Mode → Loaded Positions
resolve_columns s header mode_membership =
    need (column_index s.column header) >> λ i. loaded (member_at i)
resolve_columns s header mode_lookup = need (column_index s.key_column header) >> λ i.
    need (column_index s.value_column header) >> λ j. loaded (pair_at i j)

unfoldable pub cell : ℕ → List Text → Loaded Text
cell i [] = refused out_of_range
cell zero (c ∷ cells) = loaded c
cell (suc i) (c ∷ cells) = cell i cells

unfoldable pub count_physical_row : ℤ → Table → Loaded Table
count_physical_row max_rows t =
    let t' = record t { row_count = t.row_count + 1 } in
    if ltb_ℤ max_rows (pos t'.row_count) then refused over_rows else loaded t'

unfoldable pub add_membership : Text → Table → Table
add_membership value t = record t { membership = put value tt t.membership }

unfoldable pub add_lookup : Text → Text → Table → Loaded Table
add_lookup key value t = elim (lookup key t.lookups) [
  | some _ ↦ refused duplicate_key
  | none ↦ loaded (record t { lookups = put key value t.lookups })
]

-- What a row adds, from the cells of its columns.
unfoldable pub add_row : Positions → List Text → Table → Loaded Table
add_row (member_at i) r t = cell i r >> λ v. loaded (add_membership v t)
add_row (pair_at i j) r t = cell i r >> λ k. cell j r >> λ v. add_lookup k v t

-- What a call of `Read` returns before io.EOF.
pub data Reading : Type 0 where
  row : List Text → Reading
  read_error : Reading

unfoldable pub load_rows : ℤ → Positions → List Reading → Table → Loaded Table
load_rows max_rows at_ [] t = loaded t
load_rows max_rows at_ (read_error ∷ rest) t = refused malformed
load_rows max_rows at_ (row r ∷ rest) t = count_physical_row max_rows t >> λ t'.
    add_row at_ r t' >> λ t''. load_rows max_rows at_ rest t''

unfoldable pub new_table : Spec → Table
new_table s = record {
  name = s.name;
  mode = spec_mode s;
  membership = [];
  lookups = [];
  row_count = 0;
}

unfoldable pub load_delimited : Spec → List Reading → Table → Loaded Table
load_delimited s readings t = if not s.header then refused no_header else elim readings [
  | [] ↦ refused empty_source
  | read_error ∷ rest ↦ refused malformed
  | row header ∷ rest ↦ resolve_columns s header t.mode >> λ at_. load_rows s.max_rows at_ rest t
]

-- A line, and what json.Unmarshal makes of it: no object, or one whose fields are strings or not.
pub data Line : Type 0 where
  line : Text → Option (TextMap (Option Text)) → Line
  scan_error : Line

unfoldable pub ndjson_string : TextMap (Option Text) → Text → Loaded Text
ndjson_string obj field = elim (lookup field obj) [
  | none ↦ refused missing_column
  | some none ↦ refused malformed
  | some (some s) ↦ loaded s
]

unfoldable pub add_object : Spec → Mode → TextMap (Option Text) → Table → Loaded Table
add_object s mode_membership obj t = ndjson_string obj s.column >> λ v. loaded (add_membership v t)
add_object s mode_lookup obj t =
    ndjson_string obj s.key_column >> λ k. ndjson_string obj s.value_column >> λ v. add_lookup k v t

abbrev of_json : Option (TextMap (Option Text)) → Loaded (TextMap (Option Text))
of_json none = refused malformed
of_json (some obj) = loaded obj

unfoldable pub load_ndjson : Spec → List Line → Table → Loaded Table
load_ndjson s [] t = loaded t
load_ndjson s (scan_error ∷ rest) t = refused malformed
load_ndjson s (line l json ∷ rest) t = elim (is_empty (trim_space l)) [
  | true ↦ load_ndjson s rest t
  | false ↦ count_physical_row s.max_rows t >> λ t'.
      of_json json >> λ obj. add_object s t.mode obj t' >> λ t''. load_ndjson s rest t''
]

-- The switch of Load on the format, over what the readers of both kinds give.
unfoldable pub load : Spec → List Reading → List Line → Loaded Table
load s readings lines =
    if not (is_valid s)
    then refused invalid_spec
    else if eq_text s.format (codes "csv") || eq_text s.format (codes "tsv")
    then load_delimited s readings (new_table s)
    else load_ndjson s lines (new_table s)
