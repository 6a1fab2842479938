-- ===== src/ValueProfile/Collector.antt =====
-- internal/valueprofile/collector.go: the states of the fields, and how one more record changes them. A
-- map that is nil is `none`; the number of records and the sums of lengths are below 2^63. The two
-- regular expressions and the printing and parsing of numbers are parameters.
pub mod Merging
pub mod Inputs
pub mod Observe
pub mod Merge
pub mod History
pub mod Holds
pub mod Runs
use sumpter.Base.{
  ℕ, suc, ◌+◌, ◌-◌, ◌^◌, Bool, true, false, not, ◌&&◌, ◌||◌, Option, none, some, List, [], ◌∷◌, map,
  length, ◌>>=◌, ltb, leb, if◌then◌else◌,
}
use sumpter.Base.Int.{ℤ, pos, negsuc, two63}
use sumpter.TextMap.{TextMap, lookup, put}
use sumpter.Dsl.{Text}
use sumpter.Dsl.Text.{codes, trim_space}
use sumpter.Dsl.Scan.{is_empty}
use sumpter.Dsl.Value.{
  Float64, Value, null, boolean, int, int64, float64, string, strings, object, Fields, get_field,
}
use sumpter.ValueProfile.{FieldConfig, Normalized}

-- strconv and fmt on the values, and the regular expressions for a UUID and an email address.
pub record Formats (F : Type 0) : Type 0 where
  pub itoa : ℤ → Text
  -- strconv.FormatInt(int64(t), 10) and strconv.FormatFloat(t, 'g', -1, 64)
  pub format_integral : F → Text
  pub format_float : F → Text
  pub sprint : Value F → Text
  pub parse_float : Text → Option F
  pub is_uuid : Text → Bool
  pub is_email : Text → Bool

pub record ShapeAccumulator : Type 0 where
  pub uuid : Bool
  pub email : Bool
  pub free : Bool
  pub empty : Bool
  pub init : Bool

pub record FieldState (F : Type 0) : Type 0 where
  pub cfg : FieldConfig
  pub count : ℕ
  pub null_count : ℕ
  pub distinct : Option (TextMap ℕ)
  pub capped : Bool
  pub len_min : ℕ
  pub len_max : ℕ
  pub len_sum : ℕ
  pub len_n : ℕ
  pub shape : ShapeAccumulator
  pub num_min : F
  pub num_max : F
  pub has_numeric : Bool
  pub all_numeric : Bool
  pub saw_non_empty : Bool

abbrev pub size_of : Option (TextMap ℕ) → ℕ
size_of none = 0
size_of (some m) = length m

abbrev pub or_empty : Option (TextMap ℕ) → TextMap ℕ
or_empty none = []
or_empty (some m) = m

abbrev pub or_zero : Option ℕ → ℕ
or_zero none = 0
or_zero (some n) = n

-- distinct[text]
abbrev pub value_at : Text → TextMap ℕ → ℕ
value_at t m = or_zero (lookup t m)

module _ {F : Type 0} (fl : Float64 F) where
  unfoldable pub new_field_state : FieldConfig → FieldState F
  new_field_state f = record {
    cfg = f;
    count = 0;
    null_count = 0;
    distinct = some [];
    capped = false;
    len_min = two63 - 1;
    len_max = 0;
    len_sum = 0;
    len_n = 0;
    shape = record { uuid = false; email = false; free = false; empty = false; init = false };
    num_min = fl.of_int (pos 0);
    num_max = fl.of_int (pos 0);
    has_numeric = false;
    all_numeric = true;
    saw_non_empty = false;
  }

  unfoldable pub new_field_states :
      List FieldConfig → TextMap (FieldState F) → TextMap (FieldState F)
  new_field_states [] out = out
  new_field_states (f ∷ fields) out = new_field_states fields (put f.field (new_field_state f) out)

  module _ (formats : Formats F) where
    unfoldable pub stringify_value : Value F → Text
    stringify_value (string s) = s
    stringify_value (boolean b) = if b then codes "true" else codes "false"
    stringify_value (float64 t) =
        if fl.eq t (fl.trunc t)
          && fl.le (fl.of_int (negsuc (two63 - 1))) t
          && fl.le t (fl.of_int (pos (two63 - 1)))
        then formats.format_integral t
        else formats.format_float t
    stringify_value (int n) = formats.itoa n
    stringify_value (int64 n) = formats.itoa n
    stringify_value v = formats.sprint v

    unfoldable pub is_empty_scalar : Value F → Bool
    is_empty_scalar (string s) = is_empty s
    is_empty_scalar v = false

    unfoldable pub to_float : Value F → Option F
    to_float (float64 t) = some t
    to_float (int n) = some (fl.of_int n)
    to_float (int64 n) = some (fl.of_int n)
    to_float (string s) = formats.parse_float (trim_space s)
    to_float v = none

    unfoldable pub observe_shape : ShapeAccumulator → Text → ShapeAccumulator
    observe_shape a text =
        let uuid = a.uuid && formats.is_uuid text in
        let email = a.email && formats.is_email text in
        if is_empty text
        then (record a { empty = true })
        else if not a.init
        then (record a {
          init = true;
          uuid = formats.is_uuid text;
          email = formats.is_email text;
          free = not (formats.is_uuid text) && not (formats.is_email text);
        })
        else (record a {
          uuid = uuid;
          email = email;
          free = if not uuid && not email then true else a.free;
        })

    -- The range of the numbers, on a value or on the range of another state.
    unfoldable pub observe_numbers : Option (F × F) → FieldState F → FieldState F
    observe_numbers none s = record s { all_numeric = false }
    observe_numbers (some (low, high)) s =
        if not s.has_numeric
        then (record s { num_min = low; num_max = high; has_numeric = true })
        else (record s {
          num_min = if fl.lt low s.num_min then low else s.num_min;
          num_max = if fl.lt s.num_max high then high else s.num_max;
        })

    -- The lengths, the range and the shape.
    unfoldable pub observe_text : Text → Value F → FieldState F → FieldState F
    observe_text text raw s =
        let t =
          observe_numbers (elim (to_float raw) [ none ↦ none | some f ↦ some (f, f) ])
            (record s {
              saw_non_empty = true;
              len_min = if ltb (length text) s.len_min then length text else s.len_min;
              len_max = if ltb s.len_max (length text) then length text else s.len_max;
              len_sum = s.len_sum + length text;
              len_n = suc s.len_n;
            }) in
        record t { shape = observe_shape t.shape text }

    -- The last part of observeValue: the values and the cap. A value is put into a map
    -- that is not nil, since the map is nil only once the cap is reached.
    unfoldable pub observe_distinct : ℕ → Text → FieldState F → FieldState F
    observe_distinct max_distinct text s = elim s.capped [
      | true ↦ s
      | false ↦ elim (s.distinct >>= λ m. lookup text m) [
        | some n ↦ record s { distinct = (s.distinct >>= λ m. some (put text (suc n) m)) }
        | none ↦
            if leb max_distinct (size_of s.distinct)
            then (record s { capped = true; distinct = none })
            else (record s { distinct = (s.distinct >>= λ m. some (put text 1 m)) })
      ]
    ]

    unfoldable pub observe_value : ℕ → Text → Value F → FieldState F → FieldState F
    observe_value max_distinct text raw s =
        observe_distinct max_distinct text (observe_text text raw s)

    -- The value that a record has in a field, unless it is one of those that count as null.
    unfoldable pub present : Option (Value F) → Option (Value F)
    present none = none
    present (some null) = none
    present (some raw) =
        if is_empty (stringify_value raw) && is_empty_scalar raw then none else some raw

    -- A round of observeDataInto.
    unfoldable pub observe_field : ℕ → Option (Value F) → FieldState F → FieldState F
    observe_field max_distinct found s = elim (present found) [
      | none ↦ record s { count = suc s.count; null_count = suc s.null_count }
      | some raw ↦
          observe_value max_distinct (stringify_value raw) raw (record s { count = suc s.count })
    ]

    unfoldable pub observe_data_into :
        TextMap (FieldState F) → Fields F → ℕ → TextMap (FieldState F)
    observe_data_into [] data_ max_distinct = []
    observe_data_into ((name, s) ∷ fields) data_ max_distinct =
        (name, observe_field max_distinct (get_field name data_) s)
        ∷ observe_data_into fields data_ max_distinct
