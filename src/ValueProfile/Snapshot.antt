-- ===== src/ValueProfile/Snapshot.antt =====
-- internal/valueprofile/collector.go: Snapshot, and the guard that decides what of a field is shown.
-- Snapshot's order of the names has no effect on the map that it fills.
pub mod Guard
use sumpter.Base.{
  ℕ, ◌-◌, Bool, true, false, not, ◌&&◌, ◌||◌, Option, none, some, List, [], ◌∷◌, map, length, ltb,
  leb, if◌then◌else◌,
}
use sumpter.Base.Int.{ℤ, pos}
use sumpter.TextMap.{TextMap}
use sumpter.Dsl.{Text}
use sumpter.Dsl.Text.{codes, eq_text}
use sumpter.Dsl.Value.{Float64}
use sumpter.ValueProfile.{FieldConfig, Normalized, has_tag}
use sumpter.ValueProfile.Collector.{ShapeAccumulator, FieldState, size_of}
use sumpter.ValueProfile.Collector.Inputs.{Collector}

-- A number, or the texts >=n and <n.
pub data DistinctCount : Type 0 where
  exactly : ℕ → DistinctCount
  at_least : ℕ → DistinctCount
  below : ℕ → DistinctCount

pub record LengthStats (F : Type 0) : Type 0 where
  pub min : ℕ
  pub max : ℕ
  pub mean : F

pub record FieldResult (F : Type 0) : Type 0 where
  pub tier : Text
  pub status : Text
  pub count : ℕ
  pub null_count : ℕ
  pub distinct_count : DistinctCount
  pub distinct : Option (TextMap ℕ)
  pub shape : Text
  pub length_stats : Option (LengthStats F)
  pub min : Option F
  pub max : Option F

pub record Profile (F : Type 0) : Type 0 where
  pub max_distinct : ℕ
  pub small_cell_threshold : ℕ
  pub fields : TextMap (FieldResult F)

abbrev pub never_enumerate_tags : List Text
never_enumerate_tags =
    codes "direct_identifier"
    ∷ codes "source_structure"
    ∷ codes "opaque_payload"
    ∷ codes "access_control_metadata"
    ∷ []

-- The loop of allowsTierA over a field's tags.
unfoldable pub is_blocked : List Text → Bool
is_blocked [] = false
is_blocked (tag ∷ tags) = let rest = is_blocked tags in has_tag never_enumerate_tags tag || rest

unfoldable pub allows_tier_a : FieldConfig → Bool
allows_tier_a cfg =
    cfg.safe_to_profile
    && (eq_text cfg.sensitivity (codes "public") || eq_text cfg.sensitivity (codes "internal"))
    && not (is_blocked cfg.protection_tags)

-- hasTag for the tags of which small cells are suppressed.
unfoldable pub is_quasi : FieldConfig → Bool
is_quasi cfg =
    has_tag cfg.protection_tags (codes "quasi_identifier")
    || has_tag cfg.protection_tags (codes "linkage_key")

unfoldable pub large_cells : ℕ → TextMap ℕ → TextMap ℕ
large_cells threshold [] = []
large_cells threshold ((k, v) ∷ m) =
    let rest = large_cells threshold m in if leb threshold v then (k, v) ∷ rest else rest

unfoldable pub suppress_small_cells : ℕ → TextMap ℕ → TextMap ℕ
suppress_small_cells threshold m = if leb threshold 1 then m else large_cells threshold m

unfoldable pub shape_class_of : ShapeAccumulator → Text
shape_class_of a =
    if a.uuid
    then codes "uuid_shaped"
    else if a.email
    then codes "email_shaped"
    else codes "freeform"

module _ {F : Type 0} (fl : Float64 F) where
  unfoldable pub shape_class : FieldState F → Text
  shape_class s =
      if has_tag s.cfg.protection_tags (codes "source_structure")
        || has_tag s.cfg.protection_tags (codes "direct_identifier")
      then codes "opaque_string"
      else if not s.saw_non_empty
      then codes "freeform"
      else if s.all_numeric && s.has_numeric
      then codes "all_numeric"
      else shape_class_of s.shape

  unfoldable pub status_of : FieldState F → Text
  status_of s = if s.capped then codes "high_cardinality_capped" else codes "complete"

  -- The result with values.
  unfoldable pub tier_a : ℕ → FieldState F → TextMap ℕ → FieldResult F
  tier_a threshold s m = record {
    tier = codes "enumeration";
    status = status_of s;
    count = s.count;
    null_count = s.null_count;
    distinct_count = exactly (length m);
    distinct = some (if is_quasi s.cfg then suppress_small_cells threshold m else m);
    shape = [];
    length_stats = none;
    min = if s.has_numeric && s.all_numeric then some s.num_min else none;
    max = if s.has_numeric && s.all_numeric then some s.num_max else none;
  }

  unfoldable pub hidden_count : Normalized → FieldState F → DistinctCount
  hidden_count cfg s = if s.capped then at_least cfg.max_distinct else elim s.distinct [
    | none ↦ exactly 0
    | some m ↦
        if is_quasi s.cfg && ltb 0 (length m) && ltb (length m) cfg.small_cell_threshold
        then below cfg.small_cell_threshold
        else exactly (length m)
  ]

  -- The result of aggregates only.
  unfoldable pub tier_b : Normalized → FieldState F → FieldResult F
  tier_b cfg s = record {
    tier = codes "aggregates";
    status = status_of s;
    count = s.count;
    null_count = s.null_count;
    distinct_count = hidden_count cfg s;
    distinct = none;
    shape = shape_class s;
    length_stats =
        if ltb 0 s.len_n
        then some (record {
          min = s.len_min;
          max = s.len_max;
          mean = fl.div (fl.of_int (pos s.len_sum)) (fl.of_int (pos s.len_n));
        })
        else none;
    min = none;
    max = none;
  }

  unfoldable pub result : Normalized → FieldState F → FieldResult F
  result cfg s =
      if allows_tier_a s.cfg && not s.capped
      then elim s.distinct [ none ↦ tier_b cfg s | some m ↦ tier_a cfg.small_cell_threshold s m ]
      else tier_b cfg s

  unfoldable pub results : Normalized → TextMap (FieldState F) → TextMap (FieldResult F)
  results cfg [] = []
  results cfg ((name, s) ∷ m) = (name, result cfg s) ∷ results cfg m

  unfoldable pub snapshot : Collector F → Profile F
  snapshot c = record {
    max_distinct = c.cfg.max_distinct;
    small_cell_threshold = c.cfg.small_cell_threshold;
    fields = results c.cfg c.committed;
  }
