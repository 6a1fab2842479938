-- ===== src/ValueProfile.antt =====
-- internal/valueprofile/config.go: the configuration of a profile of values, with its check. The
-- constants of sensitivities and tags are the strings themselves; strings.ToLower is a parameter, and
-- the messages of errors are left out.
pub mod Collector
pub mod Snapshot
pub mod Counts
mod Tests
use sumpter.Base.{
  ℕ, zero, suc, Bool, true, false, not, ◌&&◌, ◌||◌, Option, none, some, List, [], ◌∷◌, ◌>>=◌, ltb,
  leb, if◌then◌else◌,
}
use sumpter.Base.Int.{ℤ, pos, negsuc}
use sumpter.TextMap.{TextMap, lookup, put}
use sumpter.Dsl.{Text}
use sumpter.Dsl.Text.{codes, eq_text, trim_space}
use sumpter.Dsl.Scan.{is_empty}

pub record FieldConfig : Type 0 where
  pub field : Text
  pub safe_to_profile : Bool
  pub sensitivity : Text
  pub protection_tags : List Text

pub record Config : Type 0 where
  pub enabled : Bool
  pub max_distinct : ℤ
  pub small_cell_threshold : ℤ
  pub fields : List FieldConfig

abbrev pub closed_protection_tags : List Text
closed_protection_tags =
    codes "safe_to_profile"
    ∷ codes "source_structure"
    ∷ codes "direct_identifier"
    ∷ codes "quasi_identifier"
    ∷ codes "linkage_key"
    ∷ codes "measure"
    ∷ codes "access_control_metadata"
    ∷ codes "freeform_text"
    ∷ codes "opaque_payload"
    ∷ []

abbrev pub sensitivities : List Text
sensitivities =
    codes "public"
    ∷ codes "internal"
    ∷ codes "controlled"
    ∷ codes "restricted"
    ∷ codes "unknown"
    ∷ []

-- A member of a map[string]struct{}, or of a slice of tags.
unfoldable pub has_tag : List Text → Text → Bool
has_tag [] want = false
has_tag (t ∷ tags) want = let rest = has_tag tags want in eq_text t want || rest

abbrev pub positive_or : ℕ → ℤ → ℕ
positive_or d (pos zero) = d
positive_or d (pos (suc n)) = suc n
positive_or d (negsuc n) = d

-- A normalized configuration, whose two numbers are positive.
pub record Normalized : Type 0 where
  pub enabled : Bool
  pub max_distinct : ℕ
  pub small_cell_threshold : ℕ
  pub fields : List FieldConfig

module _ (to_lower : Text → Text) where
  -- The loop of normalizeProtectionTags; `seen` has the tags that are in the result so far.
  unfoldable pub normalize_tags : List Text → List Text → Option (List Text)
  normalize_tags seen [] = some []
  normalize_tags seen (raw ∷ tags) =
      let tag = to_lower (trim_space raw) in
      elim (is_empty (trim_space raw)) [
        | true ↦ normalize_tags seen tags
        | false ↦ elim (has_tag closed_protection_tags tag) [
          | false ↦ none
          | true ↦ elim (has_tag seen tag) [
            | true ↦ normalize_tags seen tags
            | false ↦ normalize_tags (tag ∷ seen) tags >>= λ out. some (tag ∷ out)
          ]
        ]
      ]

  unfoldable pub normalize_sensitivity : Text → Option Text
  normalize_sensitivity s =
      let sens = to_lower (trim_space s) in
      if is_empty sens
      then some (codes "unknown")
      else if has_tag sensitivities sens
      then some sens
      else none

  -- A round of the loop over the fields.
  unfoldable pub normalize_field : FieldConfig → Option FieldConfig
  normalize_field f = do
    sensitivity ← normalize_sensitivity f.sensitivity
    tags ← normalize_tags [] f.protection_tags
    some (record {
      field = trim_space f.field;
      safe_to_profile = f.safe_to_profile || has_tag tags (codes "safe_to_profile");
      sensitivity = sensitivity;
      protection_tags = tags;
    })

  unfoldable pub normalize_fields : List Text → List FieldConfig → Option (List FieldConfig)
  normalize_fields seen [] = some []
  normalize_fields seen (f ∷ fields) =
      let name = trim_space f.field in
      elim (is_empty name || has_tag seen name) [
        | true ↦ none
        | false ↦ normalize_field f >>= λ g.
            normalize_fields (name ∷ seen) fields >>= λ rest. some (g ∷ rest)
      ]

  unfoldable pub normalize : Config → Option Normalized
  normalize c =
      let max_distinct = positive_or 100 c.max_distinct in
      if ltb 10000 max_distinct
      then none
      else (normalize_fields [] c.fields >>= λ fields. some (record {
        enabled = c.enabled;
        max_distinct = max_distinct;
        small_cell_threshold = positive_or 5 c.small_cell_threshold;
        fields = fields;
      }))

unfoldable pub is_active : Normalized → Bool
is_active c = c.enabled && elim c.fields [ [] ↦ false | f ∷ fields ↦ true ]
