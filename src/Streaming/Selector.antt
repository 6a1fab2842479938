-- ===== src/Streaming/Selector.antt =====
-- internal/extract/streaming/selector.go: the selectors of records that the scanners take, on strings
-- of valid UTF-8. unicode.IsLetter and IsDigit, on the bytes of a rune, are parameters.
pub mod Canonical
use Prim.Native.String.{String}
use sumpter.Base.{
  ℕ, zero, suc, Bool, true, false, not, ◌&&◌, ◌||◌, Option, none, some, List, [], ◌∷◌, drop, ◌==◌,
  if◌then◌else◌,
}
use sumpter.Dsl.{Text}
use sumpter.Dsl.Text.{codes, eq_text, has_prefix, trim_space}
use sumpter.Dsl.Runes.{runes}
use sumpter.Dsl.Scan.{is_empty}

pub record RecordSelector : Type 0 where
  pub raw : Text
  pub element_name : Text

abbrev pub one_of : Text → ℕ → Bool
one_of [] c = false
one_of (d ∷ ds) c = c == d || one_of ds c

-- strings.ContainsAny(name, chars), for ASCII chars
unfoldable pub contains_any : Text → Text → Bool
contains_any chars [] = false
contains_any chars (c ∷ name) = one_of chars c || contains_any chars name

abbrev pub rune_is : String → Text → Bool
rune_is s r = eq_text r (codes s)

module _ (is_letter is_digit : Text → Bool) where
  -- The runes behind the first one
  unfoldable pub are_name_runes : List Text → Bool
  are_name_runes [] = true
  are_name_runes (r ∷ rs) =
      (rune_is "_" r || rune_is "-" r || rune_is "." r || is_letter r || is_digit r)
      && are_name_runes rs

  unfoldable pub are_local_name : List Text → Bool
  are_local_name [] = false
  are_local_name (r ∷ rs) = (rune_is "_" r || is_letter r) && are_name_runes rs

  -- isLocalElementName
  unfoldable pub is_local_element_name : Text → Bool
  is_local_element_name name = are_local_name (runes name)

  unfoldable pub selector_name : Text → Text → Option RecordSelector
  selector_name raw name =
      if contains_any (codes "/[]:|@()='\"") name || not (is_local_element_name name)
      then none
      else some (record { raw = raw; element_name = name })

  -- ParseRecordSelector, for the trimmed selector
  unfoldable pub selector_of : Text → Option RecordSelector
  selector_of raw =
      if is_empty raw
      then none
      else if has_prefix raw (codes "//")
      then selector_name raw (trim_space (drop 2 raw))
      else if has_prefix raw (codes "/")
      then none
      else selector_name raw raw

  unfoldable pub parse_record_selector : Text → Option RecordSelector
  parse_record_selector selector = selector_of (trim_space selector)

  -- ValidateRecordSelector
  unfoldable pub validate_record_selector : Text → Bool
  validate_record_selector selector = elim (parse_record_selector selector) [
    | none ↦ false
    | some _ ↦ true
  ]
