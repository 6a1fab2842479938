-- ===== src/Streaming/Selector/Canonical.antt =====
-- What ParseRecordSelector returns is read again as it is.
use sumpter.Base.{
  ◌≡◌, refl, ap, ◌∙◌, Bool, true, false, some, [], ◌∷◌, drop, arith, ◌==◌, inl, inr, Bool-cases,
}
use sumpter.Dsl.{Text}
use sumpter.Dsl.Text.{codes, has_prefix, trim_space}
use sumpter.Dsl.Text.Trim.{trim_space-trim_space}
use sumpter.Dsl.Scan.{is_empty}
use sumpter.Dsl.Runes.{runes}
use sumpter.Streaming.Selector.{
  RecordSelector, contains_any, is_local_element_name, are_local_name, selector_name, selector_of,
  parse_record_selector,
}

module _ (is_letter is_digit : Text → Bool) where
  -- The name has none of the characters of a path and is a local name.
  abbrev IsName : Text → Type 0
  IsName name =
      (contains_any (codes "/[]:|@()='\"") name ≡ false)
      × (is_local_element_name is_letter is_digit name ≡ true)

  selector_name-some :
      (raw name : Text) (r : RecordSelector)
      → selector_name is_letter is_digit raw name ≡ some r
      → (r ≡ record { raw = raw; element_name = name }) × IsName name
  unfolding selector_name
  selector_name-some raw name r h = ground arith

  selector_name-IsName :
      (raw name : Text)
      → IsName name
      → selector_name is_letter is_digit raw name ≡ some (record { raw = raw; element_name = name })
  unfolding selector_name
  selector_name-IsName raw name h = rw (selector_name, h.0, h.1) refl

  -- A name is a selector of itself.
  selector_of-IsName :
      (name : Text)
      → IsName name
      → selector_of is_letter is_digit name ≡ some (record { raw = name; element_name = name })
  unfolding selector_of contains_any has_prefix is_local_element_name are_local_name runes
  selector_of-IsName [] h = cc (h.1)
  selector_of-IsName (c ∷ name) h =
      let ne : (c == b'/') ≡ false = ground (arith, h.0) in
      let is : selector_name is_letter is_digit (c ∷ name) (c ∷ name)
          ≡ some (record { raw = c ∷ name; element_name = c ∷ name }) =
        selector_name-IsName (c ∷ name) (c ∷ name) h in
      rw (selector_of, has_prefix, ne) is

  -- The record of a selector that is accepted: its raw form is the trimmed selector, and its name is
  -- a name without white space at its ends.
  selector_of-some :
      (raw : Text) (r : RecordSelector)
      → trim_space raw ≡ raw
      → selector_of is_letter is_digit raw ≡ some r
      → (r.raw ≡ raw) × (trim_space r.element_name ≡ r.element_name) × IsName r.element_name
  unfolding selector_of
  selector_of-some raw r trimmed h =
      let named : (name : Text)
          → trim_space name ≡ name
          → selector_name is_letter is_digit raw name ≡ some r
          → (r.raw ≡ raw) × (trim_space r.element_name ≡ r.element_name) × IsName r.element_name =
        λ name t e. let (same, is) = selector_name-some raw name r e in rw same (refl, t, is) in
      elim (Bool-cases (is_empty raw)) [
        | inl nothing ↦ ground (arith, nothing, h)
        | inr something ↦ elim (Bool-cases (has_prefix raw (codes "//"))) [
          | inl anywhere ↦
              named (trim_space (drop 2 raw)) (trim_space-trim_space (drop 2 raw))
                (ground (arith, something, anywhere, h))
          | inr plain ↦ elim (Bool-cases (has_prefix raw (codes "/"))) [
            | inl rooted ↦ ground (arith, something, plain, rooted, h)
            | inr bare ↦ named raw trimmed (ground (arith, something, plain, bare, h))
          ]
        ]
      ]

-- Whatever unicode.IsLetter and unicode.IsDigit are: what ParseRecordSelector accepts, it reads again
-- as it is, from the raw form that it returns, and the element name that it returns is a selector of
-- itself.
pub parse_record_selector-again :
    (is_letter is_digit : Text → Bool) (selector : Text) (r : RecordSelector)
    → parse_record_selector is_letter is_digit selector ≡ some r
    → (parse_record_selector is_letter is_digit r.raw ≡ some r)
      × (parse_record_selector is_letter is_digit r.element_name
          ≡ some (record { raw = r.element_name; element_name = r.element_name }))
unfolding parse_record_selector
parse_record_selector-again is_letter is_digit selector r h =
    let (same, trimmed, is) =
      selector_of-some is_letter is_digit (trim_space selector) r (trim_space-trim_space selector)
        h in
    let whole : trim_space r.raw ≡ trim_space selector =
      ap trim_space same ∙ trim_space-trim_space selector in
    (
      ap (selector_of is_letter is_digit) whole ∙ h,
      ap (selector_of is_letter is_digit) trimmed
          ∙ selector_of-IsName is_letter is_digit r.element_name is,
    )
