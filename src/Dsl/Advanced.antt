-- ===== src/Dsl/Advanced.antt =====
-- internal/validation/dsl: containsOutsideStrings of parser.go, and isAdvancedFilter of accumulator.go,
-- which chooses the parser of a filter.
use sumpter.Base.{
  ℕ, zero, suc, ◌+◌, ◌≡◌, refl, Bool, true, false, Option, none, some, List, [], ◌∷◌, drop, length,
  length-drop, arith, ltb, if◌then◌else◌, Bool-cases, inl, inr,
}
use sumpter.Dsl.{Text}
use sumpter.Dsl.Text.{codes, has_prefix}
use sumpter.Dsl.Scan.{StringRange, quoted_string_ranges, in_string_range}
use sumpter.Dsl.Scan.Leftmost.{has_prefix-length}

unfoldable pub contains_scan : List StringRange → Text → ℕ → Text → Bool
contains_scan ranges substr i [] = false
contains_scan ranges substr i (c ∷ s) =
    let rest = contains_scan ranges substr (suc i) s in
    if ltb (suc (length s)) (length substr)
    then false
    else if in_string_range i ranges
    then rest
    else if has_prefix (c ∷ s) substr
    then true
    else rest

unfoldable pub contains_outside_strings : Text → Text → Option Bool
contains_outside_strings s [] = some true
contains_outside_strings s (o ∷ substr) = elim (quoted_string_ranges s) [
  | none ↦ none
  | some ranges ↦ some (contains_scan ranges (o ∷ substr) 0 s)
]

-- The loop over the markers.
unfoldable pub contains_some : Text → List Text → Option Bool
contains_some s [] = some false
contains_some s (marker ∷ markers) = elim (contains_outside_strings s marker) [
  | none ↦ none
  | some true ↦ some true
  | some false ↦ contains_some s markers
]

abbrev pub markers : List Text
markers = codes "&&" ∷ codes "||" ∷ codes "(" ∷ codes ")" ∷ []

unfoldable pub is_advanced_filter : Text → Option Bool
is_advanced_filter filter_str = contains_some filter_str markers

-- `substr` stands `n` bytes on, outside of strings.
abbrev pub StandsAt : List StringRange → Text → ℕ → Text → ℕ → Type 0
StandsAt ranges substr i s n =
    (in_string_range (i + n) ranges ≡ false) × (has_prefix (drop n s) substr ≡ true)

abbrev pub Tells : List StringRange → Text → ℕ → Text → Bool → Type 0
Tells ranges substr i s true = (n : ℕ) × StandsAt ranges substr i s n
Tells ranges substr i s false = (n : ℕ) → StandsAt ranges substr i s n → ⊥

module _ (ranges : List StringRange) (substr : Text) (i c : ℕ) (s : Text) where
  not_at_all :
      (StandsAt ranges substr i (c ∷ s) 0 → ⊥)
      → ((n : ℕ) → StandsAt ranges substr (suc i) s n → ⊥)
      → (n : ℕ) → StandsAt ranges substr i (c ∷ s) n
      → ⊥
  not_at_all here_ later zero h = here_ h
  not_at_all here_ later (suc n) h =
      let e : i + suc n ≡ suc i + n = omega arith in later n (rw e at h)

  Tells-cons :
      (b : Bool)
      → (StandsAt ranges substr i (c ∷ s) 0 → ⊥)
      → Tells ranges substr (suc i) s b
      → Tells ranges substr i (c ∷ s) b
  Tells-cons true here_ (n, h) = let e : i + suc n ≡ suc i + n = omega arith in (suc n, rw e h)
  Tells-cons false here_ later = not_at_all here_ later

contains_scan-Tells :
    (ranges : List StringRange) (o : ℕ) (op : Text) (i : ℕ) (s : Text)
    → Tells ranges (o ∷ op) i s (contains_scan ranges (o ∷ op) i s)
unfolding contains_scan
contains_scan-Tells ranges o op i [] =
    λ n h. omega (arith, has_prefix-length (drop n []) (o ∷ op) h.1, length-drop {A = ℕ} n [])
contains_scan-Tells ranges o op i (c ∷ s) =
    let rest = contains_scan-Tells ranges o op (suc i) s in
    let e : i + 0 ≡ i = omega arith in
    elim (Bool-cases (ltb (suc (length s)) (length (o ∷ op)))) [
      | inl few ↦
          rw (contains_scan, few)
            (λ n h.
              ground
                (arith, has_prefix-length (drop n (c ∷ s)) (o ∷ op) h.1, length-drop n (c ∷ s)))
      | inr enough ↦ elim (Bool-cases (in_string_range i ranges)) [
        | inl quoted ↦
            rw (contains_scan, enough, quoted)
              (Tells-cons ranges (o ∷ op) i c s (contains_scan ranges (o ∷ op) (suc i) s)
                (λ h. cc (rw e at (h.0), quoted)) rest)
        | inr unquoted ↦ elim (Bool-cases (has_prefix (c ∷ s) (o ∷ op))) [
          | inl found ↦ rw (contains_scan, enough, unquoted, found) (0, (rw e unquoted, found))
          | inr other ↦
              rw (contains_scan, enough, unquoted, other)
                (Tells-cons ranges (o ∷ op) i c s (contains_scan ranges (o ∷ op) (suc i) s)
                  (λ h. cc (h.1, other)) rest)
        ]
      ]
    ]

-- For a string whose quotes are all closed, and a text that is not empty: containsOutsideStrings
-- returns true where the text stands at a position outside of strings, and false where it does not.
pub contains_outside_strings-Tells :
    (s : Text) (o : ℕ) (op : Text) (ranges : List StringRange)
    → quoted_string_ranges s ≡ some ranges
    → (b : Bool) × (contains_outside_strings s (o ∷ op) ≡ some b) × Tells ranges (o ∷ op) 0 s b
unfolding contains_outside_strings
contains_outside_strings-Tells s o op ranges e = (
  contains_scan ranges (o ∷ op) 0 s,
  rw (contains_outside_strings, e) refl,
  contains_scan-Tells ranges o op 0 s,
)
