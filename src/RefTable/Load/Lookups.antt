-- ===== src/RefTable/Load/Lookups.antt =====
-- A lookup table answers for the pairs of its columns, whose keys are all different.
use sumpter.Base.{
  ℕ, ◌+◌, ◌≤◌, ◌<◌, ◌≡◌, refl, ap, ◌∙◌, Bool, true, false, Option, none, some, List, [], ◌∷◌, map,
  length, arith, if◌then◌else◌, Option-cases, Bool-cases, inl, inr,
}
use sumpter.Base.Members.{All}
use sumpter.Base.Int.{pos}
use sumpter.Dsl.{Text}
use sumpter.Dsl.Text.{eq_text}
use sumpter.TextMap.{lookup, put, lookup-put, eq_text_iff, eq_text_refl}
use sumpter.RefTable.{Table}
use sumpter.RefTable.Load.{
  ◌>>◌, loaded, refused, duplicate_key, Reading, row, pair_at, add_lookup, add_row, load_rows,
}
use sumpter.RefTable.Load.Cells.{nth, cell-nth, appears, counted, count-loaded}

-- The value in the first row that has the key.
abbrev pub first_value : ℕ → ℕ → Text → List (List Text) → Option Text
first_value i j key [] = none
first_value i j key (r ∷ rows) =
    let rest = first_value i j key rows in if eq_text (nth i r) key then some (nth j r) else rest

-- Some row has the key of an earlier one.
abbrev pub repeats : ℕ → List (List Text) → Bool
repeats i [] = false
repeats i (r ∷ rows) = let rest = repeats i rows in if appears i (nth i r) rows then true else rest

-- The first of two that is there.
abbrev pub or_else : Option Text → Option Text → Option Text
or_else none b = b
or_else (some a) b = some a

abbrev with_pair : ℕ → ℕ → List Text → Table → Table
with_pair i j r t = record (counted t) { lookups = put (nth i r) (nth j r) t.lookups }

module _ (max i j : ℕ) (r : List Text) (rest : List Reading) (t : Table) (room : t.row_count < max)
    (has_key : i < length r) (has_value : j < length r) where
  step_new :
      lookup (nth i r) t.lookups ≡ none
      → load_rows (pos max) (pair_at i j) (row r ∷ rest) t
        ≡ load_rows (pos max) (pair_at i j) rest (with_pair i j r t)
  unfolding load_rows add_row add_lookup
  step_new e =
      rw (load_rows, count-loaded max t room, cell-nth i r has_key, cell-nth j r has_value)
        (ap
          (λ o.
            elim o [ some _ ↦ refused duplicate_key | none ↦ loaded (with_pair i j r t) ] >> λ t''.
            load_rows (pos max) (pair_at i j) rest t'')
          e)

  step_taken :
      (v : Text)
      → lookup (nth i r) t.lookups ≡ some v
      → load_rows (pos max) (pair_at i j) (row r ∷ rest) t ≡ refused duplicate_key
  unfolding load_rows add_row add_lookup
  step_taken v e =
      rw (load_rows, count-loaded max t room, cell-nth i r has_key, cell-nth j r has_value)
        (ap
          (λ o.
            elim o [ some _ ↦ refused duplicate_key | none ↦ loaded (with_pair i j r t) ] >> λ t''.
            load_rows (pos max) (pair_at i j) rest t'')
          e)

-- The table has none of the keys.
abbrev pub AreNew : ℕ → Table → List (List Text) → Type 0
AreNew i t rows = All (λ r. lookup (nth i r) t.lookups ≡ none) rows

-- Both columns are in every row.
abbrev pub HavePair : ℕ → ℕ → List (List Text) → Type 0
HavePair i j rows = All (λ r. (i < length r) × (j < length r)) rows

AreNew-with_pair :
    (i j : ℕ) (r : List Text) (t : Table) (rows : List (List Text))
    → appears i (nth i r) rows ≡ false
    → AreNew i t rows
    → AreNew i (with_pair i j r t) rows
AreNew-with_pair i j r t [] a h = tt
AreNew-with_pair i j r t (r' ∷ rows) a (h, hs) = (
  ground (
    arith,
    h,
    lookup-put (nth i r') (nth i r) (nth j r) t.lookups,
    eq_text_iff (nth i r) (nth i r'),
    eq_text_iff (nth i r') (nth i r),
  ),
  AreNew-with_pair i j r t rows (ground arith) hs,
)

-- What a load of rows makes of a table.
pub record Grown (i j : ℕ) (rows : List (List Text)) (t t' : Table) : Type 0 where
  pub count : t'.row_count ≡ t.row_count + length rows
  pub mode : t'.mode ≡ t.mode
  pub name : t'.name ≡ t.name
  pub pairs :
      (key : Text)
      → lookup key t'.lookups ≡ or_else (first_value i j key rows) (lookup key t.lookups)

first_value-none :
    (i j : ℕ) (key : Text) (rows : List (List Text))
    → appears i key rows ≡ false
    → first_value i j key rows ≡ none
first_value-none i j key [] e = refl
first_value-none i j key (r ∷ rows) e = ground (arith, first_value-none i j key rows)

pairs-cons :
    (i j : ℕ) (key : Text) (r : List Text) (rows : List (List Text)) (t : Table)
    → appears i (nth i r) rows ≡ false
    → or_else (first_value i j key rows) (lookup key (put (nth i r) (nth j r) t.lookups))
      ≡ or_else (first_value i j key (r ∷ rows)) (lookup key t.lookups)
pairs-cons i j key r rows t a = elim (Bool-cases (eq_text (nth i r) key)) [
  | inl same ↦
      let e : appears i key rows ≡ false = rw ((eq_text_iff (nth i r) key).0 same) at a in
      let none_later = first_value-none i j key rows e in
      let new = lookup-put key (nth i r) (nth j r) t.lookups in rw (none_later, new, same) refl
  | inr other ↦ rw (lookup-put key (nth i r) (nth j r) t.lookups, other) refl
]

Grown-cons :
    (i j : ℕ) (r : List Text) (rows : List (List Text)) (t t' : Table)
    → appears i (nth i r) rows ≡ false
    → Grown i j rows (with_pair i j r t) t'
    → Grown i j (r ∷ rows) t t'
Grown-cons i j r rows t t' a g = record {
  count = omega (arith, g.count);
  mode = g.mode;
  name = g.name;
  pairs = λ key. g.pairs key ∙ pairs-cons i j key r rows t a;
}

pub load_rows-Grown :
    (max i j : ℕ) (rows : List (List Text)) (t : Table)
    → HavePair i j rows
    → t.row_count + length rows ≤ max
    → repeats i rows ≡ false
    → AreNew i t rows
    → (t' : Table) × (load_rows (pos max) (pair_at i j) (map row rows) t ≡ loaded t')
      × Grown i j rows t t'
unfolding load_rows
load_rows-Grown max i j [] t h k d n =
    (t, refl, record { count = omega arith; mode = refl; name = refl; pairs = λ key. refl })
load_rows-Grown max i j (r ∷ rows) t h k d n =
    let a : appears i (nth i r) rows ≡ false = ground arith in
    let (t', e, g) =
      load_rows-Grown max i j rows (with_pair i j r t) h.1 (omega arith) (ground arith)
        (AreNew-with_pair i j r t rows a n.1) in
    (
      t',
      step_new max i j r (map row rows) t (omega arith) h.0.0 h.0.1 n.0 ∙ e,
      Grown-cons i j r rows t t' a g,
    )

-- A key that the table has stands in a row: the source is refused.
load_rows-taken :
    (max i j : ℕ) (key v : Text) (rows : List (List Text)) (t : Table)
    → HavePair i j rows
    → t.row_count + length rows ≤ max
    → lookup key t.lookups ≡ some v
    → appears i key rows ≡ true
    → load_rows (pos max) (pair_at i j) (map row rows) t ≡ refused duplicate_key
load_rows-taken max i j key v [] t h k e a = cc
load_rows-taken max i j key v (r ∷ rows) t h k e a =
    elim (Option-cases (lookup (nth i r) t.lookups)) [
      | inr (w, e') ↦ step_taken max i j r (map row rows) t (omega arith) h.0.0 h.0.1 w e'
      | inl e' ↦
          let later : eq_text (nth i r) key ≡ false =
            ground (arith, eq_text_iff (nth i r) key, e, e') in
          step_new max i j r (map row rows) t (omega arith) h.0.0 h.0.1 e'
          ∙ load_rows-taken max i j key v rows (with_pair i j r t) h.1 (omega arith)
              (lookup-put key (nth i r) (nth j r) t.lookups ∙ rw later e) (rw later at a)
    ]

pub load_rows-repeats :
    (max i j : ℕ) (rows : List (List Text)) (t : Table)
    → HavePair i j rows
    → t.row_count + length rows ≤ max
    → repeats i rows ≡ true
    → load_rows (pos max) (pair_at i j) (map row rows) t ≡ refused duplicate_key
load_rows-repeats max i j [] t h k e = cc
load_rows-repeats max i j (r ∷ rows) t h k e = elim (Option-cases (lookup (nth i r) t.lookups)) [
  | inr (w, e') ↦ step_taken max i j r (map row rows) t (omega arith) h.0.0 h.0.1 w e'
  | inl e' ↦
      step_new max i j r (map row rows) t (omega arith) h.0.0 h.0.1 e'
      ∙ (elim (Bool-cases (appears i (nth i r) rows)) [
        | inl a ↦
            load_rows-taken max i j (nth i r) (nth j r) rows (with_pair i j r t) h.1 (omega arith)
              (lookup-put (nth i r) (nth i r) (nth j r) t.lookups
                ∙ rw (eq_text_refl (nth i r)) refl)
              a
        | inr a ↦ load_rows-repeats max i j rows (with_pair i j r t) h.1 (omega arith) (rw a at e)
      ])
]
