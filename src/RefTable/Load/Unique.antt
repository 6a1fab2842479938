-- ===== src/RefTable/Load/Unique.antt =====
-- A lookup table from a delimited source: its keys must be unique.
use sumpter.Base.{
  ℕ, ◌≤◌, ◌≡◌, refl, ◌∙◌, true, false, ◌||◌, Option, none, some, List, [], ◌∷◌, map, length, arith,
}
use sumpter.Base.Int.{pos}
use sumpter.Base.Members.{All}
use sumpter.Dsl.{Text}
use sumpter.Dsl.Text.{eq_text, codes}
use sumpter.TextMap.{lookup}
use sumpter.RefTable.{Table, mode_lookup}
use sumpter.RefTable.Load.{
  Spec, Line, loaded, refused, duplicate_key, row, pair_at, spec_mode, is_valid, column_index,
  resolve_columns, new_table, load_rows, load_delimited, load,
}
use sumpter.RefTable.Load.Lookups.{
  first_value, repeats, HavePair, or_else, load_rows-Grown, load_rows-repeats,
}

-- A spec of a delimited lookup table with a row limit, and the columns' places in the header.
pub record IsLookupSource (s : Spec) (header : List Text) (i j max : ℕ) : Type 0 where
  pub valid : is_valid s ≡ true
  pub delimited : (eq_text s.format (codes "csv") || eq_text s.format (codes "tsv")) ≡ true
  pub headed : s.header ≡ true
  pub pairs : spec_mode s ≡ mode_lookup
  pub limit : s.max_rows ≡ pos max
  pub key : column_index s.key_column header ≡ some i
  pub value : column_index s.value_column header ≡ some j

load-rows :
    (s : Spec) (header : List Text) (i j max : ℕ) (rows : List (List Text)) (lines : List Line)
    → IsLookupSource s header i j max
    → load s (row header ∷ map row rows) lines
      ≡ load_rows (pos max) (pair_at i j) (map row rows) (new_table s)
unfolding load load_delimited resolve_columns new_table
load-rows s header i j max rows lines m =
    rw (load, m.valid, m.delimited, m.pairs, m.key, m.value, m.limit, m.headed) refl

or_else-none : (o : Option Text) → or_else o none ≡ o
or_else-none none = refl
or_else-none (some v) = refl

All-none : (rows : List (List Text)) → All (λ r. ◌≡◌ {A = Option Text} none none) rows
All-none [] = tt
All-none (r ∷ rows) = (refl, All-none rows)

-- Let a spec of a delimited lookup table be valid, its two columns stand in the header, every row have
-- both, no two rows have one key, and no more rows be there than the limit. Then Load gives a table of
-- that name which counts the rows, and which gives for a key the value of the row that has it, if there
-- is one.
pub load-lookups :
    (s : Spec) (header : List Text) (i j max : ℕ) (rows : List (List Text)) (lines : List Line)
    → IsLookupSource s header i j max
    → HavePair i j rows
    → length rows ≤ max
    → repeats i rows ≡ false
    → (t : Table) × (load s (row header ∷ map row rows) lines ≡ loaded t)
      × (t.name ≡ s.name)
      × (t.mode ≡ mode_lookup)
      × (t.row_count ≡ length rows)
      × ((key : Text) → lookup key t.lookups ≡ first_value i j key rows)
unfolding new_table lookup
load-lookups s header i j max rows lines m h fits unique =
    let (t, e, g) =
      load_rows-Grown max i j rows (new_table s) h (omega arith) unique (All-none rows) in
    (
      t,
      load-rows s header i j max rows lines m ∙ e,
      g.name,
      g.mode ∙ m.pairs,
      omega (arith, g.count),
      λ key. g.pairs key ∙ or_else-none (first_value i j key rows),
    )

-- Let a spec of a delimited lookup table be valid, its two columns stand in the header, every row have
-- both, and no more rows be there than the limit. If two rows have one key, Load refuses the source for
-- its duplicate key.
pub load-duplicate :
    (s : Spec) (header : List Text) (i j max : ℕ) (rows : List (List Text)) (lines : List Line)
    → IsLookupSource s header i j max
    → HavePair i j rows
    → length rows ≤ max
    → repeats i rows ≡ true
    → load s (row header ∷ map row rows) lines ≡ refused duplicate_key
unfolding new_table
load-duplicate s header i j max rows lines m h fits twice =
    load-rows s header i j max rows lines m
    ∙ load_rows-repeats max i j rows (new_table s) h (omega arith) twice
