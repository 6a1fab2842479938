-- ===== src/RefTable/Load/Membership.antt =====
-- A membership table answers for the set of the cells of its column.
use sumpter.Base.{
  ℕ, ◌+◌, ◌≤◌, ◌<◌, ◌≡◌, refl, ◌∙◌, true, ◌||◌, some, List, [], ◌∷◌, map, length, arith,
  if◌then◌else◌, ltb, Bool-cases, inl, inr,
}
use sumpter.Base.Int.{pos}
use sumpter.Dsl.{Text}
use sumpter.Dsl.Text.{eq_text, codes}
use sumpter.TextMap.{lookup, lookup-put}
use sumpter.RefTable.{Table, mode_membership, is_some}
use sumpter.RefTable.Load.{
  Spec, Line, loaded, refused, over_rows, Reading, row, member_at, spec_mode, is_valid,
  column_index, resolve_columns, new_table, add_membership, add_row, load_rows, load_delimited,
  load,
}
use sumpter.RefTable.Load.Cells.{
  nth, cell-nth, appears, HaveColumn, counted, count-loaded, count-refused,
}

-- The table with the cell of one more row.
abbrev with_row : ℕ → List Text → Table → Table
with_row i r t = add_membership (nth i r) (counted t)

step-loaded :
    (max i : ℕ) (r : List Text) (rest : List Reading) (t : Table)
    → t.row_count < max
    → i < length r
    → load_rows (pos max) (member_at i) (row r ∷ rest) t
      ≡ load_rows (pos max) (member_at i) rest (with_row i r t)
unfolding load_rows add_row
step-loaded max i r rest t h k = rw (load_rows, count-loaded max t h, cell-nth i r k) refl

-- What a load of rows makes of a table.
record Grown (i : ℕ) (rows : List (List Text)) (t t' : Table) : Type 0 where
  count : t'.row_count ≡ t.row_count + length rows
  mode : t'.mode ≡ t.mode
  name : t'.name ≡ t.name
  members :
      (key : Text)
      → is_some (lookup key t'.membership)
        ≡ (if appears i key rows then true else is_some (lookup key t.membership))

Grown-cons :
    (i : ℕ) (r : List Text) (rows : List (List Text)) (t t' : Table)
    → Grown i rows (with_row i r t) t'
    → Grown i (r ∷ rows) t t'
unfolding add_membership
Grown-cons i r rows t t' g = record {
  count = omega (arith, g.count);
  mode = g.mode;
  name = g.name;
  members = λ key. ground (arith, g.members key, lookup-put key (nth i r) tt t.membership);
}

load_rows-Grown :
    (max i : ℕ) (rows : List (List Text)) (t : Table)
    → HaveColumn i rows
    → t.row_count + length rows ≤ max
    → (t' : Table) × (load_rows (pos max) (member_at i) (map row rows) t ≡ loaded t')
      × Grown i rows t t'
unfolding load_rows add_membership
load_rows-Grown max i [] t h k =
    (t, refl, record { count = omega arith; mode = refl; name = refl; members = λ key. refl })
load_rows-Grown max i (r ∷ rows) t h k =
    let (t', e, g) = load_rows-Grown max i rows (with_row i r t) h.1 (omega arith) in
    (t', step-loaded max i r (map row rows) t (omega arith) h.0 ∙ e, Grown-cons i r rows t t' g)

load_rows-over :
    (max i : ℕ) (rows : List (List Text)) (t : Table)
    → HaveColumn i rows
    → max < t.row_count + length rows
    → t.row_count ≤ max
    → load_rows (pos max) (member_at i) (map row rows) t ≡ refused over_rows
unfolding load_rows add_membership
load_rows-over max i [] t h k l = absurd (omega arith)
load_rows-over max i (r ∷ rows) t h k l = elim (Bool-cases (ltb t.row_count max)) [
  | inl room ↦
      step-loaded max i r (map row rows) t (ground arith) h.0
      ∙ load_rows-over max i rows (with_row i r t) h.1 (omega arith) (ground arith)
  | inr full ↦ rw (load_rows, count-refused max t (ground arith)) refl
]

-- A spec of a delimited membership table with a row limit, and the column's place in the header.
pub record IsMembershipSource (s : Spec) (header : List Text) (i max : ℕ) : Type 0 where
  pub valid : is_valid s ≡ true
  pub delimited : (eq_text s.format (codes "csv") || eq_text s.format (codes "tsv")) ≡ true
  pub headed : s.header ≡ true
  pub member : spec_mode s ≡ mode_membership
  pub limit : s.max_rows ≡ pos max
  pub column : column_index s.column header ≡ some i

load-rows :
    (s : Spec) (header : List Text) (i max : ℕ) (rows : List (List Text)) (lines : List Line)
    → IsMembershipSource s header i max
    → load s (row header ∷ map row rows) lines
      ≡ load_rows (pos max) (member_at i) (map row rows) (new_table s)
unfolding load load_delimited resolve_columns new_table
load-rows s header i max rows lines m =
    rw (load, m.valid, m.delimited, m.member, m.column, m.limit, m.headed) refl

-- Let a spec of a delimited membership table be valid, its column stand in the header, every row have
-- that column, and no more rows be there than the limit. Then Load gives a table of that name which
-- counts the rows, and which has a key exactly where the column has it in some row.
pub load-membership :
    (s : Spec) (header : List Text) (i max : ℕ) (rows : List (List Text)) (lines : List Line)
    → IsMembershipSource s header i max
    → HaveColumn i rows
    → length rows ≤ max
    → (t : Table) × (load s (row header ∷ map row rows) lines ≡ loaded t)
      × (t.name ≡ s.name)
      × (t.mode ≡ mode_membership)
      × (t.row_count ≡ length rows)
      × ((key : Text) → is_some (lookup key t.membership) ≡ appears i key rows)
unfolding new_table lookup
load-membership s header i max rows lines m h fits =
    let (t, e, g) = load_rows-Grown max i rows (new_table s) h (omega arith) in
    (
      t,
      load-rows s header i max rows lines m ∙ e,
      g.name,
      g.mode ∙ m.member,
      omega (arith, g.count),
      λ key. ground (arith, g.members key),
    )

-- For such a spec of a membership table and such rows, of which there are more than the limit, Load refuses the source for
-- its rows, whatever their cells are.
pub load-over_rows :
    (s : Spec) (header : List Text) (i max : ℕ) (rows : List (List Text)) (lines : List Line)
    → IsMembershipSource s header i max
    → HaveColumn i rows
    → max < length rows
    → load s (row header ∷ map row rows) lines ≡ refused over_rows
unfolding new_table
load-over_rows s header i max rows lines m h over =
    load-rows s header i max rows lines m
    ∙ load_rows-over max i rows (new_table s) h (omega arith) (omega arith)
