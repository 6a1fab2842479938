-- ===== src/RefTable/Load/Cells.antt =====
-- The cells of uniform rows, and the count of the rows.
use sumpter.Base.{
  ℕ, zero, suc, ◌+◌, ◌≤◌, ◌<◌, ◌≡◌, refl, Bool, true, false, List, [], ◌∷◌, length, arith, ltb,
  if◌then◌else◌,
}
use sumpter.Base.Int.{pos}
use sumpter.Base.Members.{All}
use sumpter.Dsl.{Text}
use sumpter.Dsl.Text.{eq_text}
use sumpter.RefTable.{Table}
use sumpter.RefTable.Load.{loaded, refused, over_rows, cell, count_physical_row}

-- The cell of a column, where the row has one.
abbrev pub nth : ℕ → List Text → Text
nth i [] = []
nth zero (c ∷ cells) = c
nth (suc i) (c ∷ cells) = nth i cells

pub cell-nth : (i : ℕ) (r : List Text) → i < length r → cell i r ≡ loaded (nth i r)
unfolding cell
cell-nth i [] h = absurd (omega arith)
cell-nth zero (c ∷ cells) h = refl
cell-nth (suc i) (c ∷ cells) h = cell-nth i cells (omega arith)

-- The column has the key in some row.
abbrev pub appears : ℕ → Text → List (List Text) → Bool
appears i key [] = false
appears i key (r ∷ rows) =
    let rest = appears i key rows in if eq_text (nth i r) key then true else rest

-- Every row has the column.
abbrev pub HaveColumn : ℕ → List (List Text) → Type 0
HaveColumn i rows = All (λ r. i < length r) rows

abbrev pub counted : Table → Table
counted t = record t { row_count = t.row_count + 1 }

pub count-loaded :
    (max : ℕ) (t : Table) → t.row_count < max → count_physical_row (pos max) t ≡ loaded (counted t)
unfolding count_physical_row
count-loaded max t h =
    let e : ltb max (t.row_count + 1) ≡ false = ground arith in rw (count_physical_row, e) refl

pub count-refused :
    (max : ℕ) (t : Table) → max ≤ t.row_count → count_physical_row (pos max) t ≡ refused over_rows
unfolding count_physical_row
count-refused max t h =
    let e : ltb max (t.row_count + 1) ≡ true = ground arith in rw (count_physical_row, e) refl
