-- ===== src/Json/Scanner/Between.antt =====
-- The scanner between records: what the calls to come return.
use mathlib.Core.List.{append_assoc, map-append}
use mathlib.Core.Path.{subst}
use sumpter.Base.{
  ℕ, ◌+◌, ◌≤◌, ◌≡◌, sym, ap, ◌∙◌, Bool, Option, List, [], ◌++◌, map, length, length-append, arith,
}
use sumpter.Base.Members.{All, All-mono}
use sumpter.Dsl.{Text}
use sumpter.Json.{Event, DecoderError, Walker}
use sumpter.Json.Scanner.{Frame, OpenRecord, RecordScanner, Outcome, found, loop, close_walker}
use sumpter.Json.Scanner.States.{Inv, freed, freed-Inv}
use sumpter.Json.Document.{Mark, size}
use sumpter.Json.Document.Ranges.{Within}
use sumpter.Json.Scanner.Rounds.{on, Leads}
use sumpter.Json.Scanner.Yields.{IsCopy, IsKept, yielded, told, yield_every}

module _ (input : ℕ → ℕ) (name : Text) (anywhere size_only : Bool) (last : DecoderError) where
  -- After the records, the scanner has read up to `pos`, and no record is open.
  abbrev pub Tells :
      Outcome × RecordScanner → List Event → List Frame → List OpenRecord → ℕ → ℕ → ℕ → ℕ → Type 0
  Tells x tail stack rs count pos nesting k =
      (w : Walker) × (outer : Option Text) × (at : ℕ) × Inv input w pos
      × IsCopy input name anywhere size_only last outer at
      × (w.position ≡ pos)
      × (w.depth ≡ nesting)
      × (told input name anywhere size_only last (length rs + k) x
          ≡ map found (map (yielded input name anywhere size_only last) rs)
            ++ told input name anywhere size_only last k (
                loop input tail
                  (on input name anywhere size_only last outer at tail w stack [] count)))

  IsKept-Within :
      (w : Walker) (lo hi : ℕ) (rs : List OpenRecord)
      → w.capture.base ≤ lo
      → hi ≤ w.read_to
      → Within lo hi rs
      → All (IsKept input name anywhere size_only last w) rs
  IsKept-Within w lo hi rs h k =
      All-mono _ _ (λ r x. (x.0, omega (arith, x.1), x.2, omega (arith, x.3))) rs

  -- From the records that wait to the calls that return them
  pub Leads-Tells :
      (x : Outcome × RecordScanner) (tail : List Event) (stack : List Frame) (rs : List OpenRecord)
      (count pos nesting low k : ℕ) (outer : Option Text) (at : ℕ)
      → IsCopy input name anywhere size_only last outer at
      → Within low pos rs
      → Leads input name anywhere size_only last outer at x tail stack rs count pos nesting low
      → Tells x tail stack rs count pos nesting k
  Leads-Tells x tail stack rs count pos nesting low k outer at copy within (w, inv, p, d, e) =
      let (outer', at', copy', y) =
        yield_every input name anywhere size_only last k tail w stack rs count outer at inv.0
          (IsKept-Within w low pos rs inv.2 (omega (arith, inv.1)) within) copy in
      (
        w,
        outer',
        at',
        (inv.0, inv.1, omega (arith, inv.2, inv.3), omega arith),
        copy',
        p,
        d,
        ap (told input name anywhere size_only last (length rs + k)) e ∙ y,
      )

  abbrev says : ℕ → Outcome × RecordScanner → List Outcome
  says = told input name anywhere size_only last

  abbrev outcomes : List OpenRecord → List Outcome
  outcomes rs = map found (map (yielded input name anywhere size_only last) rs)

  pub says-both :
      (vs us : List OpenRecord) (k : ℕ) (x y : Outcome × RecordScanner) (z : List Outcome)
      → says (length vs + (length us + k)) x ≡ outcomes vs ++ says (length us + k) y
      → says (length us + k) y ≡ outcomes us ++ z
      → says (length (vs ++ us) + k) x ≡ outcomes (vs ++ us) ++ z
  says-both vs us k x y z e f =
      let n : length (vs ++ us) + k ≡ length vs + (length us + k) =
        omega (arith, length-append vs us) in
      let all : outcomes vs ++ outcomes us ≡ outcomes (vs ++ us) = sym (
        ap (map found) (map-append (yielded input name anywhere size_only last) vs us)
        ∙ map-append found _ _) in
      ap (λ j. says j x) n
      ∙ e
      ∙ ap (λ l. outcomes vs ++ l) f
      ∙ sym (append_assoc (outcomes vs) (outcomes us) z)
      ∙ ap (λ l. l ++ z) all

  pub Tells-from :
      (x y : Outcome × RecordScanner) (tail : List Event) (stack : List Frame)
      (rs : List OpenRecord) (count pos nesting k : ℕ)
      → x ≡ y
      → Tells y tail stack rs count pos nesting k
      → Tells x tail stack rs count pos nesting k
  Tells-from x y tail stack rs count pos nesting k e (w, outer, at, inv, copy, p, d, h) =
      (w, outer, at, inv, copy, p, d, ap (says (length rs + k)) e ∙ h)

  pub Tells-to :
      (x : Outcome × RecordScanner) (tail : List Event) (stack : List Frame) (rs : List OpenRecord)
      (c count q pos nesting k : ℕ)
      → c ≡ count
      → q ≡ pos
      → Tells x tail stack rs c q nesting k
      → Tells x tail stack rs count pos nesting k
  Tells-to x tail stack rs c count q pos nesting k f g t =
      subst (λ y. Tells x tail stack rs count y nesting k) g
        (subst (λ y. Tells x tail stack rs y q nesting k) f t)

  -- The walker with what no record needs dropped
  unfoldable pub free : Walker → Walker
  free w = freed input [] w

  pub free-Inv :
      (w : Walker) (pos : ℕ) → w.position ≡ pos → Inv input w pos → Inv input (free w) pos
  unfolding free
  free-Inv w pos p inv = freed-Inv input [] w pos (omega (arith, p)) inv

  pub end-Tells :
      (x : Outcome × RecordScanner) (w : Walker) (tail : List Event) (stack : List Frame)
      (count pos nesting k : ℕ) (outer : Option Text) (at : ℕ) (m : Mark)
      → Inv input w pos
      → IsCopy input name anywhere size_only last outer at
      → w.position ≡ pos + size m
      → w.depth ≡ nesting + 1
      → x
        ≡ loop input tail
            (on input name anywhere size_only last outer at tail (close_walker w) stack [] count)
      → Tells x tail stack [] (count + 0) (pos + size m) nesting k
  end-Tells x w tail stack count pos nesting k outer at m inv copy p d e =
      let j : 0 + k ≡ k = omega arith in
      let c : count ≡ count + 0 = omega arith in
      (
        close_walker w,
        outer,
        at,
        (inv.0, inv.1, omega (arith, inv.2), omega (arith, p)),
        copy,
        p,
        omega (arith, d),
        ap (λ i. says i x) j
            ∙ ap (says k) e
            ∙ ap
                (λ i. says k (
                  loop input tail (
                    on input name anywhere size_only last outer at tail (close_walker w) stack []
                      i)))
                c,
      )
