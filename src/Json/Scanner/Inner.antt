-- ===== src/Json/Scanner/Inner.antt =====
-- The scanner inside of a record: the ends of values and containers.
use sumpter.Base.{
  ℕ, ◌+◌, ◌≡◌, refl, sym, ap, ◌∙◌, Bool, true, false, Option, List, [], ◌∷◌, ◌++◌, length, arith,
}
use sumpter.Dsl.{Text}
use sumpter.Json.{Event, DecoderError, Walker}
use sumpter.Json.Scanner.{
  Frame, OpenRecord, RecordScanner, Outcome, mark_record, loop, close_walker,
}
use sumpter.Json.Scanner.States.{Inv, freed, freed-Inv, undone}
use sumpter.Json.Document.{Value, Mark, first_mark, size, value_size, own_record}
use sumpter.Json.Document.Numbers.{
  UpTo, UpTo-le, All-append, counted, owner, with_own, length-own_record, mark_record-own,
}
use sumpter.Json.Scanner.Rounds.{on, Leads, Leads-to}

module _ (input : ℕ → ℕ) (name : Text) (anywhere size_only : Bool) (last : DecoderError)
    (outer : Option Text) (at num low top_depth : ℕ) where
  -- The outer record, which is not done
  abbrev front : OpenRecord
  front = undone num low top_depth

  abbrev LeadsTo :
      Outcome × RecordScanner → List Event → List Frame → List OpenRecord → ℕ → ℕ → ℕ → Type 0
  LeadsTo x tail stack rs count pos nesting =
      Leads input name anywhere size_only last outer at x tail stack rs count pos nesting low

  pub freed-front-Inv :
      (rs : List OpenRecord) (w : Walker)
      → Inv input w low
      → Inv input (freed input (front ∷ rs) w) low
  freed-front-Inv rs w inv = freed-Inv input (front ∷ rs) w low (ground (arith, inv.3)) inv

  -- The end of a container
  pub closed :
      (x : Outcome × RecordScanner) (w w' : Walker) (tail : List Event) (stack : List Frame)
      (rec : Option ℕ) (rs : List OpenRecord) (count pos nesting : ℕ) (m : Mark)
      → Inv input w' low
      → w'.position ≡ pos + size m
      → w'.depth ≡ nesting + 1
      → x
        ≡ loop input tail (
            on input name anywhere size_only last outer at tail
              (close_walker w')
              stack
              (mark_record rec w'.position rs)
              count)
      → LeadsTo x tail stack (mark_record rec (pos + size m) rs) count (pos + size m) nesting
  closed x w w' tail stack rec rs count pos nesting m inv p d e = (
    close_walker w',
    inv,
    p,
    omega (arith, d),
    e
        ∙ ap
            (λ y. loop input tail (
              on input name anywhere size_only last outer at tail (close_walker w') stack
                (mark_record rec y rs) count))
            p,
  )

  pub with_own-front :
      (b : Bool) (r : OpenRecord) (rs : List OpenRecord)
      → with_own b r (front ∷ rs) ≡ front ∷ with_own b r rs
  with_own-front true r rs = refl
  with_own-front false r rs = refl

  pub UpTo-with_own :
      (b : Bool) (start depth count : ℕ) (rs : List OpenRecord)
      → UpTo count (front ∷ rs)
      → UpTo (counted b count) (front ∷ with_own b (undone (count + 1) start depth) rs)
  UpTo-with_own true start depth count rs up =
      let up' = UpTo-le count (count + 1) (front ∷ rs) (omega arith) up in
      (up'.0, All-append _ rs (undone (count + 1) start depth ∷ []) up'.1 (omega arith, tt))
  UpTo-with_own false start depth count rs up = up

  -- The end of a value that is a container
  pub value-closed :
      (b : Bool) (v : Value) (inner : ℕ → List OpenRecord) (x : Outcome × RecordScanner)
      (tail : List Event) (stack : List Frame) (rs : List OpenRecord)
      (depth count pos q nesting : ℕ)
      → q ≡ pos + value_size v
      → UpTo count (front ∷ rs)
      → LeadsTo x tail stack
          (mark_record (owner b count) q (
            front
            ∷ (with_own b (undone (count + 1) (pos + (first_mark v).gap) depth) rs
                ++ inner (counted b count))))
          (counted b count + length (inner (counted b count)))
          q
          nesting
      → LeadsTo x tail stack
          (front ∷ (rs ++ own_record b v depth count pos inner))
          (count + length (own_record b v depth count pos inner))
          (pos + value_size v)
          nesting
  value-closed b v inner x tail stack rs depth count pos q nesting e up leads =
      let own : OpenRecord = undone (count + 1) (pos + (first_mark v).gap) depth in
      Leads-to input name anywhere size_only last outer at x tail stack _ _ _ _ _ _ nesting low
        (ap (λ y. mark_record (owner b count) q (y ++ inner (counted b count)))
            (sym (with_own-front b own rs))
          ∙ ap
              (λ y.
                mark_record (owner b count) y
                  (with_own b own (front ∷ rs) ++ inner (counted b count)))
              e
          ∙ mark_record-own b v depth count pos inner (front ∷ rs) up)
        (sym (length-own_record b v depth count pos inner)) e leads
