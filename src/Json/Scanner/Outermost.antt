-- ===== src/Json/Scanner/Outermost.antt =====
-- The scanner between records: each call of Next returns the next one of the document.
use mathlib.Core.Path.{subst}
use sumpter.Base.{
  ℕ, ◌+◌, ◌≡◌, refl, sym, ap, ◌∙◌, Bool, true, false, Option, none, List, [], ◌∷◌, ◌++◌, length,
  length-append, arith, inl, inr, Bool-cases,
}
use sumpter.Dsl.{Text}
use sumpter.Json.{
  open_object, close_object, open_array, close_array, string, Event, DecoderError, Walker,
  read_token,
}
use sumpter.Json.Scanner.{Frame, OpenRecord, RecordScanner, Outcome, loop}
use sumpter.Json.Scanner.States.{Inv, read_token-position, read_token-depth, read_token-Inv}
use sumpter.Json.Document.{
  Value, scalar, object, array, Members, end_members, member, Items, end_items, item, event, size,
  member_events, item_events, value_size, members_size, items_size, is_record, inner_depth,
  own_record, value_records, member_records, item_records, ValueFits, MembersFit, ItemsFit,
}
use sumpter.Json.Document.Numbers.{length-own_record}
use sumpter.Json.Document.Ranges.{Within-value_records, Within-mono}
use sumpter.Json.Scanner.Rounds.{
  on, Leads-to, at_value, frame, deeper, loop-end_members, loop-end_items, loop-item, loop-member,
}
use sumpter.Json.Scanner.Entered.{scalar-entered, object-entered, array-entered}
use sumpter.Json.Scanner.Yields.{IsCopy}
use sumpter.Json.Scanner.Between.{
  Tells, Leads-Tells, Tells-from, Tells-to, says-both, free, free-Inv, end-Tells,
}
use sumpter.Json.Scanner.Picked.{record-object, record-array}

module _ (input : ℕ → ℕ) (name : Text) (anywhere size_only : Bool) (last : DecoderError) where
  abbrev no_records : ℕ → List OpenRecord
  no_records c = []

  abbrev values : Value → Text → Bool → ℕ → ℕ → ℕ → List OpenRecord
  values = value_records name anywhere

  abbrev members : Members → ℕ → ℕ → ℕ → List OpenRecord
  members = member_records name anywhere

  abbrev items : Items → Text → ℕ → ℕ → ℕ → List OpenRecord
  items = item_records name anywhere

  abbrev value_at :
      Value
      → List Event
      → Text
      → Bool
      → ℕ
      → Walker
      → List Frame
      → ℕ
      → Option Text
      → ℕ
      → Outcome × RecordScanner
  value_at v tail n in_array depth w stack count outer at =
      at_value input name anywhere size_only last outer at v tail n in_array depth w stack [] count

  mutual
    unfolding free

    value-outermost :
        (v : Value) (tail : List Event) (n : Text) (in_array : Bool) (depth : ℕ) (w : Walker)
        (stack : List Frame) (count pos nesting k : ℕ) (outer : Option Text) (at : ℕ)
        → w.position ≡ pos
        → w.depth ≡ nesting
        → Inv input w pos
        → IsCopy input name anywhere size_only last outer at
        → ValueFits input v nesting pos
        → Tells input name anywhere size_only last
            (value_at v tail n in_array depth w stack count outer at)
            tail
            stack
            (values v n in_array depth count pos)
            (count + length (values v n in_array depth count pos))
            (pos + value_size v)
            nesting
            k
    value-outermost (scalar sc m) tail n in_array depth w stack count pos nesting k outer at p d inv
          copy fits =
        let b : Bool = is_record name anywhere n in_array depth (scalar sc m) in
        let vs : List OpenRecord = own_record b (scalar sc m) depth count pos no_records in
        Leads-Tells input name anywhere size_only last _ tail stack vs (count + length vs)
          (pos + size m) nesting pos k outer at copy
          (Within-mono (pos + m.gap) (pos + size m) _ _ vs (omega arith) (omega arith)
            (Within-value_records name anywhere (scalar sc m) n in_array depth count pos))
          (Leads-to input name anywhere size_only last outer at _ tail stack _ _ _ _ _ _ nesting pos
            refl (omega (arith, length-own_record b (scalar sc m) depth count pos no_records)) refl
            (scalar-entered input name anywhere size_only last outer at b sc m tail n in_array depth
              w stack [] count pos nesting pos refl p d inv fits.0 fits.1 tt))
    value-outermost (object m ms) tail n in_array depth w stack count pos nesting k outer at p d inv
          copy fits =
        let inner : ℕ → List OpenRecord = λ c. members ms (depth + 1) c (pos + size m) in
        let w' : Walker = read_token input (event open_object m) w in
        let inv' = read_token-Inv input open_object m w pos inv in
        let to : w'.position ≡ pos + size m =
          read_token-position input open_object m w ∙ ap (λ x. x + size m) p in
        let x : Outcome × RecordScanner =
          value_at (object m ms) tail n in_array depth w stack count outer at in
        elim (Bool-cases (is_record name anywhere n in_array depth (object m ms))) [
          | inl picked ↦
              subst
                (λ b.
                  Tells input name anywhere size_only last x tail stack
                    (own_record b (object m ms) depth count pos inner)
                    (count + length (own_record b (object m ms) depth count pos inner))
                    (pos + value_size (object m ms)) nesting k)
                (sym picked)
                (record-object input name anywhere size_only last m ms tail n in_array depth w stack
                  count pos nesting k outer at picked p d inv copy fits)
          | inr passed ↦
              subst
                (λ b.
                  Tells input name anywhere size_only last x tail stack
                    (own_record b (object m ms) depth count pos inner)
                    (count + length (own_record b (object m ms) depth count pos inner))
                    (pos + value_size (object m ms)) nesting k)
                (sym passed)
                (Tells-from input name anywhere size_only last _ _ tail stack (inner count) _ _
                  nesting k
                  (object-entered input name anywhere size_only last outer at false m ms tail n
                    in_array depth w stack [] count pos pos passed p (omega (arith, fits.2)) inv
                    fits.0 fits.1)
                  (Tells-to input name anywhere size_only last _ tail stack (inner count) _ _ _ _
                    nesting k refl (omega arith)
                    (members-outermost ms tail n [] (depth + 1) (deeper w') stack count
                      (pos + size m) nesting k outer at to
                      (omega (arith, read_token-depth input open_object m w))
                      (inv'.0, inv'.1, omega (arith, inv'.2), omega (arith, to)) copy fits.3)))
        ]
    value-outermost (array m is) tail n in_array depth w stack count pos nesting k outer at p d inv
          copy fits =
        let inner : ℕ → List OpenRecord =
          λ c. items is n (inner_depth in_array (array m is) depth) c (pos + size m) in
        let w' : Walker = read_token input (event open_array m) w in
        let inv' = read_token-Inv input open_array m w pos inv in
        let to : w'.position ≡ pos + size m =
          read_token-position input open_array m w ∙ ap (λ x. x + size m) p in
        let x : Outcome × RecordScanner =
          value_at (array m is) tail n in_array depth w stack count outer at in
        elim (Bool-cases (is_record name anywhere n in_array depth (array m is))) [
          | inl picked ↦
              subst
                (λ b.
                  Tells input name anywhere size_only last x tail stack
                    (own_record b (array m is) depth count pos inner)
                    (count + length (own_record b (array m is) depth count pos inner))
                    (pos + value_size (array m is)) nesting k)
                (sym picked)
                (record-array input name anywhere size_only last m is tail n in_array depth w stack
                  count pos nesting k outer at picked p d inv copy fits)
          | inr passed ↦
              subst
                (λ b.
                  Tells input name anywhere size_only last x tail stack
                    (own_record b (array m is) depth count pos inner)
                    (count + length (own_record b (array m is) depth count pos inner))
                    (pos + value_size (array m is)) nesting k)
                (sym passed)
                (Tells-from input name anywhere size_only last _ _ tail stack (inner count) _ _
                  nesting k
                  (array-entered input name anywhere size_only last outer at false m is tail n
                    in_array depth w stack [] count pos pos passed p (omega (arith, fits.2)) inv
                    fits.0 fits.1)
                  (Tells-to input name anywhere size_only last _ tail stack (inner count) _ _ _ _
                    nesting k refl (omega arith)
                    (items-outermost is tail n [] (inner_depth in_array (array m is) depth)
                      (deeper w') stack count (pos + size m) nesting k outer at to
                      (omega (arith, read_token-depth input open_array m w))
                      (inv'.0, inv'.1, omega (arith, inv'.2), omega (arith, to)) copy fits.3)))
        ]

    pub members-outermost :
        (ms : Members) (tail : List Event) (n : Text) (seen : List Text) (depth : ℕ) (w : Walker)
        (stack : List Frame) (count pos nesting k : ℕ) (outer : Option Text) (at : ℕ)
        → w.position ≡ pos
        → w.depth ≡ nesting + 1
        → Inv input w pos
        → IsCopy input name anywhere size_only last outer at
        → MembersFit input ms seen (nesting + 1) pos
        → Tells input name anywhere size_only last
            (loop input (member_events ms tail) (
              on input name anywhere size_only last outer at
                (member_events ms tail)
                w
                (frame true n seen none depth ∷ stack)
                []
                count))
            tail
            stack
            (members ms depth count pos)
            (count + length (members ms depth count pos))
            (pos + members_size ms)
            nesting
            k
    members-outermost (end_members m) tail n seen depth w stack count pos nesting k outer at p d inv
          copy fits =
        end-Tells input name anywhere size_only last _
          (read_token input (event close_object m) (free input name anywhere size_only last w)) tail
          stack count pos nesting k outer at m
          (read_token-Inv input close_object m (free input name anywhere size_only last w) pos
            (free-Inv input name anywhere size_only last w pos p inv))
          copy
          (read_token-position input close_object m (free input name anywhere size_only last w)
            ∙ ap (λ x. x + size m) p)
          (read_token-depth input close_object m (free input name anywhere size_only last w) ∙ d)
          (loop-end_members input name anywhere size_only last outer at m tail w n seen none depth
            stack [] count tt)
    members-outermost (member key mk v ms) tail n seen depth w stack count pos nesting k outer at p
          d inv copy fits =
        let w' : Walker =
          read_token input (event (string key) mk) (free input name anywhere size_only last w) in
        let vs : List OpenRecord = values v key false depth count (pos + size mk) in
        let us : List OpenRecord =
          members ms depth (count + length vs) (pos + size mk + value_size v) in
        let inv' =
          read_token-Inv input (string key) mk (free input name anywhere size_only last w) pos
            (free-Inv input name anywhere size_only last w pos p inv) in
        let to : w'.position ≡ pos + size mk =
          read_token-position input (string key) mk (free input name anywhere size_only last w)
          ∙ ap (λ x. x + size mk) p in
        let (w2, outer2, at2, inv2, copy2, p2, d2, e2) =
          value-outermost v (member_events ms tail) key false depth w'
            (frame true n (key ∷ seen) none depth ∷ stack) count (pos + size mk) (nesting + 1)
            (length us + k) outer at to
            (read_token-depth input (string key) mk (free input name anywhere size_only last w) ∙ d)
            (inv'.0, inv'.1, omega (arith, inv'.2), omega (arith, to)) copy fits.1 in
        let (w3, outer3, at3, inv3, copy3, p3, d3, e3) =
          members-outermost ms tail n (key ∷ seen) depth w2 stack (count + length vs)
            (pos + size mk + value_size v) nesting k outer2 at2 p2 d2 inv2 copy2 fits.2 in
        Tells-to input name anywhere size_only last _ tail stack (vs ++ us)
          (count + length vs + length us) _ (pos + size mk + value_size v + members_size ms) _
          nesting k (omega (arith, length-append vs us)) (omega arith)
          (Tells-from input name anywhere size_only last _ _ tail stack (vs ++ us) _ _ nesting k
            (loop-member input name anywhere size_only last outer at key mk v
              (member_events ms tail) w n seen none depth stack [] count tt fits.0)
            (
              w3,
              outer3,
              at3,
              inv3,
              copy3,
              p3,
              d3,
              says-both input name anywhere size_only last vs us k _ _ _ e2 e3,
            ))

    pub items-outermost :
        (is : Items) (tail : List Event) (n : Text) (seen : List Text) (depth : ℕ) (w : Walker)
        (stack : List Frame) (count pos nesting k : ℕ) (outer : Option Text) (at : ℕ)
        → w.position ≡ pos
        → w.depth ≡ nesting + 1
        → Inv input w pos
        → IsCopy input name anywhere size_only last outer at
        → ItemsFit input is (nesting + 1) pos
        → Tells input name anywhere size_only last
            (loop input (item_events is tail) (
              on input name anywhere size_only last outer at
                (item_events is tail)
                w
                (frame false n seen none depth ∷ stack)
                []
                count))
            tail
            stack
            (items is n depth count pos)
            (count + length (items is n depth count pos))
            (pos + items_size is)
            nesting
            k
    items-outermost (end_items m) tail n seen depth w stack count pos nesting k outer at p d inv
          copy fits =
        end-Tells input name anywhere size_only last _
          (read_token input (event close_array m) (free input name anywhere size_only last w)) tail
          stack count pos nesting k outer at m
          (read_token-Inv input close_array m (free input name anywhere size_only last w) pos
            (free-Inv input name anywhere size_only last w pos p inv))
          copy
          (read_token-position input close_array m (free input name anywhere size_only last w)
            ∙ ap (λ x. x + size m) p)
          (read_token-depth input close_array m (free input name anywhere size_only last w) ∙ d)
          (loop-end_items input name anywhere size_only last outer at m tail w n seen none depth
            stack [] count tt)
    items-outermost (item v is) tail n seen depth w stack count pos nesting k outer at p d inv copy
          fits =
        let vs : List OpenRecord = values v n true depth count pos in
        let us : List OpenRecord = items is n depth (count + length vs) (pos + value_size v) in
        let (w2, outer2, at2, inv2, copy2, p2, d2, e2) =
          value-outermost v (item_events is tail) n true depth
            (free input name anywhere size_only last w) (frame false n seen none depth ∷ stack)
            count pos (nesting + 1) (length us + k) outer at p d
            (free-Inv input name anywhere size_only last w pos p inv) copy fits.0 in
        let (w3, outer3, at3, inv3, copy3, p3, d3, e3) =
          items-outermost is tail n seen depth w2 stack (count + length vs) (pos + value_size v)
            nesting k outer2 at2 p2 d2 inv2 copy2 fits.1 in
        Tells-to input name anywhere size_only last _ tail stack (vs ++ us)
          (count + length vs + length us) _ (pos + value_size v + items_size is) _ nesting k
          (omega (arith, length-append vs us)) (omega arith)
          (Tells-from input name anywhere size_only last _ _ tail stack (vs ++ us) _ _ nesting k
            (loop-item input name anywhere size_only last outer at v (item_events is tail) w n seen
              none depth stack [] count tt)
            (
              w3,
              outer3,
              at3,
              inv3,
              copy3,
              p3,
              d3,
              says-both input name anywhere size_only last vs us k _ _ _ e2 e3,
            ))
