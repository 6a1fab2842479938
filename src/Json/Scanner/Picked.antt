-- ===== src/Json/Scanner/Picked.antt =====
-- The scanner between records: a value that is a record itself.
use sumpter.Base.{ℕ, suc, ◌+◌, ◌≡◌, ap, ◌∙◌, Bool, true, Option, some, List, [], ◌∷◌, length, arith}
use sumpter.Dsl.{Text}
use sumpter.Json.{open_object, open_array, Event, DecoderError, Walker, read_token}
use sumpter.Json.Scanner.{Frame, OpenRecord, RecordScanner, Outcome, mark_record}
use sumpter.Json.Scanner.States.{Inv, read_token-position, read_token-depth, read_token-Inv, undone}
use sumpter.Json.Document.{
  Value, object, array, Members, Items, Mark, event, size, value_size, members_size, items_size,
  is_record, inner_depth, own_record, value_records, member_records, item_records, ValueFits,
}
use sumpter.Json.Document.Numbers.{mark_record-own}
use sumpter.Json.Document.Ranges.{
  Within-own_record, Within-member_records, Within-item_records, Within-mono,
}
use sumpter.Json.Scanner.Rounds.{Leads-from, Leads-to, at_value, deeper}
use sumpter.Json.Scanner.Entered.{object-entered, array-entered}
use sumpter.Json.Scanner.Nested.{members-nested, items-nested}
use sumpter.Json.Scanner.Yields.{IsCopy}
use sumpter.Json.Scanner.Between.{Tells, Leads-Tells}

module _ (input : ℕ → ℕ) (name : Text) (anywhere size_only : Bool) (last : DecoderError) where
  abbrev no_records : ℕ → List OpenRecord
  no_records c = []

  abbrev values : Value → Text → Bool → ℕ → ℕ → ℕ → List OpenRecord
  values = value_records name anywhere

  abbrev members : Members → ℕ → ℕ → ℕ → List OpenRecord
  members = member_records name anywhere

  abbrev items : Items → Text → ℕ → ℕ → ℕ → List OpenRecord
  items = item_records name anywhere

  abbrev value_at :
      Value
      → List Event
      → Text
      → Bool
      → ℕ
      → Walker
      → List Frame
      → ℕ
      → Option Text
      → ℕ
      → Outcome × RecordScanner
  value_at v tail n in_array depth w stack count outer at =
      at_value input name anywhere size_only last outer at v tail n in_array depth w stack [] count

  -- A value that is a record itself
  pub record-object :
      (m : Mark) (ms : Members) (tail : List Event) (n : Text) (in_array : Bool) (depth : ℕ)
      (w : Walker) (stack : List Frame) (count pos nesting k : ℕ) (outer : Option Text) (at : ℕ)
      → is_record name anywhere n in_array depth (object m ms) ≡ true
      → w.position ≡ pos
      → w.depth ≡ nesting
      → Inv input w pos
      → IsCopy input name anywhere size_only last outer at
      → ValueFits input (object m ms) nesting pos
      → Tells input name anywhere size_only last
          (value_at (object m ms) tail n in_array depth w stack count outer at)
          tail
          stack
          (own_record true
            (object m ms)
            depth
            count
            pos
            (λ c. members ms (depth + 1) c (pos + size m)))
          (count + suc (length (members ms (depth + 1) (count + 1) (pos + size m))))
          (pos + value_size (object m ms))
          nesting
          k
  record-object m ms tail n in_array depth w stack count pos nesting k outer at e p d inv copy
        fits =
      let inner : ℕ → List OpenRecord = λ c. members ms (depth + 1) c (pos + size m) in
      let w' : Walker = read_token input (event open_object m) w in
      let inv' = read_token-Inv input open_object m w pos inv in
      let to : w'.position ≡ pos + size m =
        read_token-position input open_object m w ∙ ap (λ x. x + size m) p in
      Leads-Tells input name anywhere size_only last _ tail stack
        (own_record true (object m ms) depth count pos inner) _ (pos + value_size (object m ms))
        nesting (pos + m.gap) k outer at copy
        (Within-own_record true (object m ms) depth count pos inner (omega arith) (
          Within-mono (pos + size m) (pos + size m + members_size ms) _ _ (inner (count + 1))
            (omega arith) (omega arith)
            (Within-member_records name anywhere ms (depth + 1) (count + 1) (pos + size m))))
        (Leads-from input name anywhere size_only last outer at _ _ tail stack _ _ _ nesting
          (pos + m.gap)
          (object-entered input name anywhere size_only last outer at true m ms tail n in_array
            depth w stack [] count pos pos e p (omega (arith, fits.2)) inv fits.0 fits.1)
          (Leads-to input name anywhere size_only last outer at _ tail stack _ _ _ _ _ _ nesting
            (pos + m.gap)
            (ap
                (λ y.
                  mark_record (some (count + 1)) y
                    (undone (count + 1) (pos + m.gap) depth ∷ inner (count + 1)))
                (omega arith)
              ∙ mark_record-own true (object m ms) depth count pos inner [] tt)
            (omega arith) (omega arith)
            (members-nested input name anywhere size_only last outer at (count + 1) (pos + m.gap)
              depth ms tail n [] (some (count + 1)) (depth + 1) (deeper w') stack [] (count + 1)
              (pos + size m) nesting to (omega (arith, read_token-depth input open_object m w))
              (inv'.0, inv'.1, omega (arith, inv'.2), omega (arith, to)) (omega arith, tt) fits.3)))

  pub record-array :
      (m : Mark) (is : Items) (tail : List Event) (n : Text) (in_array : Bool) (depth : ℕ)
      (w : Walker) (stack : List Frame) (count pos nesting k : ℕ) (outer : Option Text) (at : ℕ)
      → is_record name anywhere n in_array depth (array m is) ≡ true
      → w.position ≡ pos
      → w.depth ≡ nesting
      → Inv input w pos
      → IsCopy input name anywhere size_only last outer at
      → ValueFits input (array m is) nesting pos
      → Tells input name anywhere size_only last
          (value_at (array m is) tail n in_array depth w stack count outer at)
          tail
          stack
          (own_record true
            (array m is)
            depth
            count
            pos
            (λ c. items is n (inner_depth in_array (array m is) depth) c (pos + size m)))
          (count
            + suc (
                length (
                  items is n (inner_depth in_array (array m is) depth) (count + 1) (pos + size m))))
          (pos + value_size (array m is))
          nesting
          k
  record-array m is tail n in_array depth w stack count pos nesting k outer at e p d inv copy fits =
      let inner : ℕ → List OpenRecord =
        λ c. items is n (inner_depth in_array (array m is) depth) c (pos + size m) in
      let w' : Walker = read_token input (event open_array m) w in
      let inv' = read_token-Inv input open_array m w pos inv in
      let to : w'.position ≡ pos + size m =
        read_token-position input open_array m w ∙ ap (λ x. x + size m) p in
      Leads-Tells input name anywhere size_only last _ tail stack
        (own_record true (array m is) depth count pos inner) _ (pos + value_size (array m is))
        nesting (pos + m.gap) k outer at copy
        (Within-own_record true (array m is) depth count pos inner (omega arith) (
          Within-mono (pos + size m) (pos + size m + items_size is) _ _ (inner (count + 1))
            (omega arith) (omega arith)
            (Within-item_records name anywhere is n (inner_depth in_array (array m is) depth)
              (count + 1) (pos + size m))))
        (Leads-from input name anywhere size_only last outer at _ _ tail stack _ _ _ nesting
          (pos + m.gap)
          (array-entered input name anywhere size_only last outer at true m is tail n in_array depth
            w stack [] count pos pos e p (omega (arith, fits.2)) inv fits.0 fits.1)
          (Leads-to input name anywhere size_only last outer at _ tail stack _ _ _ _ _ _ nesting
            (pos + m.gap)
            (ap
                (λ y.
                  mark_record (some (count + 1)) y
                    (undone (count + 1) (pos + m.gap) depth ∷ inner (count + 1)))
                (omega arith)
              ∙ mark_record-own true (array m is) depth count pos inner [] tt)
            (omega arith) (omega arith)
            (items-nested input name anywhere size_only last outer at (count + 1) (pos + m.gap)
              depth is tail n [] (some (count + 1)) (inner_depth in_array (array m is) depth)
              (deeper w') stack [] (count + 1) (pos + size m) nesting to
              (omega (arith, read_token-depth input open_array m w))
              (inv'.0, inv'.1, omega (arith, inv'.2), omega (arith, to)) (omega arith, tt) fits.3)))
