-- ===== src/Json/Scanner/Entered.antt =====
-- The rounds of the loop that read the first token of a value.
-- key of a member, and the end of a container.
use mathlib.Core.List.{append-nil}
use sumpter.Base.{
  ℕ, ◌+◌, ◌≤◌, ◌<◌, ◌≡◌, sym, ap, ◌∙◌, Bool, true, false, Option, some, List, [], ◌∷◌, ◌++◌, arith,
}
use sumpter.Dsl.{Text}
use sumpter.Json.{
  Token, open_object, open_array, Event, DecoderError, Walker, read_token, max_depth,
}
use sumpter.Json.Capture.Laws.{Starts}
use sumpter.Json.Scanner.{
  Frame, OpenRecord, RecordScanner, mark_record, start_record, end_scalar, value, stepped, resume,
  loop, loop_value,
}
use sumpter.Json.Scanner.States.{
  Inv, read_token-position, read_token-depth, read_token-Inv, undone, start_record-false,
  start_record-true, enter_container-at_work, entered, after_start, value-first_token,
}
use sumpter.Json.Document.{
  Value, scalar, object, array, Members, Items, Mark, Scalar, first_token, first_mark, event, size,
  member_events, item_events, is_record, inner_depth, own_record,
}
use sumpter.Json.Document.Numbers.{UpTo, counted, owner, with_own, mark_record-own}
use sumpter.Json.Scanner.Rounds.{on, Leads, at_value, deeper, frame}

module _ (input : ℕ → ℕ) (name : Text) (anywhere size_only : Bool) (last : DecoderError)
    (outer : Option Text) (at : ℕ) where
  start_own :
      (b : Bool) (es : List Event) (depth : ℕ) (w : Walker) (stack : List Frame)
      (rs : List OpenRecord) (count pos low : ℕ) (t : Token) (m : Mark)
      → w.position ≡ pos
      → Inv input w low
      → Starts input pos m.gap
      → 0 < m.width
      → start_record b depth w.position (
          on input name anywhere size_only last outer at es
            (read_token input (event t m) w)
            stack
            rs
            count)
        ≡ some (
          owner b count,
          on input name anywhere size_only last outer at es
              (read_token input (event t m) w)
              stack
              (with_own b (undone (count + 1) (pos + m.gap) depth) rs)
              (counted b count),
        )
  start_own false es depth w stack rs count pos low t m p inv s wide =
      start_record-false input name anywhere size_only last es stack rs count outer at depth
        w.position (read_token input (event t m) w)
  start_own true es depth w stack rs count pos low t m p inv s wide =
      let w' : Walker = read_token input (event t m) w in
      ap
        (λ q.
          start_record true depth q
            (on input name anywhere size_only last outer at es w' stack rs count))
        p
      ∙ start_record-true input name anywhere size_only last es stack rs count outer at depth pos
          low m w' (read_token-Inv input t m w low inv) (omega (arith, inv.3))
          (read_token-position input t m w ∙ ap (λ x. x + size m) p) s wide

  -- The record of the value is started, if it is one.
  pub value-entered :
      (b : Bool) (v : Value) (es : List Event) (n : Text) (in_array : Bool) (depth : ℕ) (w : Walker)
      (stack : List Frame) (rs : List OpenRecord) (count pos low : ℕ)
      → is_record name anywhere n in_array depth v ≡ b
      → w.position ≡ pos
      → Inv input w low
      → Starts input pos (first_mark v).gap
      → 0 < (first_mark v).width
      → value depth n (first_token v) in_array w.position (
          on input name anywhere size_only last outer at es
            (read_token input (event (first_token v) (first_mark v)) w)
            stack
            rs
            count)
        ≡ entered input name anywhere size_only last v n in_array depth (owner b count) (
            on input name anywhere size_only last outer at es
              (read_token input (event (first_token v) (first_mark v)) w)
              stack
              (with_own b (undone (count + 1) (pos + (first_mark v).gap) depth) rs)
              (counted b count))
  value-entered b v es n in_array depth w stack rs count pos low e p inv s wide =
      let m : Mark = first_mark v in
      let w' : Walker = read_token input (event (first_token v) m) w in
      let st : RecordScanner =
        on input name anywhere size_only last outer at es w' stack rs count in
      value-first_token input name anywhere size_only last v n in_array depth w.position es w' stack
        rs count outer at
      ∙ ap
          (λ x.
            after_start input name anywhere size_only last v n in_array depth
              (start_record x depth w.position st) st)
          e
      ∙ ap (λ x. after_start input name anywhere size_only last v n in_array depth x st)
          (start_own b es depth w stack rs count pos low (first_token v) m p inv s wide)

  -- What a value comes to, once its record is started or is not
  pub scalar-entered :
      (b : Bool) (sc : Scalar) (m : Mark) (tail : List Event) (n : Text) (in_array : Bool)
      (depth : ℕ) (w : Walker) (stack : List Frame) (rs : List OpenRecord)
      (count pos nesting low : ℕ)
      → is_record name anywhere n in_array depth (scalar sc m) ≡ b
      → w.position ≡ pos
      → w.depth ≡ nesting
      → Inv input w low
      → Starts input pos m.gap
      → 0 < m.width
      → UpTo count rs
      → Leads input name anywhere size_only last outer at
          (at_value input name anywhere size_only last outer at
            (scalar sc m)
            tail
            n
            in_array
            depth
            w
            stack
            rs
            count)
          tail
          stack
          (rs ++ own_record b (scalar sc m) depth count pos (λ c. []))
          (counted b count)
          (pos + size m)
          nesting
          low
  unfolding end_scalar
  scalar-entered b sc m tail n in_array depth w stack rs count pos nesting low e p d inv s wide up =
      let v : Value = scalar sc m in
      let w' : Walker = read_token input (event (first_token v) m) w in
      let to : w'.position ≡ pos + size m =
        read_token-position input (first_token v) m w ∙ ap (λ x. x + size m) p in
      let rs' : List OpenRecord = with_own b (undone (count + 1) (pos + m.gap) depth) rs in
      let marked : mark_record (owner b count) w'.position rs'
          ≡ rs ++ own_record b v depth count pos (λ c. []) =
        ap (λ x. mark_record (owner b count) x rs') to
        ∙ ap (mark_record (owner b count) (pos + size m)) (sym (append-nil rs'))
        ∙ mark_record-own b v depth count pos (λ c. []) rs up in
      (
        w',
        read_token-Inv input (first_token v) m w low inv,
        to,
        read_token-depth input (first_token v) m w ∙ d,
        ap (λ x. resume input (loop input tail) (loop_value input tail) (stepped x))
              (value-entered b v tail n in_array depth w stack rs count pos low e p inv s wide)
            ∙ ap
                (λ x. loop input tail (
                  on input name anywhere size_only last outer at tail w' stack x (counted b count)))
                marked,
      )

  pub object-entered :
      (b : Bool) (m : Mark) (ms : Members) (tail : List Event) (n : Text) (in_array : Bool)
      (depth : ℕ) (w : Walker) (stack : List Frame) (rs : List OpenRecord) (count pos low : ℕ)
      → is_record name anywhere n in_array depth (object m ms) ≡ b
      → w.position ≡ pos
      → w.depth + 1 ≤ max_depth
      → Inv input w low
      → Starts input pos m.gap
      → 0 < m.width
      → at_value input name anywhere size_only last outer at
          (object m ms)
          tail
          n
          in_array
          depth
          w
          stack
          rs
          count
        ≡ loop input (member_events ms tail) (
            on input name anywhere size_only last outer at
              (member_events ms tail)
              (deeper (read_token input (event open_object m) w))
              (frame true n [] (owner b count) (depth + 1) ∷ stack)
              (with_own b (undone (count + 1) (pos + m.gap) depth) rs)
              (counted b count))
  object-entered b m ms tail n in_array depth w stack rs count pos low e p fits inv s wide =
      let es : List Event = member_events ms tail in
      let w' : Walker = read_token input (event open_object m) w in
      let fits' : w'.depth + 1 ≤ max_depth =
        omega (arith, read_token-depth input open_object m w) in
      ap (λ x. resume input (loop input es) (loop_value input es) (stepped x))
        (value-entered b (object m ms) es n in_array depth w stack rs count pos low e p inv s wide
          ∙ enter_container-at_work input name anywhere size_only last es stack
              (with_own b (undone (count + 1) (pos + m.gap) depth) rs) (counted b count) outer at
              true n (depth + 1) (owner b count) w' fits')

  pub array-entered :
      (b : Bool) (m : Mark) (is : Items) (tail : List Event) (n : Text) (in_array : Bool)
      (depth : ℕ) (w : Walker) (stack : List Frame) (rs : List OpenRecord) (count pos low : ℕ)
      → is_record name anywhere n in_array depth (array m is) ≡ b
      → w.position ≡ pos
      → w.depth + 1 ≤ max_depth
      → Inv input w low
      → Starts input pos m.gap
      → 0 < m.width
      → at_value input name anywhere size_only last outer at
          (array m is)
          tail
          n
          in_array
          depth
          w
          stack
          rs
          count
        ≡ loop input (item_events is tail) (
            on input name anywhere size_only last outer at
              (item_events is tail)
              (deeper (read_token input (event open_array m) w))
              (frame false n [] (owner b count) (inner_depth in_array (array m is) depth) ∷ stack)
              (with_own b (undone (count + 1) (pos + m.gap) depth) rs)
              (counted b count))
  array-entered b m is tail n in_array depth w stack rs count pos low e p fits inv s wide =
      let es : List Event = item_events is tail in
      let w' : Walker = read_token input (event open_array m) w in
      let fits' : w'.depth + 1 ≤ max_depth = omega (arith, read_token-depth input open_array m w) in
      ap (λ x. resume input (loop input es) (loop_value input es) (stepped x))
        (value-entered b (array m is) es n in_array depth w stack rs count pos low e p inv s wide
          ∙ enter_container-at_work input name anywhere size_only last es stack
              (with_own b (undone (count + 1) (pos + m.gap) depth) rs) (counted b count) outer at
              false n (inner_depth in_array (array m is) depth) (owner b count) w' fits')
