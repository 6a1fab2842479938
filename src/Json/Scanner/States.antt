-- ===== src/Json/Scanner/States.antt =====
-- The states of the scanner at work, and what reading, releasing and the start of a value do to them.
use sumpter.Base.{
  ℕ, ◌+◌, ◌-◌, ◌≤◌, ◌<◌, ◌≡◌, refl, Bool, true, false, not, ◌&&◌, Option, none, some, List, [], ◌∷◌,
  ◌++◌, arith, ltb,
}
use sumpter.Dsl.{Text}
use sumpter.Json.{
  Token, Event, DecoderError, JsonError, internal_error, Walker, read_token, later, enter,
  max_depth,
}
use sumpter.Json.Capture.{discard_before, value_start, bytes_from}
use sumpter.Json.Capture.Laws.{
  Holds, Starts, write-Holds, write-base, discard_before-Holds, discard_before-base,
  value_start-Holds,
}
use sumpter.Json.Scanner.{
  Frame, OpenRecord, RecordScanner, release_to, start_record, end_scalar, enter_container, picks,
  value, value_in, closes, opens_array,
}
use sumpter.Json.Document.{
  Value, scalar, object, array, Mark, text, numeral, truth, nothing, first_token, event, size,
  is_array, is_record, inner_depth,
}

-- The record of a value when it is opened
abbrev pub undone : ℕ → ℕ → ℕ → OpenRecord
undone num start depth = record { num = num; start = start; end = 0; depth = depth; done = false }

closes-first_token : (v : Value) → closes (first_token v) ≡ false
closes-first_token (scalar (text t) m) = refl
closes-first_token (scalar (numeral t) m) = refl
closes-first_token (scalar (truth b) m) = refl
closes-first_token (scalar nothing m) = refl
closes-first_token (object m ms) = refl
closes-first_token (array m is) = refl

opens_array-first_token : (v : Value) → opens_array (first_token v) ≡ is_array v
opens_array-first_token (scalar (text t) m) = refl
opens_array-first_token (scalar (numeral t) m) = refl
opens_array-first_token (scalar (truth b) m) = refl
opens_array-first_token (scalar nothing m) = refl
opens_array-first_token (object m ms) = refl
opens_array-first_token (array m is) = refl

module _ (input : ℕ → ℕ) where
  -- The capture has the bytes from `low` on, and the decoder has read at least to its position.
  abbrev pub Inv : Walker → ℕ → Type 0
  Inv w low =
      Holds input w.capture w.read_to
      × (w.position ≤ w.read_to)
      × (w.capture.base ≤ low)
      × (low ≤ w.position)

  pub read_token-position :
      (t : Token) (m : Mark) (w : Walker)
      → (read_token input (event t m) w).position ≡ w.position + size m
  unfolding read_token
  read_token-position t m w = omega arith

  pub read_token-depth :
      (t : Token) (m : Mark) (w : Walker) → (read_token input (event t m) w).depth ≡ w.depth
  unfolding read_token
  read_token-depth t m w = refl

  pub read_token-Inv :
      (t : Token) (m : Mark) (w : Walker) (low : ℕ)
      → Inv w low
      → Inv (read_token input (event t m) w) low
  unfolding read_token
  read_token-Inv t m w low (holds, pos, base, le) =
      let to : ℕ = later w.read_to (w.position + m.gap + m.width + m.ahead) in
      let on : w.read_to ≤ to = ground arith in
      let far : w.position + m.gap + m.width ≤ to = ground arith in
      (
        write-Holds input w.capture w.read_to to on holds,
        far,
        write-base input w.capture (bytes_from input w.read_to (to - w.read_to)) w.read_to low holds
            base,
        omega arith,
      )

  -- What the capture may drop
  abbrev pub freed : List OpenRecord → Walker → Walker
  freed rs w = record w { capture = discard_before w.capture (release_to rs w.position) }

  pub freed-Inv :
      (rs : List OpenRecord) (w : Walker) (low : ℕ)
      → release_to rs w.position ≤ low
      → Inv w low
      → Inv (freed rs w) low
  freed-Inv rs w low h (holds, pos, base, le) = (
    discard_before-Holds input w.capture w.read_to (release_to rs w.position) (omega arith) holds,
    pos,
    discard_before-base input w.capture (release_to rs w.position) low base h,
    le,
  )

  module _ (name : Text) (anywhere : Bool) (size_only : Bool) (last : DecoderError) where
    -- The scanner at work
    abbrev pub at_work :
        List Event → Walker → List Frame → List OpenRecord → ℕ → Option Text → ℕ → RecordScanner
    at_work events w stack rs count outer outer_start = record {
      events = events;
      last = last;
      start_error = none;
      walker = w;
      name = name;
      anywhere = anywhere;
      size_only = size_only;
      started = true;
      stack = stack;
      open_records = rs;
      count = count;
      err = none;
      outer = outer;
      outer_start = outer_start;
    }

    module _ (events : List Event) (stack : List Frame) (rs : List OpenRecord) (count : ℕ)
        (outer : Option Text) (at : ℕ) where
      pub start_record-false :
          (depth pre : ℕ) (w : Walker)
          → start_record false depth pre (at_work events w stack rs count outer at)
            ≡ some (none, at_work events w stack rs count outer at)
      unfolding start_record
      start_record-false depth pre w = refl

      -- The value whose first token was read starts behind the gap.
      pub start_record-true :
          (depth pre low : ℕ) (m : Mark) (w : Walker)
          → Inv w low
          → low ≤ pre
          → w.position ≡ pre + size m
          → Starts input pre m.gap
          → 0 < m.width
          → start_record true depth pre (at_work events w stack rs count outer at)
            ≡ some (
              some (count + 1),
              at_work events w stack
                  (rs ++ undone (count + 1) (pre + m.gap) depth ∷ [])
                  (count + 1)
                  outer
                  at,
            )
      unfolding start_record
      start_record-true depth pre low m w inv h e s wide =
          let is : value_start w.capture pre ≡ some (pre + m.gap) =
            value_start-Holds input w.capture w.read_to pre m.gap inv.0 (omega arith) (omega arith)
              s in
          rw (start_record, is) refl

      -- The frame of a container is pushed.
      pub enter_container-at_work :
          (obj : Bool) (n : Text) (depth : ℕ) (rec : Option ℕ) (w : Walker)
          → w.depth + 1 ≤ max_depth
          → enter_container obj n depth rec (at_work events w stack rs count outer at) ≡ (
            at_work events
                (record w { depth = w.depth + 1 })
                (record { obj = obj; name = n; seen = []; rec = rec; depth = depth } ∷ stack)
                rs
                count
                outer
                at,
            none,
          )
      unfolding enter_container enter
      enter_container-at_work obj n depth rec w h =
          let fits : ltb max_depth (w.depth + 1) ≡ false = ground arith in
          rw (enter_container, enter, fits) refl

    -- What value does with a value's first token, once its record is started or is not
    abbrev pub entered :
        Value → Text → Bool → ℕ → Option ℕ → RecordScanner → RecordScanner × Option JsonError
    entered (scalar s m) n in_array depth rec st = (end_scalar rec st, none)
    entered (object m ms) n in_array depth rec st =
        enter_container true n (inner_depth in_array (object m ms) depth) rec st
    entered (array m is) n in_array depth rec st =
        enter_container false n (inner_depth in_array (array m is) depth) rec st

    abbrev pub after_start :
        Value
        → Text
        → Bool
        → ℕ
        → Option (Option ℕ × RecordScanner)
        → RecordScanner
        → RecordScanner × Option JsonError
    after_start v n in_array depth none s = (s, some internal_error)
    after_start v n in_array depth (some (rec, s')) s = entered v n in_array depth rec s'

    value_in-entered :
        (v : Value) (n : Text) (in_array : Bool) (depth : ℕ) (x : Option (Option ℕ × RecordScanner))
        (s : RecordScanner)
        → value_in (first_token v) n (is_array v && not in_array) depth x s
          ≡ after_start v n in_array depth x s
    value_in-entered v n in_array depth none s = refl
    value_in-entered (scalar (text t) m) n in_array depth (some (rec, s')) s = refl
    value_in-entered (scalar (numeral t) m) n in_array depth (some (rec, s')) s = refl
    value_in-entered (scalar (truth b) m) n in_array depth (some (rec, s')) s = refl
    value_in-entered (scalar nothing m) n in_array depth (some (rec, s')) s = refl
    value_in-entered (object m ms) n in_array depth (some (rec, s')) s = refl
    value_in-entered (array m is) n in_array depth (some (rec, s')) s = refl

    pub value-first_token :
        (v : Value) (n : Text) (in_array : Bool) (depth pre : ℕ) (es : List Event) (w : Walker)
        (stack : List Frame) (rs : List OpenRecord) (count : ℕ) (outer : Option Text) (at : ℕ)
        → value depth n (first_token v) in_array pre (at_work es w stack rs count outer at)
          ≡ after_start v n in_array depth
              (start_record
                (is_record name anywhere n in_array depth v)
                depth
                pre
                (at_work es w stack rs count outer at))
              (at_work es w stack rs count outer at)
    unfolding value picks
    value-first_token v n in_array depth pre es w stack rs count outer at =
        let s : RecordScanner = at_work es w stack rs count outer at in
        rw (value, picks, closes-first_token v, opens_array-first_token v)
          (value_in-entered v n in_array depth
            (start_record (is_record name anywhere n in_array depth v) depth pre s) s)
