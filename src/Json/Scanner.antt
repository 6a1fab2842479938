-- ===== src/Json/Scanner.antt =====
-- internal/docnode/json/scanner.go: recordScanner. A frame points to its record by the record's number.
-- The loop of next recurs on the decoder's tokens; a step that reads a key goes on to the value. A
-- slice out of range, which would panic, is the error `out_of_range`.
pub mod States
pub mod Rounds
pub mod Entered
pub mod Inner
pub mod Nested
pub mod Yields
pub mod Between
pub mod Picked
pub mod Outermost
pub mod Records
use sumpter.Base.{
  ℕ, zero, suc, ◌+◌, ◌-◌, Bool, true, false, not, ◌&&◌, ◌||◌, Option, none, some, List, [], ◌∷◌,
  ◌++◌, length, take, drop, ◌==◌, ltb, leb, if◌then◌else◌,
}
use sumpter.Dsl.{Text}
use sumpter.Dsl.Text.{eq_text, codes}
use sumpter.Streaming.{Record}
use sumpter.Json.{
  Token, open_object, close_object, open_array, close_array, string, number, boolean, null, Event,
  DecoderError, eof, unexpected_eof, encoding, syntax, JsonError, end_of_records, not_utf8,
  empty_input, top_level, malformed, too_deep, duplicate_key, unexpected_token, trailing_data,
  internal_error, out_of_range, Walker, read_token, wrap, enter,
}
use sumpter.Json.Capture.{CaptureBuf, empty_capture, discard_before, slice, value_start}

pub record Frame : Type 0 where
  pub obj : Bool
  pub name : Text
  pub seen : List Text
  pub rec : Option ℕ
  pub depth : ℕ

pub record OpenRecord : Type 0 where
  pub num : ℕ
  pub start : ℕ
  pub end : ℕ
  pub depth : ℕ
  pub done : Bool

-- The stack has its top first.
pub record RecordScanner : Type 0 where
  pub events : List Event
  pub last : DecoderError
  pub start_error : Option JsonError
  pub walker : Walker
  pub name : Text
  pub anywhere : Bool
  pub size_only : Bool
  pub started : Bool
  pub stack : List Frame
  pub open_records : List OpenRecord
  pub count : ℕ
  pub err : Option JsonError
  pub outer : Option Text
  pub outer_start : ℕ

pub data Outcome : Type 0 where
  found : Record → Outcome
  stopped : JsonError → Outcome

abbrev pub stop : JsonError → RecordScanner → Outcome × RecordScanner
stop e s = (stopped e, record s { err = some e })

abbrev pub seen_key : Text → List Text → Bool
seen_key k [] = false
seen_key k (j ∷ js) = eq_text k j || seen_key k js

-- *f.rec gets its end and is done
unfoldable pub mark_done : ℕ → ℕ → List OpenRecord → List OpenRecord
mark_done n end [] = []
mark_done n end (r ∷ rs) =
    let rest = mark_done n end rs in
    if r.num == n then record r { end = end; done = true } ∷ rs else r ∷ rest

abbrev pub mark_record : Option ℕ → ℕ → List OpenRecord → List OpenRecord
mark_record none end rs = rs
mark_record (some n) end rs = mark_done n end rs

abbrev pub close_walker : Walker → Walker
close_walker w = record w { depth = w.depth - 1 }

-- pop, for the top frame and those below it
unfoldable pub pop : Frame → List Frame → RecordScanner → RecordScanner
pop f frames s = record s {
  stack = frames;
  walker = close_walker s.walker;
  open_records = mark_record f.rec s.walker.position s.open_records;
}

-- release, with the records that are open
abbrev pub release_to : List OpenRecord → ℕ → ℕ
release_to [] off = off
release_to (r ∷ rs) off = if ltb r.start off then r.start else off

unfoldable pub release : ℕ → RecordScanner → RecordScanner
release off s =
    let w : Walker = s.walker in
    record s {
      walker = record w { capture = discard_before w.capture (release_to s.open_records off) };
    }

abbrev pub is_scalar : Token → Bool
is_scalar (string t) = true
is_scalar (number t) = true
is_scalar (boolean b) = true
is_scalar null = true
is_scalar open_object = false
is_scalar close_object = false
is_scalar open_array = false
is_scalar close_array = false

abbrev pub closes : Token → Bool
closes close_object = true
closes close_array = true
closes open_object = false
closes open_array = false
closes (string t) = false
closes (number t) = false
closes (boolean b) = false
closes null = false

abbrev pub opens_object : Token → Bool
opens_object open_object = true
opens_object close_object = false
opens_object open_array = false
opens_object close_array = false
opens_object (string t) = false
opens_object (number t) = false
opens_object (boolean b) = false
opens_object null = false

abbrev pub opens_array : Token → Bool
opens_array open_array = true
opens_array open_object = false
opens_array close_object = false
opens_array close_array = false
opens_array (string t) = false
opens_array (number t) = false
opens_array (boolean b) = false
opens_array null = false

-- The record that a value starts, if it is one: none without a start.
unfoldable pub start_record : Bool → ℕ → ℕ → RecordScanner → Option (Option ℕ × RecordScanner)
start_record false depth pre s = some (none, s)
start_record true depth pre s = elim (value_start s.walker.capture pre) [
  | none ↦ none
  | some start ↦ some (
    some (s.count + 1),
    record s {
      count = s.count + 1;
      open_records =
          s.open_records
          ++ record { num = s.count + 1; start = start; end = 0; depth = depth; done = false } ∷ [];
    },
  )
]

-- The rest of value, for a scalar and for a container
unfoldable pub end_scalar : Option ℕ → RecordScanner → RecordScanner
end_scalar rec s = record s { open_records = mark_record rec s.walker.position s.open_records }

unfoldable pub enter_container :
    Bool → Text → ℕ → Option ℕ → RecordScanner → RecordScanner × Option JsonError
enter_container obj name depth rec s =
    let (w, deep) = enter s.walker in
    let s' : RecordScanner = record s { walker = w } in
    if deep then (s', some too_deep) else (
      record s' {
        stack = record { obj = obj; name = name; seen = []; rec = rec; depth = depth } ∷ s'.stack;
      },
      none,
    )

-- The test for a record: the name, no array of a member, and the depth.
unfoldable pub picks : Text → Bool → ℕ → RecordScanner → Bool
picks name member_array depth s =
    eq_text name s.name && not member_array && (s.anywhere || depth == 1)

abbrev pub value_in :
    Token
    → Text
    → Bool
    → ℕ
    → Option (Option ℕ × RecordScanner)
    → RecordScanner
    → RecordScanner × Option JsonError
value_in tok name member_array depth none s = (s, some internal_error)
value_in tok name member_array depth (some (rec, s')) s =
    if is_scalar tok
    then (end_scalar rec s', none)
    else enter_container (opens_object tok) name (if member_array then depth else depth + 1) rec s'

-- value, in a container whose elements have the depth
unfoldable pub value :
    ℕ → Text → Token → Bool → ℕ → RecordScanner → RecordScanner × Option JsonError
value depth name tok in_array pre s =
    let member_array = opens_array tok && not in_array in
    if closes tok
    then (s, some unexpected_token)
    else value_in tok name member_array depth
        (start_record (picks name member_array depth s) depth pre s) s

-- What a step comes to after its first token
pub data Stepped : Type 0 where
  goes_on : RecordScanner → Stepped
  wants_value : Frame → ℕ → RecordScanner → Stepped
  fails : JsonError → RecordScanner → Stepped

abbrev pub stepped : RecordScanner × Option JsonError → Stepped
stepped (s, none) = goes_on s
stepped (s, some e) = fails e s

-- A frame whose name is the key that is read, for its depth
unfoldable pub step_key : Token → Frame → List Frame → RecordScanner → Stepped
step_key close_object f frames s = goes_on (pop f frames s)
step_key (string key) f frames s =
    if seen_key key f.seen
    then fails duplicate_key s
    else wants_value (record f { name = key }) s.walker.position
        (record s { stack = record f { seen = key ∷ f.seen } ∷ frames })
step_key tok f frames s = fails unexpected_token s

unfoldable pub step_item : Token → ℕ → Frame → List Frame → RecordScanner → Stepped
step_item close_array pre f frames s = goes_on (pop f frames s)
step_item tok pre f frames s = stepped (value f.depth f.name tok true pre s)

module _ (input : ℕ → ℕ) where
  abbrev pub reading : Event → List Event → RecordScanner → RecordScanner
  reading e es s = record s { events = es; walker = read_token input e s.walker }

  -- step, up to its first token
  unfoldable pub step : Event → List Event → Frame → List Frame → RecordScanner → Stepped
  step e es f frames s =
      let s' : RecordScanner = reading e es (release s.walker.position s) in
      if f.obj
      then step_key e.token f frames s'
      else step_item e.token s.walker.position f frames s'

-- The bytes of a record from the capture, which become the copy of the outer one
abbrev pub sliced : OpenRecord → Option Text → Option (Text × Option Text × ℕ)
sliced o none = none
sliced o (some raw) = some (raw, some raw, o.start)

-- The bytes of a record that may be nested in the copy of the outer one, with the copy
abbrev pub raw_in : OpenRecord → CaptureBuf → Option Text → ℕ → Option (Text × Option Text × ℕ)
raw_in o c none at = sliced o (slice c o.start o.end)
raw_in o c (some whole) at =
    if leb at o.start && leb o.end (at + length whole)
    then some (take (o.end - o.start) (drop (o.start - at) whole), some whole, at)
    else sliced o (slice c o.start o.end)

unfoldable pub raw_bytes : OpenRecord → RecordScanner → Option (Text × Option Text × ℕ)
raw_bytes o s = raw_in o s.walker.capture s.outer s.outer_start

abbrev pub record_of : OpenRecord → Text → Record
record_of o raw = record {
  raw = raw;
  num = o.num;
  start_offset = o.start;
  end_offset = o.end;
  size_bytes = o.end - o.start;
  depth = o.depth;
  context = [];
}

abbrev pub yield_record :
    OpenRecord → Option (Text × Option Text × ℕ) → RecordScanner → Outcome × RecordScanner
yield_record o none s = stop out_of_range s
yield_record o (some (raw, outer, at)) s =
    (found (record_of o raw), record s { outer = outer; outer_start = at })

unfoldable pub yields : OpenRecord → RecordScanner → Outcome × RecordScanner
yields o s = if s.size_only then (found (record_of o []), s) else yield_record o (raw_bytes o s) s

-- ready
unfoldable pub ready : List OpenRecord → RecordScanner → Option (Outcome × RecordScanner)
ready [] s = none
ready (o ∷ os) s = if o.done then some (yields o (record s { open_records = os })) else none

-- finish, after which Next returns io.EOF
unfoldable pub finish : List Event → DecoderError → JsonError
finish (e ∷ es) last = trailing_data
finish [] eof = end_of_records
finish [] encoding = not_utf8
finish [] unexpected_eof = malformed
finish [] syntax = malformed

module _ (input : ℕ → ℕ) where
  abbrev pub resume :
      (RecordScanner → Outcome × RecordScanner)
      → (Frame → ℕ → RecordScanner → Outcome × RecordScanner)
      → Stepped
      → Outcome × RecordScanner
  resume go want (goes_on s) = go s
  resume go want (wants_value f pre s) = want f pre s
  resume go want (fails e s) = stop e s

  -- The loop of next, where no record is ready
  abbrev pub no_event : List Frame → RecordScanner → Outcome × RecordScanner
  no_event [] s = stop (finish [] s.last) s
  no_event (f ∷ frames) s = stop (wrap s.last) s

  abbrev pub with_event :
      List Frame
      → Event
      → List Event
      → (Stepped → Outcome × RecordScanner)
      → RecordScanner
      → Outcome × RecordScanner
  with_event [] e es go s = stop (finish (e ∷ es) s.last) s
  with_event (f ∷ frames) e es go s = go (step input e es f frames s)

  unfoldable mutual
    pub loop : List Event → RecordScanner → Outcome × RecordScanner
    loop [] s = elim (ready s.open_records s) [ some r ↦ r | none ↦ no_event s.stack s ]
    loop (e ∷ es) s = elim (ready s.open_records s) [
      | some r ↦ r
      | none ↦ with_event s.stack e es (resume (loop es) (loop_value es)) s
    ]

    pub loop_value : List Event → Frame → ℕ → RecordScanner → Outcome × RecordScanner
    loop_value [] f pre s = stop (wrap s.last) s
    loop_value (e ∷ es) f pre s =
        resume (loop es) (loop_value es)
          (stepped (value f.depth f.name e.token false pre (reading input e es s)))

  -- begin: the scanner with the frame of the top-level value, or an error
  abbrev pub begin_with : List Event → RecordScanner → RecordScanner × Option JsonError
  begin_with [] s = (s, some (elim s.last [ eof ↦ empty_input | e ↦ wrap e ]))
  begin_with (e ∷ es) s =
      if is_scalar e.token
      then (reading input e es s, some top_level)
      else enter_container (opens_object e.token) (codes "item") 1 none (reading input e es s)

  unfoldable pub begin : RecordScanner → RecordScanner × Option JsonError
  begin s = elim s.start_error [
    | some e ↦ (record s { started = true }, some e)
    | none ↦ begin_with s.events (record s { started = true })
  ]

  abbrev pub begun : RecordScanner × Option JsonError → Outcome × RecordScanner
  begun (s, some e) = stop e s
  begun (s, none) = loop s.events s

  -- Next
  unfoldable pub next : RecordScanner → Outcome × RecordScanner
  next s = elim s.err [
    | some e ↦ (stopped e, s)
    | none ↦ if s.started then loop s.events s else begun (begin s)
  ]

  unfoldable pub calls : ℕ → RecordScanner → List Outcome
  calls zero s = []
  calls (suc n) s = let (o, s') = next s in o ∷ calls n s'

-- newRecordScanner, for a selector that was parsed; the input starts at `base`, behind a byte order
-- mark.
unfoldable pub new_record_scanner :
    Text → Bool → Bool → ℕ → Option JsonError → List Event → DecoderError → RecordScanner
new_record_scanner name anywhere size_only base start_error events last = record {
  events = events;
  last = last;
  start_error = start_error;
  walker = record { position = base; read_to = base; capture = empty_capture; depth = 0 };
  name = name;
  anywhere = anywhere;
  size_only = size_only;
  started = false;
  stack = [];
  open_records = [];
  count = 0;
  err = none;
  outer = none;
  outer_start = 0;
}

-- RecordCount
unfoldable pub record_count : RecordScanner → ℕ
record_count s = s.count - length s.open_records
