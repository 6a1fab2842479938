-- ===== src/Json/Lines.antt =====
-- internal/docnode/json/ndjson.go: the scanner of records that stand one to a line. What readLine
-- returns is the input: the lines, each with its end, then the bytes behind the last one with io.EOF
-- or with a fault of the reader. `decode` is encoding/json's decoder on the bytes of a line, of which
-- walk reads the tokens.
pub mod Records
pub mod Written
use mathlib.Core.List.{reverse}
use sumpter.Base.{
  ℕ, zero, suc, ◌+◌, ◌-◌, Bool, true, false, Option, none, some, List, [], ◌∷◌, length, ◌==◌,
  if◌then◌else◌,
}
use sumpter.Dsl.{Text}
use sumpter.Streaming.{Record}
use sumpter.Json.{Event, DecoderError, JsonError, truncated}
use sumpter.Json.Capture.{is_space}
use sumpter.Json.Walk.{walk}

pub data LineError : Type 0 where
  end_of_lines : LineError
  no_value : LineError
  not_object : LineError
  bad_line : JsonError → LineError
  fault : JsonError → LineError

-- What is behind the lines
pub data Final : Type 0 where
  at_eof : Text → Final
  faulted : Text → JsonError → Final

pub record LineScanner : Type 0 where
  pub lines : List Text
  pub final : Final
  pub size_only : Bool
  pub off : ℕ
  pub count : ℕ
  pub err : Option LineError

pub data Outcome : Type 0 where
  found : Record → Outcome
  stopped : LineError → Outcome

-- valueBounds: the white space in front, and the bytes between
unfoldable pub leading : Text → ℕ
leading [] = 0
leading (c ∷ s) = let rest = leading s in if is_space c then suc rest else 0

unfoldable pub skip_spaces : Text → Text
skip_spaces [] = []
skip_spaces (c ∷ s) = if is_space c then skip_spaces s else c ∷ s

unfoldable pub value_of : Text → Text
value_of line = reverse (skip_spaces (reverse (skip_spaces line)))

abbrev pub begins_object : Text → Bool
begins_object [] = false
begins_object (c ∷ s) = c == b'{'

module _ (decode : Text → List Event × DecoderError) where
  abbrev pub walk_line : Text → Option JsonError
  walk_line value = let (es, last) = decode value in walk last es

  -- What is wrong with a line's value, if anything
  abbrev pub line_fault : Text → Option LineError
  line_fault value =
      if begins_object value
      then elim (walk_line value) [ none ↦ none | some e ↦ some (bad_line e) ]
      else some not_object

  -- checkPartial: running out of bytes is no fault
  unfoldable pub check_partial : Text → Option LineError
  check_partial [] = none
  check_partial (c ∷ s) =
      if begins_object (c ∷ s)
      then elim (walk_line (c ∷ s)) [
        | none ↦ none
        | some truncated ↦ none
        | some e ↦ some (bad_line e)
      ]
      else some not_object

  abbrev pub stop : LineError → LineScanner → Outcome × LineScanner
  stop e s = (stopped e, record s { err = some e })

  -- record, for a value at an offset
  abbrev pub line_record : Bool → ℕ → ℕ → Text → Record
  line_record size_only num at value = record {
    raw = if size_only then [] else value;
    num = num;
    start_offset = at;
    end_offset = at + length value;
    size_bytes = length value;
    depth = 1;
    context = [];
  }

  abbrev pub with_fault : Option LineError → Text → ℕ → LineScanner → Outcome × LineScanner
  with_fault (some e) value at s = stop e s
  with_fault none value at s =
      (found (line_record s.size_only (s.count + 1) at value), record s { count = s.count + 1 })

  unfoldable pub record_line : Text → ℕ → LineScanner → Outcome × LineScanner
  record_line value at s = with_fault (line_fault value) value at s

  -- The bytes behind the last line: a record, once, or the end
  abbrev pub end_with : Text → Text → LineScanner → Outcome × LineScanner
  end_with [] line s = stop (elim s.count [ zero ↦ no_value | suc n ↦ end_of_lines ]) s
  end_with (c ∷ value) line s = record_line (c ∷ value) (s.off + leading line) s

  abbrev pub partial_or : Option LineError → JsonError → LineError
  partial_or (some e) x = e
  partial_or none x = fault x

  abbrev pub finish : Final → LineScanner → Outcome × LineScanner
  finish (at_eof line) s =
      let (o, s') = end_with (value_of line) line s in
      (o, record s' { off = s.off + length line; final = at_eof [] })
  finish (faulted line e) s = stop (partial_or (check_partial (value_of line)) e) s

  -- A line whose value is empty is passed over.
  abbrev pub with_value : Text → ℕ → LineScanner → Outcome × LineScanner → Outcome × LineScanner
  with_value [] at s rest = rest
  with_value (c ∷ value) at s rest = record_line (c ∷ value) at s

  -- The loop of next
  unfoldable pub line_loop : List Text → LineScanner → Outcome × LineScanner
  line_loop [] s = finish s.final s
  line_loop (line ∷ lines) s =
      let s' : LineScanner = record s { lines = lines; off = s.off + length line } in
      let rest = line_loop lines s' in with_value (value_of line) (s.off + leading line) s' rest

  -- Next
  unfoldable pub next : LineScanner → Outcome × LineScanner
  next s = elim s.err [ some e ↦ (stopped e, s) | none ↦ line_loop s.lines s ]

  unfoldable pub calls : ℕ → LineScanner → List Outcome
  calls zero s = []
  calls (suc n) s = let (o, s') = next s in o ∷ calls n s'

-- A new lineScanner; the input starts at `base`, behind a byte order mark.
unfoldable pub new_line_scanner : Bool → ℕ → List Text → Final → LineScanner
new_line_scanner size_only base lines final = record {
  lines = lines;
  final = final;
  size_only = size_only;
  off = base;
  count = 0;
  err = none;
}
