-- ===== src/Json/Tests.antt =====
-- Runs of the JSON scanner at a concrete document.
use sumpter.Base.{
  ℕ, zero, suc, ◌≡◌, refl, true, false, none, List, [], ◌∷◌, ◌++◌, map, replicate, arith,
}
use sumpter.Dsl.{Text}
use sumpter.Dsl.Text.{codes, eq_text}
use sumpter.Json.{Event, eof, duplicate_key, end_of_records, open_object, string, read_token, enter}
use sumpter.Json.Capture.{
  write, discard_before, slice, value_start, separators, separates, is_space,
}
use sumpter.Json.Scanner.{
  RecordScanner, Outcome, found, stopped, calls, next, begin, enter_container, new_record_scanner,
  loop, loop_value, ready, yields, raw_bytes, step, step_key, step_item, release, pop, value, picks,
  start_record, end_scalar, mark_done, finish,
}
use sumpter.Json.Document.{
  Value, scalar, object, array, member, end_members, item, end_items, Mark, numeral, event,
}
use sumpter.Json.Scanner.Yields.{yielded}
use sumpter.Json.Scanner.Records.{document_events, document_records, calls-document_records}
use sumpter.Json.Walk.{walk, walk_value, walk_object}
use sumpter.Json.Walk.Faults.{walk-top_fault}
use sumpter.Json.Lines.{
  at_eof, bad_line, end_of_lines, new_line_scanner, value_of, skip_spaces, leading, line_loop,
  record_line, calls as calls_of_lines, next as next_line, found as found_line,
  stopped as stopped_line,
}
use sumpter.Json.Lines.Written.{Line, blank, holds, written, written_records, calls-written_records}
use sumpter.Base.{inl, inr, some, if◌then◌else◌}
use sumpter.Json.{close_object, DecoderError, syntax, malformed, wrap}

abbrev nth : Text → ℕ → ℕ
nth [] i = 0
nth (b ∷ s) zero = b
nth (b ∷ s) (suc i) = nth s i

abbrev mark : ℕ → ℕ → ℕ → Mark
mark gap width ahead = record { gap = gap; width = width; ahead = ahead }

-- {"a": [1, {"a": 2}]}, of which the decoder reads 8 bytes at first
abbrev document : Value
document = object (mark 0 1 7) (
    member (codes "a") (mark 0 3 0)
      (array (mark 2 1 0) (
        item (scalar (numeral (codes "1")) (mark 0 1 2)) (
          item
            (object (mark 2 1 0) (
              member (codes "a") (mark 0 3 1) (scalar (numeral (codes "2")) (mark 2 1 0))
                (end_members (mark 0 1 0))))
            (end_items (mark 0 1 0)))))
      (end_members (mark 0 1 0)))

abbrev input : ℕ → ℕ
input = nth (123 ∷ 34 ∷ 97 ∷ 34 ∷ 58 ∷ 32 ∷ codes "[1, " ++ 123 ∷ 34 ∷ 97 ∷ 34 ∷ codes ": 2}]}")

abbrev scanner : RecordScanner
scanner = new_record_scanner (codes "a") true false 0 none (document_events document) eof

abbrev raws : List Outcome → List Text
raws [] = []
raws (found r ∷ os) = r.raw ∷ raws os
raws (stopped e ∷ os) = raws os

-- What the calls return is run step by step: the outer record is before the one in it.
scans :
    raws (calls input 5 scanner) ≡ codes "1" ∷ (123 ∷ 34 ∷ 97 ∷ 34 ∷ codes ": 2}") ∷ codes "2" ∷ []
unfolding calls next begin enter_container enter new_record_scanner loop loop_value ready yields
    raw_bytes step step_key step_item release pop value picks start_record end_scalar mark_done
    finish read_token write discard_before slice value_start separators separates is_space eq_text
scans = refl

calls-document_records_example :
    calls input 4 scanner
    ≡ map found (
        map
          (yielded input (codes "a") true false eof)
          (document_records (codes "a") true document 0))
      ++ replicate 1 (stopped end_of_records)
unfolding separates is_space eq_text
calls-document_records_example = calls-document_records input (codes "a") true false 0 document 1 (
  refl,
  (
    (refl, (refl, refl)),
    omega arith,
    omega arith,
    (
      (refl, omega arith),
      (
        (
          (refl, (refl, refl)),
          omega arith,
          omega arith,
          (refl, ((refl, (refl, refl)), omega arith), tt),
        ),
        tt,
      ),
    ),
  ),
  tt,
)

-- Two members of one key
abbrev twice : List Event
twice =
    event open_object (mark 0 1 0)
    ∷ event (string (codes "k")) (mark 0 3 0)
    ∷ event (string (codes "v")) (mark 1 3 0)
    ∷ event (string (codes "k")) (mark 1 3 0)
    ∷ []

refuses :
    calls input 1 (new_record_scanner (codes "a") true true 0 none twice eof)
    ≡ stopped duplicate_key ∷ []
unfolding calls next begin enter_container enter new_record_scanner loop loop_value ready step
    step_key release value picks start_record end_scalar read_token eq_text
refuses = refl

-- {"k": 1, "k": 2}
abbrev doubled : Value
doubled = object (mark 0 1 0) (
    member (codes "k") (mark 0 3 0) (scalar (numeral (codes "1")) (mark 2 1 0)) (
      member (codes "k") (mark 2 3 0) (scalar (numeral (codes "2")) (mark 2 1 0))
        (end_members (mark 0 1 0))))

walk-top_fault_example : walk eof (document_events doubled) ≡ some duplicate_key
unfolding eq_text
walk-top_fault_example = walk-top_fault doubled

-- A decoder that knows one object
abbrev empty_object : Text
empty_object = 123 ∷ 125 ∷ []

abbrev decode : Text → List Event × DecoderError
decode s =
    if eq_text s empty_object
    then (event open_object (mark 0 1 0) ∷ event close_object (mark 0 1 0) ∷ [], eof)
    else ([], syntax)

-- Two objects with a blank line between them, and nothing behind the last line
abbrev lines : List Text
lines = (empty_object ++ codes "!") ∷ (32 ∷ 10 ∷ []) ∷ (32 ∷ (empty_object ++ 10 ∷ [])) ∷ []

abbrev good_lines : List Line
good_lines =
    holds [] 123 (125 ∷ []) (10 ∷ [])
    ∷ blank (32 ∷ 10 ∷ [])
    ∷ holds (32 ∷ []) 123 (125 ∷ []) (10 ∷ [])
    ∷ []

line_starts :
    map (λ r. r.start_offset) (written_records false (good_lines ++ blank [] ∷ []) 0 0) ≡ 0 ∷ 6 ∷ []
line_starts = refl

calls-written_records_example :
    calls_of_lines decode 3 (new_line_scanner false 0 (map written good_lines) (at_eof []))
    ≡ map found_line (written_records false (good_lines ++ blank [] ∷ []) 0 0)
      ++ replicate 1 (stopped_line end_of_lines)
unfolding eq_text walk walk_value walk_object finish
calls-written_records_example =
    calls-written_records decode false 0 good_lines (blank []) 1
      (
        (tt, (inr (inr (inl refl)), tt), refl, (λ h. omega (arith, h)), refl),
        (
          (inl refl, (inr (inr (inl refl)), tt)),
          (((inl refl, tt), (inr (inr (inl refl)), tt), refl, (λ h. omega (arith, h)), refl), tt),
        ),
      )
      tt

refuses_line :
    calls_of_lines decode 1 (new_line_scanner false 0 lines (at_eof []))
    ≡ stopped_line (bad_line malformed) ∷ []
unfolding calls_of_lines next_line line_loop record_line new_line_scanner value_of skip_spaces
    leading is_space eq_text walk wrap
refuses_line = refl
