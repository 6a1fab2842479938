-- ===== src/Json/Scanner/Records.antt =====
-- The scanner on a whole document.
use sumpter.Base.{
  ℕ, zero, suc, ◌+◌, ◌≤◌, ◌≡◌, refl, ap, ◌∙◌, Bool, true, false, Option, none, some, List, [], ◌∷◌,
  ◌++◌, map, length, replicate, arith,
}
use sumpter.Dsl.{Text}
use sumpter.Dsl.Text.{codes}
use sumpter.Json.{
  Token, open_object, open_array, Event, eof, end_of_records, Walker, read_token, later, enter,
}
use sumpter.Json.Capture.{empty_capture, write}
use sumpter.Json.Capture.Laws.{write-empty}
use sumpter.Json.Scanner.{
  OpenRecord, RecordScanner, Outcome, found, stopped, loop, next, calls, begin, enter_container,
  new_record_scanner, ready, finish,
}
use sumpter.Json.Scanner.States.{Inv, read_token-position, read_token-depth}
use sumpter.Json.Document.{
  Value, scalar, object, array, Mark, event, size, member_events, item_events, member_records,
  item_records, MembersFit, ItemsFit,
}
use sumpter.Json.Scanner.Rounds.{on, frame, deeper}
use sumpter.Json.Scanner.Yields.{yielded, told}
use sumpter.Json.Scanner.Outermost.{members-outermost, items-outermost}

-- The tokens of a document, its records and what it must be like. The top-level value is an object or
-- an array, and no element itself; the items of an array are named `item`.
abbrev pub document_events : Value → List Event
document_events (scalar s m) = []
document_events (object m ms) = event open_object m ∷ member_events ms []
document_events (array m is) = event open_array m ∷ item_events is []

abbrev pub document_records : Text → Bool → Value → ℕ → List OpenRecord
document_records name anywhere (scalar s m) base = []
document_records name anywhere (object m ms) base =
    member_records name anywhere ms 1 0 (base + size m)
document_records name anywhere (array m is) base =
    item_records name anywhere is (codes "item") 1 0 (base + size m)

abbrev pub DocumentFits : (ℕ → ℕ) → Value → ℕ → Type 0
DocumentFits input (scalar s m) base = ⊥
DocumentFits input (object m ms) base = MembersFit input ms [] 1 (base + size m)
DocumentFits input (array m is) base = ItemsFit input is 1 (base + size m)

module _ (input : ℕ → ℕ) (base : ℕ) where
  abbrev fresh : Walker
  fresh = record { position = base; read_to = base; capture = empty_capture; depth = 0 }

  -- Behind a byte order mark the capture is first written at the offset `base`.
  fresh-Inv :
      (t : Token) (m : Mark)
      → Inv input (deeper (read_token input (event t m) fresh)) (base + size m)
  unfolding read_token write
  fresh-Inv t m =
      let to : ℕ = later base (base + m.gap + m.width + m.ahead) in
      let on_to : base ≤ to = ground arith in
      (write-empty input empty_capture base to on_to refl, ground arith, omega arith, omega arith)

  module _ (name : Text) (anywhere size_only : Bool) where
    start-object :
        (n : ℕ) (m : Mark) (es : List Event)
        → calls input n
            (new_record_scanner name anywhere size_only base none (event open_object m ∷ es) eof)
          ≡ told input name anywhere size_only eof n (
              loop input es (
                on input name anywhere size_only eof none 0 es
                  (deeper (read_token input (event open_object m) fresh))
                  (frame true (codes "item") [] none 1 ∷ [])
                  []
                  0))
    unfolding calls next begin enter_container enter new_record_scanner read_token
    start-object zero m es = refl
    start-object (suc n) m es = refl

    start-array :
        (n : ℕ) (m : Mark) (es : List Event)
        → calls input n
            (new_record_scanner name anywhere size_only base none (event open_array m ∷ es) eof)
          ≡ told input name anywhere size_only eof n (
              loop input es (
                on input name anywhere size_only eof none 0 es
                  (deeper (read_token input (event open_array m) fresh))
                  (frame false (codes "item") [] none 1 ∷ [])
                  []
                  0))
    unfolding calls next begin enter_container enter new_record_scanner read_token
    start-array zero m es = refl
    start-array (suc n) m es = refl

  -- Once an error is returned, it is returned again.
  calls-stopped :
      (n : ℕ) (s : RecordScanner)
      → s.err ≡ some end_of_records
      → calls input n s ≡ replicate n (stopped end_of_records)
  unfolding calls next
  calls-stopped zero s e = refl
  calls-stopped (suc n) s e =
      let again : next input s ≡ (stopped end_of_records, s) = simp (next, e) refl in
      ap (λ (r : Outcome × RecordScanner). r.0 ∷ calls input n r.1) again
      ∙ ap (λ x. stopped end_of_records ∷ x) (calls-stopped n s e)

  told-end :
      (name : Text) (anywhere size_only : Bool) (n : ℕ) (w : Walker) (count : ℕ)
      (outer : Option Text) (at : ℕ)
      → told input name anywhere size_only eof n
          (loop input [] (on input name anywhere size_only eof outer at [] w [] [] count))
        ≡ replicate n (stopped end_of_records)
  unfolding loop ready finish
  told-end name anywhere size_only zero w count outer at = refl
  told-end name anywhere size_only (suc n) w count outer at =
      ap (λ x. stopped end_of_records ∷ x) (calls-stopped n _ refl)

-- For a document whose top-level value is an object or an array, with no two equal keys in an object,
-- no container deeper than the limit, and the first byte of each value's token behind white space and
-- separators only, behind a byte order mark or none, however far the decoder reads ahead: the calls of
-- Next return the elements that the selector picks, at any depth or directly under the document, in
-- the order in which they start, numbered from 1, each with its depth, the range from the first byte
-- of its value to behind the last, and, unless only sizes are wanted, the bytes of the input in this
-- range, and io.EOF from then on.
pub calls-document_records :
    (input : ℕ → ℕ) (name : Text) (anywhere size_only : Bool) (base : ℕ) (v : Value) (n : ℕ)
    → DocumentFits input v base
    → calls input
        (length (document_records name anywhere v base) + n)
        (new_record_scanner name anywhere size_only base none (document_events v) eof)
      ≡ map found
          (map (yielded input name anywhere size_only eof) (document_records name anywhere v base))
        ++ replicate n (stopped end_of_records)
calls-document_records input name anywhere size_only base (scalar s m) n fits = absurd fits
calls-document_records input name anywhere size_only base (object m ms) n fits =
    let rs : List OpenRecord = member_records name anywhere ms 1 0 (base + size m) in
    let w : Walker = deeper (read_token input (event open_object m) (fresh input base)) in
    let (w', outer, at, inv, copy, p, d, e) =
      members-outermost input name anywhere size_only eof ms [] (codes "item") [] 1 w [] 0
        (base + size m) 0 n none 0 (read_token-position input open_object m (fresh input base))
        (omega (arith, read_token-depth input open_object m (fresh input base)))
        (fresh-Inv input base open_object m) tt fits in
    start-object input base name anywhere size_only (length rs + n) m (member_events ms [])
    ∙ e
    ∙ ap (λ x. map found (map (yielded input name anywhere size_only eof) rs) ++ x)
        (told-end input base name anywhere size_only n w' (0 + length rs) outer at)
calls-document_records input name anywhere size_only base (array m is) n fits =
    let rs : List OpenRecord = item_records name anywhere is (codes "item") 1 0 (base + size m) in
    let w : Walker = deeper (read_token input (event open_array m) (fresh input base)) in
    let (w', outer, at, inv, copy, p, d, e) =
      items-outermost input name anywhere size_only eof is [] (codes "item") [] 1 w [] 0
        (base + size m) 0 n none 0 (read_token-position input open_array m (fresh input base))
        (omega (arith, read_token-depth input open_array m (fresh input base)))
        (fresh-Inv input base open_array m) tt fits in
    start-array input base name anywhere size_only (length rs + n) m (item_events is [])
    ∙ e
    ∙ ap (λ x. map found (map (yielded input name anywhere size_only eof) rs) ++ x)
        (told-end input base name anywhere size_only n w' (0 + length rs) outer at)
