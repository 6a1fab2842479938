-- ===== src/Json/Scanner/Yields.antt =====
-- The records that are ready are returned by one call of Next after another, with their bytes.
use sumpter.Base.{
  ℕ, zero, suc, ◌+◌, ◌-◌, ◌≤◌, ◌≡◌, refl, sym, ap, ◌∙◌, Bool, true, ◌&&◌, Option, none, some, List,
  [], ◌∷◌, ◌++◌, map, length, take, drop, arith, leb, if◌then◌else◌, inl, inr, Bool-cases,
}
use sumpter.Base.Members.{All}
use sumpter.Dsl.{Text}
use sumpter.Streaming.{Record}
use sumpter.Json.{Event, DecoderError, Walker}
use sumpter.Json.Capture.{CaptureBuf, slice, bytes_from}
use sumpter.Json.Capture.Laws.{
  Holds, slice-Holds, bytes_from-length, drop-bytes_from, take-bytes_from,
}
use sumpter.Json.Scanner.{
  Frame, OpenRecord, RecordScanner, Outcome, found, raw_bytes, raw_in, sliced, record_of, yields,
  ready, loop, next, calls,
}
use sumpter.Json.Scanner.Rounds.{on}

module _ (input : ℕ → ℕ) (name : Text) (anywhere size_only : Bool) (last : DecoderError) where
  -- The copy of the last record that was not nested in another
  abbrev pub IsCopy : Option Text → ℕ → Type 0
  IsCopy none at = Unit
  IsCopy (some t) at = t ≡ bytes_from input at (length t)

  -- The record's bytes are in the capture.
  abbrev pub IsKept : Walker → OpenRecord → Type 0
  IsKept w r =
      (r.done ≡ true) × (w.capture.base ≤ r.start) × (r.start ≤ r.end) × (r.end ≤ w.read_to)

  abbrev pub yielded : OpenRecord → Record
  yielded r = record_of r (if size_only then [] else bytes_from input r.start (r.end - r.start))

  abbrev Raw : OpenRecord → CaptureBuf → Option Text → ℕ → Type 0
  Raw r c outer at =
      (outer' : Option Text) × (at' : ℕ) × IsCopy outer' at'
      × (raw_in r c outer at ≡ some (bytes_from input r.start (r.end - r.start), outer', at'))

  raw_in-sliced :
      (r : OpenRecord) (c : CaptureBuf) (outer : Option Text) (at off : ℕ)
      → raw_in r c outer at ≡ sliced r (slice c r.start r.end)
      → Holds input c off
      → c.base ≤ r.start
      → r.start ≤ r.end
      → r.end ≤ off
      → Raw r c outer at
  raw_in-sliced r c outer at off e holds h k l =
      let bytes : Text = bytes_from input r.start (r.end - r.start) in
      (
        some bytes,
        r.start,
        ap (bytes_from input r.start) (sym (bytes_from-length input r.start (r.end - r.start))),
        e ∙ ap (sliced r) (slice-Holds input c off r.start r.end holds h k l),
      )

  raw_in_lem :
      (r : OpenRecord) (c : CaptureBuf) (outer : Option Text) (at off : ℕ)
      → Holds input c off
      → c.base ≤ r.start
      → r.start ≤ r.end
      → r.end ≤ off
      → IsCopy outer at
      → Raw r c outer at
  raw_in_lem r c none at off holds h k l copy = raw_in-sliced r c none at off refl holds h k l
  raw_in_lem r c (some whole) at off holds h k l copy =
      elim (Bool-cases (leb at r.start && leb r.end (at + length whole))) [
        | inl nested ↦
            let from : at + (r.start - at) ≡ r.start = ground arith in
            let part : take (r.end - r.start) (drop (r.start - at) whole)
                ≡ bytes_from input r.start (r.end - r.start) =
              ap (λ x. take (r.end - r.start) (drop (r.start - at) x)) copy
              ∙ ap (take (r.end - r.start)) (drop-bytes_from input (r.start - at) at (length whole))
              ∙ ap
                  (λ x. take (r.end - r.start) (bytes_from input x (length whole - (r.start - at))))
                  from
              ∙ take-bytes_from input (r.end - r.start) r.start (length whole - (r.start - at))
                  (ground arith) in
            (some whole, at, copy, simp nested (ap (λ x. some (x, some whole, at)) part))
        | inr apart ↦ raw_in-sliced r c (some whole) at off (simp apart refl) holds h k l
      ]

  -- What is returned from the end of a call on
  abbrev pub told : ℕ → Outcome × RecordScanner → List Outcome
  told zero x = []
  told (suc k) x = x.0 ∷ calls input k x.1

  pub calls-told :
      (k : ℕ) (es : List Event) (w : Walker) (stack : List Frame) (rs : List OpenRecord) (count : ℕ)
      (outer : Option Text) (at : ℕ)
      → calls input k (on input name anywhere size_only last outer at es w stack rs count)
        ≡ told k
            (loop input es (on input name anywhere size_only last outer at es w stack rs count))
  unfolding calls next
  calls-told zero es w stack rs count outer at = refl
  calls-told (suc k) es w stack rs count outer at = refl

  loop-ready :
      (es : List Event) (s : RecordScanner) (x : Outcome × RecordScanner)
      → ready s.open_records s ≡ some x
      → loop input es s ≡ x
  unfolding loop
  loop-ready [] s x h = simp (loop, h) refl
  loop-ready (e ∷ es) s x h = simp (loop, h) refl

  -- One record that is ready
  yield-first :
      (k : ℕ) (es : List Event) (w : Walker) (stack : List Frame) (r : OpenRecord)
      (rs : List OpenRecord) (count : ℕ) (outer : Option Text) (at : ℕ)
      → Holds input w.capture w.read_to
      → IsKept w r
      → IsCopy outer at
      → (outer' : Option Text) × (at' : ℕ) × IsCopy outer' at'
        × (told (suc k) (
              loop input es
                (on input name anywhere size_only last outer at es w stack (r ∷ rs) count))
            ≡ found (yielded r)
              ∷ told k (
                  loop input es
                    (on input name anywhere size_only last outer' at' es w stack rs count)))
  unfolding ready yields raw_bytes
  yield-first k es w stack r rs count outer at holds kept copy =
      let s : RecordScanner =
        on input name anywhere size_only last outer at es w stack (r ∷ rs) count in
      let s' : RecordScanner = on input name anywhere size_only last outer at es w stack rs count in
      elim (Bool-cases size_only) [
        | inl only ↦ (
          outer,
          at,
          copy,
          ap (told (suc k))
                (loop-ready es s (found (yielded r), s') (simp (ready, yields, kept.0, only) refl))
              ∙ ap (λ x. found (yielded r) ∷ x) (calls-told k es w stack rs count outer at),
        )
        | inr full ↦
            let (outer', at', copy', e) =
              raw_in_lem r w.capture outer at w.read_to holds kept.1 kept.2 kept.3 copy in
            (
              outer',
              at',
              copy',
              ap (told (suc k)) (
                    loop-ready es s
                      (
                        found (yielded r),
                        on input name anywhere size_only last outer' at' es w stack rs count,
                      )
                      (simp (ready, yields, raw_bytes, kept.0, full, e) refl))
                  ∙ ap (λ x. found (yielded r) ∷ x) (calls-told k es w stack rs count outer' at'),
            )
      ]

  -- All of them
  pub yield_every :
      (k : ℕ) (es : List Event) (w : Walker) (stack : List Frame) (rs : List OpenRecord) (count : ℕ)
      (outer : Option Text) (at : ℕ)
      → Holds input w.capture w.read_to
      → All (IsKept w) rs
      → IsCopy outer at
      → (outer' : Option Text) × (at' : ℕ) × IsCopy outer' at'
        × (told
              (length rs + k)
              (loop input es (on input name anywhere size_only last outer at es w stack rs count))
            ≡ map found (map yielded rs)
              ++ told k (
                  loop input es
                    (on input name anywhere size_only last outer' at' es w stack [] count)))
  yield_every k es w stack [] count outer at holds kept copy =
      let n : 0 + k ≡ k = omega arith in
      (
        outer,
        at,
        copy,
        ap
            (λ x.
              told x (
                loop input es (on input name anywhere size_only last outer at es w stack [] count)))
            n,
      )
  yield_every k es w stack (r ∷ rs) count outer at holds kept copy =
      let n : suc (length rs) + k ≡ suc (length rs + k) = omega arith in
      let (outer1, at1, copy1, e1) =
        yield-first (length rs + k) es w stack r rs count outer at holds kept.0 copy in
      let (outer2, at2, copy2, e2) =
        yield_every k es w stack rs count outer1 at1 holds kept.1 copy1 in
      (
        outer2,
        at2,
        copy2,
        ap
              (λ x. told x (
                loop input es
                  (on input name anywhere size_only last outer at es w stack (r ∷ rs) count)))
              n
            ∙ e1
            ∙ ap (λ x. found (yielded r) ∷ x) e2,
      )
