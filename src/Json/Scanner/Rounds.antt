-- ===== src/Json/Scanner/Rounds.antt =====
-- The rounds of the scanner's loop on the tokens of a document: a value's first token, its record, the
-- key of a member, and the end of a container.
use sumpter.Base.{ℕ, ◌+◌, ◌≡◌, refl, ap, ◌∙◌, Bool, true, false, Option, none, List, [], ◌∷◌}
use sumpter.Dsl.{Text}
use sumpter.Json.{close_object, close_array, string, Event, DecoderError, Walker, read_token}
use sumpter.Json.Scanner.{
  Frame, OpenRecord, RecordScanner, Outcome, mark_record, value, stepped, step, step_key, step_item,
  pop, release, ready, resume, loop, loop_value, seen_key, close_walker,
}
use sumpter.Json.Scanner.States.{Inv, freed, at_work}
use sumpter.Json.Document.{
  Value, scalar, object, array, Mark, text, numeral, truth, nothing, first_token, first_mark, event,
  value_rest,
}

abbrev pub frame : Bool → Text → List Text → Option ℕ → ℕ → Frame
frame obj n seen rec depth = record { obj = obj; name = n; seen = seen; rec = rec; depth = depth }

abbrev pub deeper : Walker → Walker
deeper w = record w { depth = w.depth + 1 }

-- The rounds of the loop, where no record is ready
abbrev pub NoneReady : List OpenRecord → Type 0
NoneReady [] = Unit
NoneReady (r ∷ rs) = r.done ≡ false

module _ (input : ℕ → ℕ) (name : Text) (anywhere size_only : Bool) (last : DecoderError)
    (outer : Option Text) (at : ℕ) where
  abbrev pub on : List Event → Walker → List Frame → List OpenRecord → ℕ → RecordScanner
  on es w stack rs count = at_work input name anywhere size_only last es w stack rs count outer at

  -- The rest of the loop is that of a scanner which has read up to `pos`.
  abbrev pub Leads :
      Outcome × RecordScanner → List Event → List Frame → List OpenRecord → ℕ → ℕ → ℕ → ℕ → Type 0
  Leads x tail stack rs count pos nesting low =
      (w : Walker) × Inv input w low
      × (w.position ≡ pos)
      × (w.depth ≡ nesting)
      × (x ≡ loop input tail (on tail w stack rs count))

  pub Leads-from :
      (x y : Outcome × RecordScanner) (tail : List Event) (stack : List Frame)
      (rs : List OpenRecord) (count pos nesting low : ℕ)
      → x ≡ y
      → Leads y tail stack rs count pos nesting low
      → Leads x tail stack rs count pos nesting low
  Leads-from x y tail stack rs count pos nesting low e (w, inv, p, d, h) = (w, inv, p, d, e ∙ h)

  pub Leads-to :
      (x : Outcome × RecordScanner) (tail : List Event) (stack : List Frame)
      (rs ss : List OpenRecord) (c d p q nesting low : ℕ)
      → rs ≡ ss
      → c ≡ d
      → p ≡ q
      → Leads x tail stack rs c p nesting low
      → Leads x tail stack ss d q nesting low
  Leads-to x tail stack rs ss c d p q nesting low e f g (w, inv, h, k, l) = (
    w,
    inv,
    h ∙ g,
    k,
    l
        ∙ ap (λ y. loop input tail (on tail w stack y c)) e
        ∙ ap (λ y. loop input tail (on tail w stack ss y)) f,
  )

  -- The value's first token is read.
  abbrev pub at_value :
      Value
      → List Event
      → Text
      → Bool
      → ℕ
      → Walker
      → List Frame
      → List OpenRecord
      → ℕ
      → Outcome × RecordScanner
  at_value v tail n in_array depth w stack rs count =
      resume input (loop input (value_rest v tail)) (loop_value input (value_rest v tail)) (
        stepped (
          value depth n (first_token v) in_array w.position (
            on (value_rest v tail) (read_token input (event (first_token v) (first_mark v)) w) stack
              rs count)))

  step_item-first_token :
      (v : Value) (pre : ℕ) (f : Frame) (frames : List Frame) (s : RecordScanner)
      → step_item (first_token v) pre f frames s
        ≡ stepped (value f.depth f.name (first_token v) true pre s)
  unfolding step_item
  step_item-first_token (scalar (text t) m) pre f frames s = refl
  step_item-first_token (scalar (numeral t) m) pre f frames s = refl
  step_item-first_token (scalar (truth b) m) pre f frames s = refl
  step_item-first_token (scalar nothing m) pre f frames s = refl
  step_item-first_token (object m ms) pre f frames s = refl
  step_item-first_token (array m is) pre f frames s = refl

  ready-none : (rs : List OpenRecord) (s : RecordScanner) → NoneReady rs → ready rs s ≡ none
  unfolding ready
  ready-none [] s h = refl
  ready-none (r ∷ rs) s h = rw (ready, h) refl

  loop-step :
      (e : Event) (es : List Event) (w : Walker) (f : Frame) (stack : List Frame)
      (rs : List OpenRecord) (count : ℕ)
      → NoneReady rs
      → loop input (e ∷ es) (on (e ∷ es) w (f ∷ stack) rs count)
        ≡ resume input
            (loop input es)
            (loop_value input es)
            (step input e es f stack (on (e ∷ es) w (f ∷ stack) rs count))
  unfolding loop
  loop-step e es w f stack rs count h =
      rw (loop, ready-none rs (on (e ∷ es) w (f ∷ stack) rs count) h) refl

  pub loop-end_members :
      (m : Mark) (tail : List Event) (w : Walker) (n : Text) (seen : List Text) (rec : Option ℕ)
      (depth : ℕ) (stack : List Frame) (rs : List OpenRecord) (count : ℕ)
      → NoneReady rs
      → loop input
          (event close_object m ∷ tail)
          (on (event close_object m ∷ tail) w (frame true n seen rec depth ∷ stack) rs count)
        ≡ (let w' : Walker = read_token input (event close_object m) (freed input rs w) in
            loop input tail
              (on tail (close_walker w') stack (mark_record rec w'.position rs) count))
  unfolding step step_key release pop
  loop-end_members m tail w n seen rec depth stack rs count h =
      loop-step (event close_object m) tail w (frame true n seen rec depth) stack rs count h

  pub loop-end_items :
      (m : Mark) (tail : List Event) (w : Walker) (n : Text) (seen : List Text) (rec : Option ℕ)
      (depth : ℕ) (stack : List Frame) (rs : List OpenRecord) (count : ℕ)
      → NoneReady rs
      → loop input
          (event close_array m ∷ tail)
          (on (event close_array m ∷ tail) w (frame false n seen rec depth ∷ stack) rs count)
        ≡ (let w' : Walker = read_token input (event close_array m) (freed input rs w) in
            loop input tail
              (on tail (close_walker w') stack (mark_record rec w'.position rs) count))
  unfolding step step_item release pop
  loop-end_items m tail w n seen rec depth stack rs count h =
      loop-step (event close_array m) tail w (frame false n seen rec depth) stack rs count h

  pub loop-item :
      (v : Value) (tail : List Event) (w : Walker) (n : Text) (seen : List Text) (rec : Option ℕ)
      (depth : ℕ) (stack : List Frame) (rs : List OpenRecord) (count : ℕ)
      → NoneReady rs
      → (let es : List Event = event (first_token v) (first_mark v) ∷ value_rest v tail in
          loop input es (on es w (frame false n seen rec depth ∷ stack) rs count))
        ≡ at_value v tail n true depth
            (freed input rs w)
            (frame false n seen rec depth ∷ stack)
            rs
            count
  unfolding step release
  loop-item v tail w n seen rec depth stack rs count h =
      loop-step (event (first_token v) (first_mark v)) (value_rest v tail) w
        (frame false n seen rec depth) stack rs count h
      ∙ ap (resume input (loop input (value_rest v tail)) (loop_value input (value_rest v tail)))
          (step_item-first_token v w.position (frame false n seen rec depth) stack _)

  pub loop-member :
      (k : Text) (mk : Mark) (v : Value) (tail : List Event) (w : Walker) (n : Text)
      (seen : List Text) (rec : Option ℕ) (depth : ℕ) (stack : List Frame) (rs : List OpenRecord)
      (count : ℕ)
      → NoneReady rs
      → seen_key k seen ≡ false
      → (let es : List Event =
            event (string k) mk ∷ event (first_token v) (first_mark v) ∷ value_rest v tail in
          loop input es (on es w (frame true n seen rec depth ∷ stack) rs count))
        ≡ at_value v tail k false depth
            (read_token input (event (string k) mk) (freed input rs w))
            (frame true n (k ∷ seen) rec depth ∷ stack)
            rs
            count
  unfolding step step_key release loop_value
  loop-member k mk v tail w n seen rec depth stack rs count h new =
      loop-step (event (string k) mk) (event (first_token v) (first_mark v) ∷ value_rest v tail) w
        (frame true n seen rec depth) stack rs count h
      ∙ rw new refl
