-- ===== src/Json/Walk/Faults.antt =====
-- What the walk finds in a document whose tokens nest.
use sumpter.Base.{
  ℕ, zero, suc, ◌+◌, ◌≤◌, ◌<◌, ◌≡◌, refl, ap, ◌∙◌, Option, none, some, List, [], ◌∷◌, length, arith,
  ltb, if◌then◌else◌, inl, inr, Bool-cases,
}
use sumpter.Dsl.{Text}
use sumpter.Json.{
  Event, DecoderError, eof, JsonError, top_level, too_deep, duplicate_key, max_depth,
}
use sumpter.Json.Scanner.{seen_key, finish}
use sumpter.Json.Document.{
  Value, scalar, object, array, Members, end_members, member, Items, end_items, item, Scalar, text,
  numeral, truth, nothing, Mark, first_token, first_mark, event, value_rest, member_events,
  item_events,
}
use sumpter.Json.Walk.{
  Walked, walked, refused, and_then, walk_object, walk_array, walk_value, walk, walk_end,
}

abbrev pub first_of : Option JsonError → Option JsonError → Option JsonError
first_of (some e) f = some e
first_of none f = f

-- The first fault of a value in a container of the depth, in the order of the document: a container
-- that lies too deep, or a key that its object had before.
abbrev mutual
  pub value_fault : Value → ℕ → Option JsonError
  value_fault (scalar s m) depth = none
  value_fault (object m ms) depth =
      if ltb max_depth (depth + 1) then some too_deep else members_fault ms [] (depth + 1)
  value_fault (array m is) depth =
      if ltb max_depth (depth + 1) then some too_deep else items_fault is (depth + 1)

  pub members_fault : Members → List Text → ℕ → Option JsonError
  members_fault (end_members m) seen depth = none
  members_fault (member k m v ms) seen depth =
      if seen_key k seen
      then some duplicate_key
      else first_of (value_fault v depth) (members_fault ms (k ∷ seen) depth)

  pub items_fault : Items → ℕ → Option JsonError
  items_fault (end_items m) depth = none
  items_fault (item v is) depth = first_of (value_fault v depth) (items_fault is depth)

abbrev ends : Option JsonError → List Event → Walked
ends none tail = walked tail
ends (some e) tail = refused e

ends-first_of :
    (a b : Option JsonError) (es tail : List Event) (f : List Event → Walked)
    → f es ≡ ends b tail
    → and_then (ends a es) f ≡ ends (first_of a b) tail
ends-first_of none b es tail f h = h
ends-first_of (some e) b es tail f h = refl

mutual
  value_rest-le : (v : Value) (tail : List Event) → length tail ≤ length (value_rest v tail)
  value_rest-le (scalar s m) tail = omega arith
  value_rest-le (object m ms) tail = member_events-le ms tail
  value_rest-le (array m is) tail = item_events-le is tail

  member_events-le :
      (ms : Members) (tail : List Event) → length tail ≤ length (member_events ms tail)
  member_events-le (end_members m) tail = omega arith
  member_events-le (member k m v ms) tail =
      omega (arith, value_rest-le v (member_events ms tail), member_events-le ms tail)

  item_events-le : (is : Items) (tail : List Event) → length tail ≤ length (item_events is tail)
  item_events-le (end_items m) tail = omega arith
  item_events-le (item v is) tail =
      omega (arith, value_rest-le v (item_events is tail), item_events-le is tail)

module _ (last : DecoderError) where
  walk_array-item :
      (f : ℕ) (v : Value) (m : Mark) (depth : ℕ) (es : List Event)
      → walk_array last (suc f) depth (event (first_token v) m ∷ es)
        ≡ and_then (walk_value last f (first_token v) depth es) (walk_array last f depth)
  unfolding walk_array
  walk_array-item f (scalar (text t) n) m depth es = refl
  walk_array-item f (scalar (numeral t) n) m depth es = refl
  walk_array-item f (scalar (truth b) n) m depth es = refl
  walk_array-item f (scalar nothing n) m depth es = refl
  walk_array-item f (object n ms) m depth es = refl
  walk_array-item f (array n is) m depth es = refl

  walk_value-scalar :
      (f : ℕ) (s : Scalar) (m : Mark) (depth : ℕ) (es : List Event)
      → walk_value last (suc f) (first_token (scalar s m)) depth es ≡ walked es
  unfolding walk_value
  walk_value-scalar f (text t) m depth es = refl
  walk_value-scalar f (numeral t) m depth es = refl
  walk_value-scalar f (truth b) m depth es = refl
  walk_value-scalar f nothing m depth es = refl

  mutual
    unfolding walk_object walk_array walk_value

    walk_value-fault :
        (v : Value) (f depth : ℕ) (tail : List Event)
        → length (value_rest v tail) + length (value_rest v tail) + 1 < f
        → walk_value last f (first_token v) depth (value_rest v tail)
          ≡ ends (value_fault v depth) tail
    walk_value-fault v zero depth tail h = absurd (omega arith)
    walk_value-fault (scalar s m) (suc f) depth tail h = walk_value-scalar f s m depth tail
    walk_value-fault (object m ms) (suc f) depth tail h =
        elim (Bool-cases (ltb max_depth (depth + 1))) [
          | inl deep ↦ simp (walk_value, deep) refl
          | inr fits ↦
              simp (walk_value, fits) (walk_object-fault ms f [] (depth + 1) tail (omega arith))
        ]
    walk_value-fault (array m is) (suc f) depth tail h =
        elim (Bool-cases (ltb max_depth (depth + 1))) [
          | inl deep ↦ simp (walk_value, deep) refl
          | inr fits ↦
              simp (walk_value, fits) (walk_array-fault is f (depth + 1) tail (omega arith))
        ]

    walk_object-fault :
        (ms : Members) (f : ℕ) (seen : List Text) (depth : ℕ) (tail : List Event)
        → length (member_events ms tail) + length (member_events ms tail) < f
        → walk_object last f seen depth (member_events ms tail)
          ≡ ends (members_fault ms seen depth) tail
    walk_object-fault ms zero seen depth tail h = absurd (omega arith)
    walk_object-fault (end_members m) (suc f) seen depth tail h = refl
    walk_object-fault (member k m v ms) (suc f) seen depth tail h =
        let rest : List Event = member_events ms tail in
        elim (Bool-cases (seen_key k seen)) [
          | inl again ↦ simp (walk_object, again) refl
          | inr new ↦
              simp (walk_object, new)
                (ap (λ x. and_then x (walk_object last f (k ∷ seen) depth))
                    (walk_value-fault v f depth rest (omega arith))
                  ∙ ends-first_of (value_fault v depth) (members_fault ms (k ∷ seen) depth) rest
                      tail (walk_object last f (k ∷ seen) depth)
                      (walk_object-fault ms f (k ∷ seen) depth tail
                        (omega (arith, value_rest-le v rest))))
        ]

    walk_array-fault :
        (is : Items) (f depth : ℕ) (tail : List Event)
        → length (item_events is tail) + length (item_events is tail) < f
        → walk_array last f depth (item_events is tail) ≡ ends (items_fault is depth) tail
    walk_array-fault is zero depth tail h = absurd (omega arith)
    walk_array-fault (end_items m) (suc f) depth tail h = refl
    walk_array-fault (item v is) (suc f) depth tail h =
        let rest : List Event = item_events is tail in
        walk_array-item f v (first_mark v) depth (value_rest v rest)
        ∙ ap (λ x. and_then x (walk_array last f depth))
            (walk_value-fault v f depth rest (omega arith))
        ∙ ends-first_of (value_fault v depth) (items_fault is depth) rest tail
            (walk_array last f depth)
            (walk_array-fault is f depth tail (omega (arith, value_rest-le v rest)))

abbrev pub top_fault : Value → Option JsonError
top_fault (scalar s m) = some top_level
top_fault (object m ms) = value_fault (object m ms) 0
top_fault (array m is) = value_fault (array m is) 0

walk_end-ends : (x : Option JsonError) → walk_end eof (ends x []) ≡ x
unfolding finish
walk_end-ends none = refl
walk_end-ends (some e) = refl

-- For the tokens of any value, which nest, and nothing behind them: the walk refuses a scalar as a
-- document; of an object or an array it returns the first fault in the document's order, a container
-- that lies too deep or a key that its object had before, and no error if there is none.
pub walk-top_fault :
    (v : Value) → walk eof (event (first_token v) (first_mark v) ∷ value_rest v []) ≡ top_fault v
unfolding walk
walk-top_fault (scalar (text t) m) = refl
walk-top_fault (scalar (numeral t) m) = refl
walk-top_fault (scalar (truth b) m) = refl
walk-top_fault (scalar nothing m) = refl
walk-top_fault (object m ms) =
    let es : List Event = member_events ms [] in
    ap (walk_end eof)
      (walk_value-fault eof (object m ms) (length es + length es + 2) 0 [] (omega arith))
    ∙ walk_end-ends (value_fault (object m ms) 0)
walk-top_fault (array m is) =
    let es : List Event = item_events is [] in
    ap (walk_end eof)
      (walk_value-fault eof (array m is) (length es + length es + 2) 0 [] (omega arith))
    ∙ walk_end-ends (value_fault (array m is) 0)
