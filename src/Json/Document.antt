-- ===== src/Json/Document.antt =====
-- A JSON document as a tree, its tokens, and the records that a scanner should find in it: the elements
-- of a name, in the order in which they start. A member whose value is an array is no element; its
-- items are elements of the member's name.
pub mod Numbers
pub mod Ranges
use sumpter.Base.{
  ℕ, ◌+◌, ◌≤◌, ◌<◌, ◌≡◌, Bool, true, false, not, ◌&&◌, ◌||◌, Option, none, some, List, [], ◌∷◌,
  ◌++◌, length, ◌==◌, if◌then◌else◌,
}
use sumpter.Dsl.{Text}
use sumpter.Dsl.Text.{eq_text}
use sumpter.Json.{
  Token, open_object, close_object, open_array, close_array, string, number, boolean, null, Event,
  max_depth,
}
use sumpter.Json.Capture.Laws.{Starts}
use sumpter.Json.Scanner.{OpenRecord, seen_key}

-- The bytes of a token: those in front of it, its own, and how far the decoder has read beyond it.
pub record Mark : Type 0 where
  pub gap : ℕ
  pub width : ℕ
  pub ahead : ℕ

pub data Scalar : Type 0 where
  text : Text → Scalar
  numeral : Text → Scalar
  truth : Bool → Scalar
  nothing : Scalar

mutual
  pub data Value : Type 0 where
    scalar : Scalar → Mark → Value
    object : Mark → Members → Value
    array : Mark → Items → Value

  pub data Members : Type 0 where
    end_members : Mark → Members
    member : Text → Mark → Value → Members → Members

  pub data Items : Type 0 where
    end_items : Mark → Items
    item : Value → Items → Items

abbrev pub scalar_token : Scalar → Token
scalar_token (text t) = string t
scalar_token (numeral t) = number t
scalar_token (truth b) = boolean b
scalar_token nothing = null

abbrev pub event : Token → Mark → Event
event t m = record { token = t; gap = m.gap; width = m.width; ahead = m.ahead }

abbrev pub size : Mark → ℕ
size m = m.gap + m.width

-- The first token of a value, and the events behind it
abbrev pub first_token : Value → Token
first_token (scalar s m) = scalar_token s
first_token (object m ms) = open_object
first_token (array m is) = open_array

abbrev pub first_mark : Value → Mark
first_mark (scalar s m) = m
first_mark (object m ms) = m
first_mark (array m is) = m

abbrev mutual
  pub value_rest : Value → List Event → List Event
  value_rest (scalar s m) tail = tail
  value_rest (object m ms) tail = member_events ms tail
  value_rest (array m is) tail = item_events is tail

  -- The events, in front of others
  pub member_events : Members → List Event → List Event
  member_events (end_members m) tail = event close_object m ∷ tail
  member_events (member k m v ms) tail =
      event (string k) m
      ∷ event (first_token v) (first_mark v)
      ∷ value_rest v (member_events ms tail)

  pub item_events : Items → List Event → List Event
  item_events (end_items m) tail = event close_array m ∷ tail
  item_events (item v is) tail =
      event (first_token v) (first_mark v) ∷ value_rest v (item_events is tail)

abbrev mutual
  pub value_size : Value → ℕ
  value_size (scalar s m) = size m
  value_size (object m ms) = size m + members_size ms
  value_size (array m is) = size m + items_size is

  pub members_size : Members → ℕ
  members_size (end_members m) = size m
  members_size (member k m v ms) = size m + value_size v + members_size ms

  pub items_size : Items → ℕ
  items_size (end_items m) = size m
  items_size (item v is) = value_size v + items_size is

abbrev pub is_array : Value → Bool
is_array (scalar s m) = false
is_array (object m ms) = false
is_array (array m is) = true

abbrev pub whole : ℕ → ℕ → ℕ → ℕ → OpenRecord
whole num start end depth = record {
  num = num;
  start = start;
  end = end;
  depth = depth;
  done = true;
}

-- The record of a value, if it is one, in front of those in it, which are given the count
abbrev pub own_record : Bool → Value → ℕ → ℕ → ℕ → (ℕ → List OpenRecord) → List OpenRecord
own_record true v depth count offset inner =
    whole (count + 1) (offset + (first_mark v).gap) (offset + value_size v) depth
    ∷ inner (count + 1)
own_record false v depth count offset inner = inner count

-- The depth of the elements in a container
abbrev pub inner_depth : Bool → Value → ℕ → ℕ
inner_depth in_array v depth = if is_array v && not in_array then depth else depth + 1

module _ (name : Text) (anywhere : Bool) where
  -- The value, of a name and at a depth, is a record.
  abbrev pub is_record : Text → Bool → ℕ → Value → Bool
  is_record n in_array depth v =
      eq_text n name && not (is_array v && not in_array) && (anywhere || depth == 1)

  -- The records of a value, from its name, its depth, the records so far and the offset
  abbrev mutual
    pub value_records : Value → Text → Bool → ℕ → ℕ → ℕ → List OpenRecord
    value_records (scalar s m) n in_array depth count offset =
        own_record (is_record n in_array depth (scalar s m)) (scalar s m) depth count offset
          (λ c. [])
    value_records (object m ms) n in_array depth count offset =
        own_record (is_record n in_array depth (object m ms)) (object m ms) depth count offset
          (λ c. member_records ms (depth + 1) c (offset + size m))
    value_records (array m is) n in_array depth count offset =
        own_record (is_record n in_array depth (array m is)) (array m is) depth count offset
          (λ c. item_records is n (inner_depth in_array (array m is) depth) c (offset + size m))

    pub member_records : Members → ℕ → ℕ → ℕ → List OpenRecord
    member_records (end_members m) depth count offset = []
    member_records (member k m v ms) depth count offset =
        let first = value_records v k false depth count (offset + size m) in
        first ++ member_records ms depth (count + length first) (offset + size m + value_size v)

    pub item_records : Items → Text → ℕ → ℕ → ℕ → List OpenRecord
    item_records (end_items m) n depth count offset = []
    item_records (item v is) n depth count offset =
        let first = value_records v n true depth count offset in
        first ++ item_records is n depth (count + length first) (offset + value_size v)

module _ (input : ℕ → ℕ) where
  -- The first token of each value stands behind its gap, in the bytes; the keys of an object differ;
  -- no container lies deeper than the limit.
  abbrev mutual
    pub ValueFits : Value → ℕ → ℕ → Type 0
    ValueFits (scalar s m) nesting offset = Starts input offset m.gap × (0 < m.width)
    ValueFits (object m ms) nesting offset =
        Starts input offset m.gap
        × (0 < m.width)
        × (nesting + 1 ≤ max_depth)
        × MembersFit ms [] (nesting + 1) (offset + size m)
    ValueFits (array m is) nesting offset =
        Starts input offset m.gap
        × (0 < m.width)
        × (nesting + 1 ≤ max_depth)
        × ItemsFit is (nesting + 1) (offset + size m)

    pub MembersFit : Members → List Text → ℕ → ℕ → Type 0
    MembersFit (end_members m) seen nesting offset = Unit
    MembersFit (member k m v ms) seen nesting offset =
        (seen_key k seen ≡ false)
        × ValueFits v nesting (offset + size m)
        × MembersFit ms (k ∷ seen) nesting (offset + size m + value_size v)

    pub ItemsFit : Items → ℕ → ℕ → Type 0
    ItemsFit (end_items m) nesting offset = Unit
    ItemsFit (item v is) nesting offset =
        ValueFits v nesting offset × ItemsFit is nesting (offset + value_size v)
