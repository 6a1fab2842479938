-- ===== src/Streaming/Forest.antt =====
-- An XML document as a tree, its tokens, and the records that a scanner should find in it: the
-- outermost elements of a name, in document order.
use sumpter.Base.{
  ℕ, ◌+◌, ◌≡◌, Bool, true, false, ◌||◌, Option, none, some, List, [], ◌∷◌, ◌++◌, length,
  if◌then◌else◌,
}
use sumpter.Dsl.{Text}
use sumpter.Dsl.Text.{eq_text}
use sumpter.TextMap.{TextMap}
use sumpter.Streaming.{
  Attr, Token, start_element, end_element, char_data, comment, proc_inst, directive, Record,
  declare_attributes, current_namespace_context, text_or_empty,
}

-- Tokens other than tags
pub data Content : Type 0 where
  text : Text → Content
  remark : Text → Content
  instruction : Text → Text → Content
  declaration : Text → Content

abbrev pub content_token : Content → Token
content_token (text t) = char_data t
content_token (remark t) = comment t
content_token (instruction t u) = proc_inst t u
content_token (declaration t) = directive t

-- Nodes beside one another. A number is the bytes of a token; an element has those of its two tags,
-- with the children between them.
pub data Forest : Type 0 where
  done : Forest
  content : Content → ℕ → Forest → Forest
  element : Text → List Attr → ℕ → Forest → ℕ → Forest → Forest

abbrev pub events : Forest → List (Token × ℕ)
events done = []
events (content c w rest) = (content_token c, w) ∷ events rest
events (element name attrs v children w rest) =
    (start_element name attrs, v) ∷ (events children ++ (end_element name, w) ∷ events rest)

abbrev pub bytes : Forest → ℕ
bytes done = 0
bytes (content c w rest) = w + bytes rest
bytes (element name attrs v children w rest) = v + bytes children + w + bytes rest

abbrev pub tokens_of : Forest → List Token
tokens_of done = []
tokens_of (content c w rest) = content_token c ∷ tokens_of rest
tokens_of (element name attrs v children w rest) =
    start_element name attrs ∷ (tokens_of children ++ end_element name ∷ tokens_of rest)

abbrev pub element_tokens : Text → List Attr → Forest → List Token
element_tokens name attrs children =
    start_element name attrs ∷ (tokens_of children ++ end_element name ∷ [])

module _ (encode : List Token → Option Text) (size_only : Bool) (name : Text) where
  abbrev pub raw_of : List Token → Text
  raw_of ts = if size_only then [] else text_or_empty (encode ts)

  -- The records, from the context of namespaces, the depth, the records so far and the offset.
  abbrev pub records : Forest → TextMap Text → ℕ → ℕ → ℕ → List Record
  records done m depth count offset = []
  records (content c w rest) m depth count offset = records rest m depth count (offset + w)
  records (element n attrs v children w rest) m depth count offset =
      let inner = records children (declare_attributes m attrs) (depth + 1) count (offset + v) in
      let size : ℕ = v + bytes children + w in
      let outer : Record = record {
        raw = raw_of (element_tokens n attrs children);
        num = count + 1;
        start_offset = offset;
        end_offset = offset + size;
        size_bytes = size;
        depth = depth + 1;
        context = current_namespace_context (declare_attributes m attrs);
      } in
      if eq_text n name
      then outer ∷ records rest m depth (count + 1) (offset + size)
      else inner ++ records rest m depth (count + length inner) (offset + size)

  abbrev pub is_some : Option Text → Bool
  is_some none = false
  is_some (some t) = true

  -- Each of the records can be written.
  abbrev pub CanWrite : Forest → Type 0
  CanWrite done = Unit
  CanWrite (content c w rest) = CanWrite rest
  CanWrite (element n attrs v children w rest) =
      (if eq_text n name
        then (size_only || is_some (encode (element_tokens n attrs children))) ≡ true
        else CanWrite children)
      × CanWrite rest
