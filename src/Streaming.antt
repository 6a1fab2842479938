-- ===== src/Streaming.antt =====
-- internal/extract/streaming/scanner.go and types.go: the scanner that finds the records of an XML
-- document. What encoding/xml's Decoder.Token returns is the input: a list of tokens, each with the
-- bytes that it takes, and the error behind them. Its Encoder is the parameter `encode`. The
-- decoder matches the tags, so that the depth is never below 0.
pub mod Forest
pub mod Selector
pub mod Ascii
mod Tests
pub mod Inside
pub mod Between
mod Records
mod Sizes
mod Sticky
use sumpter.Base.{
  ℕ, zero, suc, ◌+◌, ◌-◌, Bool, true, false, ◌||◌, Option, none, some, List, [], ◌∷◌, ◌++◌, ◌==◌,
  ltb, if◌then◌else◌,
}
use sumpter.Dsl.{Text}
use sumpter.Dsl.Text.{codes, eq_text}
use sumpter.Dsl.Scan.{is_empty}
use sumpter.TextMap.{TextMap, lookup, put}

-- xml.Attr
pub record Attr : Type 0 where
  pub space : Text
  pub local : Text
  pub value : Text

pub data Token : Type 0 where
  start_element : Text → List Attr → Token
  end_element : Text → Token
  char_data : Text → Token
  comment : Text → Token
  proc_inst : Text → Text → Token
  directive : Text → Token

pub record NamespaceDeclaration : Type 0 where
  pub prefix : Text
  pub uri : Text

-- docnode.Record, without the element name, which is the scanner's in each
pub record Record : Type 0 where
  pub raw : Text
  pub num : ℕ
  pub start_offset : ℕ
  pub end_offset : ℕ
  pub size_bytes : ℕ
  pub depth : ℕ
  pub context : List NamespaceDeclaration

pub data ScanError : Type 0 where
  eof : ScanError
  unexpected_eof : ScanError
  bad_token : ScanError
  bad_record : ScanError
  bad_selector : ScanError

-- The stack of contexts has its last one first. `record_depth` is -1 in the code where there is none.
pub record RecordScanner : Type 0 where
  pub tokens : List (Token × ℕ)
  pub token_error : ScanError
  pub offset : ℕ
  pub buffer : List Token
  pub depth : ℕ
  pub record_depth : Option ℕ
  pub in_record : Bool
  pub element_name : Text
  pub record_count : ℕ
  pub err : Option ScanError
  pub size_only : Bool
  pub namespace_stack : List (TextMap Text)

-- pushNamespaceContext
unfoldable pub declare_attributes : TextMap Text → List Attr → TextMap Text
declare_attributes next [] = next
declare_attributes next (a ∷ attrs) =
    declare_attributes
      (if is_empty a.space
        then (if eq_text a.local (codes "xmlns") then put [] a.value next else next)
        else if eq_text a.space (codes "xmlns")
        then put a.local a.value next
        else next)
      attrs

abbrev pub top : List (TextMap Text) → TextMap Text
top [] = []
top (m ∷ stack) = m

abbrev pub pop : List (TextMap Text) → List (TextMap Text)
pop [] = []
pop (m ∷ stack) = stack

-- sort.Strings, for strings that are put in one by one
unfoldable pub less_text : Text → Text → Bool
less_text a [] = false
less_text [] (y ∷ ys) = true
less_text (x ∷ xs) (y ∷ ys) =
    let rest = less_text xs ys in if ltb x y then true else if x == y then rest else false

unfoldable pub insert_prefix : Text → List Text → List Text
insert_prefix p [] = p ∷ []
insert_prefix p (q ∷ qs) =
    let rest = insert_prefix p qs in if less_text q p then q ∷ rest else p ∷ q ∷ qs

unfoldable pub shown_prefixes : TextMap Text → List Text
shown_prefixes [] = []
shown_prefixes ((prefix, uri) ∷ m) =
    let rest = shown_prefixes m in
    if eq_text prefix (codes "xml") || eq_text prefix (codes "xmlns") || is_empty uri
    then rest
    else insert_prefix prefix rest

abbrev pub text_or_empty : Option Text → Text
text_or_empty none = []
text_or_empty (some t) = t

unfoldable pub declarations : TextMap Text → List Text → List NamespaceDeclaration
declarations m [] = []
declarations m (p ∷ ps) =
    record { prefix = p; uri = text_or_empty (lookup p m) } ∷ declarations m ps

-- currentNamespaceContext, for the context on top; with no context there are no prefixes
unfoldable pub current_namespace_context : TextMap Text → List NamespaceDeclaration
current_namespace_context m = declarations m (shown_prefixes m)

module _ (encode : List Token → Option Text) where
  -- serializeTokens
  unfoldable pub serialize_tokens : List Token → Option Text
  serialize_tokens [] = some []
  serialize_tokens (t ∷ ts) = encode (t ∷ ts)

-- newRecordScanner, with the element name of the selector or its error
unfoldable pub new_record_scanner :
    Option Text → Bool → List (Token × ℕ) → ScanError → RecordScanner
new_record_scanner name size_only tokens token_error = record {
  tokens = tokens;
  token_error = token_error;
  offset = 0;
  buffer = [];
  depth = 0;
  record_depth = none;
  in_record = false;
  element_name = text_or_empty name;
  record_count = 0;
  err = elim name [ none ↦ some bad_selector | some _ ↦ none ];
  size_only = size_only;
  namespace_stack = [];
}

-- The buffer with a token that is read in a record, unless only sizes are wanted
abbrev pub kept : Bool → Bool → Token → List Token → List Token
kept in_record size_only t buffer =
    if in_record then (if size_only then buffer else buffer ++ t ∷ []) else buffer

abbrev pub keep_token : Token → RecordScanner → RecordScanner
keep_token t s = record s { buffer = kept s.in_record s.size_only t s.buffer }

-- The case of a start element, before its token is kept; `starts` is the test for a record's start.
unfoldable pub open_element : Bool → List Attr → RecordScanner → RecordScanner
open_element starts attrs s =
    let s' : RecordScanner = record s {
      namespace_stack = declare_attributes (top s.namespace_stack) attrs ∷ s.namespace_stack;
      depth = s.depth + 1;
    } in
    if starts
    then record s' {
      in_record = true;
      record_depth = some s'.depth;
      record_count = s'.record_count + 1;
    }
    else s'

unfoldable pub starts_record : Text → RecordScanner → Bool
starts_record name s = if s.in_record then false else eq_text name s.element_name

abbrev pub at_depth : ℕ → Option ℕ → Bool
at_depth d none = false
at_depth d (some n) = d == n

unfoldable pub ends_record : RecordScanner → Bool
ends_record s = if s.in_record then at_depth s.depth s.record_depth else false

abbrev pub close_element : RecordScanner → RecordScanner
close_element s = record s { namespace_stack = pop s.namespace_stack; depth = s.depth - 1 }

pub data Outcome : Type 0 where
  found : Record → Outcome
  stopped : ScanError → Outcome

-- An error is kept, and returned.
abbrev pub stop : ScanError → RecordScanner → Outcome × RecordScanner
stop e s = (stopped e, record s { err = some e })

-- The record that ends here, from the offset where it starts and its bytes, if they could be written
abbrev pub finish_record : ℕ → Option Text → RecordScanner → Outcome × RecordScanner
finish_record start none s = stop bad_record s
finish_record start (some raw) s = (
  found (record {
    raw = raw;
    num = s.record_count;
    start_offset = start;
    end_offset = s.offset;
    size_bytes = s.offset - start;
    depth = s.depth;
    context = current_namespace_context (top s.namespace_stack);
  }),
  close_element s,
)

module _ (encode : List Token → Option Text) where
  abbrev pub record_xml : RecordScanner → Option Text
  record_xml s = if s.size_only then some [] else serialize_tokens encode s.buffer

  abbrev pub no_token : ScanError → RecordScanner → Outcome × RecordScanner
  no_token eof s = if s.in_record then stop unexpected_eof s else stop eof s
  no_token e s = stop bad_token s

  -- The loop of Next; `start` is recordStartOffset.
  unfoldable pub next_loop : List (Token × ℕ) → ℕ → RecordScanner → Outcome × RecordScanner
  next_loop [] start s = no_token s.token_error s
  next_loop ((start_element name attrs, width) ∷ tokens) start s =
      let starts = starts_record name s in
      next_loop tokens (if starts then s.offset else start) (
        keep_token (start_element name attrs)
          (open_element starts attrs (record s { tokens = tokens; offset = s.offset + width })))
  next_loop ((end_element name, width) ∷ tokens) start s =
      let s' : RecordScanner =
        keep_token (end_element name) (record s { tokens = tokens; offset = s.offset + width }) in
      let rest = next_loop tokens start (close_element s') in
      if ends_record s' then finish_record start (record_xml s') s' else rest
  next_loop ((char_data t, width) ∷ tokens) start s =
      next_loop tokens start
        (keep_token (char_data t) (record s { tokens = tokens; offset = s.offset + width }))
  next_loop ((comment t, width) ∷ tokens) start s =
      next_loop tokens start
        (keep_token (comment t) (record s { tokens = tokens; offset = s.offset + width }))
  next_loop ((proc_inst t u, width) ∷ tokens) start s =
      next_loop tokens start
        (keep_token (proc_inst t u) (record s { tokens = tokens; offset = s.offset + width }))
  next_loop ((directive t, width) ∷ tokens) start s =
      next_loop tokens start
        (keep_token (directive t) (record s { tokens = tokens; offset = s.offset + width }))

  -- What Next resets
  abbrev pub reset : RecordScanner → RecordScanner
  reset s = record s { buffer = []; in_record = false; record_depth = none }

  -- Next
  unfoldable pub next : RecordScanner → Outcome × RecordScanner
  next s = elim s.err [ some e ↦ (stopped e, s) | none ↦ next_loop s.tokens 0 (reset s) ]

  -- What a number of calls of Next return
  unfoldable pub calls : ℕ → RecordScanner → List Outcome
  calls zero s = []
  calls (suc n) s = let (o, s') = next s in o ∷ calls n s'
