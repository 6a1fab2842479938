-- ===== src/Streaming/Tests.antt =====
-- Runs of the scanner and its parts at concrete inputs.
use sumpter.Base.{
  ℕ, ◌≡◌, refl, Bool, true, false, Option, none, some, List, [], ◌∷◌, ◌++◌, map, length, replicate,
  leb, ◌&&◌, ◌||◌,
}
use sumpter.Dsl.{Text}
use sumpter.Dsl.Text.{
  codes, eq_text, has_prefix, trim_space, strip, space_width, space_width_back, is_space, is_space2,
  is_space3,
}
use sumpter.Dsl.Runes.{runes}
use sumpter.Streaming.{
  Attr, Token, start_element, RecordScanner, eof, unexpected_eof, found, stopped, calls, next,
  next_loop, new_record_scanner, open_element, starts_record, declare_attributes,
}
use sumpter.Streaming.Forest.{Forest, done, content, element, text, events, records}
use sumpter.Streaming.Records.{calls-records}
use sumpter.Streaming.Sizes.{sizes, calls-sizes}
use sumpter.Streaming.Selector.{
  RecordSelector, parse_record_selector, selector_of, selector_name, contains_any,
  is_local_element_name, are_local_name, are_name_runes,
}
use sumpter.Streaming.Selector.Canonical.{parse_record_selector-again}
use sumpter.Streaming.Sticky.{next-stopped}
use sumpter.Dsl.References.{lower_byte}
use sumpter.Streaming.Ascii.{all_ascii, ascii_prefix, is_ascii_encoding}

-- An encoder that writes the number of the tokens
abbrev counts : List Token → Option Text
counts ts = some (length ts ∷ [])

abbrev xmlns : Attr
xmlns = record { space = codes "xmlns"; local = codes "p"; value = codes "urn:p" }

-- <L xmlns:p="urn:p"><R>a<R/></R><S/><R/></L>
abbrev document : Forest
document =
    element (codes "L") (xmlns ∷ []) 19
      (element (codes "R") [] 3
        (content (text (codes "a")) 1 (element (codes "R") [] 4 done 0 done)) 4
        (element (codes "S") [] 4 done 0 (element (codes "R") [] 4 done 0 done)))
      4 done

abbrev starts_at : List ℕ
starts_at = map (λ r. r.start_offset) (records counts false (codes "R") document [] 0 0 0)

two_records : starts_at ≡ 19 ∷ 35 ∷ []
unfolding eq_text
two_records = refl

calls-records_example :
    calls counts 4 (new_record_scanner (some (codes "R")) false (events document) eof)
    ≡ map found (records counts false (codes "R") document [] 0 0 0) ++ replicate 2 (stopped eof)
unfolding eq_text
calls-records_example =
    calls-records counts false (codes "R") document 2 ((refl, (tt, (refl, tt))), tt)

calls-sizes_example :
    calls counts 4 (new_record_scanner (some (codes "R")) true (events document) eof)
    ≡ map sizes (calls counts 4 (new_record_scanner (some (codes "R")) false (events document) eof))
unfolding eq_text
calls-sizes_example = calls-sizes counts (codes "R") document 2 ((refl, (tt, (refl, tt))), tt)

-- A record that the input ends in
cut_off :
    calls counts 1
      (new_record_scanner (some (codes "R")) false ((start_element (codes "R") [], 3) ∷ []) eof)
    ≡ stopped unexpected_eof ∷ []
unfolding calls next next_loop new_record_scanner open_element starts_record eq_text
    declare_attributes
cut_off = refl

-- ASCII letters and digits
abbrev letter : Text → Bool
letter (c ∷ []) = leb b'A' c && leb c b'Z' || leb b'a' c && leb c b'z'
letter s = false

abbrev digit : Text → Bool
digit (c ∷ []) = leb b'0' c && leb c b'9'
digit s = false

abbrev book : RecordSelector
book = record { raw = codes "//book-1"; element_name = codes "book-1" }

parses : parse_record_selector letter digit (codes "  //book-1 ") ≡ some book
unfolding parse_record_selector selector_of selector_name contains_any is_local_element_name
    are_local_name are_name_runes trim_space strip space_width space_width_back is_space is_space2
    is_space3 runes eq_text has_prefix
parses = refl

refuses : parse_record_selector letter digit (codes "/book") ≡ none
unfolding parse_record_selector selector_of trim_space strip space_width space_width_back is_space
    is_space2 is_space3 has_prefix
refuses = refl

parse_record_selector-again_example :
    (parse_record_selector letter digit (codes "//book-1") ≡ some book)
    × (parse_record_selector letter digit (codes "book-1")
        ≡ some (record { raw = codes "book-1"; element_name = codes "book-1" }))
parse_record_selector-again_example =
    parse_record_selector-again letter digit (codes "  //book-1 ") book parses

abbrev short : RecordScanner
short = new_record_scanner (some (codes "R")) false ((start_element (codes "R") [], 3) ∷ []) eof

next-stopped_example : calls counts 3 (next counts short).1 ≡ replicate 3 (stopped unexpected_eof)
unfolding next next_loop new_record_scanner open_element starts_record eq_text declare_attributes
next-stopped_example = next-stopped counts short unexpected_eof 3 refl

prefix_is : ascii_prefix (97 ∷ 98 ∷ 99 ∷ 200 ∷ 100 ∷ []) ≡ codes "abc"
unfolding ascii_prefix
prefix_is = refl

label_is : is_ascii_encoding (codes "US-ascii") ≡ true
unfolding is_ascii_encoding all_ascii lower_byte eq_text
label_is = refl
