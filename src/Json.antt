-- ===== src/Json.antt =====
-- internal/docnode/json/walker.go and scanner.go: the tokens of a JSON document as encoding/json's
-- decoder returns them, and the walker's operations that the record scanner uses. The document's bytes
-- are a function of the offset. A token has the bytes of white space and separators in front of it,
-- its own, and how far beyond its end the decoder has read by then; where it reads, the bytes go to
-- the capture. The offsets that errors name are left out.
pub mod Capture
pub mod Scanner
pub mod Document
pub mod Walk
pub mod Lines
mod Tests
use sumpter.Base.{
  ℕ, ◌+◌, ◌-◌, ◌≡◌, Bool, true, false, Option, none, some, List, [], ◌∷◌, ltb, if◌then◌else◌,
}
use sumpter.Dsl.{Text}
use sumpter.Json.Capture.{CaptureBuf, write, bytes_from}

-- stdjson.Token
pub data Token : Type 0 where
  open_object : Token
  close_object : Token
  open_array : Token
  close_array : Token
  string : Text → Token
  number : Text → Token
  boolean : Bool → Token
  null : Token

pub record Event : Type 0 where
  pub token : Token
  pub gap : ℕ
  pub width : ℕ
  pub ahead : ℕ

-- What the decoder ends with, where it returns no token.
pub data DecoderError : Type 0 where
  eof : DecoderError
  unexpected_eof : DecoderError
  encoding : DecoderError
  syntax : DecoderError

pub data JsonError : Type 0 where
  end_of_records : JsonError
  truncated : JsonError
  not_utf8 : JsonError
  empty_input : JsonError
  top_level : JsonError
  malformed : JsonError
  too_deep : JsonError
  duplicate_key : JsonError
  unexpected_token : JsonError
  trailing_data : JsonError
  internal_error : JsonError
  out_of_range : JsonError

-- walker and validatingReader: the decoder's position, how far it has read, and the open containers.
pub record Walker : Type 0 where
  pub position : ℕ
  pub read_to : ℕ
  pub capture : CaptureBuf
  pub depth : ℕ

abbrev pub max_depth : ℕ
max_depth = 1024

abbrev pub later : ℕ → ℕ → ℕ
later a b = if ltb a b then b else a

-- dec.Token, with the reads that it makes
unfoldable pub read_token : (ℕ → ℕ) → Event → Walker → Walker
read_token input e w =
    let position = w.position + e.gap + e.width in
    let read_to = later w.read_to (position + e.ahead) in
    record w {
      position = position;
      read_to = read_to;
      capture = write w.capture (bytes_from input w.read_to (read_to - w.read_to)) w.read_to;
    }

-- wrap
unfoldable pub wrap : DecoderError → JsonError
wrap eof = truncated
wrap unexpected_eof = truncated
wrap encoding = not_utf8
wrap syntax = malformed

-- enter: the walker, and whether it is too deep
unfoldable pub enter : Walker → Walker × Bool
enter w = (record w { depth = w.depth + 1 }, ltb max_depth (w.depth + 1))
