-- ===== src/Json/Walk.antt =====
-- internal/docnode/json/walker.go: walk with the handler that only validates, on the decoder's tokens.
-- The functions call one another on fuel, and of two calls one reads a token.
pub mod Faults
use sumpter.Base.{
  ℕ, zero, suc, ◌+◌, ◌≤◌, ◌≡◌, refl, sym, ap, ◌∙◌, Bool, true, false, Option, none, some, List, [],
  ◌∷◌, length, arith, ltb, if◌then◌else◌,
}
use sumpter.Dsl.{Text}
use sumpter.Json.{
  Token, open_object, close_object, open_array, close_array, string, number, boolean, null, Event,
  DecoderError, eof, JsonError, empty_input, top_level, internal_error, too_deep, duplicate_key,
  unexpected_token, trailing_data, end_of_records, wrap, max_depth,
}
use sumpter.Json.Scanner.{seen_key, is_scalar, opens_object, finish}

-- The tokens behind what was walked, or the first fault
pub data Walked : Type 0 where
  walked : List Event → Walked
  refused : JsonError → Walked

abbrev pub and_then : Walked → (List Event → Walked) → Walked
and_then (walked es) f = f es
and_then (refused e) f = refused e

module _ (last : DecoderError) where
  unfoldable mutual
    -- object
    pub walk_object : ℕ → List Text → ℕ → List Event → Walked
    walk_object zero seen depth es = refused internal_error
    walk_object (suc f) seen depth [] = refused (wrap last)
    walk_object (suc f) seen depth (e ∷ es) = elim e.token [
      | close_object ↦ walked es
      | string key ↦ if seen_key key seen then refused duplicate_key else elim es [
        | [] ↦ refused (wrap last)
        | e' ∷ es' ↦ and_then (walk_value f e'.token depth es') (walk_object f (key ∷ seen) depth)
      ]
      | _ ↦ refused unexpected_token
    ]

    -- array
    pub walk_array : ℕ → ℕ → List Event → Walked
    walk_array zero depth es = refused internal_error
    walk_array (suc f) depth [] = refused (wrap last)
    walk_array (suc f) depth (e ∷ es) = elim e.token [
      | close_array ↦ walked es
      | t ↦ and_then (walk_value f t depth es) (walk_array f depth)
    ]

    -- value, whose token is read, in a container of the depth
    pub walk_value : ℕ → Token → ℕ → List Event → Walked
    walk_value zero t depth es = refused internal_error
    walk_value (suc f) t depth es =
        let inside =
          if opens_object t then walk_object f [] (depth + 1) es else walk_array f (depth + 1) es in
        if is_scalar t
        then walked es
        else if ltb max_depth (depth + 1)
        then refused too_deep
        else inside

  abbrev pub walk_end : Walked → Option JsonError
  walk_end (refused e) = some e
  walk_end (walked es) = elim (finish es last) [ end_of_records ↦ none | e ↦ some e ]

  -- walk
  unfoldable pub walk : List Event → Option JsonError
  walk [] = some (elim last [ eof ↦ empty_input | e ↦ wrap e ])
  walk (e ∷ es) =
      if is_scalar e.token
      then some top_level
      else walk_end (walk_value (length es + length es + 2) e.token 0 es)
