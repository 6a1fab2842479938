-- ===== src/Dsl/Calls.antt =====
-- internal/validation/dsl/parser.go: what is a function call, and its arguments. A quote of 0 is none.
pub mod Bounds
use sumpter.Base.{
  ℕ, zero, suc, Bool, true, false, not, ◌&&◌, ◌||◌, Option, none, some, List, [], ◌∷◌, ◌++◌, take,
  drop, ltb, leb, ◌==◌, if◌then◌else◌,
}
use sumpter.Dsl.{Text}
use sumpter.Dsl.Text.{ends_in, index_of, trim_space, is_digit}
use sumpter.Dsl.Scan.{is_quote, is_empty}

unfoldable pub is_name : Text → Bool
is_name [] = true
is_name (c ∷ s) =
    let rest = is_name s in
    (leb b'A' c && leb c b'Z' || leb b'a' c && leb c b'z' || is_digit c || c == b'_') && rest

-- What a round of a loop that tracks quotes does: it ends, or goes on with a depth, a quote and whether
-- the byte before it was a backslash.
pub data CallRound : Type 0 where
  decided : Bool → CallRound
  scanning : ℕ → Option ℕ → Bool → CallRound

-- The byte `c` in the string that `quote` opened.
abbrev pub quoted_round : ℕ → ℕ → Bool → ℕ → CallRound
quoted_round depth quote escaped c =
    if escaped
    then scanning depth (some quote) false
    else if c == b'\\'
    then scanning depth (some quote) true
    else if c == quote
    then scanning depth none false
    else scanning depth (some quote) false

unfoldable pub call_round : ℕ → Option ℕ → Bool → ℕ → Bool → CallRound
call_round depth (some quote) escaped c at_end = quoted_round depth quote escaped c
call_round depth none escaped c at_end =
    if is_quote c
    then scanning depth (some c) escaped
    else if c == b'('
    then scanning (suc depth) none escaped
    else if c == b')'
    then elim depth [
      | zero ↦ decided false
      | suc d ↦ if d == 0 then decided at_end else scanning d none escaped
    ]
    else scanning depth none escaped

unfoldable pub call_scan : ℕ → Option ℕ → Bool → Text → Bool
call_scan depth quote escaped [] = ltb 0 depth
call_scan depth quote escaped (c ∷ s) = elim (call_round depth quote escaped c (is_empty s)) [
  | decided b ↦ b
  | scanning d q e ↦ call_scan d q e s
]

unfoldable pub is_function_call : Text → Bool
is_function_call s = elim (index_of b'(' s) [
  | none ↦ false
  | some opening ↦
      let name = trim_space (take opening s) in
      ltb 0 opening
      && ends_in s b')'
      && not (is_empty name)
      && is_name name
      && call_scan 0 none false (drop opening s)
]

-- A round of splitArgsOutsideStrings: an error, a comma that ends an argument, or neither.
pub data ArgsRound : Type 0 where
  mismatched : ArgsRound
  cut : ArgsRound
  onward : ℕ → Option ℕ → Bool → ArgsRound

abbrev of_quoted : CallRound → ArgsRound
of_quoted (decided b) = mismatched
of_quoted (scanning d q e) = onward d q e

unfoldable pub args_round : ℕ → Option ℕ → Bool → ℕ → ArgsRound
args_round depth (some quote) escaped c = of_quoted (quoted_round depth quote escaped c)
args_round depth none escaped c =
    if is_quote c
    then onward depth (some c) escaped
    else if c == b'('
    then onward (suc depth) none escaped
    else if c == b')'
    then elim depth [ zero ↦ mismatched | suc d ↦ onward d none escaped ]
    else if c == b','
    then (if depth == 0 then cut else onward depth none escaped)
    else onward depth none escaped

abbrev pub add_arg : Text → Option (List Text) → Option (List Text)
add_arg a none = none
add_arg a (some args) = some (a ∷ args)

abbrev pub last_arg : ℕ → Option ℕ → Text → Option (List Text)
last_arg depth (some quote) current = none
last_arg zero none current = some (trim_space current ∷ [])
last_arg (suc depth) none current = none

-- `current` is the bytes from `start` on that were passed.
unfoldable pub args_scan : Text → ℕ → Option ℕ → Bool → Text → Option (List Text)
args_scan current depth quote escaped [] = last_arg depth quote current
args_scan current depth quote escaped (c ∷ s) = elim (args_round depth quote escaped c) [
  | mismatched ↦ none
  | cut ↦ add_arg (trim_space current) (args_scan [] depth quote escaped s)
  | onward d q e ↦ args_scan (current ++ c ∷ []) d q e s
]

unfoldable pub split_args_outside_strings : Text → Option (List Text)
split_args_outside_strings s = args_scan [] 0 none false s
