-- ===== src/Dsl/Scan.antt =====
-- internal/validation/dsl/parser.go: the scans over a string. A position is a number of bytes; -1 for
-- no position is `none`, and an error is `none` around that. The int `parenDepth` does not wrap, since
-- a string is shorter than 2^63 bytes. A loop over positions is recursion on the bytes that are left.
pub mod Bounds
pub mod Leftmost
use sumpter.Base.{
  ℕ, zero, suc, ◌+◌, ◌-◌, ◌≤◌, ◌<◌, ◌≡◌, refl, Bool, true, false, not, ◌&&◌, ◌||◌, Option, none,
  some, List, [], ◌∷◌, drop, length, arith, ltb, leb, ◌==◌, if◌then◌else◌,
}
use sumpter.Base.Int.{ℤ, pos, negsuc}
use sumpter.Dsl.{Text}
use sumpter.Dsl.Text.{has_prefix, ends_in}

-- parenDepth++ and parenDepth--
abbrev pub inc : ℤ → ℤ
inc (pos n) = pos (suc n)
inc (negsuc zero) = pos 0
inc (negsuc (suc n)) = negsuc n

abbrev pub dec : ℤ → ℤ
dec (pos zero) = negsuc 0
dec (pos (suc n)) = pos n
dec (negsuc n) = negsuc (suc n)

abbrev pub is_zero : ℤ → Bool
is_zero (pos n) = n == 0
is_zero (negsuc n) = false

pub record StringRange : Type 0 where
  pub start : ℕ
  pub past_end : ℕ

pub data ScanDirection : Type 0 where
  leftmost_first rightmost_first : ScanDirection

abbrev pub is_quote : ℕ → Bool
is_quote c = c == b'"' || c == b'\''

-- Where the loops of quotedStringRanges are: between literals, or in one that began at a position with
-- a quote, after a backslash or not.
pub data Quoting : Type 0 where
  outside : Quoting
  inside : ℕ → ℕ → Bool → Quoting

unfoldable pub next_quoting : ℕ → Quoting → ℕ → Quoting
next_quoting i outside c = if is_quote c then inside i c false else outside
next_quoting i (inside from quote true) c = inside from quote false
next_quoting i (inside from quote false) c =
    if c == b'\\'
    then inside from quote true
    else if c == quote
    then outside
    else inside from quote false

-- The range that the byte closes, if it does.
unfoldable pub closed_range : ℕ → Quoting → ℕ → Option StringRange
closed_range i outside c = none
closed_range i (inside from quote true) c = none
closed_range i (inside from quote false) c =
    if c == b'\\'
    then none
    else if c == quote
    then some (record { start = from; past_end = suc i })
    else none

abbrev pub with_range : Option StringRange → Option (List StringRange) → Option (List StringRange)
with_range none rest = rest
with_range (some r) none = none
with_range (some r) (some rs) = some (r ∷ rs)

unfoldable pub scan_quotes : ℕ → Quoting → Text → Option (List StringRange)
scan_quotes i outside [] = some []
scan_quotes i (inside from quote escaped) [] = none
scan_quotes i q (c ∷ s) =
    with_range (closed_range i q c) (scan_quotes (suc i) (next_quoting i q c) s)

unfoldable pub quoted_string_ranges : Text → Option (List StringRange)
quoted_string_ranges s = scan_quotes 0 outside s

unfoldable pub in_string_range : ℕ → List StringRange → Bool
in_string_range idx [] = false
in_string_range idx (r ∷ rs) =
    let rest = in_string_range idx rs in leb r.start idx && ltb idx r.past_end || rest

-- What a round of the loop of idxValidSplitPoint does: it ends the loop, or goes on with a depth, a
-- number of bytes to pass over and a match.
pub data SplitRound : Type 0 where
  stop : Option ℕ → SplitRound
  more : ℤ → ℕ → Option ℕ → SplitRound

abbrev pub at_match : ScanDirection → ℕ → ℕ → ℤ → SplitRound
at_match leftmost_first i op_length depth = stop (some i)
at_match rightmost_first i op_length depth = more depth (op_length - 1) (some i)

unfoldable pub split_round :
    ScanDirection → Text → List StringRange → ℕ → ℤ → Option ℕ → ℕ → Text → SplitRound
split_round direction op ranges i depth match_ c s =
    if ltb (suc (length s)) (length op)
    then stop match_
    else if in_string_range i ranges
    then more depth 0 match_
    else if c == b'('
    then more (inc depth) 0 match_
    else if c == b')'
    then more (dec depth) 0 match_
    else if is_zero depth && has_prefix (c ∷ s) op
    then at_match direction i (length op) depth
    else more depth 0 match_

unfoldable pub split_scan :
    ScanDirection → Text → List StringRange → ℕ → ℤ → ℕ → Option ℕ → Text → Option ℕ
split_scan direction op ranges i depth skip match_ [] = match_
split_scan direction op ranges i depth (suc skip) match_ (c ∷ s) =
    split_scan direction op ranges (suc i) depth skip match_ s
split_scan direction op ranges i depth zero match_ (c ∷ s) =
    elim (split_round direction op ranges i depth match_ c s) [
      | stop m ↦ m
      | more d k m ↦ split_scan direction op ranges (suc i) d k m s
    ]

unfoldable pub idx_valid_split_point : Text → Text → ScanDirection → Option (Option ℕ)
idx_valid_split_point s [] direction = some none
idx_valid_split_point s (o ∷ op) direction = elim (quoted_string_ranges s) [
  | none ↦ none
  | some ranges ↦ some (split_scan direction (o ∷ op) ranges 0 (pos 0) 0 none s)
]

-- The depths of parentheses and of ternaries, or the colon that is looked for.
pub data ColonRound : Type 0 where
  colon : ColonRound
  onward : ℤ → ℕ → ColonRound

unfoldable pub colon_round : List StringRange → ℕ → ℤ → ℕ → ℕ → ColonRound
colon_round ranges i depth ternaries c =
    if in_string_range i ranges
    then onward depth ternaries
    else if c == b'('
    then onward (inc depth) ternaries
    else if c == b')'
    then onward (dec depth) ternaries
    else if c == b'?'
    then (if is_zero depth then onward depth (suc ternaries) else onward depth ternaries)
    else if c == b':'
    then (if is_zero depth
        then elim ternaries [ zero ↦ colon | suc t ↦ onward depth t ]
        else onward depth ternaries)
    else onward depth ternaries

unfoldable pub colon_scan : List StringRange → ℕ → ℤ → ℕ → Text → Option ℕ
colon_scan ranges i depth ternaries [] = none
colon_scan ranges i depth ternaries (c ∷ s) = elim (colon_round ranges i depth ternaries c) [
  | colon ↦ some i
  | onward d t ↦ colon_scan ranges (suc i) d t s
]

unfoldable pub find_ternary_colon : Text → ℕ → Option (Option ℕ)
find_ternary_colon s question_idx = elim (quoted_string_ranges s) [
  | none ↦ none
  | some ranges ↦ some (colon_scan ranges (suc question_idx) (pos 0) 0 (drop (suc question_idx) s))
]

-- A round of the loop of hasEnclosingParens: the depth it goes on with, or none for `return false`.
unfoldable pub enclosing_round : ℕ → ℕ → Bool → Option ℕ
enclosing_round depth c at_end =
    if c == b'('
    then some (suc depth)
    else if c == b')'
    then elim depth [ zero ↦ none | suc d ↦ if d == 0 && not at_end then none else some d ]
    else some depth

abbrev pub is_empty : Text → Bool
is_empty [] = true
is_empty (c ∷ s) = false

unfoldable pub enclosing_scan : ℕ → Text → Bool
enclosing_scan depth [] = depth == 0
enclosing_scan depth (c ∷ s) = elim (enclosing_round depth c (is_empty s)) [
  | none ↦ false
  | some d ↦ enclosing_scan d s
]

unfoldable pub has_enclosing_parens : Text → Bool
has_enclosing_parens [] = false
has_enclosing_parens (c ∷ s) = c == b'(' && ends_in (c ∷ s) b')' && enclosing_scan 0 (c ∷ s)
