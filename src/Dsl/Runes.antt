-- ===== src/Dsl/Runes.antt =====
-- internal/validation/dsl/evaluator.go: the string functions, on strings of valid UTF-8. A rune is the
-- list of its bytes: one that is not 10xxxxxx and those that follow it and are.
use sumpter.Base.{
  ℕ, zero, suc, ◌-◌, Bool, false, ◌&&◌, ◌||◌, List, [], ◌∷◌, ◌++◌, take, drop, length, replicate,
  leb, if◌then◌else◌,
}
use sumpter.Dsl.{Text}
use sumpter.Dsl.Text.{codes, space_width}
use sumpter.Dsl.Scan.{is_empty}

abbrev pub continues : Text → Bool
continues [] = false
continues (c ∷ s) = leb 128 c && leb c 191

abbrev pub onto_first : ℕ → List Text → List Text
onto_first c [] = (c ∷ []) ∷ []
onto_first c (r ∷ rs) = (c ∷ r) ∷ rs

-- []rune(s)
unfoldable pub runes : Text → List Text
runes [] = []
runes (c ∷ s) = let rest = runes s in if continues s then onto_first c rest else (c ∷ []) ∷ rest

-- string(runes)
unfoldable pub concat : List Text → Text
concat [] = []
concat (r ∷ rs) = r ++ concat rs

unfoldable pub mask_tail_string : Text → ℕ → Text → Text
mask_tail_string s keep_n mask_char =
    let rs = runes s in
    if is_empty s
    then []
    else if leb (length rs) keep_n
    then s
    else concat (replicate (length rs - keep_n) mask_char ++ drop (length rs - keep_n) rs)

unfoldable pub mask_middle_string : Text → ℕ → ℕ → Text → Text
mask_middle_string s head_n tail_n mask_char =
    let rs = runes s in
    if is_empty s
    then []
    else if leb (length rs) head_n || leb (length rs) tail_n || leb (length rs - tail_n) head_n
    then s
    else concat (
        take head_n rs
        ++ replicate (length rs - head_n - tail_n) mask_char
        ++ drop (length rs - tail_n) rs)

-- The words of strings.Fields: `current` is the word so far, `skip` the white space still to pass.
abbrev pub flush : Text → List Text → List Text
flush [] words = words
flush (c ∷ word) words = (c ∷ word) ∷ words

unfoldable pub fields_scan : Text → ℕ → Text → List Text
fields_scan current skip [] = flush current []
fields_scan current (suc skip) (c ∷ s) = fields_scan current skip s
fields_scan current zero (c ∷ s) = elim (space_width (c ∷ s)) [
  | zero ↦ fields_scan (current ++ c ∷ []) 0 s
  | suc w ↦ flush current (fields_scan [] w s)
]

-- strings.Join(words, " ")
unfoldable pub join_words : List Text → Text
join_words [] = []
join_words (w ∷ []) = w
join_words (w ∷ v ∷ ws) = w ++ codes " " ++ join_words (v ∷ ws)

unfoldable pub normalize_space : Text → Text
normalize_space s = join_words (fields_scan [] 0 s)
