-- ===== src/Dsl/Calls/Bounds.antt =====
-- The parts of a call are no longer than the string they stand in.
use sumpter.Base.{
  ℕ, zero, suc, ◌+◌, ◌≤◌, ◌<◌, ◌≡◌, Bool, false, Option, none, some, List, [], ◌∷◌, ◌++◌, length,
  length-append, arith, Option-cases, inl, inr,
}
use sumpter.Base.Members.{All}
use sumpter.Dsl.{Text}
use sumpter.Dsl.Text.{index_of, trim_space, length-trim_space}
use sumpter.Dsl.Calls.{
  ArgsRound, mismatched, cut, onward, args_round, add_arg, last_arg, args_scan,
  split_args_outside_strings,
}

pub index_of-lt : (c : ℕ) (s : Text) (i : ℕ) → index_of c s ≡ some i → i < length s
unfolding index_of
index_of-lt c [] i e = cc
index_of-lt c (x ∷ s) i e = elim (Option-cases (index_of c s)) [
  | inl rest ↦ ground arith
  | inr (j, rest) ↦ ground (arith, index_of-lt c s j rest)
]

abbrev pub AreShort : ℕ → Option (List Text) → Type 0
AreShort n none = Unit
AreShort n (some args) = All (λ a. length a ≤ n) args

add_arg-AreShort :
    (n : ℕ) (a : Text) (args : Option (List Text))
    → length a ≤ n
    → AreShort n args
    → AreShort n (add_arg a args)
add_arg-AreShort n a none h k = tt
add_arg-AreShort n a (some args) h k = (h, k)

last_arg-AreShort :
    (n depth : ℕ) (quote : Option ℕ) (current : Text)
    → length current ≤ n
    → AreShort n (last_arg depth quote current)
last_arg-AreShort n depth (some quote) current h = tt
last_arg-AreShort n zero none current h = (omega (arith, length-trim_space current), tt)
last_arg-AreShort n (suc depth) none current h = tt

round-AreShort :
    (n : ℕ) (r : ArgsRound) (cut_ : Option (List Text))
    (next : ℕ → Option ℕ → Bool → Option (List Text))
    → AreShort n cut_
    → ((d : ℕ) (q : Option ℕ) (e : Bool) → AreShort n (next d q e))
    → AreShort n (elim r [ mismatched ↦ none | cut ↦ cut_ | onward d q e ↦ next d q e ])
round-AreShort n mismatched cut_ next h k = tt
round-AreShort n cut cut_ next h k = h
round-AreShort n (onward d q e) cut_ next h k = k d q e

args_scan-AreShort :
    (n : ℕ) (current : Text) (depth : ℕ) (quote : Option ℕ) (escaped : Bool) (s : Text)
    → length current + length s ≤ n
    → AreShort n (args_scan current depth quote escaped s)
unfolding args_scan
args_scan-AreShort n current depth quote escaped [] h =
    last_arg-AreShort n depth quote current (omega arith)
args_scan-AreShort n current depth quote escaped (c ∷ s) h =
    round-AreShort n (args_round depth quote escaped c)
      (add_arg (trim_space current) (args_scan [] depth quote escaped s))
      (λ d q e. args_scan (current ++ c ∷ []) d q e s)
      (add_arg-AreShort n (trim_space current) (args_scan [] depth quote escaped s)
        (omega (arith, length-trim_space current))
        (args_scan-AreShort n [] depth quote escaped s (omega arith)))
      (λ d q e.
        args_scan-AreShort n (current ++ c ∷ []) d q e s
          (omega (arith, length-append current (c ∷ []))))

pub split_args-AreShort : (s : Text) → AreShort (length s) (split_args_outside_strings s)
unfolding split_args_outside_strings
split_args-AreShort s = args_scan-AreShort (length s) [] 0 none false s (omega arith)
