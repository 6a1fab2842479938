-- ===== src/Dsl/Scan/Bounds.antt =====
-- A split point leaves room for its operator.
use sumpter.Base.{
  ℕ, zero, suc, ◌+◌, ◌≤◌, ◌<◌, ◌≡◌, ◌&&◌, Option, none, some, List, [], ◌∷◌, length, arith, ltb,
  ◌==◌, if-elim, Option-cases, inl, inr,
}
use sumpter.Base.Int.{ℤ, pos}
use sumpter.Dsl.{Text}
use sumpter.Dsl.Text.{has_prefix}
use sumpter.Dsl.Scan.{
  is_zero, StringRange, quoted_string_ranges, in_string_range, ScanDirection, leftmost_first,
  rightmost_first, SplitRound, stop, more, at_match, split_round, split_scan, idx_valid_split_point,
}

-- The position, if there is one, has `n` bytes after it in `total`.
abbrev IsBounded : ℕ → ℕ → Option ℕ → Type 0
IsBounded n total none = Unit
IsBounded n total (some i) = i + n ≤ total

abbrev RoundIsBounded : ℕ → ℕ → SplitRound → Type 0
RoundIsBounded n total (stop m) = IsBounded n total m
RoundIsBounded n total (more d k m) = IsBounded n total m

at_match-RoundIsBounded :
    (direction : ScanDirection) (i n total : ℕ) (depth : ℤ)
    → i + n ≤ total
    → RoundIsBounded n total (at_match direction i n depth)
at_match-RoundIsBounded leftmost_first i n total depth h = h
at_match-RoundIsBounded rightmost_first i n total depth h = h

split_round-RoundIsBounded :
    (direction : ScanDirection) (op : Text) (ranges : List StringRange) (i : ℕ) (depth : ℤ)
    (match_ : Option ℕ) (c : ℕ) (s : Text) (total : ℕ)
    → i + suc (length s) ≡ total
    → IsBounded (length op) total match_
    → RoundIsBounded (length op) total (split_round direction op ranges i depth match_ c s)
unfolding split_round
split_round-RoundIsBounded direction op ranges i depth m c s total e h =
    let P : SplitRound → Type 0 = RoundIsBounded (length op) total in
    if-elim P (ltb (suc (length s)) (length op)) (λ _. h)
      (λ long.
        if-elim P (in_string_range i ranges) (λ _. h)
          (λ _.
            if-elim P (c == b'(') (λ _. h)
              (λ _.
                if-elim P (c == b')') (λ _. h)
                  (λ _.
                    if-elim P (is_zero depth && has_prefix (c ∷ s) op)
                      (λ _.
                        at_match-RoundIsBounded direction i (length op) total depth (ground arith))
                      (λ _. h)))))

after_round-IsBounded :
    (n total : ℕ) (next : ℤ → ℕ → Option ℕ → Option ℕ) (r : SplitRound)
    → ((d : ℤ) (k : ℕ) (m : Option ℕ) → IsBounded n total m → IsBounded n total (next d k m))
    → RoundIsBounded n total r
    → IsBounded n total (elim r [ stop m ↦ m | more d k m ↦ next d k m ])
after_round-IsBounded n total next (stop m) h b = b
after_round-IsBounded n total next (more d k m) h b = h d k m b

split_scan-IsBounded :
    (direction : ScanDirection) (op : Text) (ranges : List StringRange) (i : ℕ) (depth : ℤ)
    (skip : ℕ) (match_ : Option ℕ) (s : Text) (total : ℕ)
    → i + length s ≡ total
    → IsBounded (length op) total match_
    → IsBounded (length op) total (split_scan direction op ranges i depth skip match_ s)
unfolding split_scan
split_scan-IsBounded direction op ranges i depth skip m [] total e h = h
split_scan-IsBounded direction op ranges i depth (suc skip) m (c ∷ s) total e h =
    split_scan-IsBounded direction op ranges (suc i) depth skip m s total (omega arith) h
split_scan-IsBounded direction op ranges i depth zero m (c ∷ s) total e h =
    after_round-IsBounded (length op) total
      (λ d k m'. split_scan direction op ranges (suc i) d k m' s)
      (split_round direction op ranges i depth m c s)
      (λ d k m' b. split_scan-IsBounded direction op ranges (suc i) d k m' s total (omega arith) b)
      (split_round-RoundIsBounded direction op ranges i depth m c s total e h)

some-IsBounded : (n total i : ℕ) (o : Option ℕ) → o ≡ some i → IsBounded n total o → i + n ≤ total
some-IsBounded n total i none e h = cc
some-IsBounded n total i (some j) e h = grind arith

pub idx_valid_split_point-bound :
    (s op : Text) (direction : ScanDirection) (i : ℕ)
    → idx_valid_split_point s op direction ≡ some (some i)
    → (i + length op ≤ length s) × (0 < length op)
unfolding idx_valid_split_point
idx_valid_split_point-bound s [] direction i e = cc
idx_valid_split_point-bound s (o ∷ op) direction i e =
    elim (Option-cases (quoted_string_ranges s)) [
      | inl none_ ↦ cc
      | inr (ranges, r) ↦ (
        some-IsBounded (length (o ∷ op)) (length s) i
            (split_scan direction (o ∷ op) ranges 0 (pos 0) 0 none s) (cc)
            (split_scan-IsBounded direction (o ∷ op) ranges 0 (pos 0) 0 none s (length s)
              (omega arith) tt),
        omega arith,
      )
    ]
