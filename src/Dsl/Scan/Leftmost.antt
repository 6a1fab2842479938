-- ===== src/Dsl/Scan/Leftmost.antt =====
-- The leftmost split point against a description of it that does not scan.
use sumpter.Base.{
  ℕ, zero, suc, ◌+◌, ◌≤◌, ◌<◌, ◌≡◌, ◌≢◌, refl, sym, ◌∙◌, true, false, ◌&&◌, Option, none, some,
  List, [], ◌∷◌, drop, length, length-drop, ◌⊎◌, arith, ltb, ◌==◌, if◌then◌else◌, Bool-cases, inl,
  inr, &&-eq-true,
}
use sumpter.Base.Int.{ℤ, pos}
use sumpter.Dsl.{Text}
use sumpter.Dsl.Text.{has_prefix}
use sumpter.Dsl.Scan.{
  inc, dec, is_zero, StringRange, quoted_string_ranges, in_string_range, leftmost_first, SplitRound,
  stop, more, split_round, split_scan, idx_valid_split_point,
}

-- The depth after a byte at position `i`.
abbrev pub depth_step : List StringRange → ℕ → ℤ → ℕ → ℤ
depth_step ranges i d c =
    if in_string_range i ranges
    then d
    else if c == b'('
    then inc d
    else if c == b')'
    then dec d
    else d

-- The depth after `n` bytes of `s`, from the depth `d` at position `i`.
abbrev pub depth_at : List StringRange → ℕ → ℤ → ℕ → Text → ℤ
depth_at ranges i d zero s = d
depth_at ranges i d (suc n) [] = d
depth_at ranges i d (suc n) (c ∷ s) = depth_at ranges (suc i) (depth_step ranges i d c) n s

-- `n` bytes on, outside of strings and of parentheses, stands `op`.
pub record IsSplit (ranges : List StringRange) (op : Text) (i : ℕ) (d : ℤ) (s : Text) (n : ℕ)
    : Type 0 where
  pub unquoted : in_string_range (i + n) ranges ≡ false
  pub top : is_zero (depth_at ranges i d n s) ≡ true
  pub here : has_prefix (drop n s) op ≡ true

-- There is none, or it is the first.
abbrev pub IsFirst : List StringRange → Text → ℕ → ℤ → Text → Option ℕ → Type 0
IsFirst ranges op i d s none = (n : ℕ) → IsSplit ranges op i d s n → ⊥
IsFirst ranges op i d s (some r) =
    (n : ℕ) × (r ≡ i + n)
    × IsSplit ranges op i d s n
    × ((m : ℕ) → m < n → IsSplit ranges op i d s m → ⊥)

pub has_prefix-length : (s op : Text) → has_prefix s op ≡ true → length op ≤ length s
unfolding has_prefix
has_prefix-length s [] e = omega arith
has_prefix-length [] (o ∷ op) e = cc
has_prefix-length (c ∷ s) (o ∷ op) e = ground (arith, has_prefix-length s op)

module _ (ranges : List StringRange) (op : Text) (i : ℕ) (d : ℤ) (c : ℕ) (s : Text) where
  IsSplit-tail :
      (n : ℕ)
      → IsSplit ranges op i d (c ∷ s) (suc n)
      → IsSplit ranges op (suc i) (depth_step ranges i d c) s n
  IsSplit-tail n h =
      let e : i + suc n ≡ suc i + n = omega arith in
      record { unquoted = rw e at h.unquoted; top = h.top; here = h.here }

  IsSplit-cons :
      (n : ℕ)
      → IsSplit ranges op (suc i) (depth_step ranges i d c) s n
      → IsSplit ranges op i d (c ∷ s) (suc n)
  IsSplit-cons n h =
      let e : i + suc n ≡ suc i + n = omega arith in
      record { unquoted = rw e h.unquoted; top = h.top; here = h.here }

  no_less :
      (n : ℕ)
      → (IsSplit ranges op i d (c ∷ s) 0 → ⊥)
      → ((m : ℕ) → m < n → IsSplit ranges op (suc i) (depth_step ranges i d c) s m → ⊥)
      → (m : ℕ) → m < suc n
      → IsSplit ranges op i d (c ∷ s) m
      → ⊥
  no_less n nowhere least zero lt k = nowhere k
  no_less n nowhere least (suc m) lt k = least m (omega arith) (IsSplit-tail m k)

  none_at :
      (IsSplit ranges op i d (c ∷ s) 0 → ⊥)
      → ((n : ℕ) → IsSplit ranges op (suc i) (depth_step ranges i d c) s n → ⊥)
      → (n : ℕ) → IsSplit ranges op i d (c ∷ s) n
      → ⊥
  none_at nowhere h zero k = nowhere k
  none_at nowhere h (suc n) k = h n (IsSplit-tail n k)

  -- No split at this byte: what holds of the rest holds of the whole.
  IsFirst-cons :
      (r : Option ℕ)
      → (IsSplit ranges op i d (c ∷ s) 0 → ⊥)
      → IsFirst ranges op (suc i) (depth_step ranges i d c) s r
      → IsFirst ranges op i d (c ∷ s) r
  IsFirst-cons none nowhere h = none_at nowhere h
  IsFirst-cons (some r) nowhere (n, e, k, least) =
      (suc n, omega arith, IsSplit-cons n k, no_less n nowhere least)

  -- What a round finds at this byte: too few bytes, a split, or neither.
  abbrev Finds : SplitRound → Type 0
  Finds r =
      ((r ≡ stop none) × (suc (length s) < length op))
      ⊎ ((r ≡ stop (some i)) × IsSplit ranges op i d (c ∷ s) 0)
      ⊎ ((r ≡ more (depth_step ranges i d c) 0 none) × (IsSplit ranges op i d (c ∷ s) 0 → ⊥))

  unquoted_zero : IsSplit ranges op i d (c ∷ s) 0 → in_string_range i ranges ≡ false
  unquoted_zero h = let e : i + 0 ≡ i = omega arith in rw e at h.unquoted

  IsSplit-zero :
      in_string_range i ranges ≡ false
      → (is_zero d && has_prefix (c ∷ s) op) ≡ true
      → IsSplit ranges op i d (c ∷ s) 0
  IsSplit-zero q h =
      let e : i + 0 ≡ i = omega arith in
      let (z, p) = &&-eq-true (is_zero d) (has_prefix (c ∷ s) op) h in
      record { unquoted = rw e q; top = z; here = p }

  round-Finds :
      ((c ≡ b'(') → has_prefix (c ∷ s) op ≡ false)
      → ((c ≡ b')') → has_prefix (c ∷ s) op ≡ false)
      → Finds (split_round leftmost_first op ranges i d none c s)
  unfolding split_round
  round-Finds left right = elim (Bool-cases (ltb (suc (length s)) (length op))) [
    | inl few ↦ rw (split_round, few) (inl (refl, ground arith))
    | inr enough ↦ elim (Bool-cases (in_string_range i ranges)) [
      | inl quoted ↦
          rw (split_round, enough, quoted) (inr (inr (refl, λ h. cc (unquoted_zero h, quoted))))
      | inr unquoted ↦ elim (Bool-cases (c == b'(')) [
        | inl at_left ↦
            rw (split_round, enough, unquoted, at_left)
              (inr (inr (refl, λ h. cc (h.here, left (ground arith)))))
        | inr not_left ↦ elim (Bool-cases (c == b')')) [
          | inl at_right ↦
              rw (split_round, enough, unquoted, not_left, at_right)
                (inr (inr (refl, λ h. cc (h.here, right (ground arith)))))
          | inr not_right ↦ elim (Bool-cases (is_zero d && has_prefix (c ∷ s) op)) [
            | inl found ↦
                rw (split_round, enough, unquoted, not_left, not_right, found)
                  (inr (inl (refl, IsSplit-zero unquoted found)))
            | inr other ↦
                rw (split_round, enough, unquoted, not_left, not_right, other)
                  (inr (inr (refl, λ h. ground (arith, h.top, h.here))))
          ]
        ]
      ]
    ]
  ]

has_prefix-other : (c o : ℕ) (s op : Text) → c ≢ o → has_prefix (c ∷ s) (o ∷ op) ≡ false
unfolding has_prefix
has_prefix-other c o s op ne = ground arith

length-drop-le : (n : ℕ) (s : Text) → length (drop n s) ≤ length s
length-drop-le n s = omega (arith, length-drop n s)

split_scan-IsFirst :
    (o : ℕ) (op : Text) (ranges : List StringRange)
    → o ≢ b'('
    → o ≢ b')'
    → (i : ℕ) (d : ℤ) (s : Text)
    → IsFirst ranges (o ∷ op) i d s (split_scan leftmost_first (o ∷ op) ranges i d 0 none s)
unfolding split_scan
split_scan-IsFirst o op ranges l r i d [] =
    λ n h. omega (arith, has_prefix-length (drop n []) (o ∷ op) h.here, length-drop-le n [])
split_scan-IsFirst o op ranges l r i d (c ∷ s) =
    let rest = split_scan-IsFirst o op ranges l r (suc i) (depth_step ranges i d c) s in
    let finds =
      round-Finds ranges (o ∷ op) i d c s (λ e. has_prefix-other c o s op (λ e'. l (sym e' ∙ e)))
        (λ e. has_prefix-other c o s op (λ e'. r (sym e' ∙ e))) in
    elim finds [
      | inl (e, few) ↦
          rw (split_scan, e)
            (λ n h.
              omega (
                arith,
                has_prefix-length (drop n (c ∷ s)) (o ∷ op) h.here,
                length-drop-le n (c ∷ s),
              ))
      | inr (inl (e, h)) ↦ rw (split_scan, e) (0, omega arith, h, λ m lt k. omega arith)
      | inr (inr (e, nowhere)) ↦
          rw (split_scan, e)
            (IsFirst-cons ranges (o ∷ op) i d c s
              (split_scan leftmost_first (o ∷ op) ranges (suc i) (depth_step ranges i d c) 0 none s)
              nowhere rest)
    ]

-- For every string whose quotes are all closed, and an operator that is not empty and does not begin
-- with a parenthesis: the leftmost search returns a position outside of strings and of parentheses at
-- which the operator stands, no earlier position is such, and where it returns none there is none.
pub idx_valid_split_point-IsFirst :
    (s : Text) (o : ℕ) (op : Text) (ranges : List StringRange)
    → o ≢ b'('
    → o ≢ b')'
    → quoted_string_ranges s ≡ some ranges
    → (r : Option ℕ) × (idx_valid_split_point s (o ∷ op) leftmost_first ≡ some r)
      × IsFirst ranges (o ∷ op) 0 (pos 0) s r
unfolding idx_valid_split_point
idx_valid_split_point-IsFirst s o op ranges l r e = (
  split_scan leftmost_first (o ∷ op) ranges 0 (pos 0) 0 none s,
  rw (idx_valid_split_point, e) refl,
  split_scan-IsFirst o op ranges l r 0 (pos 0) s,
)
