-- ===== src/ValueProfile/Counts.antt =====
-- The map of a field's values against the list of them, the last one first.
pub mod Merged
use sumpter.Base.{
  ℕ, suc, ◌+◌, ◌≤◌, ◌≡◌, refl, sym, ap, ◌∙◌, Bool, true, false, not, ◌&&◌, ◌||◌, Option, none, some,
  List, [], ◌∷◌, length, arith, if◌then◌else◌, Bool-cases, inl, inr, Option-cases,
}
use sumpter.TextMap.{TextMap, lookup, put, lookup-put, eq_text_iff, eq_text_refl}
use sumpter.RefTable.{is_some}
use sumpter.Dsl.{Text}
use sumpter.Dsl.Text.{eq_text}
use sumpter.ValueProfile.Collector.{or_zero, value_at}

abbrev pub tally : Text → List Text → ℕ
tally t [] = 0
tally t (x ∷ xs) = let rest = tally t xs in if eq_text x t then suc rest else rest

abbrev pub member : Text → List Text → Bool
member t [] = false
member t (x ∷ xs) = let rest = member t xs in eq_text x t || rest

-- The number of different values with a property.
abbrev pub kinds : (Text → Bool) → List Text → ℕ
kinds p [] = 0
kinds p (x ∷ xs) = let rest = kinds p xs in if member x xs || not (p x) then rest else suc rest

abbrev pub cells : {V : Type 0} → (Text → Bool) → TextMap V → ℕ
cells p [] = 0
cells p ((k, v) ∷ m) = let rest = cells p m in if p k then suc rest else rest

abbrev pub Unique : {V : Type 0} → TextMap V → Type 0
Unique [] = Unit
Unique ((k, v) ∷ m) = (lookup k m ≡ none) × Unique m

pub record Counts (xs : List Text) (m : TextMap ℕ) : Type 0 where
  pub unique : Unique m
  pub tallied : (t : Text) → lookup t m ≡ (if member t xs then some (tally t xs) else none)
  pub sized : (p : Text → Bool) → cells p m ≡ kinds p xs

module _ {V : Type 0} where
  pub put-Unique : (k : Text) (v : V) (m : TextMap V) → Unique m → Unique (put k v m)
  unfolding put lookup
  put-Unique k v [] u = (refl, tt)
  put-Unique k v ((j, w) ∷ m) (h, u) = elim (Bool-cases (eq_text j k)) [
    | inl e ↦
        let same : j ≡ k = (eq_text_iff j k).0 e in rw e (ap (λ x. lookup x m) (sym same) ∙ h, u)
    | inr e ↦
        let other : eq_text k j ≡ false = ground (arith, eq_text_iff k j, eq_text_iff j k, e) in
        rw e (lookup-put j k v m ∙ rw other h, put-Unique k v m u)
  ]

  pub cells-put :
      (p : Text → Bool) (k : Text) (v : V) (m : TextMap V)
      → cells p (put k v m)
        ≡ (if is_some (lookup k m) || not (p k) then cells p m else suc (cells p m))
  unfolding put lookup
  cells-put p k v [] = ground arith
  cells-put p k v ((j, w) ∷ m) = elim (Bool-cases (eq_text j k)) [
    | inl e ↦ let same : j ≡ k = (eq_text_iff j k).0 e in rw (e, same) refl
    | inr e ↦ ground (arith, cells-put p k v m, e)
  ]

  pub cells-length : (m : TextMap V) → cells (λ k. true) m ≡ length m
  cells-length [] = refl
  cells-length ((k, v) ∷ m) = ap suc (cells-length m)

  -- Only the keys count.
  pub cells-cong :
      (p q : Text → Bool) (m : TextMap V)
      → ((k : Text) → is_some (lookup k m) ≡ true → p k ≡ q k)
      → cells p m ≡ cells q m
  unfolding lookup
  cells-cong p q [] h = refl
  cells-cong p q ((k, v) ∷ m) h =
      let first : p k ≡ q k = h k (rw (eq_text_refl k) refl) in
      let rest = cells-cong p q m (λ j s. h j (ground (arith, s))) in rw (first, rest) refl

pub tally-absent : (t : Text) (xs : List Text) → member t xs ≡ false → tally t xs ≡ 0
tally-absent t [] h = refl
tally-absent t (x ∷ xs) h = ground (arith, tally-absent t xs, h)

pub Counts-none : Counts [] []
unfolding lookup
Counts-none = record { unique = tt; tallied = λ t. refl; sized = λ p. refl }

pub Counts-value :
    (xs : List Text) (m : TextMap ℕ) (t : Text) → Counts xs m → value_at t m ≡ tally t xs
Counts-value xs m t h = ap or_zero (h.tallied t) ∙ elim (Bool-cases (member t xs)) [
  | inl e ↦ rw e refl
  | inr e ↦ rw e (sym (tally-absent t xs e))
]

pub Counts-is_some :
    (xs : List Text) (m : TextMap ℕ) (t : Text) → Counts xs m → is_some (lookup t m) ≡ member t xs
Counts-is_some xs m t h =
    ap is_some (h.tallied t)
    ∙ elim (Bool-cases (member t xs)) [ inl e ↦ rw e refl | inr e ↦ rw e refl ]

-- One more value.
pub Counts-put :
    (x : Text) (xs : List Text) (m : TextMap ℕ)
    → Counts xs m
    → Counts (x ∷ xs) (put x (suc (value_at x m)) m)
Counts-put x xs m h = record {
  unique = put-Unique x (suc (value_at x m)) m h.unique;
  tallied = λ t. lookup-put t x (suc (value_at x m)) m ∙ elim (Bool-cases (eq_text x t)) [
    | inl e ↦
        let same : x ≡ t = (eq_text_iff x t).0 e in
        let v : value_at x m ≡ tally t xs = Counts-value xs m x h ∙ ap (λ y. tally y xs) same in
        rw (e, v) refl
    | inr e ↦ rw e (h.tallied t)
  ];
  sized = λ p. cells-put p x (suc (value_at x m)) m ∙ rw (Counts-is_some xs m x h, h.sized p) refl;
}

pub Counts-length : (xs : List Text) (m : TextMap ℕ) → Counts xs m → length m ≡ kinds (λ t. true) xs
Counts-length xs m h = sym (cells-length m) ∙ h.sized (λ t. true)
