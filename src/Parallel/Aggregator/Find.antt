-- ===== src/Parallel/Aggregator/Find.antt =====
-- The laws of the aggregator's buffer, and of the results gathered in the order of their numbers.
use mathlib.Core.Path.{ap₂}
use mathlib.Core.List.{append-nil, append_assoc}
use native.Mathlib.Nat.{add-zero}
use sumpter.Base.{
  ℕ, zero, suc, ◌+◌, ◌≤◌, ◌<◌, ◌≡◌, refl, sym, Option, none, some, List, [], ◌∷◌, ◌++◌, length,
  arith, ◌==◌, if◌then◌else◌,
}
use sumpter.Parallel.{WorkResult}
use sumpter.Parallel.Aggregator.{find, delete, store}

add-suc_lem : (i n : ℕ) → suc i + n ≡ i + suc n
add-suc_lem i n = omega arith

-- The first of two that is there.
abbrev pub or_else {ℓ} : {A : Type ℓ} → Option A → Option A → Option A
or_else none b = b
or_else (some a) b = some a

module _ {D : Type 0} where
  pub find-delete :
      (j k : ℕ) (rs : List (WorkResult D))
      → find j (delete k rs) ≡ (if k == j then none else find j rs)
  unfolding find delete
  find-delete j k [] = ground arith
  find-delete j k (r ∷ rs) = ground (arith, find-delete j k rs)

  pub find-store :
      (j : ℕ) (r : WorkResult D) (rs : List (WorkResult D))
      → find j (store r rs) ≡ (if r.record_num == j then some r else find j rs)
  unfolding find store
  find-store j r rs = ground (arith, find-delete j r.record_num rs)

  pub find-append :
      (j : ℕ) (xs ys : List (WorkResult D)) → find j (xs ++ ys) ≡ or_else (find j xs) (find j ys)
  unfolding find
  find-append j [] ys = refl
  find-append j (x ∷ xs) ys = ground (arith, find-append j xs ys)

  length-delete-le : (k : ℕ) (rs : List (WorkResult D)) → length (delete k rs) ≤ length rs
  unfolding delete
  length-delete-le k [] = omega arith
  length-delete-le k (r ∷ rs) = ground (arith, length-delete-le k rs)

  pub length-delete-lt :
      (k : ℕ) (rs : List (WorkResult D)) (r : WorkResult D)
      → find k rs ≡ some r
      → length (delete k rs) < length rs
  unfolding find delete
  length-delete-lt k [] r h = cc
  length-delete-lt k (x ∷ rs) r h = ground (arith, length-delete-lt k rs r, length-delete-le k rs)

  abbrev pub to_list : Option (WorkResult D) → List (WorkResult D)
  to_list none = []
  to_list (some r) = r ∷ []

  -- The results with the `n` numbers from `i` on, in order; a number with no result is passed over.
  unfoldable pub gather : ℕ → ℕ → List (WorkResult D) → List (WorkResult D)
  gather zero i rs = []
  gather (suc n) i rs = to_list (find i rs) ++ gather n (suc i) rs

  pub gather-cong :
      (n i : ℕ) (rs rs' : List (WorkResult D))
      → ((j : ℕ) → i ≤ j → j < i + n → find j rs ≡ find j rs')
      → gather n i rs ≡ gather n i rs'
  unfolding gather
  gather-cong zero i rs rs' h = refl
  gather-cong (suc n) i rs rs' h =
      ap₂ (λ o r. to_list o ++ r) (h i (omega arith) (omega arith))
        (gather-cong n (suc i) rs rs' (λ j a b. h j (omega arith) (omega arith)))

  pub gather-suc :
      (n i : ℕ) (rs : List (WorkResult D))
      → gather (suc n) i rs ≡ gather n i rs ++ to_list (find (i + n) rs)
  unfolding gather
  gather-suc zero i rs = rw (add-zero, append-nil)
  gather-suc (suc n) i rs =
      rw (gather-suc n (suc i) rs, add-suc_lem i n) (sym (append_assoc (to_list (find i rs)) _ _))

  -- The numbers are positive and no two are the same.
  abbrev pub IsNumbered : List (WorkResult D) → Type 0
  IsNumbered [] = Unit
  IsNumbered (r ∷ rs) = (0 < r.record_num) × (find r.record_num rs ≡ none) × IsNumbered rs

  -- In a numbered list what stands before a result does not have its number.
  pub IsNumbered-middle :
      (xs : List (WorkResult D)) (r : WorkResult D) (ys : List (WorkResult D))
      → IsNumbered (xs ++ r ∷ ys)
      → (0 < r.record_num) × (find r.record_num xs ≡ none)
  unfolding find
  IsNumbered-middle [] r ys h = (h.0, refl)
  IsNumbered-middle (x ∷ xs) r ys h =
      ground (arith, IsNumbered-middle xs r ys h.2, find-append x.record_num xs (r ∷ ys), h.1)
