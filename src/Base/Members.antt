-- ===== src/Base/Members.antt =====
-- One element out of a list, and a statement about every element of a list.
use sumpter.Base.Lists.{length}
use Prim.Native.Nat.{suc}
use mathlib.Core.Path.{◌≡◌, refl, sym, ap}
use mathlib.Core.Logic.{◌≢◌}
use mathlib.Core.List.{List, [], ◌∷◌, map}

-- `xs` is `ys` with `x` put in somewhere.
pub data Pick {A : Type 0} (x : A) : List A → List A → Type 0 where
  here : {xs : List A} → Pick x (x ∷ xs) xs
  there : {y : A} {xs ys : List A} → Pick x xs ys → Pick x (y ∷ xs) (y ∷ ys)

pub Pick-length : {A : Type 0} {x : A} {xs ys : List A} → Pick x xs ys → length xs ≡ suc (length ys)
Pick-length here = refl
Pick-length (there p) = ap suc (Pick-length p)

abbrev pub All : {A : Type 0} → (A → Type 0) → List A → Type 0
All P [] = Unit
All P (x ∷ xs) = P x × All P xs

pub All-Pick :
    {A : Type 0} (P : A → Type 0) {x : A} {xs ys : List A}
    → Pick x xs ys
    → All P xs
    → P x × All P ys
All-Pick P here h = h
All-Pick P (there p) h = let (hx, hr) = All-Pick P p h.1 in (hx, (h.0, hr))

pub All-map :
    {A B : Type 0} (P : A → Type 0) (Q : B → Type 0) (f : A → B)
    → ((a : A) → P a → Q (f a))
    → (xs : List A) → All P xs
    → All Q (map f xs)
All-map P Q f g [] h = tt
All-map P Q f g (x ∷ xs) h = (g x h.0, All-map P Q f g xs h.1)

pub All-mono :
    {A : Type 0} (P Q : A → Type 0) → ((a : A) → P a → Q a) → (xs : List A) → All P xs → All Q xs
All-mono P Q g [] h = tt
All-mono P Q g (x ∷ xs) h = (g x h.0, All-mono P Q g xs h.1)

pub All-and :
    {A : Type 0} (P Q : A → Type 0) (xs : List A) → All P xs → All Q xs → All (λ x. P x × Q x) xs
All-and P Q [] h k = tt
All-and P Q (x ∷ xs) h k = ((h.0, k.0), All-and P Q xs h.1 k.1)

abbrev pub IsDistinct : {A : Type 0} → List A → Type 0
IsDistinct [] = Unit
IsDistinct (x ∷ xs) = All (λ y. y ≢ x) xs × IsDistinct xs

pub IsDistinct-Pick :
    {A : Type 0} {x : A} {xs ys : List A}
    → Pick x xs ys
    → IsDistinct xs
    → All (λ y. y ≢ x) ys × IsDistinct ys
IsDistinct-Pick here h = h
IsDistinct-Pick {x} (there {y} {xs} {ys} p) h =
    let (a, d) = IsDistinct-Pick p h.1 in
    let (ne, rest) = All-Pick (λ z. z ≢ y) p h.0 in (((λ e. ne (sym e)), a), (rest, d))

-- Another element is still there.
pub Pick-other :
    {A : Type 0} {x y : A} {xs ys zs : List A}
    → Pick x xs ys
    → Pick y xs zs
    → x ≢ y
    → (ws : List A) × Pick x zs ws
Pick-other here here ne = absurd (ne refl)
Pick-other (here {xs}) (there q) ne = (_, here)
Pick-other (there {ys = ys} p) here ne = (_, p)
Pick-other (there p) (there q) ne = let (ws, r) = Pick-other p q ne in (_, there r)
