-- ===== src/Base/Int.antt =====
-- Go's int64 (and int, which is as wide on the platforms the program is built for): an integer in
-- -2^63 .. 2^63 - 1, with arithmetic that wraps.
use Prim.Native.Nat.{ℕ, ◌+◌, ◌-◌, ◌%◌, ◌^◌, ◌≤◌, ◌<◌}
use mathlib.Core.Path.{◌≡◌, refl}
use mathlib.Core.Bool.{Bool, true, false}
use native.Mathlib.Omega.{arith}
use sumpter.Base.Tests.{ltb, leb, if◌then◌else◌}

-- `negsuc n` is -(n + 1).
pub data ℤ : Type 0 where
  pos : ℕ → ℤ
  negsuc : ℕ → ℤ

abbrev pub two63 : ℕ
two63 = 2 ^ 63

abbrev pub two64 : ℕ
two64 = 2 ^ 64

-- The integer that 64 bits stand for.
abbrev pub of_bits : ℕ → ℤ
of_bits b = if ltb b two63 then pos b else negsuc (two64 - 1 - b)

-- The 64 bits of an integer of any size.
abbrev pub to_bits : ℤ → ℕ
to_bits (pos n) = n % two64
to_bits (negsuc n) = two64 - 1 - n % two64

unfoldable pub add64 : ℤ → ℤ → ℤ
add64 a b = of_bits ((to_bits a + to_bits b) % two64)

unfoldable pub sub64 : ℤ → ℤ → ℤ
sub64 a b = of_bits ((to_bits a + two64 - to_bits b) % two64)

abbrev pub ltb_ℤ : ℤ → ℤ → Bool
ltb_ℤ (pos a) (pos b) = ltb a b
ltb_ℤ (pos a) (negsuc b) = false
ltb_ℤ (negsuc a) (pos b) = true
ltb_ℤ (negsuc a) (negsuc b) = ltb b a

abbrev pub leb_ℤ : ℤ → ℤ → Bool
leb_ℤ (pos a) (pos b) = leb a b
leb_ℤ (pos a) (negsuc b) = false
leb_ℤ (negsuc a) (pos b) = true
leb_ℤ (negsuc a) (negsuc b) = leb b a

-- Sums and differences that stay in range do not wrap.
pub add64-pos : (a b : ℕ) → a + b < two63 → add64 (pos a) (pos b) ≡ pos (a + b)
unfolding add64
add64-pos a b h = ground arith

pub sub64-pos : (a b : ℕ) → b ≤ a → a < two63 → sub64 (pos a) (pos b) ≡ pos (a - b)
unfolding sub64
sub64-pos a b h k = ground arith

wraps : add64 (pos (two63 - 1)) (pos 1) ≡ negsuc (two63 - 1)
unfolding add64
wraps = refl

borrows : sub64 (pos 3) (pos 5) ≡ negsuc 1
unfolding sub64
borrows = refl
