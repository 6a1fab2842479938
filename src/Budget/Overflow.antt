-- ===== src/Budget/Overflow.antt =====
-- The sum `b.usedBytes+size` wraps, so a byte cap above 2^62 does not hold.
use sumpter.Base.{ℕ, ◌+◌, ◌-◌, ◌^◌, ◌≤◌, ◌<◌, ◌≡◌, true, false, none, arith}
use sumpter.Base.Int.{pos, negsuc, two64, add64}
use sumpter.Budget.{StagingBudget, check_size, files_ok, granted, reserve, admit_round}

add64-over :
    (a b : ℕ)
    → a < 2 ^ 63
    → b < 2 ^ 63
    → 2 ^ 63 ≤ a + b
    → add64 (pos a) (pos b) ≡ negsuc (two64 - 1 - (a + b))
unfolding add64
add64-over a b h h' k = ground arith

-- On a budget with positive caps below 2^63: if the bytes in use and the size, each within the byte
-- cap, add up to 2^63 or more, the object within the object cap passes the size checks, and where a
-- file slot is free and no cleanup has failed the round grants it, although the sum is over the cap.
pub admit_round-overflow :
    (b : StagingBudget) (cap used object n : ℕ)
    → b.max_bytes ≡ pos cap
    → b.used_bytes ≡ pos used
    → b.object_max ≡ pos object
    → cap < 2 ^ 63
    → used ≤ cap
    → n ≤ cap
    → n ≤ object
    → 2 ^ 63 ≤ used + n
    → files_ok b ≡ true
    → b.admit_blocked ≡ false
    → (check_size b (pos n) ≡ none)
      × (admit_round b false (pos n) ≡ granted (reserve b (pos n)))
      × (cap < used + n)
unfolding check_size admit_round
admit_round-overflow b cap used object n hc hu ho c1 u1 n1 n2 over f open_ =
    (ground arith, ground (arith, add64-over used n), omega arith)
