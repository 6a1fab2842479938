-- ===== src/Budget/Tests.antt =====
-- Tests and instances for internal/uriio/staging_budget.go: a budget of 100 bytes in 2 files.
use sumpter.Base.{
  ◌-◌, ◌^◌, ◌≤◌, ◌≡◌, ◌+◌, ◌<◌, refl, Bool, true, false, if◌then◌else◌, none, some, [], ◌∷◌, length,
  arith,
}
use sumpter.Base.Int.{ℤ, pos, add64}
use sumpter.Base.Members.{All, here}
use sumpter.Budget.{
  StagingBudget, StagingBudgetConfig, new_staging_budget, over_object_cap, check_size, granted,
  refused, canceled, cleanup_failed, waits, reserve, files_ok, admit_round, release,
  note_cleanup_failure, staging_get_size_mismatch, acquire_backoff,
}
use sumpter.Budget.System.{Waiter, System, arrive, grant, sleep, free, start, Reach, stop, next}
use sumpter.Budget.Caps.{Counts}
use sumpter.Budget.Wakeup.{Reach-Counts, Reach-asleep, Reach-idle}
use sumpter.Budget.Blocked.{Reach-blocked}
use sumpter.Budget.Overflow.{admit_round-overflow}

abbrev cfg : StagingBudgetConfig
cfg = record { max_bytes = pos 100; max_files = pos 2; object_max = pos 60 }

abbrev one_held : StagingBudget
one_held = reserve (new_staging_budget cfg) (pos 60)

abbrev asleep_50 : Waiter
asleep_50 = record { size = 50; asleep = true; done = false; pending = false }

abbrev awake_50 : Waiter
awake_50 = record { size = 50; asleep = false; done = false; pending = false }

-- One object of 60 bytes is held, and a call for 50 bytes sleeps.
abbrev full : System
full = record { budget = one_held; held = 60 ∷ []; waiters = asleep_50 ∷ [] }

-- The object was released, and the call is awake again.
abbrev freed : System
freed = record { budget = release one_held (pos 60); held = []; waiters = awake_50 ∷ [] }

too_large : check_size (new_staging_budget cfg) (pos 61) ≡ some over_object_cap
unfolding check_size new_staging_budget
too_large = refl

backoffs : acquire_backoff 2 ≡ pos 200_000_000
unfolding acquire_backoff add64
backoffs = refl

grown : staging_get_size_mismatch (pos 10) (pos 11) ≡ true
unfolding staging_get_size_mismatch
grown = refl

fits : check_size (new_staging_budget cfg) (pos 60) ≡ none
unfolding check_size new_staging_budget
fits = refl

fits_50 : check_size one_held (pos 50) ≡ none
unfolding check_size new_staging_budget reserve
fits_50 = refl

granted_60 : admit_round (new_staging_budget cfg) false (pos 60) ≡ granted one_held
unfolding admit_round new_staging_budget add64
granted_60 = refl

waits_50 : admit_round one_held false (pos 50) ≡ waits
unfolding admit_round new_staging_budget reserve add64
waits_50 = refl

Reach-full : Reach (start cfg) full
Reach-full =
    next
      (next (next (next stop (arrive 60 false fits)) (grant here refl granted_60))
        (arrive 50 false fits_50))
      (sleep here refl waits_50)

Reach-freed : Reach (start cfg) freed
Reach-freed = next Reach-full (free here)

not_blocked : freed.budget.admit_blocked ≡ false
unfolding release reserve new_staging_budget
not_blocked = refl

Reach-Counts_example : Counts 100 2 one_held (60 ∷ [])
Reach-Counts_example =
    Reach-Counts 100 2 (omega arith) (omega arith) (omega arith) (omega arith) cfg refl refl
      Reach-full

Reach-asleep_example :
    (admit_round one_held false (pos 50) ≡ waits)
    × (asleep_50.done ≡ true → asleep_50.pending ≡ true)
Reach-asleep_example =
    Reach-asleep 100 2 (omega arith) (omega arith) (omega arith) (omega arith) cfg refl refl
      Reach-full here refl

Reach-idle_example :
    (awake_50.asleep ≡ false)
    × (admit_round freed.budget false (pos 50) ≡ granted (reserve freed.budget (pos 50)))
Reach-idle_example =
    Reach-idle 100 2 (omega arith) (omega arith) (omega arith) (omega arith) cfg refl refl
      Reach-freed refl not_blocked here

-- The cleanup has failed while the call slept, and the object was released after it.
abbrev failed_freed : System
failed_freed = record {
  budget = release (note_cleanup_failure one_held) (pos 60);
  held = [];
  waiters = awake_50 ∷ [];
}

Reach-blocked_example :
    All (λ (w : Waiter). w.asleep ≡ false) failed_freed.waiters
    × ((done : Bool) (size : ℤ)
        → admit_round failed_freed.budget done size
          ≡ refused (if done then canceled else cleanup_failed))
    × (length failed_freed.held ≤ length full.held)
Reach-blocked_example = Reach-blocked full {t = failed_freed} (next stop (free here))

-- A byte cap of 2^63 - 1, of which 2^62 bytes are in use.
abbrev wide : StagingBudget
wide = record (new_staging_budget cfg) {
  max_bytes = pos (2 ^ 63 - 1);
  object_max = pos (2 ^ 63 - 1);
  used_bytes = pos (2 ^ 62);
}

wide_files : files_ok wide ≡ true
unfolding files_ok new_staging_budget
wide_files = refl

wide_open : wide.admit_blocked ≡ false
unfolding new_staging_budget
wide_open = refl

admit_round-overflow_example :
    (check_size wide (pos (2 ^ 62)) ≡ none)
    × (admit_round wide false (pos (2 ^ 62)) ≡ granted (reserve wide (pos (2 ^ 62))))
    × (2 ^ 63 - 1 < 2 ^ 62 + 2 ^ 62)
admit_round-overflow_example =
    admit_round-overflow wide (2 ^ 63 - 1) (2 ^ 62) (2 ^ 63 - 1) (2 ^ 62) refl refl refl
      (omega arith) (omega arith) (omega arith) (omega arith) (omega arith) wide_files wide_open
