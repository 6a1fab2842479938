-- ===== src/Budget.antt =====
-- internal/uriio/staging_budget.go: the run-global cap on staged cloud payload.
-- A method of `*StagingBudget` takes the record and returns the new one; the receiver is not nil (on
-- a nil receiver every method does nothing). The body of a method runs under `mu`, so it is one
-- step; `Admit` is its size checks and then rounds of its loop, `admit_round`, between which it waits
-- on the condition variable. int64, int and time.Duration are `ℤ` with wrapping sums.
pub mod System
pub mod Caps
pub mod Wakeup
pub mod Blocked
pub mod Overflow
mod Tests
use sumpter.Base.{ℕ, zero, suc, Bool, true, false, ◌&&◌, ◌||◌, Option, none, some, if◌then◌else◌}
use sumpter.Base.Int.{ℤ, pos, ltb_ℤ, leb_ℤ, add64, sub64}

pub record StagingBudget : Type 0 where
  pub max_bytes : ℤ
  pub max_files : ℤ
  pub object_max : ℤ
  pub used_bytes : ℤ
  pub used_files : ℤ
  pub peak_bytes : ℤ
  pub peak_files : ℤ
  pub acquired_bytes : ℤ
  pub acquired_count : ℤ
  pub cleanup_failures : ℤ
  pub retries_throttle : ℤ
  pub retries_unavail : ℤ
  pub admit_blocked : Bool

pub record StagingBudgetConfig : Type 0 where
  pub max_bytes : ℤ
  pub max_files : ℤ
  pub object_max : ℤ

unfoldable pub new_staging_budget : StagingBudgetConfig → StagingBudget
new_staging_budget cfg = record {
  max_bytes = cfg.max_bytes;
  max_files = cfg.max_files;
  object_max = cfg.object_max;
  used_bytes = pos 0;
  used_files = pos 0;
  peak_bytes = pos 0;
  peak_files = pos 0;
  acquired_bytes = pos 0;
  acquired_count = pos 0;
  cleanup_failures = pos 0;
  retries_throttle = pos 0;
  retries_unavail = pos 0;
  admit_blocked = false;
}

pub data AdmitError : Type 0 where
  over_object_cap over_budget canceled cleanup_failed : AdmitError

-- `if size < 0 { size = 0 }`
unfoldable pub clamp_size : ℤ → ℤ
clamp_size size = if ltb_ℤ size (pos 0) then pos 0 else size

-- The checks of `Admit` before it takes the lock.
unfoldable pub check_size : StagingBudget → ℤ → Option AdmitError
check_size b size =
    if ltb_ℤ (pos 0) b.object_max && ltb_ℤ b.object_max size
    then some over_object_cap
    else if ltb_ℤ (pos 0) b.max_bytes && ltb_ℤ b.max_bytes size
    then some over_budget
    else none

-- What one round of the loop of `Admit` does: it returns nil, returns an error, or waits.
pub data Round : Type 0 where
  granted : StagingBudget → Round
  refused : AdmitError → Round
  waits : Round

-- `if used > peak { peak = used }`
unfoldable pub raise_peak : ℤ → ℤ → ℤ
raise_peak used peak = if ltb_ℤ peak used then used else peak

unfoldable pub reserve : StagingBudget → ℤ → StagingBudget
reserve b size =
    let files = add64 b.used_files (pos 1) in
    let bytes = add64 b.used_bytes size in
    record b {
      used_files = files;
      used_bytes = bytes;
      acquired_count = add64 b.acquired_count (pos 1);
      acquired_bytes = add64 b.acquired_bytes size;
      peak_files = raise_peak files b.peak_files;
      peak_bytes = raise_peak bytes b.peak_bytes;
    }

unfoldable pub files_ok : StagingBudget → Bool
files_ok b = leb_ℤ b.max_files (pos 0) || ltb_ℤ b.used_files b.max_files

unfoldable pub bytes_ok : StagingBudget → ℤ → Bool
bytes_ok b size = leb_ℤ b.max_bytes (pos 0) || leb_ℤ (add64 b.used_bytes size) b.max_bytes

-- One round of the loop; the flag is `ctx.Err() != nil`.
unfoldable pub admit_round : StagingBudget → Bool → ℤ → Round
unfolding files_ok bytes_ok
admit_round b done size =
    if done
    then refused canceled
    else if b.admit_blocked
    then refused cleanup_failed
    else if files_ok b && bytes_ok b size
    then granted (reserve b size)
    else waits

unfoldable pub release : StagingBudget → ℤ → StagingBudget
release b size = record b {
  used_files = clamp_size (sub64 b.used_files (pos 1));
  used_bytes = clamp_size (sub64 b.used_bytes (clamp_size size));
}

unfoldable pub note_cleanup_failure : StagingBudget → StagingBudget
note_cleanup_failure b = record b {
  cleanup_failures = add64 b.cleanup_failures (pos 1);
  admit_blocked = true;
}

unfoldable pub note_retry : StagingBudget → Bool → StagingBudget
note_retry b throttled =
    if throttled
    then record b { retries_throttle = add64 b.retries_throttle (pos 1) }
    else record b { retries_unavail = add64 b.retries_unavail (pos 1) }

-- StagingGetSizeMismatch: true if the size that the GET reports is refused.
unfoldable pub staging_get_size_mismatch : ℤ → ℤ → Bool
staging_get_size_mismatch admitted got = ltb_ℤ admitted got

-- `d := 50 * time.Millisecond`, doubled `attempt` times; a Duration is in nanoseconds.
unfoldable pub acquire_backoff : ℕ → ℤ
acquire_backoff zero = pos 50_000_000
acquire_backoff (suc attempt) = let d = acquire_backoff attempt in add64 d d
