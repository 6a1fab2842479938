-- ===== src/Budget/System.antt =====
-- The goroutines around one staging budget: those that wait in `Admit`, and those that hold an
-- admitted object. Each step is what one goroutine does under the lock.
use sumpter.Base.{ℕ, ◌≡◌, Bool, true, false, none, List, [], ◌∷◌, map}
use sumpter.Base.Int.{pos}
use sumpter.Base.Members.{Pick}
use sumpter.Budget.{
  StagingBudget, StagingBudgetConfig, new_staging_budget, AdmitError, check_size, granted, refused,
  waits, admit_round, release, note_cleanup_failure, note_retry,
}

-- A goroutine in the loop of `Admit`. `asleep` is that it stands in `cond.Wait`; `done` is its
-- ctx.Err() != nil; `pending` is that its `context.AfterFunc` callback is yet to broadcast.
pub record Waiter : Type 0 where
  pub size : ℕ
  pub asleep : Bool
  pub done : Bool
  pub pending : Bool

pub record System : Type 0 where
  pub budget : StagingBudget
  pub held : List ℕ
  pub waiters : List Waiter

-- `cond.Broadcast()`
abbrev pub wake : Waiter → Waiter
wake w = record w { asleep = false }

pub data Step : System → System → Type 0 where
  -- A call of `Admit` with a size that passes the checks; its context may be done already.
  arrive :
      {b : StagingBudget} {held : List ℕ} {ws : List Waiter} (n : ℕ) (d : Bool)
      → check_size b (pos n) ≡ none
      → Step
          (record { budget = b; held = held; waiters = ws })
          (record {
            budget = b;
            held = held;
            waiters = (record { size = n; asleep = false; done = d; pending = d }) ∷ ws;
          })
  grant :
      {b b' : StagingBudget} {held : List ℕ} {ws ws' : List Waiter} {w : Waiter}
      → Pick w ws ws'
      → w.asleep ≡ false
      → admit_round b w.done (pos w.size) ≡ granted b'
      → Step
          (record { budget = b; held = held; waiters = ws })
          (record { budget = b'; held = w.size ∷ held; waiters = ws' })
  refuse :
      {b : StagingBudget} {held : List ℕ} {ws ws' : List Waiter} {w : Waiter} {e : AdmitError}
      → Pick w ws ws'
      → w.asleep ≡ false
      → admit_round b w.done (pos w.size) ≡ refused e
      → Step
          (record { budget = b; held = held; waiters = ws })
          (record { budget = b; held = held; waiters = ws' })
  sleep :
      {b : StagingBudget} {held : List ℕ} {ws ws' : List Waiter} {w : Waiter}
      → Pick w ws ws'
      → w.asleep ≡ false
      → admit_round b w.done (pos w.size) ≡ waits
      → Step
          (record { budget = b; held = held; waiters = ws })
          (record { budget = b; held = held; waiters = (record w { asleep = true }) ∷ ws' })
  free :
      {b : StagingBudget} {held held' : List ℕ} {ws : List Waiter} {n : ℕ}
      → Pick n held held'
      → Step
          (record { budget = b; held = held; waiters = ws })
          (record { budget = release b (pos n); held = held'; waiters = map wake ws })
  cleanup_failure :
      {b : StagingBudget} {held : List ℕ} {ws : List Waiter}
      → Step
          (record { budget = b; held = held; waiters = ws })
          (record { budget = note_cleanup_failure b; held = held; waiters = map wake ws })
  retry :
      {b : StagingBudget} {held : List ℕ} {ws : List Waiter} (throttled : Bool)
      → Step
          (record { budget = b; held = held; waiters = ws })
          (record { budget = note_retry b throttled; held = held; waiters = ws })
  -- A context ends; the callback broadcasts some time later.
  cancel :
      {b : StagingBudget} {held : List ℕ} {ws ws' : List Waiter} {w : Waiter}
      → Pick w ws ws'
      → w.done ≡ false
      → Step
          (record { budget = b; held = held; waiters = ws })
          (record {
            budget = b;
            held = held;
            waiters = (record w { done = true; pending = true }) ∷ ws';
          })
  callback :
      {b : StagingBudget} {held : List ℕ} {ws ws' : List Waiter} {w : Waiter}
      → Pick w ws ws'
      → w.pending ≡ true
      → Step
          (record { budget = b; held = held; waiters = ws })
          (record {
            budget = b;
            held = held;
            waiters = map wake ((record w { pending = false }) ∷ ws');
          })

abbrev pub start : StagingBudgetConfig → System
start cfg = record { budget = new_staging_budget cfg; held = []; waiters = [] }

pub data Reach (s : System) : System → Type 0 where
  stop : Reach s s
  next : {t u : System} → Reach s t → Step t u → Reach s u
