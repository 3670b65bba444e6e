-- ===== src/Scheduler/System/Conserved.antt =====
-- src/scheduler.cpp and src/worker.cpp: where the tasks of a system are.
use hfts.Base.{ℕ, ◌+◌, ◌≡◌, Bool, false, All}
use hfts.Task.{Task, same_thread}
use hfts.Task
use hfts.Scheduler.Spinning.{IsValid}
use hfts.Scheduler.System.{System, tasks_of}
use hfts.Scheduler.System.Counts.{count}
use hfts.Scheduler.System.Longer.{sums, stays}

pub record Conserved (s : System) : Type 0 where
  pub valid : IsValid s.scheduler
  -- Each task that was accepted is queued, stolen, or was run, once.
  pub everywhere :
      (p : Task → Bool)
      → count p s.accepted
        ≡ sums p (tasks_of s.scheduler) s.scheduler.count
          + sums p s.stolen s.scheduler.count
          + sums p s.ran s.scheduler.count
  -- A stolen task is bound to no thread.
  pub free : (i : ℕ) → All (λ task. Task.is task same_thread ≡ false) (s.stolen i)
  -- A task that is bound to a worker's thread is in its queue, or was run by it, once.
  pub at_home :
      (p : Task → Bool) (i : ℕ)
      → count (stays p) (s.bound i)
        ≡ count (stays p) (tasks_of s.scheduler i) + count (stays p) (s.ran i)
