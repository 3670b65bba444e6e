-- ===== src/Scheduler/System.antt =====
-- src/scheduler.cpp and src/worker.cpp: all worker threads of a scheduler, with the tasks that they
-- exchange. A step is a call of Scheduler::enqueue, stealWork or onBeginSpinning, or a worker that
-- takes in what it has stolen or runs a task.
pub mod Counts
pub mod Valid
pub mod Longer
pub mod Conserved
pub mod Given
pub mod Moved
pub mod Reachable
use hfts.Base.{
  ℕ, ◌<◌, ◌≡◌, Bool, true, false, Option, none, some, List, [], ◌∷◌, ◌==◌, if◌then◌else◌, update,
}
use hfts.Task.{Task, same_thread}
use hfts.Task
use hfts.Worker.{receive_stolen, take_task}
use hfts.Scheduler.{
  Scheduler, Current, thread_worker, make, enqueue, steal_work, set_worker, on_begin_spinning,
}

-- `stolen` are the tasks that a worker has stolen and not taken in, and `ran` those that it has begun
-- to run. `accepted` are all tasks that were enqueued, and `bound` those that were to stay with the
-- worker that enqueued them. The last come first.
pub record System : Type 0 where
  pub scheduler : Scheduler
  pub stolen : ℕ → List Task
  pub ran : ℕ → List Task
  pub accepted : List Task
  pub bound : ℕ → List Task

unfoldable pub start : ℕ → System
start count = record {
  scheduler = make count;
  stolen = λ i. [];
  ran = λ i. [];
  accepted = [];
  bound = λ i. [];
}

abbrev pub tasks_of : Scheduler → ℕ → List Task
tasks_of s i = (s.worker_threads i).work.tasks

-- One more task for worker `i`
abbrev pub add_to : (ℕ → List Task) → ℕ → Task → ℕ → List Task
add_to m i task = update m i (task ∷ m i)

pub data Step (s : System) : System → Type 0 where
  -- Any thread enqueues a task that may run anywhere.
  enqueues :
      (current : Current) (rounds : List (ℕ → Bool)) (task : Task) (t : Scheduler)
      → Task.is task same_thread ≡ false
      → enqueue current rounds task s.scheduler ≡ some t
      → Step s (record s { scheduler = t; accepted = task ∷ s.accepted })
  -- Worker `i` enqueues a task that is to run on its thread.
  enqueues_here :
      (i : ℕ) (rounds : List (ℕ → Bool)) (task : Task) (t : Scheduler)
      → i < s.scheduler.count
      → Task.is task same_thread ≡ true
      → enqueue (thread_worker i) rounds task s.scheduler ≡ some t
      → Step s
          (record s { scheduler = t; accepted = task ∷ s.accepted; bound = add_to s.bound i task })
  begins_spinning :
      (i : ℕ)
      → i < s.scheduler.count
      → Step s (record s { scheduler = on_begin_spinning i s.scheduler })
  -- A worker that spins has stolen a task.
  steals :
      (thief from : ℕ) (task : Task) (t : Scheduler)
      → thief < s.scheduler.count
      → steal_work thief from s.scheduler ≡ (t, some task)
      → Step s (record s { scheduler = t; stolen = add_to s.stolen thief task })
  -- It takes the task in.
  receives :
      (i : ℕ) (task : Task) (rest : List Task)
      → i < s.scheduler.count
      → s.stolen i ≡ task ∷ rest
      → Step s (record s {
        scheduler = set_worker i (receive_stolen task (s.scheduler.worker_threads i)) s.scheduler;
        stolen = update s.stolen i rest;
      })
  -- A worker begins to run its first task.
  runs :
      (i : ℕ) (task : Task) (rest : List Task)
      → i < s.scheduler.count
      → tasks_of s.scheduler i ≡ task ∷ rest
      → Step s (record s {
        scheduler = set_worker i (take_task rest (s.scheduler.worker_threads i)) s.scheduler;
        ran = add_to s.ran i task;
      })

pub data Reach (s : System) : System → Type 0 where
  here : Reach s s
  next : {t u : System} → Reach s t → Step t u → Reach s u
