-- ===== src/Worker/Machine.antt =====
-- src/worker.cpp: the fibers of one worker as a machine. A step is what one fiber does between two
-- points at which another thread can come in or another fiber can go on, or what another thread
-- does to the worker. `frame` says where a fiber that is switched away goes on, and `pc` where the
-- current one stands. That the time of a wait comes, and the
-- end of `run`, are not among the steps.
pub mod Inv
pub mod Placed
pub mod Switch
pub mod Reachable
use hfts.Base.{
  ℕ, suc, ◌≤◌, ◌≡◌, ◌⊎◌, Bool, true, false, not, ◌&&◌, Option, none, some, List, [], ◌∷◌, update,
  elem,
}
use hfts.Task.{Task}
use hfts.Worker.{
  Worker, Mode, State, idle, running, init, enqueue_fiber, enqueue_task, steal, receive_stolen,
  suspend_begin, suspend_target, suspend_end, idle_target, take_task, change_fiber_state, may_go_on,
}

-- Where a fiber goes on when it is switched to: at the start of `run`, in `suspend` behind line 154,
-- in `runUntilIdle` behind line 321. The current fiber is `active`.
pub data Frame : Type 0 where
  fresh in_suspend in_idle active : Frame

-- Where the current fiber stands: at the head of the loop of `runUntilIdle`, in a task, or in
-- `suspend` at line 140.
pub data Pc : Type 0 where
  looping in_task suspending : Pc

pub record Machine : Type 0 where
  pub worker : Worker
  pub frame : ℕ → Frame
  pub pc : Pc

unfoldable pub start : ℕ → Mode → Machine
unfolding init
start id mode = record { worker = init id mode; frame = update (λ f. fresh) 0 active; pc = looping }

-- A fiber goes on from its frame.
unfoldable pub go_on : Frame → ℕ → Worker → (ℕ → Frame) → Machine
go_on at to w frame = elim at [
  | in_suspend ↦ record { worker = suspend_end w; frame = update frame to active; pc = in_task }
  | in_idle ↦ record {
    worker = change_fiber_state to idle running w;
    frame = update frame to active;
    pc = looping;
  }
  | fresh ↦ record { worker = w; frame = update frame to active; pc = looping }
  | active ↦ record { worker = w; frame = update frame to active; pc = looping }
]

-- Worker::switchToFiber, called by a fiber that will go on at `back`, up to where `to` goes on. A
-- fiber that switches to itself goes on at once.
unfoldable pub switch_to_fiber : Frame → (ℕ → Frame) → Worker × ℕ → Machine
unfolding go_on
switch_to_fiber back frame (w, to) =
    let saved = update frame w.current_fiber back in
    go_on (saved to) to (record w { current_fiber = to }) saved

abbrev pub with_worker : Machine → Worker → Machine
with_worker m w = record m { worker = w }

-- Whether a fiber stands in the idle set by its state.
abbrev pub is_idle : State → Bool
is_idle s = elim s [ idle ↦ true | _ ↦ false ]

pub data Step (m : Machine) : Machine → Type 0 where
  -- Any thread enqueues a task.
  enqueues : (task : Task) → Step m (with_worker m (enqueue_task task m.worker).0)
  -- Any thread notifies a fiber.
  notifies :
      (fiber : ℕ)
      → fiber ≤ m.worker.worker_fibers
      → Step m (with_worker m (enqueue_fiber fiber m.worker).0)
  -- Another worker steals.
  steals : Step m (with_worker m (steal m.worker).0)
  -- This worker, in waitForWork, has stolen a task.
  receives : (task : Task) → Step m (with_worker m (receive_stolen task m.worker))
  -- Worker::stop
  shuts_down : Step m (with_worker m (record (m.worker) { shutdown = true }))
  -- runUntilIdle goes on with a fiber.
  runs_fiber :
      (fiber : ℕ) (rest : List ℕ)
      → m.pc ≡ looping
      → m.worker.work.fibers ≡ fiber ∷ rest
      → Step m (switch_to_fiber in_idle m.frame (idle_target fiber rest m.worker))
  -- runUntilIdle runs a task.
  runs_task :
      (task : Task) (rest : List Task)
      → m.pc ≡ looping
      → m.worker.work.fibers ≡ []
      → m.worker.work.tasks ≡ task ∷ rest
      → Step m (record m { worker = take_task rest m.worker; pc = in_task })
  -- A task returns.
  returns : m.pc ≡ in_task → Step m (record m { pc = looping })
  -- A task waits, with a timeout or without.
  suspends :
      (timeout : Option ℕ)
      → m.pc ≡ in_task
      → Step m (record m { worker = suspend_begin timeout m.worker; pc = suspending })
  -- waitForWork returns in `suspend`; `pick` is any of the idle fibers.
  switches :
      (pick : ℕ)
      → m.pc ≡ suspending
      → may_go_on m.worker ≡ true
      → (m.worker.idle_fibers ≡ []) ⊎ (elem pick m.worker.idle_fibers ≡ true)
      → Step m (switch_to_fiber in_suspend m.frame (suspend_target pick m.worker))

pub data Reach (s : Machine) : Machine → Type 0 where
  here : Reach s s
  next : {m n : Machine} → Reach s m → Step m n → Reach s n

-- Whether a step notifies no fiber that is idle.
abbrev pub notifies_no_idle : {m n : Machine} → Step m n → Bool
notifies_no_idle {m = m} (notifies fiber h) = not (is_idle (m.worker.state fiber))
notifies_no_idle (enqueues task) = true
notifies_no_idle steals = true
notifies_no_idle (receives task) = true
notifies_no_idle shuts_down = true
notifies_no_idle (runs_fiber fiber rest p e) = true
notifies_no_idle (runs_task task rest p f e) = true
notifies_no_idle (returns p) = true
notifies_no_idle (suspends timeout p) = true
notifies_no_idle (switches pick p go h) = true

-- Whether no step on the way notifies a fiber that is idle.
unfoldable pub no_idle_notified : {s m : Machine} → Reach s m → Bool
no_idle_notified here = true
no_idle_notified (next r step) = no_idle_notified r && notifies_no_idle step
