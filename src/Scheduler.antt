-- ===== src/Scheduler.antt =====
-- include/hfts/scheduler.hpp and src/scheduler.cpp. A slot of `spinningWorkers` that holds -1 is
-- `none`. A worker is named by its place: a worker thread by its index, the worker of a bound thread
-- by the thread's id. Other threads take and give back the workers' locks between two rounds of the
-- loop of `enqueue`: what they hold is given for each round.
pub mod Spinning
pub mod Enqueue
pub mod Bind
pub mod Idle
pub mod System
use hfts.Base.{
  ℕ, zero, suc, ◌-◌, ◌%◌, Bool, true, false, not, ◌||◌, Option, none, some, List, [], ◌∷◌, ◌==◌,
  ltb, if◌then◌else◌, update, inc32, dec32, is_empty,
}
use hfts.Task.{Task, same_thread}
use hfts.Task
use hfts.Worker.{
  Worker, Mode, init, multi_threaded, single_threaded, try_lock, enqueue_and_unlock, enqueue_task,
  steal,
}

pub record Scheduler : Type 0 where
  pub count : ℕ
  pub worker_threads : ℕ → Worker
  pub spinning_workers : ℕ → Option ℕ
  pub next_spinning_worker_idx : ℕ
  pub next_enqueue_index : ℕ
  pub by_tid : List (ℕ × Worker)

-- Scheduler::Scheduler
unfoldable pub make : ℕ → Scheduler
make count = record {
  count = count;
  worker_threads = λ i. init i multi_threaded;
  spinning_workers = λ i. none;
  next_spinning_worker_idx = 0x8000000;
  next_enqueue_index = 0;
  by_tid = [];
}

-- Scheduler::onBeginSpinning
unfoldable pub on_begin_spinning : ℕ → Scheduler → Scheduler
on_begin_spinning worker_id s =
    let idx = s.next_spinning_worker_idx % s.count in
    record s {
      next_spinning_worker_idx = inc32 s.next_spinning_worker_idx;
      spinning_workers = update s.spinning_workers idx (some worker_id);
    }

-- Lines 103 to 109 of Scheduler::enqueue: the worker to try.
unfoldable pub pick_worker : Scheduler → Scheduler × ℕ
pick_worker s₀ =
    let next = dec32 s₀.next_spinning_worker_idx in
    let i = next % s₀.count in
    let s = record s₀ {
      next_spinning_worker_idx = next;
      spinning_workers = update s₀.spinning_workers i none;
    } in
    elim (s₀.spinning_workers i) [
      | some idx ↦ (s, idx)
      | none ↦ (
        record s { next_enqueue_index = inc32 s.next_enqueue_index },
        s.next_enqueue_index % s.count,
      )
    ]

abbrev pub set_worker : ℕ → Worker → Scheduler → Scheduler
set_worker i w s = record s { worker_threads = update s.worker_threads i w }

-- The locks of the workers as other threads hold them.
unfoldable pub with_locks : (ℕ → Bool) → Scheduler → Scheduler
with_locks held s = record s {
  worker_threads = λ i.
      let w = s.worker_threads i in
      let work = w.work in record w { work = record work { locked = held i } };
}

-- One round of the loop of Scheduler::enqueue, and whether it has enqueued the task.
unfoldable pub enqueue_round : Task → Scheduler → Scheduler × Bool
enqueue_round task s₀ =
    let (s, idx) = pick_worker s₀ in
    let (worker, locked) = try_lock (s.worker_threads idx) in
    if locked then (set_worker idx (enqueue_and_unlock task worker).0 s, true) else (s, false)

-- The loop; `none` if it has not ended after the rounds that are given.
unfoldable pub enqueue_loop : List (ℕ → Bool) → Task → Scheduler → Option Scheduler
enqueue_loop [] task s = none
enqueue_loop (held ∷ rest) task s₀ =
    let (s, done) = enqueue_round task (with_locks held s₀) in
    elim done [ true ↦ some s | false ↦ enqueue_loop rest task s ]

-- Worker::currentWorker of a thread
pub data Current : Type 0 where
  no_worker : Current
  thread_worker bound_worker : ℕ → Current

unfoldable pub enqueue_bound : ℕ → Task → List (ℕ × Worker) → List (ℕ × Worker)
enqueue_bound tid task [] = []
enqueue_bound tid task ((t, w) ∷ rest) =
    if t == tid then (t, (enqueue_task task w).0) ∷ rest else (t, w) ∷ enqueue_bound tid task rest

unfoldable pub enqueue_current : Current → Task → Scheduler → Scheduler
unfolding enqueue_bound
enqueue_current no_worker task s = s
enqueue_current (thread_worker i) task s = set_worker i (enqueue_task task (s.worker_threads i)).0 s
enqueue_current (bound_worker tid) task s = record s { by_tid = enqueue_bound tid task s.by_tid }

-- Scheduler::enqueue
unfoldable pub enqueue : Current → List (ℕ → Bool) → Task → Scheduler → Option Scheduler
enqueue current rounds task s =
    if Task.is task same_thread || (s.count == 0)
    then some (enqueue_current current task s)
    else enqueue_loop rounds task s

-- Scheduler::stealWork. `thief` is the index of the thief among the worker threads.
unfoldable pub steal_work : ℕ → ℕ → Scheduler → Scheduler × Option Task
steal_work thief from s =
    if not (ltb 0 s.count)
    then (s, none)
    else (let victim = from % s.count in
        if victim == thief
        then (s, none)
        else (let (w, out) = steal (s.worker_threads victim) in (set_worker victim w s, out)))

-- std::unordered_map of the bound threads
unfoldable pub find : ℕ → List (ℕ × Worker) → Option Worker
find tid [] = none
find tid ((t, w) ∷ rest) = if t == tid then some w else find tid rest

unfoldable pub emplace : ℕ → Worker → List (ℕ × Worker) → List (ℕ × Worker)
emplace tid worker [] = (tid, worker) ∷ []
emplace tid worker ((t, w) ∷ rest) =
    if t == tid then (t, w) ∷ rest else (t, w) ∷ emplace tid worker rest

unfoldable pub erase_tid : ℕ → List (ℕ × Worker) → List (ℕ × Worker)
erase_tid tid [] = []
erase_tid tid ((t, w) ∷ rest) = if t == tid then rest else (t, w) ∷ erase_tid tid rest

-- Scheduler::bind by the thread `tid`. The id of its worker is -1 as a uint32_t.
unfoldable pub bind : ℕ → Scheduler → Scheduler
bind tid s = record s { by_tid = emplace tid (init 0xffff_ffff single_threaded) s.by_tid }

-- Scheduler::unbind by the thread `tid`, after `worker->stop()`, and whether `unbind` is notified.
-- To erase a thread that is not found is `none`.
unfoldable pub unbind : ℕ → Scheduler → Option (Scheduler × Bool)
unbind tid s = elim (find tid s.by_tid) [
  | none ↦ none
  | some w ↦ let rest = erase_tid tid s.by_tid in some (record s { by_tid = rest }, is_empty rest)
]

-- What ~Scheduler waits for.
unfoldable pub may_destroy : Scheduler → Bool
may_destroy s = is_empty s.by_tid
