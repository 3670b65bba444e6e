-- ===== src/Benchmark/Pool.antt =====
-- example/benchmark.cpp: PlainThreadPool. A task is a number. What stands between lock and unlock is
-- one step, and so is a task. A thread that wakes from `ready.wait` where the predicate does not hold
-- waits on.
pub mod Inv
pub mod Drained
use hfts.Base.{
  ℕ, suc, ◌<◌, ◌≡◌, Bool, true, false, not, ◌&&◌, ◌||◌, Option, none, some, List, [], ◌∷◌, ◌++◌,
  ◌==◌, if◌then◌else◌, update, inc64, dec64, is_empty,
}

pub record Pool : Type 0 where
  pub queue : List ℕ
  pub pending : ℕ
  pub shutdown : Bool

-- Where a thread stands in workerLoop: before it has a task, in the task, behind the task, or
-- behind the return
pub data Stage : Type 0 where
  waits : Stage
  runs : ℕ → Stage
  ran : Stage
  left : Stage

unfoldable pub new_pool : Pool
new_pool = record { queue = []; pending = 0; shutdown = false }

-- PlainThreadPool::enqueue
unfoldable pub enqueue : ℕ → Pool → Pool
enqueue task p = record p { queue = p.queue ++ task ∷ []; pending = inc64 p.pending }

-- The first locked part of workerLoop; `none` while the thread waits.
unfoldable pub wake : Pool → Option (Pool × Stage)
wake p =
    if p.shutdown || not (is_empty p.queue)
    then (if p.shutdown && is_empty p.queue
        then some (p, left)
        else elim p.queue [ [] ↦ none | task ∷ rest ↦ some (record p { queue = rest }, runs task) ])
    else none

-- The second locked part of workerLoop, with whether `drained` is notified
unfoldable pub finish : Pool → Pool × Bool
finish p = let pending = dec64 p.pending in (record p { pending = pending }, pending == 0)

-- The predicate of waitUntilIdle
unfoldable pub is_idle : Pool → Bool
is_idle p = p.pending == 0

-- The destructor, up to the joins
unfoldable pub shut_down : Pool → Pool
shut_down p = record p { shutdown = true }

-- `accepted` are the tasks that were enqueued, and `ended` those whose calls have returned.
pub record System : Type 0 where
  pub pool : Pool
  pub worker_count : ℕ
  pub thread : ℕ → Stage
  pub accepted : List ℕ
  pub ended : List ℕ

unfoldable pub start : ℕ → System
unfolding new_pool
start worker_count = record {
  pool = new_pool;
  worker_count = worker_count;
  thread = λ i. waits;
  accepted = [];
  ended = [];
}

pub data Step (s : System) : System → Type 0 where
  -- A member function is called before the destructor.
  enqueues :
      (task : ℕ)
      → s.pool.shutdown ≡ false
      → Step s (record s { pool = enqueue task s.pool; accepted = task ∷ s.accepted })
  wakes :
      (i : ℕ) (p : Pool) (at : Stage)
      → i < s.worker_count
      → s.thread i ≡ waits
      → wake s.pool ≡ some (p, at)
      → Step s (record s { pool = p; thread = update s.thread i at })
  returns :
      (i task : ℕ)
      → i < s.worker_count
      → s.thread i ≡ runs task
      → Step s (record s { thread = update s.thread i ran; ended = task ∷ s.ended })
  finishes :
      (i : ℕ)
      → i < s.worker_count
      → s.thread i ≡ ran
      → Step s (record s { pool = (finish s.pool).0; thread = update s.thread i waits })
  shuts_down : Step s (record s { pool = shut_down s.pool })

pub data Reach (s : System) : System → Type 0 where
  here : Reach s s
  next : {t u : System} → Reach s t → Step t u → Reach s u
