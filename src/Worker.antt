-- ===== src/Worker.antt =====
-- include/hfts/worker.hpp and src/worker.cpp, with Fiber::State of include/hfts/fiber.hpp. A fiber is
-- a number: 0 is the main fiber, and n + 1 is element n of `workerFibers`. A function that holds
-- work.mutex from begin to end is one function here; `suspend` and `runUntilIdle`, which give it up
-- or switch to another fiber, are in parts. Its result says whether `added` is notified.
pub mod Machine
pub mod Timeouts
pub mod Wait
pub mod Sleep
pub mod Spin
pub mod Queues
use hfts.Base.{
  ℕ, suc, Bool, true, false, not, ◌&&◌, ◌||◌, Option, none, some, List, [], ◌∷◌, ◌++◌, ◌==◌, ltb,
  if◌then◌else◌, update, inc64, dec64, erase, elem,
}
use hfts.Task.{Task, Flag, same_thread}
use hfts.Task
use hfts.WaitingFibers.{WaitingFibers}
use hfts.WaitingFibers

-- Fiber::State
pub data State : Type 0 where
  idle waiting yielded queued running : State

-- Worker::Mode
pub data Mode : Type 0 where
  multi_threaded single_threaded : Mode

-- Worker::Work. `locked` is the state of `mutex`.
pub record Work : Type 0 where
  pub num : ℕ
  pub num_blocked_fibers : ℕ
  pub tasks : List Task
  pub fibers : List ℕ
  pub waiting : WaitingFibers
  pub notify_added : Bool
  pub locked : Bool

-- `state` holds Fiber::state of each fiber, and `worker_fibers` is workerFibers.size().
pub record Worker : Type 0 where
  pub id : ℕ
  pub mode : Mode
  pub current_fiber : ℕ
  pub work : Work
  pub idle_fibers : List ℕ
  pub worker_fibers : ℕ
  pub shutdown : Bool
  pub state : ℕ → State

-- Worker::Work::Work and Worker::Worker, after `start` has made the main fiber.
unfoldable pub init : ℕ → Mode → Worker
init id mode = record {
  id = id;
  mode = mode;
  current_fiber = 0;
  work = record {
    num = 0;
    num_blocked_fibers = 0;
    tasks = [];
    fibers = [];
    waiting = WaitingFibers.empty;
    notify_added = true;
    locked = false;
  };
  idle_fibers = [];
  worker_fibers = 0;
  shutdown = false;
  state = λ f. running;
}

unfoldable pub set_fiber_state : ℕ → State → Worker → Worker
set_fiber_state fiber to w = record w { state = update w.state fiber to }

-- The state `from` is not looked at.
unfoldable pub change_fiber_state : ℕ → State → State → Worker → Worker
change_fiber_state fiber from to w = record w { state = update w.state fiber to }

-- work.fibers.push_back and work.num++
abbrev pub push_fiber : ℕ → Work → Work
push_fiber fiber work = record work { fibers = work.fibers ++ fiber ∷ []; num = inc64 work.num }

-- Lines 180 to 186: the fiber is queued.
unfoldable pub queue_fiber : ℕ → Worker → Worker × Bool
unfolding set_fiber_state
queue_fiber fiber w = (
  set_fiber_state fiber queued (record w { work = push_fiber fiber w.work }),
  w.work.notify_added,
)

-- Worker::enqueue(Fiber*)
unfoldable pub enqueue_fiber : ℕ → Worker → Worker × Bool
unfolding queue_fiber
enqueue_fiber fiber w = elim (w.state fiber) [
  | running ↦ (w, false)
  | queued ↦ (w, false)
  | idle ↦ queue_fiber fiber w
  | yielded ↦ queue_fiber fiber w
  | waiting ↦
      let work = w.work in
      queue_fiber fiber
        (record w { work = record work { waiting = WaitingFibers.erase fiber work.waiting } })
]

-- Worker::tryLock
unfoldable pub try_lock : Worker → Worker × Bool
try_lock w =
    let work = w.work in
    if work.locked then (w, false) else (record w { work = record work { locked = true } }, true)

-- work.tasks.push_back and work.num++
abbrev pub push_task : Task → Work → Work
push_task task work = record work { tasks = work.tasks ++ task ∷ []; num = inc64 work.num }

-- Worker::enqueueAndUnlock
unfoldable pub enqueue_and_unlock : Task → Worker → Worker × Bool
enqueue_and_unlock task w =
    let work = push_task task w.work in
    (record w { work = record work { locked = false } }, w.work.notify_added)

-- Worker::enqueue(Task&&)
unfoldable pub enqueue_task : Task → Worker → Worker × Bool
unfolding enqueue_and_unlock
enqueue_task task w =
    let work = w.work in enqueue_and_unlock task (record w { work = record work { locked = true } })

-- Worker::steal
unfoldable pub steal : Worker → Worker × Option Task
unfolding try_lock
steal w =
    if w.work.num == 0
    then (w, none)
    else if not (try_lock w).1
    then (w, none)
    else elim w.work.tasks [
      | [] ↦ (w, none)
      | task ∷ rest ↦
          let work = w.work in
          if Task.is task same_thread
          then (w, none)
          else (record w { work = record work { num = dec64 work.num; tasks = rest } }, some task)
    ]

-- Lines 296 and 297: a stolen task arrives.
unfoldable pub receive_stolen : Task → Worker → Worker
receive_stolen task w = record w { work = push_task task w.work }

-- The test of the loop of Worker::runUntilShutdown
unfoldable pub keeps_running : Worker → Bool
keeps_running w = not w.shutdown || ltb 0 w.work.num || ltb 0 w.work.num_blocked_fibers

-- The test of Worker::waitForWork, and the predicate that it waits for
unfoldable pub has_work : Worker → Bool
has_work w = ltb 0 w.work.num

unfoldable pub may_go_on : Worker → Bool
may_go_on w = ltb 0 w.work.num || (w.shutdown && (w.work.num_blocked_fibers == 0))

-- Worker::createWorkerFiber. A new fiber is in state Running.
unfoldable pub create_worker_fiber : Worker → Worker × ℕ
create_worker_fiber w =
    let fiber = suc w.worker_fibers in
    (record w { worker_fibers = suc w.worker_fibers; state = update w.state fiber running }, fiber)

-- The first part of Worker::suspend, before waitForWork.
unfoldable pub suspend_begin : Option ℕ → Worker → Worker
unfolding change_fiber_state
suspend_begin none w = change_fiber_state w.current_fiber running yielded w
suspend_begin (some timeout) w =
    let v = change_fiber_state w.current_fiber running waiting w in
    let work = v.work in
    record v {
      work = record work { waiting = WaitingFibers.add timeout v.current_fiber work.waiting };
    }

-- Lines 142 to 154 of Worker::suspend: the fiber to switch to. `pick` is the first element of the
-- unordered set `idleFibers`.
unfoldable pub suspend_target : ℕ → Worker → Worker × ℕ
unfolding create_worker_fiber
suspend_target pick w₀ =
    let work₀ = w₀.work in
    let work : Work = record work₀ { num_blocked_fibers = inc64 work₀.num_blocked_fibers } in
    let w : Worker = record w₀ { work = work } in
    elim work.fibers [
      | to ∷ rest ↦ (record w { work = record work { num = dec64 work.num; fibers = rest } }, to)
      | [] ↦ elim w.idle_fibers [
        | i ∷ is ↦ (record w { idle_fibers = erase pick w.idle_fibers }, pick)
        | [] ↦ create_worker_fiber w
      ]
    ]

-- The end of Worker::suspend, after the fiber has been switched to again.
unfoldable pub suspend_end : Worker → Worker
unfolding set_fiber_state
suspend_end w =
    let work = w.work in
    set_fiber_state w.current_fiber running
      (record w { work = record work { num_blocked_fibers = dec64 work.num_blocked_fibers } })

-- std::unordered_set::emplace
abbrev pub set_insert : ℕ → List ℕ → List ℕ
set_insert x xs = if elem x xs then xs else x ∷ xs

-- Lines 316 to 319 of Worker::runUntilIdle, with the fiber to switch to.
unfoldable pub idle_target : ℕ → List ℕ → Worker → Worker × ℕ
unfolding change_fiber_state
idle_target fiber rest w =
    let work = w.work in
    let v =
      change_fiber_state w.current_fiber running idle
        (record w { work = record work { num = dec64 work.num; fibers = rest } }) in
    (record v { idle_fibers = set_insert v.current_fiber v.idle_fibers }, fiber)

-- Lines 329 and 330 of Worker::runUntilIdle.
unfoldable pub take_task : List Task → Worker → Worker
take_task rest w =
    let work = w.work in record w { work = record work { num = dec64 work.num; tasks = rest } }
