-- ===== src/Worker/Machine/Reachable.antt =====
-- src/worker.cpp: the machines that a worker reaches from its start, where no time of a wait comes.
use hfts.Base.{
  ℕ, suc, ◌+◌, ◌≤◌, ◌<◌, ◌≡◌, ◌⊎◌, refl, true, false, List, [], ◌∷◌, length, count_below,
  count_below-le, count_below-zero, u64_mod, arith,
}
use hfts.Worker.{Mode, idle, keeps_running}
use hfts.Worker.Machine.{
  Machine, looping, start, Step, Reach, enqueues, notifies, steals, receives, shuts_down,
  runs_fiber, runs_task, returns, suspends, switches, here, next, notifies_no_idle,
  no_idle_notified,
}
use hfts.Worker.Machine.Inv.{Inv, is_in_suspend}
use hfts.Worker.Machine.Placed.{
  enqueues-Inv, receives-Inv, steals-Inv, runs_task-Inv, returns-Inv, suspends-Inv, notifies-Inv,
}
use hfts.Worker.Machine.Switch.{switches-Inv, runs_fiber-Inv}

start-Inv : (id : ℕ) (mode : Mode) → Inv (start id mode)
unfolding start count_below
start-Inv id mode = record {
  counted = refl;
  blocked = refl;
  fibers_ok = λ f. ground arith;
  in_queue = λ f. refl;
  in_idle_set = λ f. refl;
  queue_distinct = tt;
  idle_distinct = tt;
}

-- Each step that notifies no idle fiber keeps the invariant.
Step-Inv : (m n : Machine) (s : Step m n) → notifies_no_idle s ≡ true → Inv m → Inv n
Step-Inv m n (enqueues task) i v = enqueues-Inv m task v
Step-Inv m n (notifies fiber h) i v = notifies-Inv m fiber v h (ground arith)
Step-Inv m n steals i v = steals-Inv m v
Step-Inv m n (receives task) i v = receives-Inv m task v
Step-Inv m n shuts_down i v = record {
  counted = v.counted;
  blocked = v.blocked;
  fibers_ok = v.fibers_ok;
  in_queue = v.in_queue;
  in_idle_set = v.in_idle_set;
  queue_distinct = v.queue_distinct;
  idle_distinct = v.idle_distinct;
}
Step-Inv m n (runs_fiber fiber rest p e) i v = runs_fiber-Inv m fiber rest p e v
Step-Inv m n (runs_task task rest p f e) i v = runs_task-Inv m task rest p e v
Step-Inv m n (returns p) i v = returns-Inv m p v
Step-Inv m n (suspends timeout p) i v = suspends-Inv m timeout p v
Step-Inv m n (switches pick p go h) i v = switches-Inv m pick p h v

-- In every machine that a worker reaches from its start, where no time of a wait comes and no idle
-- fiber is notified, `num` is the number of tasks and queued fibers modulo 2 ^ 64,
-- `num_blocked_fibers` the number of fibers that are switched away in `suspend`, the queue holds
-- exactly the fibers in state Queued and the idle set exactly those in state Idle, each once, and
-- each fiber goes on, when it is switched to, where its state asks for.
pub Reach-Inv :
    (id : ℕ) (mode : Mode) (m : Machine) (r : Reach (start id mode) m)
    → no_idle_notified r ≡ true
    → Inv m
unfolding no_idle_notified
Reach-Inv id mode m here i = start-Inv id mode
Reach-Inv id mode m (next {m = k} r s) i =
    Step-Inv k m s (ground arith) (Reach-Inv id mode k r (ground arith))

module _ (m : Machine) (v : Inv m) (k : keeps_running m.worker ≡ false) where
  no_num : m.worker.work.num ≡ 0
  unfolding keeps_running
  no_num = ground arith

  no_blocked : m.worker.work.num_blocked_fibers ≡ 0
  unfolding keeps_running
  no_blocked = ground arith

  is_shut_down : m.worker.shutdown ≡ true
  unfolding keeps_running
  is_shut_down = ground arith

  no_frame :
      (f : ℕ)
      → m.worker.worker_fibers + 1 < u64_mod
      → f ≤ m.worker.worker_fibers
      → is_in_suspend (m.frame f) ≡ false
  no_frame f few h =
      count_below-zero is_in_suspend m.frame (suc m.worker.worker_fibers) f
        (omega (
          arith,
          v.blocked,
          no_blocked,
          count_below-le is_in_suspend m.frame (suc m.worker.worker_fibers),
        ))
        (omega arith)

empty_of_length {ℓ} : {A : Type ℓ} (xs : List A) → length xs ≡ 0 → xs ≡ []
empty_of_length [] h = refl
empty_of_length (x ∷ xs) h = absurd (omega arith)

-- When a worker that is reached where no time of a wait comes and no idle fiber is notified, and
-- that stands at the head of its loop leaves runUntilShutdown, it was told to stop, it has no task
-- and no queued fiber, and each of its fibers but the current one is idle, so that none is blocked.
-- The conditions are that the tasks and queued fibers, and the fibers made, are fewer than 2 ^ 64.
pub Reach-keeps_running :
    (id : ℕ) (mode : Mode) (m : Machine) (r : Reach (start id mode) m)
    → no_idle_notified r ≡ true
    → m.pc ≡ looping
    → keeps_running m.worker ≡ false
    → length m.worker.work.tasks + length m.worker.work.fibers < u64_mod
    → m.worker.worker_fibers + 1 < u64_mod
    → (m.worker.work.tasks ≡ [])
      × (m.worker.work.fibers ≡ [])
      × (m.worker.shutdown ≡ true)
      × ((f : ℕ)
          → f ≤ m.worker.worker_fibers
          → (f ≡ m.worker.current_fiber) ⊎ (m.worker.state f ≡ idle))
Reach-keeps_running id mode m r i p k small few =
    let v = Reach-Inv id mode m r i in
    (
      empty_of_length m.worker.work.tasks (omega (arith, v.counted, no_num m v k)),
      empty_of_length m.worker.work.fibers (omega (arith, v.counted, no_num m v k)),
      is_shut_down m v k,
      λ f h. ground (arith, v.fibers_ok f, no_frame m v k f few h),
    )
