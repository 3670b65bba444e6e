-- ===== src/Scheduler/Idle.antt =====
-- src/worker.cpp: Worker::waitForWork, with its call of Scheduler::onBeginSpinning. `now` is the
-- time that Worker::enqueueFiberTimeouts reads, and fuel bounds its loop.
use hfts.Base.{ℕ, ◌≡◌, ◌<◌, ◌⊎◌, true, false, Option, none, some, List}
use hfts.WaitingFibers.{WaitingFibers}
use hfts.WaitingFibers
use hfts.Worker.{Worker, multi_threaded, single_threaded, has_work, may_go_on}
use hfts.Worker.Sleep.{Act, Rest, sleeping, Wait, waits, returned, work_wait, with_lock}
use hfts.Worker.Sleep
use hfts.Worker.Sleep.Wakes.{is_sleeping}
use hfts.Worker.Spin.{Turn, spin_for_work_and_lock}
use hfts.Worker.Timeouts.{Drain, enqueue_fiber_timeouts}
use hfts.Scheduler.{Scheduler, on_begin_spinning}

-- What comes of waitForWork: it is in the wait still, or in enqueueFiberTimeouts, or it returns;
-- or the wait reads the time of a waiting fiber that is not there.
pub data Idle : Type 0 where
  still_waits : Rest → Worker → Idle
  times_out : Drain → Idle
  goes_on : Worker → Idle
  reads_past_end : Idle

-- The end of waitForWork
unfoldable pub end_wait : ℕ → ℕ → Option Wait → Idle
end_wait fuel now none = reads_past_end
end_wait fuel now (some (waits r w)) = still_waits r w
end_wait fuel now (some (returned later b w)) = elim (WaitingFibers.to_bool w.work.waiting) [
  | false ↦ goes_on w
  | true ↦ times_out (enqueue_fiber_timeouts fuel now w)
]

-- Lines 254 to 262, by the thread of a worker without work
unfoldable pub begin_wait : List Turn → List Act → Scheduler → Worker → Scheduler × Worker
unfolding hfts.Worker.Sleep.marked
begin_wait spins last s w = elim w.mode [
  | multi_threaded ↦
      (on_begin_spinning w.id s, spin_for_work_and_lock spins last (with_lock false w))
  | single_threaded ↦ (s, w)
]

-- Worker::waitForWork
unfoldable pub wait_for_work :
    ℕ → ℕ → List Turn → List Act → List Sleep.Turn → Scheduler → Worker → Scheduler × Idle
unfolding begin_wait end_wait
wait_for_work fuel now spins last turns s w = elim (has_work w) [
  | true ↦ (s, goes_on w)
  | false ↦
      let (t, v) = begin_wait spins last s w in (t, end_wait fuel now (work_wait may_go_on turns v))
]

-- The thread may go on: there is a task or a fiber to run, or it is to stop and blocks no fiber.
abbrev pub Ready : Worker → Type 0
Ready w = (0 < w.work.num) ⊎ ((w.shutdown ≡ true) × (w.work.num_blocked_fibers ≡ 0))

-- There is nothing to run, and the thread is not to stop, or blocks a fiber.
abbrev pub Unready : Worker → Type 0
Unready w = (w.work.num ≡ 0) × ((w.shutdown ≡ false) ⊎ (0 < w.work.num_blocked_fibers))

-- What is promised of each outcome, where `waiting` are the fibers that wait with a timeout when the
-- wait begins.
unfoldable pub Promised : ℕ → ℕ → WaitingFibers → Idle → Type 0
Promised fuel now waiting (still_waits r w) =
    (w.work.locked ≡ false) × (w.work.notify_added ≡ true) × (is_sleeping r ≡ true → Unready w)
Promised fuel now waiting (times_out d) =
    (w : Worker) × (d ≡ enqueue_fiber_timeouts fuel now w)
    × (w.work.locked ≡ true)
    × (w.work.notify_added ≡ false)
    × (Ready w ⊎ (WaitingFibers.to_bool waiting ≡ true))
Promised fuel now waiting (goes_on w) =
    (w.work.locked ≡ true) × (Ready w ⊎ (WaitingFibers.to_bool waiting ≡ true))
Promised fuel now waiting reads_past_end =
    (WaitingFibers.to_bool waiting ≡ true) × (WaitingFibers.first waiting ≡ none)
