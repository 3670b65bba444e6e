-- ===== src/Tests/Waits.antt =====
-- src/worker.cpp: Worker::Work::wait and Worker::waitForWork at concrete inputs.
use hfts.Base.{◌≡◌, refl, true, false, none, some, List, [], ◌∷◌, ◌++◌, arith, ◌+◌, ◌<◌, u64_mod}
use hfts.Task.{Task, none_flag}
use hfts.WaitingFibers
use hfts.Worker.{Worker, init, multi_threaded, enqueue_task, may_go_on}
use hfts.Worker.Sleep.{
  gives, steals, wakes, Turn, comes, relocks, sleeping, waits, returned, marked, with_lock,
  work_wait,
}
use hfts.Worker.Sleep.Given.{work_wait-given}
use hfts.Worker.Spin
use hfts.Worker.Spin.{polls, tries}
use hfts.Scheduler.{make}
use hfts.Scheduler.Idle.{wait_for_work, goes_on}

abbrev job : Task
job = record { func = some 7; flag = none_flag }

-- A worker whose thread has its mutex.
abbrev held : Worker
held = with_lock true (init 0 multi_threaded)

-- The thread is woken in vain, and a steal fails.
abbrev vain : List Turn
vain = comes wakes ∷ relocks ∷ comes steals ∷ []

abbrev asleep : Worker
asleep = marked false true (init 0 multi_threaded)

held-locked : held.work.locked ≡ true
unfolding marked
held-locked = refl

asleep-num : asleep.work.num + 1 < u64_mod
unfolding marked init
asleep-num = omega arith

held-work_wait : work_wait may_go_on vain held ≡ some (waits sleeping asleep)
unfolding work_wait may_go_on init marked hfts.Worker.steal WaitingFibers.to_bool
held-work_wait = refl

work_wait-given_example :
    (u : Worker) × (work_wait may_go_on (vain ++ comes (gives job) ∷ relocks ∷ []) held
      ≡ some (returned [] true u))
    × (u.work.tasks ≡ asleep.work.tasks ++ job ∷ [])
    × (u.work.num ≡ asleep.work.num + 1)
    × (u.work.fibers ≡ asleep.work.fibers)
    × (u.work.locked ≡ true)
    × (u.work.notify_added ≡ false)
work_wait-given_example =
    work_wait-given vain held asleep sleeping job held-locked held-work_wait asleep-num

-- A task comes during the spin and is stolen, and another comes during the wait.
abbrev spins : List Spin.Turn
spins = polls (gives job ∷ []) (steals ∷ []) ∷ tries [] none [] ∷ []

abbrev turns : List Turn
turns = comes (gives job) ∷ relocks ∷ []

held-wait_for_work :
    (wait_for_work 2 9 spins [] turns (make 2) held).1
    ≡ goes_on (marked true false (enqueue_task job held).0)
unfolding wait_for_work init marked enqueue_task hfts.Worker.has_work work_wait may_go_on
    Spin.spin_for_work_and_lock hfts.Worker.steal hfts.Task.is WaitingFibers.to_bool
held-wait_for_work = refl
