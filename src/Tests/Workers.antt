-- ===== src/Tests/Workers.antt =====
-- src/worker.cpp and include/hfts/waitingfiber.hpp at concrete inputs.
use hfts.Base.{
  ℕ, ◌+◌, ◌≤◌, ◌<◌, ◌≡◌, refl, true, false, none, some, [], update, ◌++◌, ◌∷◌, length, arith,
  u64_mod, inl, ◌⊎◌,
}
use hfts.Task.{Task, none_flag}
use hfts.Worker.{
  Worker, idle, waiting, queued, init, multi_threaded, enqueue_task, enqueue_fiber, take_task,
  suspend_begin, suspend_target, keeps_running, suspend_end,
}
use hfts.Worker.Machine.{
  Machine, looping, in_task, suspending, in_suspend, start, with_worker, switch_to_fiber, go_on,
  Reach, here, next, enqueues, runs_task, suspends, notifies, switches, returns, shuts_down,
  no_idle_notified,
}
use hfts.Worker.Machine.Inv.{Inv}
use hfts.Worker.Machine.Reachable.{Reach-Inv, Reach-keeps_running}
use hfts.Worker.Timeouts.{
  enqueue_fiber_timeouts, enqueue_fiber_timeouts_diverges, enqueue_fiber-timed_out, out_of_fuel,
  drained,
}
use hfts.WaitingFibers.{WaitingFibers, empty, contains}
use hfts.WaitingFibers
use hfts.WaitingFibers.Order.{IsValid, add-IsValid}
use hfts.WaitingFibers.Stale.{erase_alone}

abbrev job : Task
job = record { func = some 7; flag = none_flag }

-- A task waits, is notified, goes on and returns, and the worker is told to stop.
abbrev begun : Machine
begun = start 0 multi_threaded

abbrev given : Machine
given = with_worker begun (enqueue_task job begun.worker).0

abbrev runs : Machine
runs = record given { worker = take_task [] given.worker; pc = in_task }

abbrev waits : Machine
waits = record runs { worker = suspend_begin none runs.worker; pc = suspending }

abbrev woken : Machine
woken = with_worker waits (enqueue_fiber 0 waits.worker).0

abbrev resumed : Machine
resumed = switch_to_fiber in_suspend woken.frame (suspend_target 0 woken.worker)

abbrev done : Machine
done = record resumed { pc = looping }

abbrev told : Machine
told = with_worker done (record (done.worker) { shutdown = true })

resumed-Reach : Reach (start 0 multi_threaded) resumed
unfolding start init enqueue_task take_task suspend_begin enqueue_fiber hfts.Worker.may_go_on
resumed-Reach =
    next
      (next
        (next (next (next here (enqueues job)) (runs_task job [] refl refl refl))
          (suspends none refl))
        (notifies 0 (omega arith)))
      (switches 0 refl refl (inl refl))

resumed-pc : resumed.pc ≡ in_task
unfolding start init enqueue_task take_task suspend_begin suspend_target enqueue_fiber
    switch_to_fiber go_on
resumed-pc = refl

told-Reach : Reach (start 0 multi_threaded) told
told-Reach = next (next resumed-Reach (returns resumed-pc)) shuts_down

told-no_idle : no_idle_notified told-Reach ≡ true
unfolding no_idle_notified told-Reach resumed-Reach start init enqueue_task take_task suspend_begin
told-no_idle = refl

Reach-Inv_example : Inv told
Reach-Inv_example = Reach-Inv 0 multi_threaded told told-Reach told-no_idle

told-keeps_running : keeps_running told.worker ≡ false
unfolding start init enqueue_task take_task suspend_begin suspend_target enqueue_fiber
    switch_to_fiber go_on suspend_end keeps_running
told-keeps_running = refl

told-size : length told.worker.work.tasks + length told.worker.work.fibers < u64_mod
unfolding start init enqueue_task take_task suspend_begin suspend_target enqueue_fiber
    switch_to_fiber go_on suspend_end
told-size = omega arith

told-few : told.worker.worker_fibers + 1 < u64_mod
unfolding start init enqueue_task take_task suspend_begin suspend_target enqueue_fiber
    switch_to_fiber go_on suspend_end
told-few = omega arith

Reach-keeps_running_example :
    (told.worker.work.tasks ≡ [])
    × (told.worker.work.fibers ≡ [])
    × (told.worker.shutdown ≡ true)
    × ((f : ℕ)
        → f ≤ told.worker.worker_fibers
        → (f ≡ told.worker.current_fiber) ⊎ (told.worker.state f ≡ idle))
Reach-keeps_running_example =
    Reach-keeps_running 0 multi_threaded told told-Reach told-no_idle refl told-keeps_running
      told-size told-few

-- Fiber 3 waits until 10.
abbrev alone : WaitingFibers
alone = WaitingFibers.add 10 3 empty

-- Fiber 4 waits until 20 as well.
abbrev both : WaitingFibers
both = WaitingFibers.add 20 4 alone

empty-IsValid : IsValid empty
empty-IsValid = record { sorted = tt; keys = tt; covers = tt }

alone-IsValid : IsValid alone
alone-IsValid = add-IsValid empty 10 3 empty-IsValid

both-IsValid : IsValid both
both-IsValid = add-IsValid alone 20 4 alone-IsValid

-- What `take` leaves of them.
abbrev left : WaitingFibers
left = record {
  timeouts = record { timepoint = 10; fiber = 3 } ∷ record { timepoint = 20; fiber = 4 } ∷ [];
  fibers = record { timepoint = 20; fiber = 4 } ∷ [];
}

abbrev stale : WaitingFibers
stale = record { timeouts = record { timepoint = 10; fiber = 3 } ∷ []; fibers = [] }

take-both : WaitingFibers.take 15 both ≡ some (some 3, left)
unfolding WaitingFibers.take WaitingFibers.add WaitingFibers.set_emplace WaitingFibers.map_emplace
    WaitingFibers.map_erase WaitingFibers.lt
take-both = refl

take-alone : WaitingFibers.take 15 alone ≡ some (some 3, stale)
unfolding WaitingFibers.take WaitingFibers.add WaitingFibers.set_emplace WaitingFibers.map_emplace
    WaitingFibers.map_erase WaitingFibers.lt
take-alone = refl

left-to_bool : WaitingFibers.to_bool left ≡ true
unfolding WaitingFibers.to_bool
left-to_bool = refl

stale-to_bool : WaitingFibers.to_bool stale ≡ false
unfolding WaitingFibers.to_bool
stale-to_bool = refl

erase_alone_example :
    (WaitingFibers.to_bool (WaitingFibers.erase 3 (WaitingFibers.add 10 3 empty)) ≡ true)
    × (WaitingFibers.first (WaitingFibers.erase 3 (WaitingFibers.add 10 3 empty)) ≡ none)
erase_alone_example = erase_alone 10 3

abbrev waits_for : WaitingFibers → Worker
waits_for w =
    let v = init 0 multi_threaded in
    let work = v.work in record v { work = record work { waiting = w } }

enqueue_fiber_timeouts_diverges_example :
    enqueue_fiber_timeouts 100 15 (waits_for both) ≡ out_of_fuel
enqueue_fiber_timeouts_diverges_example =
    enqueue_fiber_timeouts_diverges 100 15 3 left (waits_for both) both-IsValid take-both
      left-to_bool

-- The fiber that waits alone is in state Waiting.
abbrev waits_alone : Worker
waits_alone = record (waits_for alone) { state = update (waits_for alone).state 3 waiting }

enqueue_fiber-timed_out_example :
    (w' : Worker) × (enqueue_fiber_timeouts 2 15 waits_alone ≡ drained w')
    × ((enqueue_fiber 3 w').0.work.fibers ≡ (waits_alone.work.fibers ++ 3 ∷ []) ++ 3 ∷ [])
    × ((enqueue_fiber 3 w').0.state 3 ≡ queued)
enqueue_fiber-timed_out_example =
    enqueue_fiber-timed_out 0 15 3 stale waits_alone refl take-alone stale-to_bool
