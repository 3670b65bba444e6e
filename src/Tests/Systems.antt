-- ===== src/Tests/Systems.antt =====
-- src/scheduler.cpp with its worker threads at concrete inputs.
use hfts.Base.{ℕ, refl, Bool, false, Option, none, some, update, [], ◌∷◌, arith}
use hfts.Task.{Task, none_flag, same_thread}
use hfts.Worker.{init, try_lock, enqueue_and_unlock, enqueue_task, steal, receive_stolen, take_task}
use hfts.Scheduler.{
  Scheduler, make, set_worker, enqueue_loop, enqueue_round, with_locks, pick_worker,
  enqueue_current, no_worker, thread_worker, enqueue, steal_work,
}
use hfts.Scheduler.System.{
  System, Reach, start, add_to, enqueues, enqueues_here, steals, receives, runs, here, next,
}
use hfts.Scheduler.System.Conserved.{Conserved}
use hfts.Scheduler.System.Reachable.{Reach-Conserved}

abbrev job : Task
job = record { func = some 7; flag = none_flag }

abbrev home : Task
home = record { func = some 8; flag = same_thread }

abbrev none_held : ℕ → Bool
none_held i = false

abbrev or_start : Option Scheduler → Scheduler
or_start none = make 2
or_start (some s) = s

-- Worker 0 gets a free task and enqueues one that is bound to it. Worker 1 steals the first, takes it
-- in and runs it.
abbrev one : System
one =
    let s = start 2 in
    record s {
      scheduler = or_start (enqueue no_worker (none_held ∷ []) job s.scheduler);
      accepted = job ∷ [];
    }

abbrev two : System
two = record one {
  scheduler = or_start (enqueue (thread_worker 0) [] home one.scheduler);
  accepted = home ∷ job ∷ [];
  bound = add_to one.bound 0 home;
}

abbrev three : System
three = record two {
  scheduler = (steal_work 1 0 two.scheduler).0;
  stolen = add_to two.stolen 1 job;
}

abbrev four : System
four = record three {
  scheduler = set_worker 1 (receive_stolen job (three.scheduler.worker_threads 1)) three.scheduler;
  stolen = update three.stolen 1 [];
}

abbrev five : System
five = record four {
  scheduler = set_worker 1 (take_task [] (four.scheduler.worker_threads 1)) four.scheduler;
  ran = add_to four.ran 1 job;
}

five-Reach : Reach (start 2) five
unfolding start make init enqueue enqueue_loop enqueue_round with_locks pick_worker try_lock
    enqueue_and_unlock enqueue_current enqueue_task steal_work steal receive_stolen take_task
    hfts.Task.is
five-Reach =
    next
      (next
        (next
          (next (next here (enqueues no_worker (none_held ∷ []) job one.scheduler refl refl))
            (enqueues_here 0 [] home two.scheduler (omega arith) refl refl))
          (steals 1 0 job three.scheduler (omega arith) refl))
        (receives 1 job [] (omega arith) refl))
      (runs 1 job [] (omega arith) refl)

Reach-Conserved_example : Conserved five
Reach-Conserved_example = Reach-Conserved 2 five (omega arith) five-Reach
