-- ===== src/Scheduler/System/Reachable.antt =====
-- src/scheduler.cpp and src/worker.cpp: the systems that are reached from the start.
use hfts.Base.{ℕ, zero, suc, ◌<◌, ◌≡◌, refl, arith}
use hfts.Worker.{init}
use hfts.Scheduler.{make}
use hfts.Scheduler.Spinning.{make-IsValid}
use hfts.Scheduler.System.{
  System, Step, Reach, start, enqueues, enqueues_here, begins_spinning, steals, receives, runs,
  here, next,
}
use hfts.Scheduler.System.Counts.{count, sum_below}
use hfts.Scheduler.System.Conserved.{Conserved}
use hfts.Scheduler.System.Given.{
  enqueues-Conserved, enqueues_here-Conserved, begins_spinning-Conserved,
}
use hfts.Scheduler.System.Moved.{steals-Conserved, receives-Conserved, runs-Conserved}

Step-Conserved : (s t : System) → Step s t → Conserved s → Conserved t
Step-Conserved s t (enqueues current rounds task u h r) v =
    enqueues-Conserved s v current rounds task u h r
Step-Conserved s t (enqueues_here i rounds task u lt h r) v =
    enqueues_here-Conserved s v i rounds task u lt h r
Step-Conserved s t (begins_spinning i lt) v = begins_spinning-Conserved s v i lt
Step-Conserved s t (steals thief from task u lt r) v = steals-Conserved s v thief from task u lt r
Step-Conserved s t (receives i task rest lt e) v = receives-Conserved s v i task rest lt e
Step-Conserved s t (runs i task rest lt e) v = runs-Conserved s v i task rest lt e

sum_below-zero : (n : ℕ) → sum_below (λ i. 0) n ≡ 0
unfolding sum_below
sum_below-zero zero = refl
sum_below-zero (suc n) = omega (arith, sum_below-zero n)

start-Conserved : (n : ℕ) → 0 < n → Conserved (start n)
unfolding start make count init
start-Conserved n pos = record {
  valid = make-IsValid n pos;
  everywhere = λ p. omega (arith, sum_below-zero n);
  free = λ i. tt;
  at_home = λ p i. refl;
}

-- In every system that the worker threads of a scheduler, of which there is one or more, reach from
-- its start, in any order of the steps, each task that was accepted is queued, or stolen and not
-- yet taken in, or was run, as often as it was accepted. No stolen task is bound to a thread, and a
-- task that is bound to a worker's thread is in that worker's queue or was run by that worker. The
-- spinning workers are valid.
pub Reach-Conserved : (n : ℕ) (s : System) → 0 < n → Reach (start n) s → Conserved s
Reach-Conserved n s pos here = start-Conserved n pos
Reach-Conserved n s pos (next {t = t} r step) = Step-Conserved t s step (Reach-Conserved n t pos r)
