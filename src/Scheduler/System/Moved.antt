-- ===== src/Scheduler/System/Moved.antt =====
-- src/scheduler.cpp and src/worker.cpp: the steps that move a task from list to list.
use hfts.Base.{
  ℕ, ◌%◌, ◌<◌, ◌≡◌, false, Option, some, List, ◌∷◌, ◌==◌, arith, Bool-cases, inl, inr, ap, subst,
  update, All,
}
use native.Mathlib.Nat.{mod-lt}
use hfts.Task.{Task, same_thread}
use hfts.Task
use hfts.Worker.{receive_stolen, take_task}
use hfts.Scheduler.{Scheduler, set_worker, steal_work}
use hfts.Scheduler.Spinning.{IsValid}
use hfts.Scheduler.Enqueue.{steal_work-Moved}
use hfts.Scheduler.System.{System, tasks_of, add_to}
use hfts.Scheduler.System.Valid.{steal_work-Kept, set_worker-Kept}
use hfts.Scheduler.System.Longer.{
  stays, sums-Longer, add_to-Longer, update-Longer, Moved-Longer, set_worker-Longer,
  receive_stolen-tasks, take_task-Longer, Longer-stays, Longer-both,
}
use hfts.Scheduler.System.Conserved.{Conserved}

module _ (s : System) (v : Conserved s) where
  abbrev sched : Scheduler
  sched = s.scheduler

  pub steals-Conserved :
      (thief from : ℕ) (task : Task) (t : Scheduler)
      → thief < sched.count
      → steal_work thief from sched ≡ (t, some task)
      → Conserved (record s { scheduler = t; stolen = add_to s.stolen thief task })
  steals-Conserved thief from task t lt ran =
      let victim = from % sched.count in
      let moved = steal_work-Moved thief from sched t task ran in
      let (_, pos, h, _, _, _) = moved in
      let kept : IsValid t × (t.count ≡ sched.count) =
        subst (λ x. IsValid x × (x.count ≡ sched.count))
          (ap (λ (r : Scheduler × Option Task). r.0) ran)
          (steal_work-Kept thief from sched v.valid) in
      let longer = Moved-Longer thief victim sched t task moved in
      let inside : victim < sched.count = omega (arith, mod-lt from {m = sched.count} pos) in
      record {
        valid = kept.0;
        everywhere = λ p. rw (kept.1) (
            omega (
              arith,
              v.everywhere p,
              sums-Longer p (tasks_of t) (tasks_of sched) victim sched.count task inside longer,
              sums-Longer p s.stolen (add_to s.stolen thief task) thief sched.count task lt
                  (add_to-Longer s.stolen thief task),
            ));
        free = λ i. elim (Bool-cases (i == thief)) [
          | inl e ↦ rw e (
            h,
            subst (λ x. All (λ task. Task.is task same_thread ≡ false) (s.stolen x)) (ground arith)
                (v.free thief),
          )
          | inr e ↦ rw e (v.free i)
        ];
        at_home = λ p j. omega (
          arith,
          v.at_home p j,
          Longer-stays p (tasks_of t) (tasks_of sched) victim j task longer h,
        );
      }

  pub receives-Conserved :
      (i : ℕ) (task : Task) (rest : List Task)
      → i < sched.count
      → s.stolen i ≡ task ∷ rest
      → Conserved (record s {
        scheduler = set_worker i (receive_stolen task (sched.worker_threads i)) sched;
        stolen = update s.stolen i rest;
      })
  receives-Conserved i task rest lt front =
      let w = receive_stolen task (sched.worker_threads i) in
      let longer =
        set_worker-Longer i w sched task (receive_stolen-tasks task (sched.worker_threads i)) in
      let mine : All (λ task. Task.is task same_thread ≡ false) (task ∷ rest) =
        subst (λ x. All (λ task. Task.is task same_thread ≡ false) x) front (v.free i) in
      record {
        valid = (set_worker-Kept i w sched v.valid).0;
        everywhere = λ p. omega (
          arith,
          v.everywhere p,
          sums-Longer p (tasks_of sched) (tasks_of (set_worker i w sched)) i sched.count task lt
              longer,
          sums-Longer p (update s.stolen i rest) s.stolen i sched.count task lt
              (update-Longer s.stolen i task rest front),
        );
        free = λ j. elim (Bool-cases (j == i)) [ inl e ↦ rw e mine.1 | inr e ↦ rw e (v.free j) ];
        at_home = λ p j. omega (
          arith,
          v.at_home p j,
          Longer-stays p (tasks_of sched) (tasks_of (set_worker i w sched)) i j task longer mine.0,
        );
      }

  pub runs-Conserved :
      (i : ℕ) (task : Task) (rest : List Task)
      → i < sched.count
      → tasks_of sched i ≡ task ∷ rest
      → Conserved (record s {
        scheduler = set_worker i (take_task rest (sched.worker_threads i)) sched;
        ran = add_to s.ran i task;
      })
  runs-Conserved i task rest lt front =
      let w = take_task rest (sched.worker_threads i) in
      let longer = take_task-Longer i sched task rest front in
      let ran = add_to-Longer s.ran i task in
      record {
        valid = (set_worker-Kept i w sched v.valid).0;
        everywhere = λ p. omega (
          arith,
          v.everywhere p,
          sums-Longer p (tasks_of (set_worker i w sched)) (tasks_of sched) i sched.count task lt
              longer,
          sums-Longer p s.ran (add_to s.ran i task) i sched.count task lt ran,
        );
        free = v.free;
        at_home = λ p j. omega (
          arith,
          v.at_home p j,
          Longer-both (stays p) (tasks_of (set_worker i w sched)) (tasks_of sched) s.ran
              (add_to s.ran i task) i j task longer ran,
        );
      }
