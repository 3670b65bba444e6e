-- ===== src/Scheduler/System/Given.antt =====
-- src/scheduler.cpp: the steps that enqueue a task, or a worker that spins.
use hfts.Base.{ℕ, ◌<◌, ◌≡◌, Bool, true, false, some, List, ◌∷◌, arith, ◌∙◌, sym, ap, subst}
use hfts.Task.{Task, same_thread}
use hfts.Task
use hfts.Worker.{Worker, enqueue_task}
use hfts.Scheduler.{Scheduler, Current, thread_worker, enqueue, set_worker, on_begin_spinning}
use hfts.Scheduler.Spinning.{on_begin_spinning-IsValid}
use hfts.Scheduler.Enqueue.{enqueue_loop-Delivered}
use hfts.Scheduler.System.{System, tasks_of, add_to}
use hfts.Scheduler.System.Counts.{count}
use hfts.Scheduler.System.Valid.{
  enqueue_loop-Kept, enqueue_free, enqueue_here, set_worker-Kept, on_begin_spinning-workers,
}
use hfts.Scheduler.System.Longer.{
  stays, sums-Longer, add_to-Longer, Delivered-Longer, set_worker-Longer, enqueue_task-tasks,
  Longer-stays, Longer-both,
}
use hfts.Scheduler.System.Conserved.{Conserved}

tasks-spinning : (i : ℕ) (s : Scheduler) → tasks_of (on_begin_spinning i s) ≡ tasks_of s
tasks-spinning i s =
    ap {B = ℕ → List Task} (λ (w : ℕ → Worker) (j : ℕ). (w j).work.tasks)
      (on_begin_spinning-workers i s).0

module _ (s : System) (v : Conserved s) where
  abbrev sched : Scheduler
  sched = s.scheduler

  pub enqueues-Conserved :
      (current : Current) (rounds : List (ℕ → Bool)) (task : Task) (t : Scheduler)
      → Task.is task same_thread ≡ false
      → enqueue current rounds task sched ≡ some t
      → Conserved (record s { scheduler = t; accepted = task ∷ s.accepted })
  unfolding count
  enqueues-Conserved current rounds task t h ran =
      let loop = sym (enqueue_free current rounds task sched v.valid.some_worker h) ∙ ran in
      let (valid, same) = enqueue_loop-Kept rounds task sched t v.valid loop in
      let (i, d) = enqueue_loop-Delivered task rounds sched t v.valid loop in
      let longer = Delivered-Longer task i sched t d in
      record {
        valid = valid;
        everywhere = λ p. rw same (
            omega (
              arith,
              v.everywhere p,
              sums-Longer p (tasks_of sched) (tasks_of t) i sched.count task d.in_range longer,
            ));
        free = v.free;
        at_home = λ p j.
            omega (
              arith,
              v.at_home p j,
              Longer-stays p (tasks_of sched) (tasks_of t) i j task longer h,
            );
      }

  pub enqueues_here-Conserved :
      (i : ℕ) (rounds : List (ℕ → Bool)) (task : Task) (t : Scheduler)
      → i < sched.count
      → Task.is task same_thread ≡ true
      → enqueue (thread_worker i) rounds task sched ≡ some t
      → Conserved
          (record s { scheduler = t; accepted = task ∷ s.accepted; bound = add_to s.bound i task })
  unfolding count
  enqueues_here-Conserved i rounds task t lt h ran =
      let w = (enqueue_task task (sched.worker_threads i)).0 in
      let moved : set_worker i w sched ≡ t = cc (enqueue_here i rounds task sched h, ran) in
      let longer =
        set_worker-Longer i w sched task (enqueue_task-tasks task (sched.worker_threads i)) in
      subst
        (λ t.
          Conserved (record s {
            scheduler = t;
            accepted = task ∷ s.accepted;
            bound = add_to s.bound i task;
          }))
        moved
        (record {
          valid = (set_worker-Kept i w sched v.valid).0;
          everywhere = λ p. omega (
            arith,
            v.everywhere p,
            sums-Longer p (tasks_of sched) (tasks_of (set_worker i w sched)) i sched.count task lt
                longer,
          );
          free = v.free;
          at_home = λ p j. omega (
            arith,
            v.at_home p j,
            Longer-both (stays p) (tasks_of sched) (tasks_of (set_worker i w sched)) s.bound
                (add_to s.bound i task) i j task longer (add_to-Longer s.bound i task),
          );
        })

  pub begins_spinning-Conserved :
      (i : ℕ) → i < sched.count → Conserved (record s { scheduler = on_begin_spinning i sched })
  begins_spinning-Conserved i lt = record {
    valid = on_begin_spinning-IsValid i sched v.valid lt;
    everywhere =
        λ p. rw (tasks-spinning i sched, (on_begin_spinning-workers i sched).1) (v.everywhere p);
    free = v.free;
    at_home = λ p j. rw (tasks-spinning i sched) (v.at_home p j);
  }
