-- ===== src/Scheduler/Enqueue.antt =====
-- src/scheduler.cpp: the loop of Scheduler::enqueue, and Scheduler::stealWork.
use hfts.Base.{
  ℕ, ◌%◌, ◌<◌, ◌≡◌, ◌≢◌, ◌⊎◌, refl, Bool, true, false, Option, none, some, List, [], ◌∷◌, ◌++◌,
  ◌==◌, ltb, inc64, dec64, arith, Bool-cases, inl, inr, sym, ◌∙◌, ap, subst, subst₂,
}
use hfts.Task.{Task, same_thread}
use hfts.Task
use hfts.Worker.{Worker, try_lock, enqueue_and_unlock, steal}
use hfts.Worker.Queues.{steal-cases, Stolen}
use hfts.Scheduler.{
  Scheduler, pick_worker, enqueue_round, enqueue_loop, with_locks, set_worker, steal_work,
}
use hfts.Scheduler.Spinning.{IsValid, pick_worker-IsValid}

-- The task is at the end of the queue of worker thread `i`, whose lock is free again, and all other
-- queues are as they were.
pub record Delivered (task : Task) (i : ℕ) (s s' : Scheduler) : Type 0 where
  pub in_range : i < s.count
  pub tasks : (s'.worker_threads i).work.tasks ≡ (s.worker_threads i).work.tasks ++ task ∷ []
  pub num : (s'.worker_threads i).work.num ≡ inc64 (s.worker_threads i).work.num
  pub unlocked : (s'.worker_threads i).work.locked ≡ false
  pub others :
      (j : ℕ)
      → (j == i) ≡ false
      → ((s'.worker_threads j).work.tasks ≡ (s.worker_threads j).work.tasks)
        × ((s'.worker_threads j).work.num ≡ (s.worker_threads j).work.num)

-- The workers and their number are as they were, but for the locks.
abbrev SameWork : Scheduler → Scheduler → Type 0
SameWork s s' =
    (s'.count ≡ s.count)
    × ((j : ℕ) → (s'.worker_threads j).work.tasks ≡ (s.worker_threads j).work.tasks)
    × ((j : ℕ) → (s'.worker_threads j).work.num ≡ (s.worker_threads j).work.num)

pub pick_worker-workers :
    (s : Scheduler)
    → ((pick_worker s).0.worker_threads ≡ s.worker_threads) × ((pick_worker s).0.count ≡ s.count)
unfolding pick_worker
pick_worker-workers s = ground arith

-- The worker that a round of `enqueue` tries
abbrev pub picked : Scheduler → ℕ
picked s = (pick_worker s).1

-- The worker with the task at the end of its queue, its lock given back.
abbrev pub given : Task → Worker → Worker
given task w =
    let work = w.work in
    record w {
      work = record work { tasks = work.tasks ++ task ∷ []; num = inc64 work.num; locked = false };
    }

try_lock-free :
    (task : Task) (w : Worker)
    → w.work.locked ≡ false
    → ((try_lock w).1 ≡ true) × ((enqueue_and_unlock task (try_lock w).0).0 ≡ given task w)
unfolding try_lock enqueue_and_unlock
try_lock-free task w h = ground arith

try_lock-held : (w : Worker) → w.work.locked ≡ true → (try_lock w).1 ≡ false
unfolding try_lock
try_lock-held w h = rw h

abbrev pub delivered : Task → Scheduler → Scheduler
delivered task s =
    set_worker (picked s) (given task (s.worker_threads (picked s))) (pick_worker s).0

round_free :
    (task : Task) (s : Scheduler)
    → (s.worker_threads (picked s)).work.locked ≡ false
    → enqueue_round task s ≡ (delivered task s, true)
unfolding enqueue_round
round_free task s h =
    let (locks, gives) = try_lock-free task (s.worker_threads (picked s)) h in
    rw ((pick_worker-workers s).0, locks, gives)

round_held :
    (task : Task) (s : Scheduler)
    → (s.worker_threads (picked s)).work.locked ≡ true
    → enqueue_round task s ≡ ((pick_worker s).0, false)
unfolding enqueue_round
round_held task s h = rw ((pick_worker-workers s).0, try_lock-held (s.worker_threads (picked s)) h)

delivered-Delivered :
    (task : Task) (s : Scheduler) → IsValid s → Delivered task (picked s) s (delivered task s)
delivered-Delivered task s v = record {
  in_range = (pick_worker-IsValid s v).1;
  tasks = ground arith;
  num = ground arith;
  unlocked = ground arith;
  others = λ j ne. rw (ne, (pick_worker-workers s).0) (refl, refl);
}

-- A delivery into what a round that failed has left is a delivery into what it found.
Delivered-SameWork :
    (task : Task) (i : ℕ) (r s s' : Scheduler)
    → SameWork r s
    → Delivered task i s s'
    → Delivered task i r s'
Delivered-SameWork task i r s s' w d = record {
  in_range = omega (arith, d.in_range, w.0);
  tasks = rw (← w.1 i) d.tasks;
  num = rw (← w.2 i) d.num;
  unlocked = d.unlocked;
  others = λ j ne. ((d.others j ne).0 ∙ w.1 j, (d.others j ne).1 ∙ w.2 j);
}

with_locks-SameWork : (held : ℕ → Bool) (s : Scheduler) → SameWork s (with_locks held s)
unfolding with_locks
with_locks-SameWork held s = (refl, λ j. refl, λ j. refl)

pub with_locks-IsValid : (held : ℕ → Bool) (s : Scheduler) → IsValid s → IsValid (with_locks held s)
unfolding with_locks
with_locks-IsValid held s v = record { some_worker = v.some_worker; slots = v.slots }

with_locks-locked :
    (held : ℕ → Bool) (s : Scheduler) (j : ℕ)
    → ((with_locks held s).worker_threads j).work.locked ≡ held j
unfolding with_locks
with_locks-locked held s j = refl

module _ (task : Task) (held : ℕ → Bool) (rest : List (ℕ → Bool)) (s : Scheduler) where
  pub loop_free :
      held (picked (with_locks held s)) ≡ false
      → enqueue_loop (held ∷ rest) task s ≡ some (delivered task (with_locks held s))
  unfolding enqueue_loop
  loop_free h =
      rw (round_free task (with_locks held s) (with_locks-locked held s _ ∙ h), enqueue_loop)
        (rw (round_free task (with_locks held s) (with_locks-locked held s _ ∙ h)))

  pub loop_held :
      held (picked (with_locks held s)) ≡ true
      → enqueue_loop (held ∷ rest) task s
        ≡ enqueue_loop rest task (pick_worker (with_locks held s)).0
  unfolding enqueue_loop
  loop_held h =
      rw (round_held task (with_locks held s) (with_locks-locked held s _ ∙ h), enqueue_loop)
        (rw (round_held task (with_locks held s) (with_locks-locked held s _ ∙ h)))

  pick_worker-SameWork : SameWork s (pick_worker (with_locks held s)).0
  unfolding with_locks
  pick_worker-SameWork =
      let (workers, number) = pick_worker-workers (with_locks held s) in
      (number, λ j. rw workers, λ j. rw workers)

module _ (task : Task) where
  -- If the loop of `enqueue` ends from a valid scheduler, then one worker thread has the task at
  -- the end of its queue, counts one more and is unlocked, and the queues and counters of all other
  -- worker threads are as before, whichever locks were held in the rounds.
  pub enqueue_loop-Delivered :
      (rounds : List (ℕ → Bool)) (s s' : Scheduler)
      → IsValid s
      → enqueue_loop rounds task s ≡ some s'
      → (i : ℕ) × Delivered task i s s'
  unfolding enqueue_loop
  enqueue_loop-Delivered [] s s' v h = absurd (cc)
  enqueue_loop-Delivered (held ∷ rest) s s' v h =
      let r = with_locks held s in
      elim (Bool-cases (held (picked r))) [
        | inl e ↦
            let q = (pick_worker r).0 in
            let (i, d) =
              enqueue_loop-Delivered rest q s'
                (pick_worker-IsValid r (with_locks-IsValid held s v)).0
                (sym (loop_held task held rest s e) ∙ h) in
            (i, Delivered-SameWork task i s q s' (pick_worker-SameWork task held rest s) d)
        | inr e ↦ (
          picked r,
          subst (λ t. Delivered task (picked r) s t) (cc (loop_free task held rest s e))
              (Delivered-SameWork task (picked r) s r (delivered task r)
                (with_locks-SameWork held s)
                (delivered-Delivered task r (with_locks-IsValid held s v))),
        )
      ]

  -- The loop of `enqueue` ends once there is a round in which no lock is held.
  pub enqueue_loop_ends :
      (before after : List (ℕ → Bool)) (held : ℕ → Bool) (s : Scheduler)
      → ((j : ℕ) → held j ≡ false)
      → (s' : Scheduler) × (enqueue_loop (before ++ held ∷ after) task s ≡ some s')
  enqueue_loop_ends [] after held s free =
      (delivered task (with_locks held s), loop_free task held after s (free _))
  enqueue_loop_ends (h ∷ before) after held s free =
      elim (Bool-cases (h (picked (with_locks h s)))) [
        | inl e ↦
            let (s', ends) =
              enqueue_loop_ends before after held (pick_worker (with_locks h s)).0 free in
            (s', loop_held task h (before ++ held ∷ after) s e ∙ ends)
        | inr e ↦ (delivered task (with_locks h s), loop_free task h (before ++ held ∷ after) s e)
      ]

steal_work_lem :
    (thief from : ℕ) (s : Scheduler)
    → ltb 0 s.count ≡ true
    → (from % s.count == thief) ≡ false
    → steal_work thief from s ≡ (
      set_worker (from % s.count) (steal (s.worker_threads (from % s.count))).0 s,
      (steal (s.worker_threads (from % s.count))).1,
    )
unfolding steal_work
steal_work_lem thief from s h ne = rw (h, ne)

steal_work-none :
    (thief from : ℕ) (s : Scheduler)
    → (ltb 0 s.count ≡ false) ⊎ ((from % s.count == thief) ≡ true)
    → (steal_work thief from s).1 ≡ none
unfolding steal_work
steal_work-none thief from s h = ground arith

-- The first task of another worker's queue, which is bound to no thread, has left that queue, and
-- nothing else has changed in any queue.
abbrev pub Moved : ℕ → ℕ → Scheduler → Scheduler → Task → Type 0
Moved thief victim s s' task =
    (victim ≢ thief)
    × (0 < s.count)
    × (Task.is task same_thread ≡ false)
    × ((s.worker_threads victim).work.tasks ≡ task ∷ (s'.worker_threads victim).work.tasks)
    × ((s'.worker_threads victim).work.num ≡ dec64 (s.worker_threads victim).work.num)
    × ((j : ℕ) → (j == victim) ≡ false → s'.worker_threads j ≡ s.worker_threads j)

Stolen-Moved :
    (thief victim : ℕ) (s : Scheduler) (task : Task) (rest : List Task)
    → 0 < s.count
    → victim ≢ thief
    → Stolen (s.worker_threads victim) task rest
    → Moved thief victim s (set_worker victim (steal (s.worker_threads victim)).0 s) task
Stolen-Moved thief victim s task rest pos ne (e, l, f, eq) =
    rw eq (ne, pos, f, ground arith, ground arith, λ j h. rw h)

-- If `stealWork` hands out a task, the victim is not the thief, the task was the first of the
-- victim's queue, is not bound to its thread and has left the queue, the victim counts one less,
-- and no other worker thread has changed.
pub steal_work-Moved :
    (thief from : ℕ) (s s' : Scheduler) (task : Task)
    → steal_work thief from s ≡ (s', some task)
    → Moved thief (from % s.count) s s' task
steal_work-Moved thief from s s' task h = elim (Bool-cases (ltb 0 s.count)) [
  | inr z ↦
      absurd
        (cc (steal_work-none thief from s (inl z), ap (λ (r : Scheduler × Option Task). r.1) h))
  | inl pos ↦ elim (Bool-cases (from % s.count == thief)) [
    | inl z ↦
        absurd
          (cc (steal_work-none thief from s (inr z), ap (λ (r : Scheduler × Option Task). r.1) h))
    | inr ne ↦ elim (steal-cases (s.worker_threads (from % s.count))) [
      | inl kept ↦ absurd (cc (steal_work_lem thief from s pos ne, kept))
      | inr (t, rest, stolen) ↦
          let moved =
            Stolen-Moved thief (from % s.count) s t rest (ground arith) (ground arith) stolen in
          let victim = from % s.count in
          let same_state : set_worker victim (steal (s.worker_threads victim)).0 s ≡ s' =
            cc (steal_work_lem thief from s pos ne) in
          let same_task : t ≡ task = cc (steal_work_lem thief from s pos ne, stolen.3) in
          subst₂ (λ x y. Moved thief victim s x y) same_state same_task moved
    ]
  ]
]
