-- ===== src/Scheduler/System/Valid.antt =====
-- src/scheduler.cpp: what Scheduler::enqueue and stealWork leave of the scheduler beside the queues.
use hfts.Base.{
  ℕ, ◌%◌, ◌<◌, ◌≡◌, refl, Bool, true, false, some, List, [], ◌∷◌, ◌==◌, ltb, arith, Bool-cases, inl,
  inr, ◌∙◌, sym, subst,
}
use hfts.Task.{Task, same_thread}
use hfts.Task
use hfts.Worker.{Worker, enqueue_task, steal}
use hfts.Scheduler.{
  Scheduler, Current, thread_worker, pick_worker, enqueue, enqueue_current, enqueue_loop,
  with_locks, set_worker, steal_work, on_begin_spinning,
}
use hfts.Scheduler.Spinning.{IsValid, pick_worker-IsValid}
use hfts.Scheduler.Enqueue.{
  pick_worker-workers, delivered, with_locks-IsValid, loop_free, loop_held, picked,
}

-- The scheduler is valid, and has as many worker threads as before.
abbrev pub Kept : Scheduler → Scheduler → Type 0
Kept s t = IsValid t × (t.count ≡ s.count)

pub set_worker-Kept : (i : ℕ) (w : Worker) (s : Scheduler) → IsValid s → Kept s (set_worker i w s)
set_worker-Kept i w s v = (record { some_worker = v.some_worker; slots = v.slots }, refl)

with_locks-count : (held : ℕ → Bool) (s : Scheduler) → (with_locks held s).count ≡ s.count
unfolding with_locks
with_locks-count held s = refl

delivered-Kept : (task : Task) (s : Scheduler) → IsValid s → Kept s (delivered task s)
delivered-Kept task s v =
    let q = (pick_worker-IsValid s v).0 in
    (record { some_worker = q.some_worker; slots = q.slots }, (pick_worker-workers s).1)

pub enqueue_loop-Kept :
    (rounds : List (ℕ → Bool)) (task : Task) (s t : Scheduler)
    → IsValid s
    → enqueue_loop rounds task s ≡ some t
    → Kept s t
unfolding enqueue_loop
enqueue_loop-Kept [] task s t v h = absurd (cc)
enqueue_loop-Kept (held ∷ rest) task s t v h =
    let r = with_locks held s in
    let valid = with_locks-IsValid held s v in
    elim (Bool-cases (held (picked r))) [
      | inl e ↦
          let q = (pick_worker r).0 in
          let (kept, same) =
            enqueue_loop-Kept rest task q t (pick_worker-IsValid r valid).0
              (sym (loop_held task held rest s e) ∙ h) in
          (kept, same ∙ (pick_worker-workers r).1 ∙ with_locks-count held s)
      | inr e ↦
          let (kept, same) = delivered-Kept task r valid in
          subst (λ x. Kept s x) (cc (loop_free task held rest s e))
            (kept, same ∙ with_locks-count held s)
    ]

pub enqueue_free :
    (current : Current) (rounds : List (ℕ → Bool)) (task : Task) (s : Scheduler)
    → 0 < s.count
    → Task.is task same_thread ≡ false
    → enqueue current rounds task s ≡ enqueue_loop rounds task s
unfolding enqueue
enqueue_free current rounds task s pos h =
    let some_worker : (s.count == 0) ≡ false = ground arith in rw (h, some_worker) refl

pub enqueue_here :
    (i : ℕ) (rounds : List (ℕ → Bool)) (task : Task) (s : Scheduler)
    → Task.is task same_thread ≡ true
    → enqueue (thread_worker i) rounds task s
      ≡ some (set_worker i (enqueue_task task (s.worker_threads i)).0 s)
unfolding enqueue enqueue_current
enqueue_here i rounds task s h = rw h refl

pub steal_work-Kept :
    (thief from : ℕ) (s : Scheduler) → IsValid s → Kept s (steal_work thief from s).0
unfolding steal_work
steal_work-Kept thief from s v = elim (Bool-cases (ltb 0 s.count)) [
  | inr e ↦ rw e (v, refl)
  | inl e ↦ elim (Bool-cases (from % s.count == thief)) [
    | inl z ↦ rw (e, z) (v, refl)
    | inr z ↦
        rw (e, z)
          (set_worker-Kept (from % s.count) (steal (s.worker_threads (from % s.count))).0 s v)
  ]
]

pub on_begin_spinning-workers :
    (i : ℕ) (s : Scheduler)
    → ((on_begin_spinning i s).worker_threads ≡ s.worker_threads)
      × ((on_begin_spinning i s).count ≡ s.count)
unfolding on_begin_spinning
on_begin_spinning-workers i s = (refl, refl)
