-- ===== src/Worker/Sleep/Given.antt =====
-- src/worker.cpp: how a wait of Worker::Work::wait goes on with what comes later.
use hfts.Base.{
  Option-cases, none, some, ℕ, ◌≡◌, refl, ◌∙◌, ap, ◌<◌, ◌+◌, Bool, true, false, List, [], ◌∷◌, ◌++◌,
  arith, u64_mod, subst, Bool-cases, inl, inr,
}
use hfts.Task.{Task}
use hfts.WaitingFibers
use hfts.Worker.{Worker, enqueue_task, enqueue_and_unlock, may_go_on}
use hfts.Worker.Sleep.{
  gives, act, Turn, comes, relocks, Rest, sleeping, notified, timed_out, rouse, Wait, waits,
  returned, marked, with_lock, with_notify, cv_sleep, cv_wait, after_wait, work_wait,
}
use hfts.Worker.Sleep.Wakes.{Ends, EndsOrFaults, work_wait-may_go_on}

-- The wait with further turns.
unfoldable continue : (Worker → Bool) → Bool → List Turn → Wait → Wait
continue p timed more (waits r w) = cv_sleep p timed r more w
continue p timed more (returned later b w) = returned (later ++ more) b w

cv_sleep-append :
    (p : Worker → Bool) (timed : Bool) (turns more : List Turn) (r : Rest) (w : Worker)
    → cv_sleep p timed r (turns ++ more) w ≡ continue p timed more (cv_sleep p timed r turns w)
unfolding cv_sleep continue
cv_sleep-append p timed [] more r w = refl
cv_sleep-append p timed (comes a ∷ later) more r w =
    cv_sleep-append p timed later more (rouse timed a (act a w).1 r) (act a w).0
cv_sleep-append p timed (relocks ∷ later) more sleeping w =
    cv_sleep-append p timed later more sleeping w
cv_sleep-append p timed (relocks ∷ later) more notified w = elim (Bool-cases (p w)) [
  | inl h ↦ rw (h, cv_sleep) refl
  | inr h ↦ rw (h, cv_sleep) (cv_sleep-append p timed later more sleeping w)
]
cv_sleep-append p timed (relocks ∷ later) more timed_out w = refl

cv_wait-append :
    (p : Worker → Bool) (timed : Bool) (turns more : List Turn) (w : Worker)
    → cv_wait p timed (turns ++ more) w ≡ continue p timed more (cv_wait p timed turns w)
unfolding cv_wait continue
cv_wait-append p timed turns more w = elim (Bool-cases (p w)) [
  | inl h ↦ rw (h, cv_wait) refl
  | inr h ↦ rw (h, cv_wait) (cv_sleep-append p timed turns more sleeping (with_lock false w))
]

-- The thread was notified, or its time has come, and the predicate holds.
cv_sleep-relocks :
    (p : Worker → Bool) (timed : Bool) (r : Rest) (task : Task) (w : Worker)
    → p w ≡ true
    → cv_sleep p timed (rouse timed (gives task) true r) (relocks ∷ []) w
      ≡ returned [] true (with_lock true w)
unfolding cv_sleep rouse
cv_sleep-relocks p timed sleeping task w h = rw (h, cv_sleep) refl
cv_sleep-relocks p timed notified task w h = rw (h, cv_sleep) refl
cv_sleep-relocks p timed timed_out task w h = rw (h, cv_sleep) refl

-- The thread is notified of a task that is given, and looks at the predicate.
cv_sleep-given :
    (p : Worker → Bool) (timed : Bool) (r : Rest) (task : Task) (w : Worker)
    → w.work.notify_added ≡ true
    → p (enqueue_task task w).0 ≡ true
    → cv_sleep p timed r (comes (gives task) ∷ relocks ∷ []) w
      ≡ returned [] true (with_lock true (enqueue_task task w).0)
unfolding cv_sleep act enqueue_task enqueue_and_unlock
cv_sleep-given p timed r task w n h =
    ap
      (λ (b : Bool).
        cv_sleep p timed (rouse timed (gives task) b r) (relocks ∷ []) (act (gives task) w).0)
      n
    ∙ cv_sleep-relocks p timed r task (act (gives task) w).0 h

after_wait-waits : (x : Wait) (r : Rest) (w : Worker) → after_wait x ≡ waits r w → x ≡ waits r w
unfolding after_wait
after_wait-waits (waits r' w') r w e = e
after_wait-waits (returned later b v) r w e = absurd (cc (e))

work_wait-none :
    (p : Worker → Bool) (turns : List Turn) (w : Worker)
    → WaitingFibers.to_bool w.work.waiting ≡ true
    → WaitingFibers.first w.work.waiting ≡ none
    → work_wait p turns w ≡ none
unfolding work_wait
work_wait-none p turns w t f = rw (t, work_wait) (rw (f, work_wait) refl)

work_wait-some :
    (p : Worker → Bool) (turns : List Turn) (w : Worker) (time : ℕ)
    → WaitingFibers.to_bool w.work.waiting ≡ true
    → WaitingFibers.first w.work.waiting ≡ some time
    → work_wait p turns w ≡ some (after_wait (cv_wait p true turns (with_notify true w)))
unfolding work_wait
work_wait-some p turns w time t f = rw (t, work_wait) (rw (f, work_wait) refl)

work_wait-untimed :
    (p : Worker → Bool) (turns : List Turn) (w : Worker)
    → WaitingFibers.to_bool w.work.waiting ≡ false
    → work_wait p turns w ≡ some (after_wait (cv_wait p false turns (with_notify true w)))
unfolding work_wait
work_wait-untimed p turns w t = rw (t, work_wait) refl

enqueue_task-may_go_on :
    (task : Task) (w : Worker) → w.work.num + 1 < u64_mod → may_go_on (enqueue_task task w).0 ≡ true
unfolding may_go_on enqueue_task enqueue_and_unlock
enqueue_task-may_go_on task w few = ground arith

-- A wait that has not returned goes on.
given_then :
    (timed : Bool) (turns : List Turn) (u v : Worker) (r : Rest) (task : Task)
    → after_wait (cv_wait may_go_on timed turns u) ≡ waits r v
    → v.work.notify_added ≡ true
    → v.work.num + 1 < u64_mod
    → after_wait (cv_wait may_go_on timed (turns ++ comes (gives task) ∷ relocks ∷ []) u)
      ≡ returned [] true (marked true false (enqueue_task task v).0)
unfolding after_wait marked continue
given_then timed turns u v r task e notify few =
    let more : List Turn = comes (gives task) ∷ relocks ∷ [] in
    ap after_wait (
      cv_wait-append may_go_on timed turns more u
      ∙ ap (continue may_go_on timed more)
          (after_wait-waits (cv_wait may_go_on timed turns u) r v e)
      ∙ cv_sleep-given may_go_on timed r task v notify (enqueue_task-may_go_on task v few))

-- Whatever is read of the first waiting fiber
work_wait-then :
    (turns : List Turn) (w v : Worker) (r : Rest) (task : Task)
    → work_wait may_go_on turns w ≡ some (waits r v)
    → v.work.notify_added ≡ true
    → v.work.num + 1 < u64_mod
    → work_wait may_go_on (turns ++ comes (gives task) ∷ relocks ∷ []) w
      ≡ some (returned [] true (marked true false (enqueue_task task v).0))
unfolding work_wait
work_wait-then turns w v r task e notify few =
    let u = with_notify true w in
    elim (Bool-cases (WaitingFibers.to_bool w.work.waiting)) [
      | inl t ↦ elim (Option-cases (WaitingFibers.first w.work.waiting)) [
        | inl f ↦ absurd (cc (e, work_wait-none may_go_on turns w t f))
        | inr (time, f) ↦
            rw (t, work_wait)
              (rw (f, work_wait)
                (ap some (
                  given_then true turns u v r task
                    (cc (e, work_wait-some may_go_on turns w time t f)) notify few)))
      ]
      | inr t ↦
          rw (t, work_wait)
            (ap some (
              given_then false turns u v r task (cc (e, work_wait-untimed may_go_on turns w t))
                notify few))
    ]

-- Where a wait of waitForWork, begun with the mutex held, has not returned, whatever came before, a
-- task that is enqueued then wakes the thread: as soon as it has the mutex again, the wait returns
-- true, with the task at the end of the queue, `num` one more, the queued fibers as they were, the
-- mutex held and `notifyAdded` false. The condition is that `num` does not wrap.
pub work_wait-given :
    (turns : List Turn) (w v : Worker) (r : Rest) (task : Task)
    → w.work.locked ≡ true
    → work_wait may_go_on turns w ≡ some (waits r v)
    → v.work.num + 1 < u64_mod
    → (u : Worker) × (work_wait may_go_on (turns ++ comes (gives task) ∷ relocks ∷ []) w
        ≡ some (returned [] true u))
      × (u.work.tasks ≡ v.work.tasks ++ task ∷ [])
      × (u.work.num ≡ v.work.num + 1)
      × (u.work.fibers ≡ v.work.fibers)
      × (u.work.locked ≡ true)
      × (u.work.notify_added ≡ false)
unfolding Ends EndsOrFaults enqueue_task enqueue_and_unlock marked
work_wait-given turns w v r task held e few =
    let awaits : EndsOrFaults may_go_on w.work.waiting (some (waits r v)) =
      subst (EndsOrFaults may_go_on w.work.waiting) e (work_wait-may_go_on turns w held) in
    (
      marked true false (enqueue_task task v).0,
      work_wait-then turns w v r task e awaits.0.1 few,
      refl,
      omega arith,
      refl,
      refl,
      refl,
    )
