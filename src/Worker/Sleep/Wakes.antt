-- ===== src/Worker/Sleep/Wakes.antt =====
-- src/worker.cpp: what Worker::Work::wait comes to, for the two predicates that it is called with.
use hfts.Base.{
  ◌≡◌, inl, inr, refl, sym, ◌∙◌, ap, Bool, true, false, Option, none, some, Option-cases, List, [],
  ◌∷◌, arith, Bool-cases,
}
use hfts.WaitingFibers.{WaitingFibers}
use hfts.WaitingFibers
use hfts.Worker.{
  Worker, enqueue_task, enqueue_fiber, queue_fiber, set_fiber_state, steal, try_lock,
  enqueue_and_unlock, may_go_on,
}
use hfts.Worker.Sleep.{
  Act, gives, notifies, steals, wakes, time_comes, Turn, comes, relocks, act, Rest, sleeping,
  notified, timed_out, rouse, Wait, waits, returned, marked, with_lock, with_notify, cv_sleep,
  cv_wait, after_wait, work_wait, may_start,
}

-- The mutex is free, and `added` is notified when something is queued.
abbrev pub Open : Worker → Type 0
Open w = (w.work.locked ≡ false) × (w.work.notify_added ≡ true)

act-Open : (a : Act) (w : Worker) → Open w → Open (act a w).0
unfolding act enqueue_task enqueue_and_unlock enqueue_fiber queue_fiber set_fiber_state steal
    try_lock
act-Open (gives task) w o = (refl, o.1)
act-Open (notifies f) w o = ground arith
act-Open steals w o = ground arith
act-Open wakes w o = o
act-Open time_comes w o = o

-- An act of which the thread is not notified changes nothing on a worker without work.
act-quiet : (a : Act) (w : Worker) → Open w → w.work.num ≡ 0 → (act a w).1 ≡ false → (act a w).0 ≡ w
unfolding act enqueue_task enqueue_and_unlock enqueue_fiber queue_fiber set_fiber_state steal
    try_lock
act-quiet (gives task) w o z quiet = ground arith
act-quiet (notifies f) w o z quiet = ground arith
act-quiet steals w o z quiet = rw z refl
act-quiet wakes w o z quiet = refl
act-quiet time_comes w o z quiet = refl

abbrev pub is_sleeping : Rest → Bool
is_sleeping r = elim r [ sleeping ↦ true | _ ↦ false ]

abbrev pub is_timed_out : Rest → Bool
is_timed_out r = elim r [ timed_out ↦ true | _ ↦ false ]

-- What holds of a wait for `p` that has not returned, and of one that has.
abbrev pub Waits : (Worker → Bool) → Bool → Rest → Worker → Type 0
Waits p timed r w =
    Open w × (is_sleeping r ≡ true → p w ≡ false) × (is_timed_out r ≡ true → timed ≡ true)

abbrev pub Returned : (Worker → Bool) → Bool → Bool → Worker → Type 0
Returned p timed b w = (w.work.locked ≡ true) × (b ≡ p w) × (b ≡ false → timed ≡ true)

unfoldable Comes : (Worker → Bool) → Bool → Wait → Type 0
Comes p timed (waits r w) = Waits p timed r w
Comes p timed (returned later b w) = Returned p timed b w

-- Of Worker::Work::wait, called by the thread that holds the mutex
unfoldable pub Ends : (Worker → Bool) → Bool → Wait → Type 0
Ends p timed (waits r w) = Waits p timed r w
Ends p timed (returned later b w) = Returned p timed b w × (w.work.notify_added ≡ false)

-- Of Worker::Work::wait, which reads past the end only if the map of the waiting fibers holds one and
-- the set does not.
unfoldable pub EndsOrFaults : (Worker → Bool) → WaitingFibers → Option Wait → Type 0
unfolding Ends
EndsOrFaults p waiting none =
    (WaitingFibers.to_bool waiting ≡ true) × (WaitingFibers.first waiting ≡ none)
EndsOrFaults p waiting (some x) = Ends p (WaitingFibers.to_bool waiting) x

-- Of a predicate that fails only for a worker that has nothing queued, and that does not look at
-- the mutex.
module _ (p : Worker → Bool) (fails : (w : Worker) → p w ≡ false → w.work.num ≡ 0)
    (same : (held notify : Bool) (w : Worker) → p (marked held notify w) ≡ p w) where
  act-Waits :
      (timed : Bool) (a : Act) (r : Rest) (w : Worker)
      → Waits p timed r w
      → Waits p timed (rouse timed a (act a w).1 r) (act a w).0
  unfolding rouse
  act-Waits timed a notified w (o, _, _) = (act-Open a w o, λ e. ground arith, λ e. ground arith)
  act-Waits timed a timed_out w (o, _, t) = (act-Open a w o, λ e. ground arith, t)
  act-Waits timed a sleeping w (o, f, _) = elim (Bool-cases (act a w).1) [
    | inl asked ↦ (act-Open a w o, λ e. ground arith, λ e. ground arith)
    | inr quiet ↦ (
      act-Open a w o,
      λ e. ap p (act-quiet a w o (fails w (f refl)) quiet) ∙ f refl,
      λ e. ground arith,
    )
  ]

  cv_sleep-Comes :
      (timed : Bool) (turns : List Turn) (r : Rest) (w : Worker)
      → Waits p timed r w
      → Comes p timed (cv_sleep p timed r turns w)
  unfolding cv_sleep Comes marked
  cv_sleep-Comes timed [] r w v = v
  cv_sleep-Comes timed (comes a ∷ later) r w v =
      cv_sleep-Comes timed later (rouse timed a (act a w).1 r) (act a w).0 (act-Waits timed a r w v)
  cv_sleep-Comes timed (relocks ∷ later) sleeping w v = cv_sleep-Comes timed later sleeping w v
  cv_sleep-Comes timed (relocks ∷ later) notified w v = elim (Bool-cases (p w)) [
    | inl h ↦
        rw (h, cv_sleep) (refl, sym h ∙ sym (same true w.work.notify_added w), λ e. ground arith)
    | inr h ↦
        rw (h, cv_sleep) (cv_sleep-Comes timed later sleeping w (v.0, λ e. h, λ e. ground arith))
  ]
  cv_sleep-Comes timed (relocks ∷ later) timed_out w v =
      (refl, sym (same true w.work.notify_added w), λ e. v.2 refl)

  cv_wait-Comes :
      (timed : Bool) (turns : List Turn) (w : Worker)
      → w.work.locked ≡ true
      → w.work.notify_added ≡ true
      → Comes p timed (cv_wait p timed turns w)
  unfolding cv_wait marked Comes
  cv_wait-Comes timed turns w held notify = elim (Bool-cases (p w)) [
    | inl h ↦ rw (h, cv_wait) (held, sym h, λ e. ground arith)
    | inr h ↦
        rw (h, cv_wait)
          (cv_sleep-Comes timed turns sleeping (with_lock false w)
            ((refl, notify), λ e. same false w.work.notify_added w ∙ h, λ e. ground arith))
  ]

  after_wait-Ends : (timed : Bool) (x : Wait) → Comes p timed x → Ends p timed (after_wait x)
  unfolding after_wait marked Comes Ends
  after_wait-Ends timed (waits r w) c = c
  after_wait-Ends timed (returned later b w) (held, e, t) =
      ((held, e ∙ sym (same w.work.locked false w), t), refl)

  ended :
      (timed : Bool) (turns : List Turn) (w : Worker)
      → w.work.locked ≡ true
      → Ends p timed (after_wait (cv_wait p timed turns (with_notify true w)))
  unfolding marked
  ended timed turns w held =
      after_wait-Ends timed (cv_wait p timed turns (with_notify true w))
        (cv_wait-Comes timed turns (with_notify true w) held refl)

  work_wait-Ends :
      (turns : List Turn) (w : Worker)
      → w.work.locked ≡ true
      → EndsOrFaults p w.work.waiting (work_wait p turns w)
  unfolding work_wait EndsOrFaults
  work_wait-Ends turns w held = elim (Bool-cases (WaitingFibers.to_bool w.work.waiting)) [
    | inl t ↦ elim (Option-cases (WaitingFibers.first w.work.waiting)) [
      | inl e ↦ rw (t, work_wait) (rw (e, work_wait) (t, e))
      | inr (time, e) ↦ rw (t, work_wait) (rw (e, work_wait) (rw t (ended true turns w held)))
    ]
    | inr t ↦ rw (t, work_wait) (rw t (ended false turns w held))
  ]

-- `work_wait` of waitForWork
pub work_wait-may_go_on :
    (turns : List Turn) (w : Worker)
    → w.work.locked ≡ true
    → EndsOrFaults may_go_on w.work.waiting (work_wait may_go_on turns w)
unfolding may_go_on marked
work_wait-may_go_on = work_wait-Ends may_go_on (λ w e. ground arith) (λ held notify w. refl)

-- `work_wait` of run
pub work_wait-may_start :
    (turns : List Turn) (w : Worker)
    → w.work.locked ≡ true
    → EndsOrFaults may_start w.work.waiting (work_wait may_start turns w)
unfolding may_start marked
work_wait-may_start = work_wait-Ends may_start (λ w e. ground arith) (λ held notify w. refl)
