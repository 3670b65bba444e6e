-- ===== src/Worker/Timeouts.antt =====
-- src/worker.cpp: Worker::enqueueFiberTimeouts, on fuel. The loop ends when WaitingFibers::take
-- hands out no fiber.
use hfts.Base.{
  ℕ, zero, suc, ◌≡◌, refl, true, false, none, some, [], ◌∷◌, ◌++◌, inc64, List, ap, ◌∙◌, arith,
}
use hfts.Worker.{
  Worker, push_fiber, State, waiting, queued, enqueue_fiber, queue_fiber, set_fiber_state,
}
use hfts.WaitingFibers.{WaitingFibers}
use hfts.WaitingFibers
use hfts.WaitingFibers.Order.{IsValid}
use hfts.WaitingFibers.Stale.{take_again, take-none}

-- A read past the end of the set is a `fault`.
pub data Drain : Type 0 where
  out_of_fuel fault : Drain
  drained : Worker → Drain

-- Lines 307 to 309, for the fiber that was taken and the rest of the waiting fibers.
unfoldable pub push_timed_out : ℕ → WaitingFibers → Worker → Worker
push_timed_out fiber rest w =
    let work = w.work in record w { work = push_fiber fiber (record work { waiting = rest }) }

unfoldable pub enqueue_fiber_timeouts : ℕ → ℕ → Worker → Drain
unfolding push_timed_out
enqueue_fiber_timeouts zero now w = out_of_fuel
enqueue_fiber_timeouts (suc fuel) now w = elim (WaitingFibers.take now w.work.waiting) [
  | none ↦ fault
  | some (taken, rest) ↦ elim taken [
    | none ↦ drained w
    | some fiber ↦ enqueue_fiber_timeouts fuel now (push_timed_out fiber rest w)
  ]
]

stays_first :
    (fuel now f : ℕ) (w : Worker)
    → WaitingFibers.take now w.work.waiting ≡ some (some f, w.work.waiting)
    → enqueue_fiber_timeouts fuel now w ≡ out_of_fuel
unfolding enqueue_fiber_timeouts
stays_first zero now f w h = refl
stays_first (suc fuel) now f w h =
    rw (h, enqueue_fiber_timeouts) (stays_first fuel now f (push_timed_out f w.work.waiting w) h)

-- If `take` hands out a fiber of a valid structure and other fibers still wait, the loop of
-- enqueueFiberTimeouts has not ended after any number of rounds.
pub enqueue_fiber_timeouts_diverges :
    (fuel now f : ℕ) (rest : WaitingFibers) (w : Worker)
    → IsValid w.work.waiting
    → WaitingFibers.take now w.work.waiting ≡ some (some f, rest)
    → WaitingFibers.to_bool rest ≡ true
    → enqueue_fiber_timeouts fuel now w ≡ out_of_fuel
unfolding enqueue_fiber_timeouts
enqueue_fiber_timeouts_diverges zero now f rest w v h more = refl
enqueue_fiber_timeouts_diverges (suc fuel) now f rest w v h more =
    rw (h, enqueue_fiber_timeouts)
      (stays_first fuel now f (push_timed_out f rest w)
        (take_again now f w.work.waiting rest v h more))

-- If `take` hands out a fiber and then no fiber waits, enqueueFiberTimeouts ends after two rounds
-- with the fiber at the end of the queue, counted, no longer waiting, and with the state of every
-- fiber as it was.
pub enqueue_fiber_timeouts_alone :
    (fuel now f : ℕ) (rest : WaitingFibers) (w : Worker)
    → WaitingFibers.take now w.work.waiting ≡ some (some f, rest)
    → WaitingFibers.to_bool rest ≡ false
    → (w' : Worker) × (enqueue_fiber_timeouts (suc (suc fuel)) now w ≡ drained w')
      × (w'.work.fibers ≡ w.work.fibers ++ f ∷ [])
      × (w'.work.num ≡ inc64 w.work.num)
      × (w'.work.waiting ≡ rest)
      × (w'.state ≡ w.state)
unfolding enqueue_fiber_timeouts
enqueue_fiber_timeouts_alone fuel now f rest w h last = (
  push_timed_out f rest w,
  rw (h, enqueue_fiber_timeouts) (rw (take-none now rest last)),
  refl,
  refl,
  refl,
  refl,
)

enqueue_fiber-waiting :
    (f : ℕ) (w : Worker)
    → w.state f ≡ waiting
    → ((enqueue_fiber f w).0.work.fibers ≡ w.work.fibers ++ f ∷ [])
      × ((enqueue_fiber f w).0.state f ≡ queued)
unfolding enqueue_fiber queue_fiber set_fiber_state
enqueue_fiber-waiting f w h = (ground arith, ground arith)

-- If the time of a fiber in state Waiting has come and no other fiber waits, then after
-- enqueueFiberTimeouts, which ends, a notification of the fiber puts it in the queue a second time,
-- and it is in state Queued.
pub enqueue_fiber-timed_out :
    (fuel now f : ℕ) (rest : WaitingFibers) (w : Worker)
    → w.state f ≡ waiting
    → WaitingFibers.take now w.work.waiting ≡ some (some f, rest)
    → WaitingFibers.to_bool rest ≡ false
    → (w' : Worker) × (enqueue_fiber_timeouts (suc (suc fuel)) now w ≡ drained w')
      × ((enqueue_fiber f w').0.work.fibers ≡ (w.work.fibers ++ f ∷ []) ++ f ∷ [])
      × ((enqueue_fiber f w').0.state f ≡ queued)
enqueue_fiber-timed_out fuel now f rest w s h last =
    let (w', ran, fibers, num, left, state) =
      enqueue_fiber_timeouts_alone fuel now f rest w h last in
    let again = enqueue_fiber-waiting f w' (ap (λ (g : ℕ → State). g f) state ∙ s) in
    (w', ran, again.0 ∙ ap (λ (fs : List ℕ). fs ++ f ∷ []) fibers, again.1)
