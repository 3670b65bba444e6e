-- ===== src/Fiber.antt =====
-- include/hfts/fiber.hpp and src/fiber.cpp: Fiber, which hands its calls to its worker. A worker is
-- named by its place, and `os_fiber` is the address of the fiber's OSFiber.
use hfts.Base.{
  ◌⊎◌, ℕ, ◌≡◌, refl, Bool, true, false, Option, none, some, List, [], ◌∷◌, ◌++◌, ◌==◌,
  if◌then◌else◌, update, arith, inl, inr, ==_refl,
}
use hfts.Worker.{Worker, State, queued, running, enqueue_fiber, queue_fiber, set_fiber_state}
use hfts.Worker.Wait.{
  Locks, Look, Outcome, Deed, returned, suspended, held, rounds, Ends, holds, too_late, no_more,
  wait_once, wait_lem,
}
use hfts.Worker.Wait
use hfts.Memory.{Request, Allocation}
use hfts.FiberContext.{Context, OsFiber, swap, create_fiber, create_fiber_from_current_thread}

pub record Fiber : Type 0 where
  pub id : ℕ
  pub os_fiber : ℕ
  pub worker : ℕ

-- Fiber::Fiber, created by a thread whose current worker is `worker`
unfoldable pub make : ℕ → ℕ → ℕ → Fiber
make os_fiber id worker = record { id = id; os_fiber = os_fiber; worker = worker }

-- Fiber::current of a thread with a current worker or none
unfoldable pub current : Option ℕ → (ℕ → Worker) → Option ℕ
current none workers = none
current (some i) workers = some ((workers i).current_fiber)

-- Fiber::notify
unfoldable pub notify : Fiber → (ℕ → Worker) → ℕ → Worker
notify f workers = update workers f.worker (enqueue_fiber f.id (workers f.worker)).0

-- Fiber::switchTo
unfoldable pub switch_to : Fiber → Fiber → Context × (ℕ → Context) → Context × (ℕ → Context)
switch_to self to machine =
    if to.os_fiber == self.os_fiber then machine else swap self.os_fiber to.os_fiber machine

-- The four overloads of Fiber::wait, over what Worker::wait sees of the predicate and of the time
unfoldable pub wait_pred : List Look → Locks → Option Outcome
wait_pred looks l = Wait.wait false looks l

unfoldable pub wait_pred_until : List Look → Locks → Option Outcome
wait_pred_until looks l = Wait.wait true looks l

unfoldable pub wait : Locks → Option (Bool × Locks)
wait l = wait_once false false l

unfoldable pub wait_timeout : Bool → Locks → Option (Bool × Locks)
wait_timeout late l = wait_once true late l

-- Fiber::create and Fiber::createFromCurrentThread, with the OSFiber at address `os`; the code of
-- the trampoline and of OSFiber::run, and the allocator of the stack, are arguments.
unfoldable pub create : ℕ → ℕ → (Request → Allocation) → ℕ → ℕ → ℕ → ℕ → ℕ → OsFiber × Fiber
unfolding make
create trampoline run allocate os id worker stack_size func =
    (create_fiber trampoline run allocate os stack_size func, make os id worker)

unfoldable pub create_from_current_thread : ℕ → ℕ → ℕ → OsFiber × Fiber
unfolding make
create_from_current_thread os id worker = (create_fiber_from_current_thread, make os id worker)

-- A wait of a fiber for a predicate, without a timeout, returns true if the predicate holds at one
-- of the looks, with the user's lock held and `work.mutex` free; it never returns false.
pub wait_pred_lem :
    (looks : List Look) (log : List Deed)
    → (o : Outcome) × (k : ℕ) × (wait_pred looks (held log) ≡ some o)
      × ((o ≡ returned true (held (rounds k log))) ⊎ (o ≡ suspended))
unfolding wait_pred
wait_pred_lem looks log =
    let (o, k, ran, _, ends) = wait_lem false looks log in (o, k, ran, untimed looks log k o ends)
  where
    untimed :
        (looks : List Look) (log : List Deed) (k : ℕ) (o : Outcome)
        → Ends false looks log k o
        → (o ≡ returned true (held (rounds k log))) ⊎ (o ≡ suspended)
    untimed looks log k o (holds s) = inl refl
    untimed looks log k o (too_late (l, at, (e, t, h))) = absurd (cc (t))
    untimed looks log k o (no_more e) = inr refl

-- Whether a notification queues a fiber in this state.
abbrev pub is_woken : State → Bool
is_woken s = elim s [ running ↦ false | queued ↦ false | _ ↦ true ]

enqueue_fiber-fibers :
    (id : ℕ) (w : Worker)
    → (enqueue_fiber id w).0.work.fibers
      ≡ (if is_woken (w.state id) then w.work.fibers ++ id ∷ [] else w.work.fibers)
unfolding enqueue_fiber queue_fiber set_fiber_state
enqueue_fiber-fibers id w = ground arith

enqueue_fiber-state : (id : ℕ) (w : Worker) → is_woken ((enqueue_fiber id w).0.state id) ≡ false
unfolding enqueue_fiber queue_fiber set_fiber_state
enqueue_fiber-state id w = ground arith

-- Notifying a fiber changes its worker only: the fiber is put at the end of the worker's queue,
-- unless it runs or is queued already, and is then in none of the states in which a notification
-- queues it.
pub notify_lem :
    (f : Fiber) (workers : ℕ → Worker)
    → ((notify f workers f.worker).work.fibers ≡ (
        if is_woken ((workers f.worker).state f.id)
        then (workers f.worker).work.fibers ++ f.id ∷ []
        else (workers f.worker).work.fibers))
      × (is_woken ((notify f workers f.worker).state f.id) ≡ false)
      × ((i : ℕ) → (i == f.worker) ≡ false → notify f workers i ≡ workers i)
unfolding notify
notify_lem f workers = (
  rw (==_refl f.worker) (enqueue_fiber-fibers f.id (workers f.worker)),
  rw (==_refl f.worker) (enqueue_fiber-state f.id (workers f.worker)),
  λ i ne. rw ne refl,
)
