-- ===== src/Worker/Sleep.antt =====
-- src/worker.cpp and include/hfts/mutex.hpp: Worker::Work::wait, over mutex::wait_locked and
-- mutex::wait_until_locked, while other threads come to the worker.
pub mod Wakes
pub mod Given
use hfts.Base.{
  ℕ, ◌≡◌, ◌⊎◌, inl, inr, refl, sym, ◌∙◌, ap, ◌<◌, ◌+◌, ◌%◌, Bool, true, false, Option, not, ◌&&◌,
  ◌||◌, none, some, List, [], ◌∷◌, ◌++◌, ◌==◌, ltb, if◌then◌else◌, arith, inc64, u64_mod,
  Bool-cases,
}
use hfts.Task.{Task}
use hfts.WaitingFibers
use hfts.Worker.{Worker, enqueue_task, enqueue_fiber, steal, may_go_on}

-- What comes while the thread is in the wait: another thread enqueues a task or a fiber, or steals;
-- the condition variable wakes the thread unasked; the time of wait_until comes.
pub data Act : Type 0 where
  gives : Task → Act
  notifies : ℕ → Act
  steals wakes time_comes : Act

-- What an act does to the worker, and whether `added` is notified
unfoldable pub act : Act → Worker → Worker × Bool
act (gives task) w = enqueue_task task w
act (notifies fiber) w = enqueue_fiber fiber w
act steals w = ((steal w).0, false)
act wakes w = (w, true)
act time_comes w = (w, false)

-- An act, or the thread, which was woken, has the mutex again.
pub data Turn : Type 0 where
  comes : Act → Turn
  relocks : Turn

-- A thread sleeps, or was woken and is to take the mutex again.
pub data Rest : Type 0 where
  sleeping notified timed_out : Rest

unfoldable pub rouse : Bool → Act → Bool → Rest → Rest
rouse timed a asked notified = notified
rouse timed a asked timed_out = timed_out
rouse timed a asked sleeping =
    if asked
    then notified
    else elim a [ time_comes ↦ if timed then timed_out else sleeping | _ ↦ sleeping ]

-- How far a wait has come: it is where Rest says, or it has returned, with what `wait_until`
-- returns. The turns that are left come after it.
pub data Wait : Type 0 where
  waits : Rest → Worker → Wait
  returned : List Turn → Bool → Worker → Wait

unfoldable pub marked : Bool → Bool → Worker → Worker
marked held notify w =
    let work = w.work in record w { work = record work { locked = held; notify_added = notify } }

abbrev pub with_lock : Bool → Worker → Worker
with_lock held w = marked held w.work.notify_added w

abbrev pub with_notify : Bool → Worker → Worker
with_notify notify w = marked w.work.locked notify w

-- The wait of the condition variable from where Rest says. A thread that was notified looks at the
-- predicate and sleeps again if it fails; one whose time has come returns what it is.
unfoldable pub cv_sleep : (Worker → Bool) → Bool → Rest → List Turn → Worker → Wait
unfolding act rouse marked
cv_sleep p timed r [] w = waits r w
cv_sleep p timed r (comes a ∷ later) w =
    cv_sleep p timed (rouse timed a (act a w).1 r) later (act a w).0
cv_sleep p timed r (relocks ∷ later) w = elim r [
  | sleeping ↦ cv_sleep p timed sleeping later w
  | notified ↦ elim (p w) [
    | true ↦ returned later true (with_lock true w)
    | false ↦ cv_sleep p timed sleeping later w
  ]
  | timed_out ↦ returned later (p w) (with_lock true w)
]

-- condition_variable::wait and wait_until with a predicate
unfoldable pub cv_wait : (Worker → Bool) → Bool → List Turn → Worker → Wait
unfolding cv_sleep marked
cv_wait p timed turns w = elim (p w) [
  | true ↦ returned turns true w
  | false ↦ cv_sleep p timed sleeping turns (with_lock false w)
]

-- The end of Worker::Work::wait
unfoldable pub after_wait : Wait → Wait
unfolding marked
after_wait (waits r w) = waits r w
after_wait (returned later b w) = returned later b (with_notify false w)

-- Worker::Work::wait. It waits for the time of the first waiting fiber, if there is one; to read a
-- time that is not there is `none`.
unfoldable pub work_wait : (Worker → Bool) → List Turn → Worker → Option Wait
unfolding cv_wait after_wait
work_wait p turns w = elim (WaitingFibers.to_bool w.work.waiting) [
  | false ↦ some (after_wait (cv_wait p false turns (with_notify true w)))
  | true ↦ elim (WaitingFibers.first w.work.waiting) [
    | none ↦ none
    | some time ↦ some (after_wait (cv_wait p true turns (with_notify true w)))
  ]
]

-- The predicate of the wait at the beginning of Worker::run
unfoldable pub may_start : Worker → Bool
may_start w = ltb 0 w.work.num || WaitingFibers.to_bool w.work.waiting || w.shutdown
