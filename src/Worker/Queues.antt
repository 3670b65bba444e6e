-- ===== src/Worker/Queues.antt =====
-- src/worker.cpp: the queues of a worker, one operation at a time.
use hfts.Base.{
  ◌≡◌, ◌⊎◌, inl, inr, refl, ℕ, Bool, true, false, none, some, List, [], ◌∷◌, ◌==◌, arith, dec64,
  Bool-cases,
}
use hfts.Task.{Task, same_thread}
use hfts.Task
use hfts.Worker.{Worker, State, steal, enqueue_fiber, queue_fiber, set_fiber_state, queued, running}

-- A steal takes nothing, and then it changes nothing.
abbrev pub NotStolen : Worker → Type 0
NotStolen w = steal w ≡ (w, none)

-- A steal takes the first task, which is bound to no thread, off a worker that is not locked.
abbrev pub Stolen : Worker → Task → List Task → Type 0
Stolen w task rest =
    let work = w.work in
    (work.tasks ≡ task ∷ rest)
    × (work.locked ≡ false)
    × (Task.is task same_thread ≡ false)
    × (steal w
        ≡ (record w { work = record work { num = dec64 work.num; tasks = rest } }, some task))

steal-cases_lists :
    (w : Worker) (ts : List Task)
    → w.work.tasks ≡ ts
    → NotStolen w ⊎ ((task : Task) × (rest : List Task) × Stolen w task rest)
unfolding steal
steal-cases_lists w [] e = inl (rw e (ground arith))
steal-cases_lists w (t ∷ ts) e = elim (Bool-cases (w.work.num == 0)) [
  | inl z ↦ inl (rw z)
  | inr z ↦ elim (Bool-cases w.work.locked) [
    | inl l ↦ inl (ground arith)
    | inr l ↦ elim (Bool-cases (Task.is t same_thread)) [
      | inl s ↦ inl (ground arith)
      | inr s ↦ inr (t, ts, (e, l, s, ground arith))
    ]
  ]
]

pub steal-cases :
    (w : Worker) → NotStolen w ⊎ ((task : Task) × (rest : List Task) × Stolen w task rest)
steal-cases w = steal-cases_lists w w.work.tasks refl

-- A fiber that runs or is queued needs not be queued.
abbrev is_settled : State → Bool
is_settled s = elim s [ running ↦ true | queued ↦ true | _ ↦ false ]

enqueue_fiber-settled :
    (f : ℕ) (w : Worker) → is_settled (w.state f) ≡ true → enqueue_fiber f w ≡ (w, false)
unfolding enqueue_fiber
enqueue_fiber-settled f w h = ground arith

enqueue_fiber-settles : (f : ℕ) (w : Worker) → is_settled ((enqueue_fiber f w).0.state f) ≡ true
unfolding enqueue_fiber queue_fiber set_fiber_state
enqueue_fiber-settles f w = ground arith

-- Enqueueing a fiber that has just been enqueued, from whatever state, changes nothing and asks for
-- no notification.
pub enqueue_fiber_again :
    (f : ℕ) (w : Worker) → enqueue_fiber f (enqueue_fiber f w).0 ≡ ((enqueue_fiber f w).0, false)
enqueue_fiber_again f w = enqueue_fiber-settled f (enqueue_fiber f w).0 (enqueue_fiber-settles f w)
