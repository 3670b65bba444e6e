-- ===== src/Worker/Machine/Inv.antt =====
-- The invariant of the machine of src/worker.cpp.
use hfts.Base.{
  ℕ, suc, ◌+◌, ◌%◌, ◌≡◌, Bool, true, false, ◌&&◌, ◌==◌, ltb, leb, if◌then◌else◌, elem, Distinct,
  length, count_below, u64_mod,
}
use hfts.Worker.{State, waiting, yielded, queued, running}
use hfts.Worker.Machine.{
  Machine, Frame, fresh, in_suspend, in_idle, active, Pc, looping, in_task, suspending, is_idle,
}

abbrev pub is_queued : State → Bool
is_queued s = elim s [ queued ↦ true | _ ↦ false ]

abbrev pub is_running : State → Bool
is_running s = elim s [ running ↦ true | _ ↦ false ]

-- Suspended by a wait, and notified or not.
abbrev pub is_blocked : State → Bool
is_blocked s = elim s [ waiting ↦ true | yielded ↦ true | queued ↦ true | _ ↦ false ]

abbrev pub is_in_suspend : Frame → Bool
is_in_suspend a = elim a [ in_suspend ↦ true | _ ↦ false ]

abbrev pub is_active : Frame → Bool
is_active a = elim a [ active ↦ true | _ ↦ false ]

-- The state that the place of the current fiber asks for.
abbrev pub current_ok : Pc → State → Bool
current_ok pc s = elim pc [
  | looping ↦ is_running s
  | in_task ↦ is_running s
  | suspending ↦ is_blocked s
]

-- The state that the frame of any other fiber asks for. A fiber that is not made is `fresh`.
abbrev pub frame_ok : ℕ → ℕ → Frame → State → Bool
frame_ok made f a s = elim a [
  | fresh ↦ ltb made f && is_running s
  | in_suspend ↦ leb f made && is_blocked s
  | in_idle ↦ leb f made && is_idle s
  | active ↦ false
]

abbrev pub fiber_ok : ℕ → ℕ → Pc → ℕ → Frame → State → Bool
fiber_ok made current pc f a s =
    if f == current then is_active a && leb f made && current_ok pc s else frame_ok made f a s

pub record Inv (m : Machine) : Type 0 where
  -- `num` counts the tasks and the fibers that are queued.
  pub counted :
      m.worker.work.num ≡ (length m.worker.work.tasks + length m.worker.work.fibers) % u64_mod
  -- `num_blocked_fibers` counts the fibers that are switched away in `suspend`.
  pub blocked :
      m.worker.work.num_blocked_fibers
      ≡ count_below is_in_suspend m.frame (suc m.worker.worker_fibers) % u64_mod
  -- Each fiber is in the state that the place where it goes on asks for.
  pub fibers_ok :
      (f : ℕ)
      → fiber_ok m.worker.worker_fibers m.worker.current_fiber m.pc f (m.frame f) (m.worker.state f)
        ≡ true
  -- The queue holds the fibers in state Queued, each once; the idle set those in state Idle.
  pub in_queue : (f : ℕ) → elem f m.worker.work.fibers ≡ is_queued (m.worker.state f)
  pub in_idle_set : (f : ℕ) → elem f m.worker.idle_fibers ≡ is_idle (m.worker.state f)
  pub queue_distinct : Distinct m.worker.work.fibers
  pub idle_distinct : Distinct m.worker.idle_fibers
