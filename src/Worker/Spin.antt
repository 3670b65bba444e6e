-- ===== src/Worker/Spin.antt =====
-- src/worker.cpp: Worker::spinForWorkAndLock. What Scheduler::stealWork brings is an argument, and
-- the time is how many turns there are.
use hfts.Base.{◌≡◌, inl, inr, refl, true, false, Option, none, some, List, [], ◌∷◌, Bool-cases}
use hfts.Task.{Task}
use hfts.Worker.{Worker, receive_stolen, has_work}
use hfts.Worker.Sleep.{Act, act, marked, with_lock}

-- A turn of the spin, with what other threads do: it looks at `num` after `before`, and once more,
-- with the mutex, after `between`; or it tries to steal after `before`, and has the mutex after
-- `between`.
pub data Turn : Type 0 where
  polls : (before between : List Act) → Turn
  tries : (before : List Act) → Option Task → (between : List Act) → Turn

unfoldable pub acts_on : List Act → Worker → Worker
unfolding act
acts_on [] w = w
acts_on (a ∷ later) w = acts_on later (act a w).0

-- Worker::spinForWorkAndLock. `last` comes between the end of the time and the lock.
unfoldable pub spin_for_work_and_lock : List Turn → List Act → Worker → Worker
unfolding acts_on has_work receive_stolen marked
spin_for_work_and_lock [] last w = with_lock true (acts_on last w)
spin_for_work_and_lock (polls before between ∷ later) last w =
    let v = acts_on before w in
    let u = acts_on between v in
    elim (has_work v) [
      | false ↦ spin_for_work_and_lock later last v
      | true ↦ elim (has_work u) [
        | false ↦ spin_for_work_and_lock later last u
        | true ↦ with_lock true u
      ]
    ]
spin_for_work_and_lock (tries before stolen between ∷ later) last w =
    let v = acts_on before w in
    elim stolen [
      | none ↦ spin_for_work_and_lock later last v
      | some task ↦ receive_stolen task (with_lock true (acts_on between v))
    ]

-- The spin ends with the mutex held.
pub spin-locked :
    (turns : List Turn) (last : List Act) (w : Worker)
    → (spin_for_work_and_lock turns last w).work.locked ≡ true
unfolding spin_for_work_and_lock receive_stolen marked
spin-locked [] last w = refl
spin-locked (polls before between ∷ later) last w =
    elim (Bool-cases (has_work (acts_on before w))) [
      | inl h ↦ elim (Bool-cases (has_work (acts_on between (acts_on before w)))) [
        | inl k ↦ rw (h, spin_for_work_and_lock) (rw (k, spin_for_work_and_lock) refl)
        | inr k ↦
            rw (h, spin_for_work_and_lock)
              (rw (k, spin_for_work_and_lock)
                (spin-locked later last (acts_on between (acts_on before w))))
      ]
      | inr h ↦ rw (h, spin_for_work_and_lock) (spin-locked later last (acts_on before w))
    ]
spin-locked (tries before none between ∷ later) last w = spin-locked later last (acts_on before w)
spin-locked (tries before (some task) between ∷ later) last w = refl
