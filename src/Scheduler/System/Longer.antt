-- ===== src/Scheduler/System/Longer.antt =====
-- src/scheduler.cpp and src/worker.cpp: operations that make one worker's list of tasks longer or
-- shorter by one task, counted.
use hfts.Base.{
  ℕ, ◌+◌, ◌<◌, ◌≡◌, refl, Bool, false, ◌&&◌, List, [], ◌∷◌, ◌++◌, ◌==◌, if◌then◌else◌, arith,
  Bool-cases, inl, inr, ◌∙◌, sym, ap, update, ==_refl,
}
use hfts.Task.{Task, same_thread}
use hfts.Task
use hfts.Worker.{Worker, enqueue_task, enqueue_and_unlock, receive_stolen, take_task}
use hfts.Scheduler.{Scheduler, set_worker}
use hfts.Scheduler.Enqueue.{Delivered, Moved}
use hfts.Scheduler.System.{tasks_of, add_to}
use hfts.Scheduler.System.Counts.{count, count-append, sum_below, sum_below-change}

-- The lists of the first `n` workers, together
abbrev pub sums : (Task → Bool) → (ℕ → List Task) → ℕ → ℕ
sums p m n = sum_below (λ i. count p (m i)) n

abbrev pub bit : Bool → ℕ
bit b = if b then 1 else 0

-- The tasks that pass the test, and are to stay on their thread.
abbrev pub stays : (Task → Bool) → Task → Bool
stays p task = Task.is task same_thread && p task

-- One list is one task longer, and the others are as they were.
abbrev pub Longer : (ℕ → List Task) → (ℕ → List Task) → ℕ → Task → Type 0
Longer m m' i task =
    ((p : Task → Bool) → count p (m' i) ≡ bit (p task) + count p (m i))
    × ((j : ℕ) → (j == i) ≡ false → m' j ≡ m j)

pub sums-Longer :
    (p : Task → Bool) (m m' : ℕ → List Task) (i n : ℕ) (task : Task)
    → i < n
    → Longer m m' i task
    → sums p m' n ≡ bit (p task) + sums p m n
sums-Longer p m m' i n task lt (more, same) =
    let change =
      sum_below-change (λ j. count p (m j)) (λ j. count p (m' j)) i n lt
        (λ j ne. ap (count p) (same j ne)) in
    omega (arith, change, more p)

pub add_to-Longer : (m : ℕ → List Task) (i : ℕ) (task : Task) → Longer m (add_to m i task) i task
unfolding count
add_to-Longer m i task = (λ p. rw (==_refl i) refl, λ j ne. rw ne refl)

pub update-Longer :
    (m : ℕ → List Task) (i : ℕ) (task : Task) (rest : List Task)
    → m i ≡ task ∷ rest
    → Longer (update m i rest) m i task
unfolding count
update-Longer m i task rest h = (λ p. rw (==_refl i) (ap (count p) h), λ j ne. rw ne refl)

pub Delivered-Longer :
    (task : Task) (i : ℕ) (s t : Scheduler)
    → Delivered task i s t
    → Longer (tasks_of s) (tasks_of t) i task
unfolding count
Delivered-Longer task i s t d = (
  λ p. ap (count p) d.tasks ∙ (omega (arith, count-append p (tasks_of s i) (task ∷ []))),
  λ j ne. (d.others j ne).0,
)

pub Moved-Longer :
    (thief victim : ℕ) (s t : Scheduler) (task : Task)
    → Moved thief victim s t task
    → Longer (tasks_of t) (tasks_of s) victim task
unfolding count
Moved-Longer thief victim s t task (_, _, _, front, _, others) =
    (λ p. ap (count p) front, λ j ne. ap (λ (w : Worker). w.work.tasks) (sym (others j ne)))

tasks-set_worker :
    (i j : ℕ) (w : Worker) (s : Scheduler)
    → tasks_of (set_worker i w s) j ≡ (if j == i then w.work.tasks else tasks_of s j)
tasks-set_worker i j w s = ground arith

tasks-set_worker_same :
    (i : ℕ) (w : Worker) (s : Scheduler) → tasks_of (set_worker i w s) i ≡ w.work.tasks
tasks-set_worker_same i w s = tasks-set_worker i i w s ∙ rw (==_refl i) refl

tasks-set_worker_other :
    (i j : ℕ) (w : Worker) (s : Scheduler)
    → (j == i) ≡ false
    → tasks_of (set_worker i w s) j ≡ tasks_of s j
tasks-set_worker_other i j w s ne = tasks-set_worker i j w s ∙ rw ne refl

-- A worker that has one task more at the end of its queue
pub set_worker-Longer :
    (i : ℕ) (w : Worker) (s : Scheduler) (task : Task)
    → w.work.tasks ≡ tasks_of s i ++ task ∷ []
    → Longer (tasks_of s) (tasks_of (set_worker i w s)) i task
unfolding count
set_worker-Longer i w s task h = (
  λ p.
      ap (count p) (tasks-set_worker_same i w s ∙ h)
      ∙ (omega (arith, count-append p (tasks_of s i) (task ∷ []))),
  λ j ne. tasks-set_worker_other i j w s ne,
)

pub enqueue_task-tasks :
    (task : Task) (w : Worker) → (enqueue_task task w).0.work.tasks ≡ w.work.tasks ++ task ∷ []
unfolding enqueue_task enqueue_and_unlock
enqueue_task-tasks task w = refl

pub receive_stolen-tasks :
    (task : Task) (w : Worker) → (receive_stolen task w).work.tasks ≡ w.work.tasks ++ task ∷ []
unfolding receive_stolen
receive_stolen-tasks task w = refl

pub take_task-Longer :
    (i : ℕ) (s : Scheduler) (task : Task) (rest : List Task)
    → tasks_of s i ≡ task ∷ rest
    → Longer (tasks_of (set_worker i (take_task rest (s.worker_threads i)) s)) (tasks_of s) i task
unfolding take_task count
take_task-Longer i s task rest h =
    let w = take_task rest (s.worker_threads i) in
    (
      λ p.
          ap (count p) h
          ∙ ap (λ n. bit (p task) + n) (ap (count p) (sym (tasks-set_worker_same i w s))),
      λ j ne. sym (tasks-set_worker_other i j w s ne),
    )

pub stays-free :
    (p : Task → Bool) (task : Task) → Task.is task same_thread ≡ false → bit (stays p task) ≡ 0
stays-free p task h = rw h refl

pub Longer-stays :
    (p : Task → Bool) (m m' : ℕ → List Task) (i j : ℕ) (task : Task)
    → Longer m m' i task
    → Task.is task same_thread ≡ false
    → count (stays p) (m' j) ≡ count (stays p) (m j)
Longer-stays p m m' i j task (more, same) h = elim (Bool-cases (j == i)) [
  | inr ne ↦ ap (count (stays p)) (same j ne)
  | inl e ↦
      let at : j ≡ i = ground arith in rw at (omega (arith, more (stays p), stays-free p task h))
]

-- Both lists of a worker's tasks, where one task has moved from the one to the other
pub Longer-both :
    (p : Task → Bool) (m m' k k' : ℕ → List Task) (i j : ℕ) (task : Task)
    → Longer m m' i task
    → Longer k k' i task
    → count p (m' j) + count p (k j) ≡ count p (m j) + count p (k' j)
Longer-both p m m' k k' i j task (more, same) (more', same') = elim (Bool-cases (j == i)) [
  | inr ne ↦ omega (arith, ap (count p) (same j ne), ap (count p) (same' j ne))
  | inl e ↦ let at : j ≡ i = ground arith in rw at (omega (arith, more p, more' p))
]
