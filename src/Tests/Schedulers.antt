-- ===== src/Tests/Schedulers.antt =====
-- src/scheduler.cpp and src/thread.cpp at concrete inputs.
use hfts.Base.{ℕ, ◌%◌, ◌<◌, ◌≡◌, refl, Bool, true, false, some, [], ◌∷◌, ◌++◌, elem, arith}
use hfts.Task.{Task, none_flag}
use hfts.Worker.{init, enqueue_task, steal}
use hfts.Scheduler.{Scheduler, make, on_begin_spinning, enqueue_loop, steal_work, set_worker}
use hfts.Scheduler.Spinning.{IsValid, nth_pick, nth_pick_fair}
use hfts.Scheduler.Enqueue.{
  Delivered, Moved, enqueue_loop-Delivered, enqueue_loop_ends, steal_work-Moved,
}
use hfts.Affinity.{remove, sort}
use hfts.Affinity.Remove.{remove-two}

abbrev job : Task
job = record { func = some 7; flag = none_flag }

-- Three workers, of which worker 2 begins to spin.
abbrev spinning : Scheduler
spinning = on_begin_spinning 2 (make 3)

abbrev all_held : ℕ → Bool
all_held i = true

abbrev none_held : ℕ → Bool
none_held i = false

make-IsValid : IsValid (make 3)
unfolding make
make-IsValid = record { some_worker = omega arith; slots = λ i. tt }

enqueue_loop_ends_example :
    (s' : Scheduler) × (enqueue_loop (all_held ∷ none_held ∷ []) job (make 3) ≡ some s')
enqueue_loop_ends_example = enqueue_loop_ends job (all_held ∷ []) [] none_held (make 3) (λ j. refl)

abbrev delivered : Scheduler
delivered = enqueue_loop_ends_example.0

enqueue_loop-Delivered_example : (i : ℕ) × Delivered job i (make 3) delivered
enqueue_loop-Delivered_example =
    enqueue_loop-Delivered job (all_held ∷ none_held ∷ []) (make 3) delivered make-IsValid
      enqueue_loop_ends_example.1

nth_pick_fair_example : (k : ℕ) × (k < (make 3).count) × (nth_pick k (make 3) ≡ 2)
unfolding make
nth_pick_fair_example = nth_pick_fair 2 (make 3) (λ i. refl) (omega arith) (omega arith)

-- Worker 1 has a task, which worker 0 steals.
abbrev loaded : Scheduler
loaded = let s = make 3 in set_worker 1 (enqueue_task job (s.worker_threads 1)).0 s

abbrev robbed : Scheduler
robbed = (steal_work 0 4 loaded).0

steal_work-loaded : steal_work 0 4 loaded ≡ (robbed, some job)
unfolding steal_work make steal enqueue_task init hfts.Task.is
steal_work-loaded = refl

steal_work-Moved_example : Moved 0 (4 % loaded.count) loaded robbed job
steal_work-Moved_example = steal_work-Moved 0 4 loaded robbed job steal_work-loaded

remove-two_example : remove (2 ∷ 3 ∷ []) ((1 ∷ []) ++ (2 ∷ 3 ∷ [])) ≡ sort ((1 ∷ []) ++ 3 ∷ [])
remove-two_example = remove-two (1 ∷ []) (2 ∷ 3 ∷ []) 2 3 (refl, tt) refl refl

elem-removed : elem 1 (remove (2 ∷ 3 ∷ []) (1 ∷ 2 ∷ 3 ∷ [])) ≡ true
unfolding remove
elem-removed = refl
