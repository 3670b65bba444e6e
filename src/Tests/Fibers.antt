-- ===== src/Tests/Fibers.antt =====
-- Fibers, threads and their locks at concrete inputs.
use hfts.Base.{
  ℕ, ◌+◌, ◌%◌, ◌≤◌, ◌<◌, ◌≡◌, refl, true, false, Option, none, some, List, [], ◌∷◌, update, arith,
}
use hfts.Memory.{Allocation, Request}
use hfts.FiberContext.{Context, lr, sp, r0, r1, zero_context, swap, create_fiber}
use hfts.FiberContext.Laws.{create_fiber_lem}
use hfts.Thread.{
  Threads, Op, creates, joins, constructs, assigns, no_threads, run, run_op, create, join,
  move_construct, move_assign, deleted,
}
use hfts.Thread.Owned.{IsOwned, run_lem}
use hfts.Worker.Wait.{
  Look, Outcome, AllPassed, Ends, wait, suspend, returned, held, rounds, wait_lem,
}
use hfts.Mutex.{lock, unlock}

abbrev cpu : Context
cpu r = 5

abbrev contexts : ℕ → Context
contexts a = zero_context

abbrev allocate : Request → Allocation
allocate r = record { ptr = 8208; request = r }

abbrev entered : ℕ → Context
entered = update contexts 200 (create_fiber 64 128 allocate 300 1000 7).context

create_fiber_lem_example :
    ((swap 100 200 (cpu, entered)).0 lr ≡ 64)
    × ((swap 100 200 (cpu, entered)).0 r0 ≡ 128)
    × ((swap 100 200 (cpu, entered)).0 r1 ≡ 300)
    × ((swap 100 200 (cpu, entered)).0 sp % 16 ≡ 0)
    × (8208 ≤ (swap 100 200 (cpu, entered)).0 sp)
    × ((swap 100 200 (cpu, entered)).0 sp ≤ 8208 + 1000)
    × (8208 + 1000 < (swap 100 200 (cpu, entered)).0 sp + 16)
create_fiber_lem_example =
    create_fiber_lem 64 128 300 1000 7 100 200 allocate cpu entered (omega arith) (omega arith)
      (omega arith) (λ e. absurd (omega (arith, e))) refl

abbrev ops : List Op
ops = creates 0 ∷ creates 1 ∷ constructs 2 0 ∷ joins 1 ∷ assigns 1 2 ∷ []

abbrev or_none : Option Threads → Threads
or_none none = no_threads
or_none (some t) = t

abbrev threads : Threads
threads = or_none (run ops no_threads)

threads-run : run ops no_threads ≡ some threads
unfolding run run_op create join move_construct move_assign no_threads
threads-run = refl

threads-impl : threads.impl 1 ≡ some 0
unfolding run run_op create join move_construct move_assign no_threads
threads-impl = refl

run_lem_example :
    ((k : ℕ) → threads.impl k ≡ some 0 → k ≡ 1)
    × ((u : Threads) × (join 1 threads ≡ some u)
        × (u.impl 1 ≡ none)
        × (u.life 0 ≡ deleted)
        × IsOwned u)
run_lem_example = run_lem ops threads 1 0 threads-run threads-impl

abbrev looks : List Look
looks = record { pred = false; late = false } ∷ record { pred = true; late = true } ∷ []

wait_lem_example :
    (o : Outcome) × (k : ℕ) × (wait true looks (held []) ≡ some o)
    × AllPassed true looks k
    × Ends true looks [] k o
wait_lem_example = wait_lem true looks []

-- One round, and then the predicate holds.
looks-wait : wait true looks (held []) ≡ some (returned true (held (rounds 1 [])))
unfolding wait suspend lock unlock
looks-wait = refl
