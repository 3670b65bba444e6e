-- ===== src/Benchmark/Pool/Drained.antt =====
-- example/benchmark.cpp: PlainThreadPool::waitUntilIdle and the end of the destructor.
use hfts.Base.{
  ℕ, zero, suc, ◌+◌, ◌≤◌, ◌<◌, ◌≡◌, ◌⊎◌, inl, inr, refl, Bool, true, if◌then◌else◌, length, List,
  [], ◌∷◌, u64_mod, arith, count_below, count_below-le,
}
use hfts.Benchmark.Pool.{System, Stage, waits, runs, ran, left, Reach, start, is_idle}
use hfts.Benchmark.Pool.Inv.{Inv, Reach-Inv, tally, is_busy, is_left, runs_such}

runs_such-busy :
    (p : ℕ → Bool) (thread : ℕ → Stage) (n : ℕ)
    → count_below (runs_such p) thread n ≤ count_below is_busy thread n
unfolding count_below
runs_such-busy p thread zero = omega arith
runs_such-busy p thread (suc n) = omega (arith, runs_such-busy p thread n, one p (thread n))
  where
    one :
        (p : ℕ → Bool) (at : Stage)
        → (if runs_such p at then 1 else 0) ≤ (if is_busy at then 1 else 0)
    one p waits = omega arith
    one p (runs task) = ground arith
    one p ran = omega arith
    one p left = omega arith

left-busy :
    (thread : ℕ → Stage) (n : ℕ)
    → ((i : ℕ) → i < n → is_left (thread i) ≡ true)
    → count_below is_busy thread n ≡ 0
unfolding count_below
left-busy thread zero h = refl
left-busy thread (suc n) h =
    omega
      (arith, left-busy thread n (λ i lt. h i (omega arith)), one (thread n) (h n (omega arith)))
  where
    one : (at : Stage) → is_left at ≡ true → ◌≡◌ {A = ℕ} (if is_busy at then 1 else 0) 0
    one waits e = absurd (cc (e))
    one (runs task) e = absurd (cc (e))
    one ran e = absurd (cc (e))
    one left e = refl

tally-empty : (p : ℕ → Bool) (xs : List ℕ) → length xs ≡ 0 → tally p xs ≡ 0
unfolding tally
tally-empty p [] h = refl
tally-empty p (x ∷ xs) h = absurd (omega arith)

-- Where no task is queued and no thread is busy, each task has ended.
all_ended :
    (s : System) (p : ℕ → Bool)
    → Inv s
    → length s.pool.queue ≡ 0
    → count_below is_busy s.thread s.worker_count ≡ 0
    → tally p s.accepted ≡ tally p s.ended
all_ended s p v empty free = omega (
  arith,
  v.everywhere p,
  tally-empty p s.pool.queue empty,
  runs_such-busy p s.thread s.worker_count,
)

-- In every state that the threads of a PlainThreadPool reach, in any order of the steps, where
-- waitUntilIdle may return or all threads have left workerLoop, each task that was enqueued has
-- ended, as often as it was enqueued. The conditions are one thread or more, and fewer than 2 ^ 64
-- queued tasks and threads together.
pub Reach-ended :
    (n : ℕ) (s : System) (p : ℕ → Bool)
    → Reach (start n) s
    → 0 < s.worker_count
    → length s.pool.queue + s.worker_count < u64_mod
    → (is_idle s.pool ≡ true) ⊎ ((i : ℕ) → i < s.worker_count → is_left (s.thread i) ≡ true)
    → tally p s.accepted ≡ tally p s.ended
unfolding is_idle
Reach-ended n s p r some_thread small stopped =
    let v = Reach-Inv n s r in
    elim stopped [
      | inl idle ↦
          let none_pending : s.pool.pending ≡ 0 = ground arith in
          let few = count_below-le is_busy s.thread s.worker_count in
          all_ended s p v (omega (arith, v.counted, none_pending, few))
            (omega (arith, v.counted, none_pending, few))
      | inr gone ↦
          all_ended s p v (v.closed 0 (gone 0 some_thread)).1
            (left-busy s.thread s.worker_count gone)
    ]
