-- ===== src/Benchmark/Sums.antt =====
-- example/benchmark.cpp: what the loops of reduceRange and sumValues add up, and the results of a run
-- whose tasks have all ended.
use hfts.Base.{
  ℕ, zero, suc, ◌+◌, ◌-◌, ◌%◌, ◌≤◌, ◌<◌, ◌≡◌, refl, true, some, List, [], ◌∷◌, ◌==◌, if◌then◌else◌,
  update, elem, length, u32_mod, u64_mod, arith, Bool-cases, inl, inr, ◌∙◌, ap,
}
use native.Mathlib.Nat.{zero-add}
use hfts.WaitGroup.{WaitGroup, done, wait}
use hfts.WaitGroup
use hfts.Benchmark.{do_work, reduce_loop, sum_loop, sum_values, run_tasks, run, add64, reduce_range}

-- The sum of `k` values from `i` on
unfoldable pub total : ℕ → ℕ → (ℕ → ℕ) → ℕ
total zero i values = 0
total (suc k) i values = values i + total k (suc i) values

pub total-split :
    (a b i : ℕ) (values : ℕ → ℕ)
    → total (a + b) i values ≡ total a i values + total b (i + a) values
unfolding total
total-split zero b i values = ground arith
total-split (suc a) b i values =
    let there : i + suc a ≡ suc i + a = omega arith in
    rw (there, towards a b) (omega (arith, total-split a b (suc i) values))
  where
    towards : (a b : ℕ) → suc a + b ≡ suc (a + b)
    towards a b = omega arith

pub total-zero : (i : ℕ) (values : ℕ → ℕ) → total zero i values ≡ 0
unfolding total
total-zero i values = refl

pub total-snoc : (n : ℕ) (values : ℕ → ℕ) → total (suc n) 0 values ≡ total n 0 values + values n
unfolding total
total-snoc n values =
    let last : suc n ≡ n + 1 = omega arith in
    let here : values (0 + n) ≡ values n = ap values (zero-add n) in
    ap (λ (k : ℕ). total k 0 values) last ∙ total-split n 1 0 values ∙ (omega (arith, here))

pub sum_loop_lem :
    (k i : ℕ) (values : ℕ → ℕ) (sum : ℕ)
    → sum < u64_mod
    → sum_loop k i values sum ≡ (sum + total k i values) % u64_mod
unfolding sum_loop total
sum_loop_lem zero i values sum h = omega arith
sum_loop_lem (suc k) i values sum h =
    sum_loop_lem k (suc i) values (add64 sum (values i)) (omega arith) ∙ (omega arith)

pub sum_values_lem :
    (size : ℕ) (values : ℕ → ℕ) → sum_values size values ≡ total size 0 values % u64_mod
unfolding sum_values
sum_values_lem size values = sum_loop_lem size 0 values 0 (omega arith) ∙ (omega arith)

-- The work for item `i`
unfoldable pub item : ℕ → ℕ → ℕ
item work i = do_work (add64 i 1) work

pub reduce_loop_lem :
    (k i work acc : ℕ)
    → acc < u64_mod
    → reduce_loop k i work acc ≡ (acc + total k i (item work)) % u64_mod
unfolding reduce_loop total item
reduce_loop_lem zero i work acc h = omega arith
reduce_loop_lem (suc k) i work acc h =
    reduce_loop_lem k (suc i) work (add64 acc (do_work (add64 i 1) work)) (omega arith)
    ∙ (omega arith)

pub reduce_range_lem :
    (begin end work : ℕ)
    → reduce_range begin end work ≡ total (end - begin) begin (item work) % u64_mod
unfolding reduce_range
reduce_range_lem begin end work =
    reduce_loop_lem (end - begin) begin work 0 (omega arith) ∙ (omega arith)

pub total-congr :
    (k i : ℕ) (f g : ℕ → ℕ) → ((j : ℕ) → i ≤ j → j < i + k → f j ≡ g j) → total k i f ≡ total k i g
unfolding total
total-congr zero i f g h = refl
total-congr (suc k) i f g h =
    omega (
      arith,
      h i (omega arith),
      total-congr k (suc i) f g (λ j l u. h j (omega arith) (omega arith)),
    )

run_tasks-outputs :
    (result : ℕ → ℕ) (order : List ℕ) (outputs : ℕ → ℕ) (wg : WaitGroup) (i : ℕ)
    → (run_tasks result order (outputs, wg)).0 i ≡ (if elem i order then result i else outputs i)
unfolding run_tasks
run_tasks-outputs result [] outputs wg i = refl
run_tasks-outputs result (j ∷ order) outputs wg i =
    run_tasks-outputs result order (update outputs j (result j)) (done wg).0 i
    ∙ elim (Bool-cases (i == j)) [
      | inl e ↦
          let same : i ≡ j = ground arith in
          rw e (elim (Bool-cases (elem i order)) [ inl m ↦ rw m refl | inr m ↦ rw (m, same) refl ])
      | inr e ↦ rw e refl
    ]

done-count : (wg : WaitGroup) → 0 < wg.count → wg.count < u32_mod → (done wg).0.count ≡ wg.count - 1
unfolding done
done-count wg p s = ground arith

run_tasks-count :
    (result : ℕ → ℕ) (order : List ℕ) (outputs : ℕ → ℕ) (wg : WaitGroup)
    → wg.count < u32_mod
    → length order ≤ wg.count
    → (run_tasks result order (outputs, wg)).1.count ≡ wg.count - length order
unfolding run_tasks
run_tasks-count result [] outputs wg s h = omega arith
run_tasks-count result (j ∷ order) outputs wg s h =
    let less : (done wg).0.count ≡ wg.count - 1 = done-count wg (omega arith) s in
    run_tasks-count result order (update outputs j (result j)) (done wg).0 (omega (arith, less))
      (omega (arith, less))
    ∙ (omega (arith, less))

make-count : (n : ℕ) → (WaitGroup.make n).count ≡ n
unfolding WaitGroup.make
make-count n = refl

wait-zero : (wg : WaitGroup) → wg.count ≡ 0 → wait wg ≡ some wg
unfolding wait
wait-zero wg h = ground arith

-- A run whose tasks have all ended gives the sum of their results.
pub run_lem :
    (count : ℕ) (result : ℕ → ℕ) (order : List ℕ)
    → count < u32_mod
    → length order ≡ count
    → ((i : ℕ) → i < count → elem i order ≡ true)
    → run count result order ≡ some (total count 0 result % u64_mod)
unfolding run
run_lem count result order few all each =
    let wg = WaitGroup.make (count % u32_mod) in
    let r = run_tasks result order ((λ i. 0), wg) in
    let made : wg.count ≡ count = make-count (count % u32_mod) ∙ (omega arith) in
    let zero_left : r.1.count ≡ 0 =
      run_tasks-count result order (λ i. 0) wg (omega (arith, made)) (omega (arith, made))
      ∙ (omega (arith, made)) in
    let same : sum_values count r.0 ≡ total count 0 result % u64_mod =
      sum_values_lem count r.0
      ∙ ap (λ (t : ℕ). t % u64_mod)
          (total-congr count 0 r.0 result (λ j l u.
            run_tasks-outputs result order (λ i. 0) wg j ∙ rw (each j (omega arith)) refl)) in
    rw (wait-zero r.1 zero_left, run) (ap some same)
