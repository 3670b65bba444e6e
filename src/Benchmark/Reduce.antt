-- ===== src/Benchmark/Reduce.antt =====
-- example/benchmark.cpp: the parallel reduction beside the sequential one, and the runs of the task
-- benchmarks.
use hfts.Base.{
  ℕ, zero, suc, ◌+◌, ◌-◌, ◌*◌, ◌%◌, ◌≤◌, ◌<◌, ◌≡◌, true, some, List, ltb, if◌then◌else◌, elem,
  length, u32_mod, u64_mod, arith, ◌∙◌, sym, ap,
}
use hfts.Benchmark.{
  do_work, add64, run_task_benchmark, chunk_count, chunk_result, run_parallel_reduce,
  run_sequential_reduce,
}
use hfts.Benchmark.Sums.{
  total, total-split, total-snoc, total-zero, item, reduce_range_lem, run_lem,
}
use native.Mathlib.Nat.{div-add-mod, mod-lt, zero-add}

abbrev least : ℕ → ℕ → ℕ
least a b = if ltb b a then b else a

chunk_count_lem :
    (items size : ℕ)
    → 0 < size
    → 0 < items
    → items + size ≤ u64_mod
    → (items ≤ chunk_count items size * size) × (chunk_count items size * size < items + size)
unfolding chunk_count
chunk_count_lem items size pos some_items fits =
    let whole : add64 (add64 items size) (u64_mod - 1) ≡ items + size - 1 = omega arith in
    let rounded = div-add-mod (items + size - 1) size in
    let rest : (items + size - 1) % size < size = mod-lt (items + size - 1) pos in
    rw whole (omega (arith, rounded, rest), omega (arith, rounded, rest))

-- A chunk below `items` gives the sum over its items.
chunk_result_lem :
    (items work size chunk : ℕ)
    → chunk * size < items
    → items + size ≤ u64_mod
    → chunk_result items work size chunk
      ≡ total (least (chunk * size + size) items - chunk * size) (chunk * size) (item work)
        % u64_mod
unfolding chunk_result
chunk_result_lem items work size chunk lt fits =
    let begin : (chunk * size) % u64_mod ≡ chunk * size = omega arith in
    let above : add64 (chunk * size) size ≡ chunk * size + size = omega arith in
    rw (begin, chunk_result)
      (rw above (reduce_range_lem (chunk * size) (least (chunk * size + size) items) work))

chunks_total :
    (items work size n : ℕ)
    → items + size ≤ u64_mod
    → n * size < items + size
    → total n 0 (chunk_result items work size) % u64_mod
      ≡ total (least (n * size) items) 0 (item work) % u64_mod
chunks_total items work size zero fits h =
    let none_yet : least (0 * size) items ≡ 0 = ground arith in
    omega (
      arith,
      total-zero 0 (chunk_result items work size),
      total-zero 0 (item work),
      ap (λ (k : ℕ). total k 0 (item work)) none_yet,
    )
chunks_total items work size (suc n) fits h =
    let before = n * size in
    let next : suc n * size ≡ before + size = omega arith in
    let lt : before < items = omega arith in
    let low : least before items ≡ before = ground arith in
    let d = least (before + size) items - before in
    let reached : least (suc n * size) items ≡ before + d = rw next (ground arith) in
    let there : total d (0 + before) (item work) ≡ total d before (item work) =
      ap (λ (k : ℕ). total d k (item work)) (zero-add before) in
    omega (
      arith,
      total-snoc n (chunk_result items work size),
      chunks_total items work size n fits (omega arith),
      ap (λ (k : ℕ). total k 0 (item work)) low,
      ap (λ (k : ℕ). total k 0 (item work)) reached,
      total-split before d 0 (item work),
      there,
      chunk_result_lem items work size n lt fits,
    )

-- In whatever order its chunks end, the parallel reduction gives the checksum of the sequential
-- one. The conditions are a chunk size and a number of items above 0 whose sum is at most 2 ^ 64,
-- fewer than 2 ^ 32 chunks, and that each chunk has ended and none twice.
pub run_parallel_reduce_lem :
    (items work size : ℕ) (order : List ℕ)
    → 0 < size
    → 0 < items
    → items + size ≤ u64_mod
    → chunk_count items size < u32_mod
    → length order ≡ chunk_count items size
    → ((chunk : ℕ) → chunk < chunk_count items size → elem chunk order ≡ true)
    → run_parallel_reduce items work size order ≡ some (run_sequential_reduce items work)
unfolding run_parallel_reduce run_sequential_reduce
run_parallel_reduce_lem items work size order pos some_items fits few all each =
    let count = chunk_count items size in
    let (enough, less) = chunk_count_lem items size pos some_items fits in
    let whole : least (count * size) items ≡ items - 0 = ground arith in
    run_lem count (chunk_result items work size) order few all each
    ∙ ap some (
        chunks_total items work size count fits less
        ∙ ap (λ (k : ℕ). total k 0 (item work) % u64_mod) whole
        ∙ sym (reduce_range_lem 0 items work))

-- In whatever order its tasks end, a task benchmark gives the same checksum. The conditions are
-- fewer than 2 ^ 32 tasks, and that each has ended and none twice.
pub run_task_benchmark_lem :
    (task_count task_work : ℕ) (order other : List ℕ)
    → task_count < u32_mod
    → length order ≡ task_count
    → length other ≡ task_count
    → ((i : ℕ) → i < task_count → elem i order ≡ true)
    → ((i : ℕ) → i < task_count → elem i other ≡ true)
    → run_task_benchmark task_count task_work order ≡ run_task_benchmark task_count task_work other
unfolding run_task_benchmark
run_task_benchmark_lem task_count task_work order other few all all' each each' =
    run_lem task_count (λ i. do_work (add64 i 1) task_work) order few all each
    ∙ sym (run_lem task_count (λ i. do_work (add64 i 1) task_work) other few all' each')
