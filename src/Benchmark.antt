-- ===== src/Benchmark.antt =====
-- example/benchmark.cpp: the work of a task, and the runs that give each task a place of its own for
-- its result. A run takes the tasks in the order in which they end, and `none` means that it waits
-- still. uint64_t wraps; what is measured and printed is left out.
pub mod Sums
pub mod Reduce
pub mod Pool
pub mod Blocking
pub mod Options
use hfts.Base.{
  ℕ, zero, suc, ◌+◌, ◌-◌, ◌*◌, ◌/◌, ◌%◌, ◌^◌, Option, none, some, List, [], ◌∷◌, ltb, if◌then◌else◌,
  update, u32_mod, u64_mod,
}
use Prim.Native.Nat.{bit_xor}
use hfts.WaitGroup.{WaitGroup}
use hfts.WaitGroup

abbrev pub add64 : ℕ → ℕ → ℕ
add64 a b = (a + b) % u64_mod

-- xorshift64
unfoldable pub xorshift64 : ℕ → ℕ
xorshift64 x =
    let a = bit_xor x ((x * 2 ^ 13) % u64_mod) in
    let b = bit_xor a (a / 2 ^ 7) in bit_xor b ((b * 2 ^ 17) % u64_mod)

-- The loop of doWork, from round `i` on
unfoldable pub work_loop : ℕ → ℕ → ℕ → ℕ
work_loop zero i value = value
work_loop (suc k) i value = work_loop k (suc i) (xorshift64 (add64 value (suc i)))

-- doWork; `rounds` is not negative.
unfoldable pub do_work : ℕ → ℕ → ℕ
unfolding work_loop
do_work seed rounds = work_loop rounds 0 (add64 seed 0x9e3779b97f4a7c15)

-- The loop of reduceRange, from item `i` on for `k` items
unfoldable pub reduce_loop : ℕ → ℕ → ℕ → ℕ → ℕ
reduce_loop zero i work acc = acc
reduce_loop (suc k) i work acc = reduce_loop k (suc i) work (add64 acc (do_work (add64 i 1) work))

-- reduceRange
unfoldable pub reduce_range : ℕ → ℕ → ℕ → ℕ
unfolding reduce_loop
reduce_range begin end work = reduce_loop (end - begin) begin work 0

-- sumValues over a vector of `k` more elements from `i` on
unfoldable pub sum_loop : ℕ → ℕ → (ℕ → ℕ) → ℕ → ℕ
sum_loop zero i values sum = sum
sum_loop (suc k) i values sum = sum_loop k (suc i) values (add64 sum (values i))

unfoldable pub sum_values : ℕ → (ℕ → ℕ) → ℕ
unfolding sum_loop
sum_values size values = sum_loop size 0 values 0

-- The tasks of a run, of which task `i` writes `result i` to its place and calls wg.done().
unfoldable pub run_tasks : (ℕ → ℕ) → List ℕ → (ℕ → ℕ) × WaitGroup → (ℕ → ℕ) × WaitGroup
run_tasks result [] s = s
run_tasks result (i ∷ order) (outputs, wg) =
    run_tasks result order (update outputs i (result i), (WaitGroup.done wg).0)

-- A run of `count` tasks, up to the sum behind wg.wait(), with those in `order` ended
unfoldable pub run : ℕ → (ℕ → ℕ) → List ℕ → Option ℕ
unfolding run_tasks sum_values
run count result order =
    let (outputs, wg) = run_tasks result order ((λ i. 0), WaitGroup.make (count % u32_mod)) in
    elim (WaitGroup.wait wg) [ none ↦ none | some g ↦ some (sum_values count outputs) ]

-- runTaskBenchmark: the checksum
unfoldable pub run_task_benchmark : ℕ → ℕ → List ℕ → Option ℕ
unfolding run
run_task_benchmark task_count task_work order =
    run task_count (λ i. do_work (add64 i 1) task_work) order

-- The number of chunks of runParallelReduce
unfoldable pub chunk_count : ℕ → ℕ → ℕ
chunk_count reduce_items chunk_size =
    (add64 (add64 reduce_items chunk_size) (u64_mod - 1)) / chunk_size

-- The result of one chunk
unfoldable pub chunk_result : ℕ → ℕ → ℕ → ℕ → ℕ
chunk_result reduce_items reduce_work chunk_size chunk =
    let begin = (chunk * chunk_size) % u64_mod in
    let above = add64 begin chunk_size in
    let end = if ltb reduce_items above then reduce_items else above in
    reduce_range begin end reduce_work

-- runParallelReduce: the checksum
unfoldable pub run_parallel_reduce : ℕ → ℕ → ℕ → List ℕ → Option ℕ
unfolding run chunk_count chunk_result
run_parallel_reduce reduce_items reduce_work chunk_size order =
    run (chunk_count reduce_items chunk_size) (chunk_result reduce_items reduce_work chunk_size)
      order

-- runSequentialReduce: the checksum
unfoldable pub run_sequential_reduce : ℕ → ℕ → ℕ
unfolding reduce_range
run_sequential_reduce reduce_items reduce_work = reduce_range 0 reduce_items reduce_work
