-- ===== src/Tests/Gates.antt =====
-- runFiberBlockingBenchmark of example/benchmark.cpp at a concrete input.
use hfts.Base.{◌≡◌, ◌<◌, refl, true, some, arith}
use hfts.WaitGroup.{WaitGroup}
use hfts.WaitGroup
use hfts.Benchmark.{sum_values}
use hfts.Benchmark.Blocking.{
  Run, start, park, pass, end_task, Reach, here, next, parks, passes, ends, signals,
  blocking_result,
}
use hfts.Benchmark.Blocking.Ended.{Reach-wait}

-- Two tasks of one round; the second one goes through the gate first.
abbrev parked : Run
parked = record (park 1 1 (park 1 0 (start 2))) { gate = true }

abbrev passed : Run
passed = end_task 1 1 (pass 1 parked)

abbrev over : Run
over = end_task 1 0 (pass 0 passed)

over-Reach : Reach 2 1 over
unfolding start park pass end_task
over-Reach =
    next
      (next
        (next
          (next
            (next (next (next here (parks 0 (omega arith) refl)) (parks 1 (omega arith) refl))
              signals)
            (passes 1 (omega arith) refl refl))
          (ends 1 (omega arith) refl))
        (passes 0 (omega arith) refl refl))
      (ends 0 (omega arith) refl)

over-wait : WaitGroup.wait over.wg ≡ some over.wg
unfolding start park pass end_task WaitGroup.wait WaitGroup.done WaitGroup.make
over-wait = refl

Reach-wait_example :
    (sum_values 2 over.outputs ≡ sum_values 2 (blocking_result 1))
    × (over.parked ≡ 0)
    × (0 < 2 → over.gate ≡ true)
Reach-wait_example = Reach-wait 2 1 over over.wg (omega arith) over-Reach over-wait
