-- ===== src/Benchmark/Blocking.antt =====
-- example/benchmark.cpp: runFiberBlockingBenchmark. Its tasks, which stand at some place each, are
-- taken in any order. Of the gate, an Event of mode Manual, it is kept whether it is signalled.
pub mod Ended
use hfts.Base.{ℕ, ◌+◌, ◌<◌, ◌≡◌, Bool, true, false, update, inc32, dec32}
use Prim.Native.Nat.{bit_xor}
use hfts.WaitGroup.{WaitGroup}
use hfts.WaitGroup
use hfts.Benchmark.{add64, do_work}

-- Where a task stands: it has not begun, is in gate.wait(), is behind it, or has called wg.done().
pub data Place : Type 0 where
  unbegun at_gate past_gate ended : Place

pub record Run : Type 0 where
  pub places : ℕ → Place
  pub outputs : ℕ → ℕ
  pub parked : ℕ
  pub gate : Bool
  pub wg : WaitGroup

-- Lines 430 to 433, for `task_count` tasks
unfoldable pub start : ℕ → Run
start task_count = record {
  places = λ i. unbegun;
  outputs = λ i. 0;
  parked = 0;
  gate = false;
  wg = WaitGroup.make task_count;
}

-- A task up to gate.wait()
unfoldable pub park : ℕ → ℕ → Run → Run
park work i r = record r {
  places = update r.places i at_gate;
  outputs = update r.outputs i (do_work (add64 i 1) work);
  parked = inc32 r.parked;
}

-- gate.wait() returns, and the task is not parked.
unfoldable pub pass : ℕ → Run → Run
pass i r = record r { places = update r.places i past_gate; parked = dec32 r.parked }

-- The rest of a task
unfoldable pub end_task : ℕ → ℕ → Run → Run
end_task work i r = record r {
  places = update r.places i ended;
  outputs = update r.outputs i (bit_xor (r.outputs i) (do_work (add64 i 1000003) work));
  wg = (WaitGroup.done r.wg).0;
}

pub data Step (task_count work : ℕ) (r : Run) : Run → Type 0 where
  parks : (i : ℕ) → i < task_count → r.places i ≡ unbegun → Step task_count work r (park work i r)
  passes :
      (i : ℕ)
      → i < task_count
      → r.places i ≡ at_gate
      → r.gate ≡ true
      → Step task_count work r (pass i r)
  ends :
      (i : ℕ) → i < task_count → r.places i ≡ past_gate → Step task_count work r (end_task work i r)
  -- gate.signal()
  signals : Step task_count work r (record r { gate = true })

pub data Reach (task_count work : ℕ) : Run → Type 0 where
  here : Reach task_count work (start task_count)
  next : {r t : Run} → Reach task_count work r → Step task_count work r t → Reach task_count work t

-- What a task is to leave in its place.
unfoldable pub blocking_result : ℕ → ℕ → ℕ
blocking_result work i = bit_xor (do_work (add64 i 1) work) (do_work (add64 i 1000003) work)
