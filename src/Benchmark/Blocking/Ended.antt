-- ===== src/Benchmark/Blocking/Ended.antt =====
-- example/benchmark.cpp: runFiberBlockingBenchmark behind wg.wait().
use hfts.Base.{
  ℕ, zero, suc, ◌+◌, ◌<◌, ◌≡◌, refl, sym, ◌∙◌, Bool, true, false, some, update, u32_mod, u64_mod,
  ap, ◌%◌, arith, count_below, count_below-update, count_below-le,
}
use hfts.WaitGroup.{WaitGroup}
use hfts.WaitGroup
use hfts.Benchmark.{add64, do_work, sum_values}
use hfts.Benchmark.Sums.{sum_values_lem, total-congr}
use hfts.Benchmark.Blocking.{
  Place, unbegun, at_gate, past_gate, ended, Run, start, park, pass, end_task, Step, parks, passes,
  ends, signals, Reach, here, next, blocking_result,
}

abbrev is_at_gate : Place → Bool
is_at_gate p = elim p [ at_gate ↦ true | _ ↦ false ]

abbrev is_ended : Place → Bool
is_ended p = elim p [ ended ↦ true | _ ↦ false ]

abbrev is_behind : Place → Bool
is_behind p = elim p [ past_gate ↦ true | ended ↦ true | _ ↦ false ]

-- What a task at a place has left.
abbrev left_at : ℕ → ℕ → Place → ℕ → ℕ
left_at work i p now = elim p [
  | unbegun ↦ now
  | at_gate ↦ do_work (add64 i 1) work
  | past_gate ↦ do_work (add64 i 1) work
  | ended ↦ blocking_result work i
]

record Inv (task_count work : ℕ) (r : Run) : Type 0 where
  counted : r.wg.count + count_below is_ended r.places task_count ≡ task_count
  gated : r.parked ≡ count_below is_at_gate r.places task_count
  left : (i : ℕ) → r.outputs i ≡ left_at work i (r.places i) (r.outputs i)
  shut : (i : ℕ) → r.gate ≡ false → is_behind (r.places i) ≡ false

count_none : (p : Place → Bool) (n : ℕ) → p unbegun ≡ false → count_below p (λ i. unbegun) n ≡ 0
unfolding count_below
count_none p zero h = refl
count_none p (suc n) h = ground (arith, count_none p n)

module _ (n work : ℕ) (few : n < u32_mod) where
  start-Inv : Inv n work (start n)
  unfolding start WaitGroup.make
  start-Inv = record {
    counted = omega (arith, count_none is_ended n refl);
    gated = sym (count_none is_at_gate n refl);
    left = λ i. refl;
    shut = λ i e. refl;
  }

  park-Inv :
      (i : ℕ) (r : Run) → i < n → r.places i ≡ unbegun → Inv n work r → Inv n work (park work i r)
  unfolding park
  park-Inv i r lt e v = record {
    counted = ground (arith, v.counted, count_below-update is_ended r.places i at_gate n);
    gated = ground (
      arith,
      v.gated,
      count_below-update is_at_gate r.places i at_gate n,
      count_below-le is_at_gate (update r.places i at_gate) n,
    );
    left = λ j. ground (arith, v.left j);
    shut = λ j s. ground (arith, v.shut j s);
  }

  pass-Inv :
      (i : ℕ) (r : Run)
      → i < n
      → r.places i ≡ at_gate
      → r.gate ≡ true
      → Inv n work r
      → Inv n work (pass i r)
  unfolding pass
  pass-Inv i r lt e g v = record {
    counted = ground (arith, v.counted, count_below-update is_ended r.places i past_gate n);
    gated = ground (
      arith,
      v.gated,
      count_below-update is_at_gate r.places i past_gate n,
      count_below-le is_at_gate r.places n,
    );
    left = λ j. ground (arith, v.left j);
    shut = λ j s. ground (arith, v.shut j);
  }

  end_task-Inv :
      (i : ℕ) (r : Run)
      → i < n
      → r.places i ≡ past_gate
      → Inv n work r
      → Inv n work (end_task work i r)
  unfolding end_task blocking_result WaitGroup.done
  end_task-Inv i r lt e v = record {
    counted = ground (
      arith,
      v.counted,
      count_below-update is_ended r.places i ended n,
      count_below-le is_ended (update r.places i ended) n,
    );
    gated = ground (arith, v.gated, count_below-update is_at_gate r.places i ended n);
    left = λ j. ground (arith, v.left j);
    shut = λ j s. ground (arith, v.shut j s, v.shut i s);
  }

  Step-Inv : (r t : Run) → Step n work r t → Inv n work r → Inv n work t
  Step-Inv r t (parks i lt e) v = park-Inv i r lt e v
  Step-Inv r t (passes i lt e g) v = pass-Inv i r lt e g v
  Step-Inv r t (ends i lt e) v = end_task-Inv i r lt e v
  Step-Inv r t signals v = record {
    counted = v.counted;
    gated = v.gated;
    left = v.left;
    shut = λ i s. absurd (cc (s));
  }

  Reach-Inv : (r : Run) → Reach n work r → Inv n work r
  Reach-Inv r here = start-Inv
  Reach-Inv r (next {r = k} reach s) = Step-Inv k r s (Reach-Inv k reach)

count_below-full :
    (p : Place → Bool) (m : ℕ → Place) (n k : ℕ) → count_below p m n ≡ n → k < n → p (m k) ≡ true
unfolding count_below
count_below-full p m zero k h lt = elim lt [ ]
count_below-full p m (suc n) k h lt = ground (arith, count_below-full p m n k, count_below-le p m n)

count_below-none :
    (p : Place → Bool) (m : ℕ → Place) (n : ℕ)
    → ((k : ℕ) → k < n → p (m k) ≡ false)
    → count_below p m n ≡ 0
unfolding count_below
count_below-none p m zero h = refl
count_below-none p m (suc n) h =
    ground (arith, h n, count_below-none p m n (λ k lt. h k (omega arith)))

wait-count : (wg g : WaitGroup) → WaitGroup.wait wg ≡ some g → wg.count ≡ 0
unfolding WaitGroup.wait
wait-count wg g h = ground arith

-- In every state that the tasks of runFiberBlockingBenchmark reach, in any order of the steps,
-- where wg.wait() may return, the checksum is the sum of what the tasks are to leave, none is
-- parked at the gate, and, if there is a task, the gate was signalled. The condition is fewer than
-- 2 ^ 32 tasks.
pub Reach-wait :
    (n work : ℕ) (r : Run) (g : WaitGroup)
    → n < u32_mod
    → Reach n work r
    → WaitGroup.wait r.wg ≡ some g
    → (sum_values n r.outputs ≡ sum_values n (blocking_result work))
      × (r.parked ≡ 0)
      × (0 < n → r.gate ≡ true)
Reach-wait n work r g few reach h =
    let v = Reach-Inv n work few r reach in
    let all : (i : ℕ) → i < n → is_ended (r.places i) ≡ true = λ i lt.
      count_below-full is_ended r.places n i (omega (arith, v.counted, wait-count r.wg g h)) lt in
    (
      sum_values_lem n r.outputs
          ∙ ap (λ (s : ℕ). s % u64_mod)
              (total-congr n 0 r.outputs (blocking_result work)
                (λ i _ lt. ground (arith, all i (omega (arith, lt)), v.left i)))
          ∙ sym (sum_values_lem n (blocking_result work)),
      v.gated ∙ count_below-none is_at_gate r.places n (λ i lt. ground (arith, all i lt)),
      λ some_task. ground (arith, all 0 some_task, v.shut 0),
    )
