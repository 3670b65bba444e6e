-- ===== src/Tests/Examples.antt =====
-- The example programs at concrete inputs.
use hfts.Base.{
  update, inr, Bool-cases, ℕ, zero, suc, ◌+◌, ◌-◌, ◌*◌, ◌%◌, ◌^◌, ◌<◌, ◌≡◌, ◌&&◌, inl, refl, Bool,
  true, some, List, [], ◌∷◌, leb, if◌then◌else◌, u64_mod, length, arith, elem,
}
use hfts.Benchmark.{run_parallel_reduce, run_sequential_reduce, chunk_count}
use hfts.Benchmark.Reduce.{run_parallel_reduce_lem}
use hfts.Benchmark.Pool.{
  System, Reach, start, new_pool, enqueue, wake, finish, is_idle, here, next, enqueues, wakes,
  returns, finishes, waits, runs, ran,
}
use hfts.Benchmark.Pool.Inv.{tally}
use hfts.Benchmark.Pool.Drained.{Reach-ended}
use hfts.Benchmark.Options.{
  Options, ok, codes, parse_args, defaults, parse_count, parse_worker_list, parse_unsigned,
  parse_positive_int, parse_int,
}
use hfts.Benchmark.Options.Parsed.{IsValid, parse_args-IsValid}
use hfts.Fractal.{Color, Saved, write_bmp}

-- Five items in chunks of two; the second chunk ends first.
run_parallel_reduce_lem_example :
    run_parallel_reduce 5 3 2 (1 ∷ 0 ∷ 2 ∷ []) ≡ some (run_sequential_reduce 5 3)
run_parallel_reduce_lem_example =
    run_parallel_reduce_lem 5 3 2 (1 ∷ 0 ∷ 2 ∷ []) (omega arith) (omega arith) (omega arith)
      three_few three_chunks each
  where
    three_few : chunk_count 5 2 < 2 ^ 32
    three_few = unfold chunk_count in omega arith

    three_chunks : ◌≡◌ {A = ℕ} 3 (chunk_count 5 2)
    three_chunks = unfold chunk_count in refl

    each : (chunk : ℕ) → chunk < chunk_count 5 2 → elem chunk (1 ∷ 0 ∷ 2 ∷ []) ≡ true
    each zero lt = refl
    each (suc zero) lt = refl
    each (suc (suc zero)) lt = refl
    each (suc (suc (suc c))) lt = absurd (unfold chunk_count in omega (arith, lt))

-- A pool of one thread gets task 7, takes it, and runs it.
abbrev queued : System
queued = let s = start 1 in record s { pool = enqueue 7 s.pool; accepted = 7 ∷ [] }

abbrev taken : System
taken = record queued {
  pool = record new_pool { pending = 1 };
  thread = update queued.thread 0 (runs 7);
}

abbrev returned : System
returned = record taken { thread = update taken.thread 0 ran; ended = 7 ∷ [] }

abbrev ended : System
ended = record returned { pool = (finish returned.pool).0; thread = update returned.thread 0 waits }

ended-Reach : Reach (start 1) ended
unfolding start new_pool enqueue wake finish
ended-Reach =
    next
      (next
        (next (next here (enqueues 7 refl)) (wakes 0 taken.pool (runs 7) (omega arith) refl refl))
        (returns 0 7 (omega arith) refl))
      (finishes 0 (omega arith) refl)

ended_facts :
    (0 < ended.worker_count)
    × (length ended.pool.queue + ended.worker_count < u64_mod)
    × (is_idle ended.pool ≡ true)
unfolding start new_pool finish is_idle
ended_facts = (omega arith, omega arith, refl)

Reach-ended_example : tally (λ task. true) ended.accepted ≡ tally (λ task. true) ended.ended
Reach-ended_example =
    Reach-ended 1 ended (λ task. true) ended-Reach ended_facts.0 ended_facts.1 (inl ended_facts.2)

-- A strtoull that reads decimal digits
abbrev decimal : List ℕ → ℕ → ℕ → ℕ × ℕ
decimal [] value end = (value % u64_mod, end)
decimal (c ∷ cs) value end =
    let rest = decimal cs (10 * value + (c - b'0')) (suc end) in
    if leb b'0' c && leb c b'9' then rest else (value % u64_mod, end)

abbrev args : List (List ℕ)
args = codes "--tasks" ∷ codes "500" ∷ codes "--workers" ∷ codes "4,2,4" ∷ []

decimal_bound : (text : List ℕ) (value end : ℕ) → (decimal text value end).0 < u64_mod
decimal_bound [] value end = omega arith
decimal_bound (c ∷ cs) value end = elim (Bool-cases (leb b'0' c && leb c b'9')) [
  | inl e ↦ rw e (decimal_bound cs (10 * value + (c - b'0')) (suc end))
  | inr e ↦ rw e (omega arith)
]

abbrev strtoull : List ℕ → ℕ × ℕ
strtoull text = decimal text 0 0

abbrev chosen : Options
chosen = record defaults { task_count = 500; worker_counts = 2 ∷ 4 ∷ [] }

args-chosen : parse_args strtoull 8 args ≡ ok chosen
unfolding parse_args parse_count parse_worker_list parse_unsigned parse_positive_int parse_int
args-chosen = refl

parse_args-IsValid_example : IsValid chosen
parse_args-IsValid_example =
    parse_args-IsValid strtoull (λ text. decimal_bound text 0 0) 8 args chosen (omega arith)
      args-chosen

-- An image of two by two texels, whose channels count up
abbrev texels : ℕ → Color
texels i = record { r = 3 * i; g = 3 * i + 1; b = 3 * i + 2 }

abbrev disk : ℕ → Bool
disk k = true

-- fclose brings all bytes to the disk.
abbrev saved : Saved
saved = write_bmp disk true (λ bytes. bytes) texels 2 2
