-- ===== src/Benchmark/Options/Parsed.antt =====
-- example/benchmark.cpp: what parseArgs promises of the options.
use hfts.Base.{
  ℕ, ◌≤◌, ◌<◌, ◌≡◌, refl, Bool, true, false, Option, none, some, List, [], ◌∷◌, if◌then◌else◌,
  u64_mod, arith, Bool-cases, Option-cases, inl, inr, subst,
}
use hfts.Benchmark.Options.{
  Options, ok, help, error, defaults, codes, text_eq, int_max, parse_unsigned, parse_int,
  parse_positive_int, parse_count, parse_positive, parse_worker_list, parse_option, parse_args_loop,
  parse_args, default_worker_counts,
}
use hfts.Benchmark.Options.Counts.{
  IsCount, AreCounts, parse_int-le, parse_positive_int-IsCount, parse_worker_list-AreCounts,
  default_worker_counts-AreCounts,
}

pub record AreInRange (o : Options) : Type 0 where
  pub task_count : (0 < o.task_count) × (o.task_count ≤ 100000000)
  pub task_work : (0 < o.task_work) × (o.task_work ≤ int_max)
  pub short_task_count : (0 < o.short_task_count) × (o.short_task_count ≤ 100000000)
  pub short_task_work : (0 < o.short_task_work) × (o.short_task_work ≤ int_max)
  pub blocking_task_count : (0 < o.blocking_task_count) × (o.blocking_task_count ≤ 100000000)
  pub blocking_task_work : (0 < o.blocking_task_work) × (o.blocking_task_work ≤ int_max)
  pub blocking_warmup_ms : o.blocking_warmup_ms ≤ int_max
  pub reduce_items : (0 < o.reduce_items) × (o.reduce_items < u64_mod)
  pub reduce_work : (0 < o.reduce_work) × (o.reduce_work ≤ int_max)
  pub chunk_size : (0 < o.chunk_size) × (o.chunk_size < u64_mod)

abbrev pub IsValid : Options → Type 0
IsValid o = AreInRange o × AreCounts o.worker_counts

numbers_task_count :
    (o : Options) (n : ℕ)
    → AreInRange o
    → (0 < n) × (n ≤ 100000000)
    → AreInRange (record o { task_count = n })
numbers_task_count o n v h = omega arith

numbers_task_work :
    (o : Options) (n : ℕ) → AreInRange o → IsCount n → AreInRange (record o { task_work = n })
numbers_task_work o n v h = omega arith

numbers_short_task_count :
    (o : Options) (n : ℕ)
    → AreInRange o
    → (0 < n) × (n ≤ 100000000)
    → AreInRange (record o { short_task_count = n })
numbers_short_task_count o n v h = omega arith

numbers_short_task_work :
    (o : Options) (n : ℕ) → AreInRange o → IsCount n → AreInRange (record o { short_task_work = n })
numbers_short_task_work o n v h = omega arith

numbers_blocking_task_count :
    (o : Options) (n : ℕ)
    → AreInRange o
    → (0 < n) × (n ≤ 100000000)
    → AreInRange (record o { blocking_task_count = n })
numbers_blocking_task_count o n v h = omega arith

numbers_blocking_task_work :
    (o : Options) (n : ℕ)
    → AreInRange o
    → IsCount n
    → AreInRange (record o { blocking_task_work = n })
numbers_blocking_task_work o n v h = omega arith

numbers_blocking_warmup_ms :
    (o : Options) (n : ℕ)
    → AreInRange o
    → n ≤ int_max
    → AreInRange (record o { blocking_warmup_ms = n })
numbers_blocking_warmup_ms o n v h = omega arith

numbers_reduce_items :
    (o : Options) (n : ℕ)
    → AreInRange o
    → (0 < n) × (n < u64_mod)
    → AreInRange (record o { reduce_items = n })
numbers_reduce_items o n v h = omega arith

numbers_reduce_work :
    (o : Options) (n : ℕ) → AreInRange o → IsCount n → AreInRange (record o { reduce_work = n })
numbers_reduce_work o n v h = omega arith

numbers_chunk_size :
    (o : Options) (n : ℕ)
    → AreInRange o
    → (0 < n) × (n < u64_mod)
    → AreInRange (record o { chunk_size = n })
numbers_chunk_size o n v h = omega arith

numbers_worker_counts :
    (o : Options) (n : List ℕ) → AreInRange o → AreInRange (record o { worker_counts = n })
numbers_worker_counts o n v = omega arith

defaults_range :
    (cpus : ℕ) → AreInRange (record defaults { worker_counts = default_worker_counts cpus })
unfolding defaults
defaults_range cpus = omega arith

either :
    {P : Type 0} (b : Bool) (x y : Option Options) (next : Options)
    → (x ≡ some next → P)
    → (y ≡ some next → P)
    → (if b then x else y) ≡ some next
    → P
either true x y next f g h = f h
either false x y next f g h = g h

set_field :
    {A : Type 0} (m : Option A) (f : A → Options)
    → ((a : A) → m ≡ some a → IsValid (f a))
    → (next : Options)
    → ◌≡◌ {A = Option Options} (elim m [ none ↦ none | some a ↦ some (f a) ]) (some next)
    → IsValid next
set_field none f valid next h = absurd (cc (h))
set_field (some a) f valid next h = subst IsValid (ground (arith, h)) (valid a refl)

module _ (strtoull : List ℕ → ℕ × ℕ) where
  parse_count-bounds :
      (text : List ℕ) (n : ℕ) → parse_count strtoull text ≡ some n → (0 < n) × (n ≤ 100000000)
  unfolding parse_count
  parse_count-bounds text n h = elim (Option-cases (parse_unsigned strtoull text)) [
    | inl e ↦ absurd (ground (arith, e, h))
    | inr (value, e) ↦ ground (arith, e, h)
  ]

  parse_positive-bounds :
      ((text : List ℕ) → (strtoull text).0 < u64_mod)
      → (text : List ℕ) (n : ℕ) → parse_positive strtoull text ≡ some n
      → (0 < n) × (n < u64_mod)
  unfolding parse_positive
  parse_positive-bounds below text n h = ground (arith, below text)

  parse_option-IsValid :
      ((text : List ℕ) → (strtoull text).0 < u64_mod)
      → (arg value : List ℕ) (o next : Options) → IsValid o
      → parse_option strtoull arg value o ≡ some next
      → IsValid next
  unfolding parse_option
  parse_option-IsValid below arg value o next v h =
      either (text_eq arg (codes "--tasks")) _ _ next
        (set_field (parse_count strtoull value) (λ n. record o { task_count = n })
          (λ n e. (numbers_task_count o n v.0 (parse_count-bounds value n e), v.1)) next)
        (either (text_eq arg (codes "--task-work")) _ _ next
          (set_field (parse_positive_int strtoull value) (λ n. record o { task_work = n })
            (λ n e.
              (numbers_task_work o n v.0 (parse_positive_int-IsCount strtoull value n e), v.1))
            next)
          (either (text_eq arg (codes "--short-tasks")) _ _ next
            (set_field (parse_count strtoull value) (λ n. record o { short_task_count = n })
              (λ n e. (numbers_short_task_count o n v.0 (parse_count-bounds value n e), v.1)) next)
            (either (text_eq arg (codes "--short-work")) _ _ next
              (set_field (parse_positive_int strtoull value) (λ n. record o { short_task_work = n })
                (λ n e. (
                  numbers_short_task_work o n v.0 (parse_positive_int-IsCount strtoull value n e),
                  v.1,
                ))
                next)
              (either (text_eq arg (codes "--blocking-tasks")) _ _ next
                (set_field (parse_count strtoull value) (λ n. record o { blocking_task_count = n })
                  (λ n e. (numbers_blocking_task_count o n v.0 (parse_count-bounds value n e), v.1))
                  next)
                (either (text_eq arg (codes "--blocking-work")) _ _ next
                  (set_field (parse_positive_int strtoull value)
                    (λ n. record o { blocking_task_work = n })
                    (λ n e. (
                      numbers_blocking_task_work o n v.0
                          (parse_positive_int-IsCount strtoull value n e),
                      v.1,
                    ))
                    next)
                  (either (text_eq arg (codes "--blocking-warmup")) _ _ next
                    (set_field (parse_int strtoull value) (λ n. record o { blocking_warmup_ms = n })
                      (λ n e.
                        (numbers_blocking_warmup_ms o n v.0 (parse_int-le strtoull value n e), v.1))
                      next)
                    (either (text_eq arg (codes "--reduce-items")) _ _ next
                      (set_field (parse_positive strtoull value)
                        (λ n. record o { reduce_items = n })
                        (λ n e. (
                          numbers_reduce_items o n v.0 (parse_positive-bounds below value n e),
                          v.1,
                        ))
                        next)
                      (either (text_eq arg (codes "--reduce-work")) _ _ next
                        (set_field (parse_positive_int strtoull value)
                          (λ n. record o { reduce_work = n })
                          (λ n e. (
                            numbers_reduce_work o n v.0
                                (parse_positive_int-IsCount strtoull value n e),
                            v.1,
                          ))
                          next)
                        (either (text_eq arg (codes "--chunk-size")) _ _ next
                          (set_field (parse_positive strtoull value)
                            (λ n. record o { chunk_size = n })
                            (λ n e. (
                              numbers_chunk_size o n v.0 (parse_positive-bounds below value n e),
                              v.1,
                            ))
                            next)
                          (either (text_eq arg (codes "--workers")) _ _ next
                            (set_field (parse_worker_list strtoull value)
                              (λ n. record o { worker_counts = n })
                              (λ n e. (
                                numbers_worker_counts o n v.0,
                                parse_worker_list-AreCounts strtoull value n e,
                              ))
                              next)
                            (λ gone. absurd (cc (gone)))))))))))))
        h

  parse_args_loop-IsValid :
      ((text : List ℕ) → (strtoull text).0 < u64_mod)
      → (args : List (List ℕ)) (o result : Options) → IsValid o
      → parse_args_loop strtoull args o ≡ ok result
      → IsValid result
  unfolding parse_args_loop
  parse_args_loop-IsValid below [] o result v h = subst IsValid (ground (arith, h)) v
  parse_args_loop-IsValid below (arg ∷ []) o result v h = absurd (ground (arith, h))
  parse_args_loop-IsValid below (arg ∷ value ∷ rest) o result v h =
      elim (Bool-cases (text_eq arg (codes "--help"))) [
        | inl e ↦
            (let gone : help ≡ ok result = (rw (e, parse_args_loop) at h) in absurd (cc (gone)))
        | inr e ↦ elim (Option-cases (parse_option strtoull arg value o)) [
          | inl f ↦
              let gone : error ≡ ok result = (rw f at (rw (e, parse_args_loop) at h)) in
              absurd (cc (gone))
          | inr (next, f) ↦
              parse_args_loop-IsValid below rest next result
                (parse_option-IsValid below arg value o next v f)
                (rw f at (rw (e, parse_args_loop) at h))
        ]
      ]

  -- Where the command line is accepted, each option is in its range, and the numbers of workers are
  -- one or more, ascend, and are each above 0 and an int. The conditions are that strtoull gives
  -- values below 2 ^ 64, and that the number of CPUs is an int.
  pub parse_args-IsValid :
      ((text : List ℕ) → (strtoull text).0 < u64_mod)
      → (cpus : ℕ) (args : List (List ℕ)) (o : Options) → cpus ≤ int_max
      → parse_args strtoull cpus args ≡ ok o
      → IsValid o
  unfolding parse_args
  parse_args-IsValid below cpus args o few h =
      parse_args_loop-IsValid below args
        (record defaults { worker_counts = default_worker_counts cpus }) o
        (defaults_range cpus, default_worker_counts-AreCounts cpus few) h
