-- ===== src/Benchmark/Options.antt =====
-- example/benchmark.cpp: the options of the command line. A text is the list of its bytes. strtoull is
-- a parameter: it gives the value, and the number of bytes that it has read. What is printed is left
-- out.
pub mod Counts
pub mod Parsed
use hfts.Base.{
  ℕ, suc, ◌+◌, ◌-◌, ◌/◌, ◌%◌, ◌^◌, max, Bool, true, false, not, ◌&&◌, ◌||◌, Option, none, some,
  List, [], ◌∷◌, ◌++◌, ◌==◌, ltb, if◌then◌else◌, length, is_empty, u32_mod,
}
use Prim.Native.Char.{code}
use Prim.Native.String.{String}
use hfts.Affinity.{sort}

-- The bytes of an ASCII text
abbrev pub codes : String → List ℕ
codes String.[] = []
codes (String.◌∷◌ c s) = code c ∷ codes s

-- std::strcmp(a, b) == 0
unfoldable pub text_eq : List ℕ → List ℕ → Bool
text_eq [] [] = true
text_eq (c ∷ cs) (d ∷ ds) = c == d && text_eq cs ds
text_eq _ _ = false

abbrev pub int_max : ℕ
int_max = 2 ^ 31 - 1

pub record Options : Type 0 where
  pub task_count : ℕ
  pub task_work : ℕ
  pub short_task_count : ℕ
  pub short_task_work : ℕ
  pub blocking_task_count : ℕ
  pub blocking_task_work : ℕ
  pub blocking_warmup_ms : ℕ
  pub reduce_items : ℕ
  pub reduce_work : ℕ
  pub chunk_size : ℕ
  pub worker_counts : List ℕ

-- The initializers of Options
unfoldable pub defaults : Options
defaults = record {
  task_count = 200000;
  task_work = 32;
  short_task_count = 1000000;
  short_task_work = 1;
  blocking_task_count = 50000;
  blocking_task_work = 1;
  blocking_warmup_ms = 20;
  reduce_items = 2 ^ 21;
  reduce_work = 32;
  chunk_size = 4096;
  worker_counts = [];
}

-- std::unique behind an element `x`
unfoldable pub unique_after : ℕ → List ℕ → List ℕ
unique_after x [] = []
unique_after x (y ∷ ys) = let rest = unique_after y ys in if x == y then rest else y ∷ rest

unfoldable pub unique : List ℕ → List ℕ
unfolding unique_after
unique [] = []
unique (x ∷ xs) = x ∷ unique_after x xs

-- defaultWorkerCounts, from the number of logical CPUs
unfoldable pub default_worker_counts : ℕ → List ℕ
unfolding unique sort
default_worker_counts cpus =
    let logical = max 1 cpus in
    let half = if ltb 2 logical then (logical / 2) ∷ [] else [] in
    let whole = if ltb 1 logical then logical ∷ [] else [] in unique (sort (1 ∷ half ++ whole))

pub data ParseResult : Type 0 where
  ok : Options → ParseResult
  help error : ParseResult

module _ (strtoull : List ℕ → ℕ × ℕ) where
  -- parseUnsigned
  unfoldable pub parse_unsigned : List ℕ → Option ℕ
  parse_unsigned text =
      if is_empty text
      then none
      else (let (value, end) = strtoull text in
          if end == 0 || not (end == length text) then none else some value)

  -- parseInt
  unfoldable pub parse_int : List ℕ → Option ℕ
  unfolding parse_unsigned
  parse_int text = elim (parse_unsigned text) [
    | none ↦ none
    | some value ↦ if ltb int_max value then none else some value
  ]

  -- parseInt, and the test that the value is above 0
  unfoldable pub parse_positive_int : List ℕ → Option ℕ
  unfolding parse_int
  parse_positive_int token = elim (parse_int token) [
    | none ↦ none
    | some n ↦ if ltb 0 n then some n else none
  ]

  -- The loop of parseWorkerList over the bytes of the text: `token` is what stands before them since
  -- the last comma.
  unfoldable pub worker_list_loop : List ℕ → List ℕ → List ℕ → Option (List ℕ)
  worker_list_loop token [] out =
      if is_empty token
      then some out
      else elim (parse_positive_int token) [ none ↦ none | some n ↦ some (out ++ n ∷ []) ]
  worker_list_loop token (c ∷ cs) out = elim (c == b',') [
    | false ↦ worker_list_loop (token ++ c ∷ []) cs out
    | true ↦ elim (parse_positive_int token) [
      | none ↦ none
      | some n ↦ worker_list_loop [] cs (out ++ n ∷ [])
    ]
  ]

  -- parseWorkerList
  unfoldable pub parse_worker_list : List ℕ → Option (List ℕ)
  unfolding worker_list_loop unique
  parse_worker_list text = elim (worker_list_loop [] text []) [
    | none ↦ none
    | some out ↦ let counts = unique (sort out) in if is_empty counts then none else some counts
  ]

  -- A count of tasks, from 1 to 100000000
  unfoldable pub parse_count : List ℕ → Option ℕ
  unfolding parse_unsigned
  parse_count text = elim (parse_unsigned text) [
    | none ↦ none
    | some n ↦ if n == 0 || ltb 100000000 n then none else some (n % u32_mod)
  ]

  -- A number that is not 0
  unfoldable pub parse_positive : List ℕ → Option ℕ
  unfolding parse_unsigned
  parse_positive text = elim (parse_unsigned text) [
    | none ↦ none
    | some n ↦ if n == 0 then none else some n
  ]

  -- The body of the loop of parseArgs behind `argv[++i]`; `none` is ParseResult::Error. A value of
  -- parseInt is not negative.
  unfoldable pub parse_option : List ℕ → List ℕ → Options → Option Options
  unfolding text_eq parse_count parse_positive parse_positive_int
  parse_option arg value o =
      if text_eq arg (codes "--tasks")
      then elim (parse_count value) [ none ↦ none | some n ↦ some (record o { task_count = n }) ]
      else if text_eq arg (codes "--task-work")
      then elim (parse_positive_int value) [
        | none ↦ none
        | some n ↦ some (record o { task_work = n })
      ]
      else if text_eq arg (codes "--short-tasks")
      then elim (parse_count value) [
        | none ↦ none
        | some n ↦ some (record o { short_task_count = n })
      ]
      else if text_eq arg (codes "--short-work")
      then elim (parse_positive_int value) [
        | none ↦ none
        | some n ↦ some (record o { short_task_work = n })
      ]
      else if text_eq arg (codes "--blocking-tasks")
      then elim (parse_count value) [
        | none ↦ none
        | some n ↦ some (record o { blocking_task_count = n })
      ]
      else if text_eq arg (codes "--blocking-work")
      then elim (parse_positive_int value) [
        | none ↦ none
        | some n ↦ some (record o { blocking_task_work = n })
      ]
      else if text_eq arg (codes "--blocking-warmup")
      then elim (parse_int value) [
        | none ↦ none
        | some n ↦ some (record o { blocking_warmup_ms = n })
      ]
      else if text_eq arg (codes "--reduce-items")
      then elim (parse_positive value) [
        | none ↦ none
        | some n ↦ some (record o { reduce_items = n })
      ]
      else if text_eq arg (codes "--reduce-work")
      then elim (parse_positive_int value) [
        | none ↦ none
        | some n ↦ some (record o { reduce_work = n })
      ]
      else if text_eq arg (codes "--chunk-size")
      then elim (parse_positive value) [ none ↦ none | some n ↦ some (record o { chunk_size = n }) ]
      else if text_eq arg (codes "--workers")
      then elim (parse_worker_list value) [
        | none ↦ none
        | some counts ↦ some (record o { worker_counts = counts })
      ]
      else none

  -- The loop of parseArgs, over the arguments that are left
  unfoldable pub parse_args_loop : List (List ℕ) → Options → ParseResult
  unfolding parse_option
  parse_args_loop [] o = ok o
  parse_args_loop (arg ∷ []) o = if text_eq arg (codes "--help") then help else error
  parse_args_loop (arg ∷ value ∷ rest) o = elim (text_eq arg (codes "--help")) [
    | true ↦ help
    | false ↦ elim (parse_option arg value o) [
      | none ↦ error
      | some next ↦ parse_args_loop rest next
    ]
  ]

  -- parseArgs, without the program's name
  unfoldable pub parse_args : ℕ → List (List ℕ) → ParseResult
  unfolding parse_args_loop defaults default_worker_counts
  parse_args cpus args =
      parse_args_loop args (record defaults { worker_counts = default_worker_counts cpus })
