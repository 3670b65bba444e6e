-- ===== src/Benchmark/Options/Counts.antt =====
-- example/benchmark.cpp: parseWorkerList and defaultWorkerCounts.
use hfts.Base.{
  ℕ, ◌/◌, ◌≤◌, ◌<◌, ◌≡◌, max, refl, false, none, some, List, [], ◌∷◌, ◌++◌, ◌==◌, ltb,
  if◌then◌else◌, is_empty, All, arith, Bool-cases, inl, inr, Option-cases, subst,
}
use hfts.Affinity.{sort, insert}
use hfts.Affinity.Add.{IsSorted, sort-IsSorted}
use hfts.Benchmark.Options.{
  int_max, unique, unique_after, default_worker_counts, parse_unsigned, parse_int,
  parse_positive_int, worker_list_loop, parse_worker_list,
}

-- The numbers ascend, the first from above `low`.
abbrev pub Ascending : ℕ → List ℕ → Type 0
Ascending low [] = Unit
Ascending low (x ∷ xs) = (low < x) × Ascending x xs

abbrev pub IsCount : ℕ → Type 0
IsCount n = (0 < n) × (n ≤ int_max)

-- Numbers of workers: ascending, each above 0 and an int, and one at least
abbrev pub AreCounts : List ℕ → Type 0
AreCounts counts = Ascending 0 counts × All IsCount counts × (is_empty counts ≡ false)

unique_after-Ascending : (x : ℕ) (xs : List ℕ) → IsSorted (x ∷ xs) → Ascending x (unique_after x xs)
unfolding unique_after
unique_after-Ascending x [] s = tt
unique_after-Ascending x (y ∷ ys) s = elim (Bool-cases (x == y)) [
  | inl e ↦
      let same : y ≡ x = ground arith in
      rw e (subst (λ z. Ascending z (unique_after y ys)) same (unique_after-Ascending y ys s.1))
  | inr e ↦ rw e (ground arith, unique_after-Ascending y ys s.1)
]

insert-All : (x : ℕ) (xs : List ℕ) → IsCount x → All IsCount xs → All IsCount (insert x xs)
unfolding insert
insert-All x [] h a = ground arith
insert-All x (y ∷ ys) h a = ground (arith, insert-All x ys h a.1)

sort-All : (xs : List ℕ) → All IsCount xs → All IsCount (sort xs)
unfolding sort
sort-All [] a = tt
sort-All (x ∷ xs) a = insert-All x (sort xs) a.0 (sort-All xs a.1)

unique_after-All : (x : ℕ) (xs : List ℕ) → All IsCount xs → All IsCount (unique_after x xs)
unfolding unique_after
unique_after-All x [] a = tt
unique_after-All x (y ∷ ys) a = ground (arith, unique_after-All y ys a.1)

unique-AreCounts :
    (xs : List ℕ) → All IsCount xs → IsSorted xs → is_empty xs ≡ false → AreCounts (unique xs)
unfolding unique
unique-AreCounts [] a s n = absurd (cc (n))
unique-AreCounts (x ∷ xs) a s n =
    ((a.0.0, unique_after-Ascending x xs s), (a.0, unique_after-All x xs a.1), refl)

sort-nonempty : (xs : List ℕ) → is_empty xs ≡ false → is_empty (sort xs) ≡ false
unfolding sort insert
sort-nonempty [] n = absurd (cc (n))
sort-nonempty (x ∷ xs) n = insert-nonempty x (sort xs)
  where
    insert-nonempty : (x : ℕ) (xs : List ℕ) → is_empty (insert x xs) ≡ false
    insert-nonempty x [] = refl
    insert-nonempty x (y ∷ ys) = ground arith

counts-AreCounts :
    (xs : List ℕ) → All IsCount xs → is_empty xs ≡ false → AreCounts (unique (sort xs))
counts-AreCounts xs a n =
    unique-AreCounts (sort xs) (sort-All xs a) (sort-IsSorted xs) (sort-nonempty xs n)

All-snoc : (xs : List ℕ) (n : ℕ) → All IsCount xs → IsCount n → All IsCount (xs ++ n ∷ [])
All-snoc [] n a h = (h, tt)
All-snoc (x ∷ xs) n a h = (a.0, All-snoc xs n a.1 h)

one-IsCount : IsCount 1
one-IsCount = omega arith

default_rest :
    (logical : ℕ)
    → 1 ≤ logical
    → logical ≤ int_max
    → All IsCount (
        (if ltb 2 logical then (logical / 2) ∷ [] else [])
        ++ (if ltb 1 logical then logical ∷ [] else []))
default_rest logical p h = elim (Bool-cases (ltb 2 logical)) [
  | inl e ↦ elim (Bool-cases (ltb 1 logical)) [
    | inl f ↦ rw (e, f) (ground arith)
    | inr f ↦ rw (e, f) (ground arith)
  ]
  | inr e ↦ elim (Bool-cases (ltb 1 logical)) [
    | inl f ↦ rw (e, f) (ground arith)
    | inr f ↦ rw (e, f) (ground arith)
  ]
]

pub default_worker_counts-AreCounts :
    (cpus : ℕ) → cpus ≤ int_max → AreCounts (default_worker_counts cpus)
unfolding default_worker_counts
default_worker_counts-AreCounts cpus h =
    let logical = max 1 cpus in
    let bounds : (1 ≤ logical) × (logical ≤ int_max) = omega arith in
    counts-AreCounts
      (1 ∷ (if ltb 2 logical then (logical / 2) ∷ [] else [])
        ++ (if ltb 1 logical then logical ∷ [] else []))
      (one-IsCount, default_rest logical bounds.0 bounds.1) refl

unique_nil : unique (sort []) ≡ []
unfolding unique sort
unique_nil = refl

module _ (strtoull : List ℕ → ℕ × ℕ) where
  pub parse_int-le : (text : List ℕ) (n : ℕ) → parse_int strtoull text ≡ some n → n ≤ int_max
  unfolding parse_int
  parse_int-le text n h = elim (Option-cases (parse_unsigned strtoull text)) [
    | inl e ↦ absurd (ground (arith, e, h))
    | inr (value, e) ↦ ground (arith, e, h)
  ]

  pub parse_positive_int-IsCount :
      (text : List ℕ) (n : ℕ) → parse_positive_int strtoull text ≡ some n → IsCount n
  unfolding parse_positive_int
  parse_positive_int-IsCount text n h = elim (Option-cases (parse_int strtoull text)) [
    | inl e ↦ absurd (ground (arith, e, h))
    | inr (value, e) ↦ ground (arith, e, h, parse_int-le text value e)
  ]

  worker_list_loop-All :
      (token text out counts : List ℕ)
      → All IsCount out
      → worker_list_loop strtoull token text out ≡ some counts
      → All IsCount counts
  unfolding worker_list_loop
  worker_list_loop-All [] [] out counts a h = subst (All IsCount) (ground (arith, h)) a
  worker_list_loop-All (t ∷ ts) [] out counts a h =
      elim (Option-cases (parse_positive_int strtoull (t ∷ ts))) [
        | inl e ↦
            (let gone : none ≡ some counts = (rw (e, worker_list_loop) at h) in absurd (cc (gone)))
        | inr (n, e) ↦
            let same : some (out ++ n ∷ []) ≡ some counts = (rw (e, worker_list_loop) at h) in
            subst (All IsCount) (ground (arith, same))
              (All-snoc out n a (parse_positive_int-IsCount (t ∷ ts) n e))
      ]
  worker_list_loop-All token (c ∷ cs) out counts a h = elim (Bool-cases (c == b',')) [
    | inr e ↦ worker_list_loop-All (token ++ c ∷ []) cs out counts a (rw (e, worker_list_loop) at h)
    | inl e ↦ elim (Option-cases (parse_positive_int strtoull token)) [
      | inl f ↦
          let gone : none ≡ some counts = (rw (f) at (rw (e, worker_list_loop) at h)) in
          absurd (cc (gone))
      | inr (n, f) ↦
          worker_list_loop-All [] cs (out ++ n ∷ []) counts
            (All-snoc out n a (parse_positive_int-IsCount token n f))
            (rw (f) at (rw (e, worker_list_loop) at h))
    ]
  ]

  pub parse_worker_list-AreCounts :
      (text counts : List ℕ) → parse_worker_list strtoull text ≡ some counts → AreCounts counts
  unfolding parse_worker_list
  parse_worker_list-AreCounts text counts h =
      elim (Option-cases (worker_list_loop strtoull [] text [])) [
        | inl e ↦
            (let gone : none ≡ some counts = (rw (e, parse_worker_list) at h) in absurd (cc (gone)))
        | inr (out, e) ↦ subst AreCounts (ground (arith, e, h)) (
            counts-AreCounts out (worker_list_loop-All [] text [] out tt e)
              (ground (arith, e, h, unique_nil)))
      ]
