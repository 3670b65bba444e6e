-- ===== src/Affinity/Add.antt =====
-- src/thread.cpp: Affinity::add and the sort.
use hfts.Base.{
  ℕ, zero, suc, ◌≤◌, ◌<◌, ◌%◌, ◌≡◌, refl, true, ◌||◌, none, some, List, [], ◌∷◌, ◌++◌, ◌==◌, length,
  get_elem?, elem, elem-append, arith, Bool-cases, inl, inr, Option-cases, ◌∙◌,
}
use hfts.Affinity.{insert, sort, add, add_loop, one_of}

abbrev pub IsSorted : List ℕ → Type 0
IsSorted [] = Unit
IsSorted (x ∷ []) = Unit
IsSorted (x ∷ y ∷ ys) = (x ≤ y) × IsSorted (y ∷ ys)

insert-IsSorted : (x : ℕ) (xs : List ℕ) → IsSorted xs → IsSorted (insert x xs)
unfolding insert
insert-IsSorted x [] s = tt
insert-IsSorted x (y ∷ []) s = ground arith
insert-IsSorted x (y ∷ z ∷ zs) s = ground (arith, insert-IsSorted x (z ∷ zs) s.1)

elem-insert : (c x : ℕ) (xs : List ℕ) → elem c (insert x xs) ≡ ((c == x) || elem c xs)
unfolding insert
elem-insert c x [] = refl
elem-insert c x (y ∷ ys) = ground (arith, elem-insert c x ys)

pub sort-IsSorted : (xs : List ℕ) → IsSorted (sort xs)
unfolding sort
sort-IsSorted [] = tt
sort-IsSorted (x ∷ xs) = insert-IsSorted x (sort xs) (sort-IsSorted xs)

pub elem-sort : (c : ℕ) (xs : List ℕ) → elem c (sort xs) ≡ elem c xs
unfolding sort
elem-sort c [] = refl
elem-sort c (x ∷ xs) = rw (elem-insert c x (sort xs), elem-sort c xs)

elem-add_loop :
    (c : ℕ) (set other cores : List ℕ)
    → (elem c set ≡ true → elem c cores ≡ true)
    → elem c (add_loop set other cores) ≡ (elem c cores || elem c other)
unfolding add_loop
elem-add_loop c set [] cores h = ground arith
elem-add_loop c set (d ∷ ds) cores h = elim (Bool-cases (elem d set)) [
  | inl e ↦ rw e (elem-add_loop c set ds cores h ∙ ground arith)
  | inr e ↦ rw e (
      elem-add_loop c set ds (cores ++ d ∷ [])
        (λ y. ground (arith, h y, elem-append c cores (d ∷ [])))
      ∙ ground (arith, elem-append c cores (d ∷ [])))
]

-- `add` gives an ordered list that has exactly the cores of the two affinities.
pub add_lem :
    (other cores : List ℕ)
    → IsSorted (add other cores)
      × ((c : ℕ) → elem c (add other cores) ≡ (elem c cores || elem c other))
unfolding add
add_lem other cores = (
  sort-IsSorted (add_loop cores other cores),
  λ c. elem-sort c (add_loop cores other cores) ∙ elem-add_loop c cores other cores (λ h. h),
)

get_elem?-some : (xs : List ℕ) (i : ℕ) → i < length xs → get_elem? xs i ≡ none → ⊥
get_elem?-some [] i lt e = elim lt [ ]
get_elem?-some (x ∷ xs) zero lt e = cc
get_elem?-some (x ∷ xs) (suc i) lt e = get_elem?-some xs i (omega arith) e

-- `oneOf` gives, for an affinity that is not empty, the one core that stands at the thread's id
-- modulo the number of cores.
pub one_of_lem :
    (thread_id : ℕ) (cores : List ℕ)
    → 0 < length cores
    → (c : ℕ) × (one_of thread_id cores ≡ c ∷ [])
      × (get_elem? cores (thread_id % length cores) ≡ some c)
unfolding one_of
one_of_lem thread_id cores h = elim (Option-cases (get_elem? cores (thread_id % length cores))) [
  | inl e ↦ absurd (get_elem?-some cores (thread_id % length cores) (omega arith) e)
  | inr (c, e) ↦ (c, ground (arith, e), e)
]
