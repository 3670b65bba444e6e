-- ===== src/Affinity.antt =====
-- include/hfts/thread.hpp and src/thread.cpp: Thread::Affinity for the platforms with pthreads. A core
-- is its index, and an affinity is the list of the elements of `cores`.
pub mod Add
pub mod Remove
pub mod Process
use hfts.Base.{
  ℕ, zero, suc, ◌+◌, ◌-◌, ◌%◌, ◌^◌, Bool, true, false, Option, none, some, List, [], ◌∷◌, ◌++◌,
  ◌==◌, ltb, leb, if◌then◌else◌, length, get_elem?, set, drop_last, elem,
}

-- std::sort by Core::operator<
unfoldable pub insert : ℕ → List ℕ → List ℕ
insert x [] = x ∷ []
insert x (y ∷ ys) = if leb x y then x ∷ y ∷ ys else y ∷ insert x ys

unfoldable pub sort : List ℕ → List ℕ
unfolding insert
sort [] = []
sort (x ∷ xs) = insert x (sort xs)

-- Affinity::all, from the number of cores that pthread_getaffinity_np counts
unfoldable pub all_loop : ℕ → ℕ → List ℕ
all_loop zero i = []
all_loop (suc k) i = (i % 2 ^ 16) ∷ all_loop k (suc i)

unfoldable pub all : ℕ → List ℕ
unfolding all_loop
all count = all_loop count 0

-- The loop of Affinity::add over the other cores; `set` holds the cores from before the loop.
unfoldable pub add_loop : List ℕ → List ℕ → List ℕ → List ℕ
add_loop set [] cores = cores
add_loop set (c ∷ cs) cores = add_loop set cs (if elem c set then cores else cores ++ c ∷ [])

-- Affinity::add
unfoldable pub add : List ℕ → List ℕ → List ℕ
unfolding add_loop sort
add other cores = sort (add_loop cores other cores)

-- cores[i] = cores.back(); cores.resize(cores.size() - 1);
unfoldable pub swap_remove : ℕ → List ℕ → List ℕ
swap_remove i cores = elim (get_elem? cores (length cores - 1)) [
  | none ↦ cores
  | some back ↦ drop_last (set cores i back)
]

-- The loop of Affinity::remove, from `i` on; `k` bounds the rounds.
unfoldable pub remove_loop : ℕ → ℕ → List ℕ → List ℕ → List ℕ
unfolding swap_remove
remove_loop zero i set cores = cores
remove_loop (suc k) i set cores = elim (get_elem? cores i) [
  | none ↦ cores
  | some c ↦ remove_loop k (suc i) set (if elem c set then swap_remove i cores else cores)
]

-- Affinity::remove
unfoldable pub remove : List ℕ → List ℕ → List ℕ
unfolding remove_loop sort
remove other cores = sort (remove_loop (length cores) 0 other cores)

-- Policy::oneOf, for the thread with the given id
unfoldable pub one_of : ℕ → List ℕ → List ℕ
one_of thread_id cores =
    if length cores == 0
    then cores
    else (elim (get_elem? cores (thread_id % length cores)) [ none ↦ [] | some c ↦ c ∷ [] ])

-- Policy::anyOf
unfoldable pub any_of : ℕ → List ℕ → List ℕ
any_of thread_id cores = cores
