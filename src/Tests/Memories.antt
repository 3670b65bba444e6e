-- ===== src/Tests/Memories.antt =====
-- include/hfts/memory.hpp and src/memory.cpp at concrete inputs.
use hfts.Base.{ℕ, ◌+◌, ◌*◌, ◌≤◌, ◌≡◌, refl, Bool, true, false, List, [], ◌∷◌, arith}
use hfts.Memory.{Os, Heap, Request, create, aligned_malloc, allocate, free, add64}
use hfts.Memory.Default.{release, aligned_malloc_bounds, free-allocate}
use hfts.Memory.Tracked.{
  Call, allocates, frees, Stats, track, num_allocations, bytes_allocated, added, taken, track_lem,
}
use hfts.Memory.Requests.{Layout, got}

abbrev os : Os
os = record { page_size = 4096; malloc = λ n. 1000; map_pages = λ n. 81920 }

abbrev blank : Heap
blank = record { bytes = λ a. 0; calls = [] }

abbrev request : Bool → Request
request guards = record { size = 40; alignment = 64; use_guards = guards; usage = create }

aligned_malloc_bounds_example :
    (1000 ≤ (aligned_malloc os 64 40 blank).0)
    × ((aligned_malloc os 64 40 blank).0 + 40 + 8 ≤ 1000 + (40 + 64 + 8))
    × ((k : ℕ) × ((aligned_malloc os 64 40 blank).0 ≡ 64 * k))
aligned_malloc_bounds_example =
    aligned_malloc_bounds os 64 40 blank (omega arith) (omega arith) (omega arith)

free-allocate_example :
    (free os (allocate os (request false) blank).0 (allocate os (request false) blank).1).calls
    ≡ release os (request false) ∷ (allocate os (request false) blank).1.calls
free-allocate_example =
    free-allocate os (request false) blank (allocate os (request false) blank).1 (λ n. omega arith)
      (λ n. omega arith) (omega arith) (λ a le. refl)

abbrev calls : List Call
calls = allocates (request true) ∷ allocates (request false) ∷ frees (got 5 (request true)) ∷ []

abbrev stats : Stats
stats i = record { count = 0; bytes = 0 }

track_lem_example :
    (add64 (num_allocations (track calls stats)) (taken (λ r. 1) calls)
      ≡ add64 (num_allocations stats) (added (λ r. 1) calls))
    × (add64 (bytes_allocated (track calls stats)) (taken (λ r. r.size) calls)
        ≡ add64 (bytes_allocated stats) (added (λ r. r.size) calls))
track_lem_example = track_lem calls stats (omega arith, tt)

abbrev layout : Layout
layout = record { size = 24; align = 8 }
