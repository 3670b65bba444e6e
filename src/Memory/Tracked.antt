-- ===== src/Memory/Tracked.antt =====
-- include/hfts/memory.hpp: TrackedAllocator. The counters are size_t and wrap.
use hfts.Base.{
  ℕ, zero, suc, ◌+◌, ◌≤◌, ◌<◌, ◌≡◌, refl, List, [], ◌∷◌, ◌==◌, update, arith, u64_mod, inc64, dec64,
  Bool-cases, inl, inr, ==_ne,
}
use hfts.Memory.{
  Request, Allocation, Usage, usage_code, undefined, stack, create, vector, list, stl, add64, sub64,
}

-- UsageStats
pub record UsageStats : Type 0 where
  pub count : ℕ
  pub bytes : ℕ

-- TrackedAllocator::Stats: `byUsage`, an array of `Usage::Count` elements
abbrev pub Stats : Type 0
Stats = ℕ → UsageStats

abbrev pub usage_count : ℕ
usage_count = 6

unfoldable pub sum_stats : (UsageStats → ℕ) → Stats → ℕ → ℕ
sum_stats f s zero = 0
sum_stats f s (suc n) = add64 (sum_stats f s n) (f (s n))

-- Stats::numAllocations
unfoldable pub num_allocations : Stats → ℕ
num_allocations s = sum_stats (λ u. u.count) s usage_count

-- Stats::bytesAllocated
unfoldable pub bytes_allocated : Stats → ℕ
bytes_allocated s = sum_stats (λ u. u.bytes) s usage_count

-- The counters after TrackedAllocator::allocate
unfoldable pub track_allocate : Request → Stats → Stats
track_allocate r s =
    let i = usage_code r.usage in
    let u = s i in update s i (record { count = inc64 u.count; bytes = add64 u.bytes r.size })

-- The counters after TrackedAllocator::free
unfoldable pub track_free : Allocation → Stats → Stats
track_free a s =
    let i = usage_code a.request.usage in
    let u = s i in
    update s i (record { count = dec64 u.count; bytes = sub64 u.bytes a.request.size })

pub data Call : Type 0 where
  allocates : Request → Call
  frees : Allocation → Call

unfoldable pub track : List Call → Stats → Stats
track [] s = s
track (allocates r ∷ cs) s = track cs (track_allocate r s)
track (frees a ∷ cs) s = track cs (track_free a s)

-- The calls' effect on the number of allocations and the bytes, as what is added and what is taken.
unfoldable pub added : (Request → ℕ) → List Call → ℕ
added f [] = 0
added f (allocates r ∷ cs) = f r + added f cs
added f (frees a ∷ cs) = added f cs

unfoldable pub taken : (Request → ℕ) → List Call → ℕ
taken f [] = 0
taken f (allocates r ∷ cs) = taken f cs
taken f (frees a ∷ cs) = f a.request + taken f cs

sum_stats-update_out :
    (f : UsageStats → ℕ) (s : Stats) (i : ℕ) (u : UsageStats) (n : ℕ)
    → n ≤ i
    → sum_stats f (update s i u) n ≡ sum_stats f s n
unfolding sum_stats
sum_stats-update_out f s i u zero h = refl
sum_stats-update_out f s i u (suc n) h =
    rw (sum_stats-update_out f s i u n (omega arith), ==_ne n i (λ e. omega arith))

sum_stats-update :
    (f : UsageStats → ℕ) (s : Stats) (i : ℕ) (u : UsageStats) (n : ℕ)
    → i < n
    → add64 (sum_stats f (update s i u) n) (f (s i)) ≡ add64 (sum_stats f s n) (f u)
unfolding sum_stats
sum_stats-update f s i u zero h = elim h [ ]
sum_stats-update f s i u (suc n) h = elim (Bool-cases (n == i)) [
  | inl e ↦
      let same : n ≡ i = ground arith in
      rw (e, sum_stats-update_out f s i u n (omega arith), same) (omega arith)
  | inr e ↦ rw e (omega (arith, sum_stats-update f s i u n (ground arith)))
]

usage_code-lt : (u : Usage) → usage_code u < usage_count
usage_code-lt undefined = omega arith
usage_code-lt stack = omega arith
usage_code-lt create = omega arith
usage_code-lt vector = omega arith
usage_code-lt list = omega arith
usage_code-lt stl = omega arith

sum_stats-lt : (f : UsageStats → ℕ) (s : Stats) (n : ℕ) → sum_stats f s n < u64_mod
unfolding sum_stats
sum_stats-lt f s zero = omega arith
sum_stats-lt f s (suc n) = omega arith

allocate_count :
    (r : Request) (s : Stats) → num_allocations (track_allocate r s) ≡ add64 (num_allocations s) 1
unfolding num_allocations track_allocate
allocate_count r s =
    let i = usage_code r.usage in
    let u : UsageStats = record { count = inc64 (s i).count; bytes = add64 (s i).bytes r.size } in
    omega (
      arith,
      sum_stats-update (λ v. v.count) s i u usage_count (usage_code-lt r.usage),
      sum_stats-lt (λ v. v.count) s usage_count,
      sum_stats-lt (λ v. v.count) (update s i u) usage_count,
    )

allocate_bytes :
    (r : Request) (s : Stats)
    → bytes_allocated (track_allocate r s) ≡ add64 (bytes_allocated s) r.size
unfolding bytes_allocated track_allocate
allocate_bytes r s =
    let i = usage_code r.usage in
    let u : UsageStats = record { count = inc64 (s i).count; bytes = add64 (s i).bytes r.size } in
    omega (
      arith,
      sum_stats-update (λ v. v.bytes) s i u usage_count (usage_code-lt r.usage),
      sum_stats-lt (λ v. v.bytes) s usage_count,
      sum_stats-lt (λ v. v.bytes) (update s i u) usage_count,
    )

free_count :
    (a : Allocation) (s : Stats) → add64 (num_allocations (track_free a s)) 1 ≡ num_allocations s
unfolding num_allocations track_free
free_count a s =
    let i = usage_code a.request.usage in
    let u : UsageStats = record {
      count = dec64 (s i).count;
      bytes = sub64 (s i).bytes a.request.size;
    } in
    omega (
      arith,
      sum_stats-update (λ v. v.count) s i u usage_count (usage_code-lt a.request.usage),
      sum_stats-lt (λ v. v.count) s usage_count,
      sum_stats-lt (λ v. v.count) (update s i u) usage_count,
    )

free_bytes :
    (a : Allocation) (s : Stats)
    → a.request.size < u64_mod
    → add64 (bytes_allocated (track_free a s)) a.request.size ≡ bytes_allocated s
unfolding bytes_allocated track_free
free_bytes a s fits =
    let i = usage_code a.request.usage in
    let u : UsageStats = record {
      count = dec64 (s i).count;
      bytes = sub64 (s i).bytes a.request.size;
    } in
    omega (
      arith,
      sum_stats-update (λ v. v.bytes) s i u usage_count (usage_code-lt a.request.usage),
      sum_stats-lt (λ v. v.bytes) s usage_count,
      sum_stats-lt (λ v. v.bytes) (update s i u) usage_count,
    )

-- The sizes of the freed allocations are of type size_t.
abbrev pub Fits : List Call → Type 0
Fits [] = Unit
Fits (allocates r ∷ cs) = Fits cs
Fits (frees a ∷ cs) = (a.request.size < u64_mod) × Fits cs

-- After any calls whose freed sizes are below 2 ^ 64, the allocations and the bytes that the
-- tracker reports are those that it reported before, with what was allocated and without what was
-- freed, modulo 2 ^ 64.
pub track_lem :
    (cs : List Call) (s : Stats)
    → Fits cs
    → (add64 (num_allocations (track cs s)) (taken (λ r. 1) cs)
        ≡ add64 (num_allocations s) (added (λ r. 1) cs))
      × (add64 (bytes_allocated (track cs s)) (taken (λ r. r.size) cs)
          ≡ add64 (bytes_allocated s) (added (λ r. r.size) cs))
unfolding track taken added
track_lem [] s fits = (refl, refl)
track_lem (allocates r ∷ cs) s fits =
    let (counts, sizes) = track_lem cs (track_allocate r s) fits in
    (omega (arith, counts, allocate_count r s), omega (arith, sizes, allocate_bytes r s))
track_lem (frees a ∷ cs) s fits =
    let (counts, sizes) = track_lem cs (track_free a s) fits.1 in
    (omega (arith, counts, free_count a s), omega (arith, sizes, free_bytes a s fits.0))
