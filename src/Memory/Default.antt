-- ===== src/Memory/Default.antt =====
-- src/memory.cpp: DefaultAllocator::allocate and free, with what they ask of the system.
use hfts.Base.{
  ℕ, ◌+◌, ◌*◌, ◌≤◌, ◌<◌, ◌≡◌, Bool, true, false, ◌∷◌, ltb, if◌then◌else◌, arith, u64_mod,
  Bool-cases, inl, inr, subst,
}
use hfts.Memory.{
  Os, OsCall, freed, unmapped, Heap, Request, Allocation, allocate, free, paged_malloc, paged_free,
  aligned_malloc, aligned_free, align_up, add64, sub64, total_pages, store_bytes, Usage,
}
use hfts.Memory.Align.{align_up_lem}
use hfts.Memory.Bytes.{load-store, load_bytes-congr}

-- For an alignment above 0, where neither the size with what is added to it nor the end of malloc's
-- block wraps, the aligned block is aligned and lies, with the 8 bytes of the pointer behind it, in
-- the block that malloc returned.
pub aligned_malloc_bounds :
    (os : Os) (alignment size : ℕ) (h : Heap)
    → 0 < alignment
    → size + alignment + 8 < u64_mod
    → os.malloc (size + alignment + 8) + (size + alignment + 8) ≤ u64_mod
    → let base = os.malloc (size + alignment + 8) in
      let ptr = (aligned_malloc os alignment size h).0 in
      (base ≤ ptr)
      × (ptr + size + 8 ≤ base + (size + alignment + 8))
      × ((k : ℕ) × (ptr ≡ alignment * k))
unfolding aligned_malloc
aligned_malloc_bounds os alignment size h pos small fits =
    let whole : add64 (add64 size alignment) 8 ≡ size + alignment + 8 = omega arith in
    let (low, high, multiple) =
      align_up_lem (os.malloc (size + alignment + 8)) alignment pos (omega arith) in
    rw whole (low, omega (arith, high), multiple)

-- Between the two calls the user may write anywhere below the pointer that stands behind the block:
-- `free` gives the address of malloc back.
pub aligned_free-aligned_malloc :
    (os : Os) (alignment size : ℕ) (h h' : Heap)
    → os.malloc (add64 (add64 size alignment) 8) < u64_mod
    → let r = aligned_malloc os alignment size h in
      ((a : ℕ) → add64 r.0 size ≤ a → h'.bytes a ≡ r.1.bytes a)
      → (aligned_free r.0 size h').calls
        ≡ freed (os.malloc (add64 (add64 size alignment) 8)) ∷ h'.calls
unfolding aligned_malloc aligned_free
aligned_free-aligned_malloc os alignment size h h' small same =
    let base = os.malloc (add64 (add64 size alignment) 8) in
    let at = add64 (align_up base alignment) size in
    rw (
      load_bytes-congr 8 at (store_bytes 8 at base h.bytes) h'.bytes same,
      load-store 8 at base h.bytes small,
    )

-- The block that `allocate` got from the system for a request, and how it is given back.
unfoldable pub release : Os → Request → OsCall
release os r =
    if r.use_guards
    then (let total = total_pages os r.size true true in unmapped (os.map_pages total) total)
    else (if ltb 1 r.alignment
        then freed (os.malloc (add64 (add64 r.size r.alignment) 8))
        else freed (os.malloc r.size))

paged_back :
    (os : Os) (mem : ℕ)
    → mem < u64_mod
    → os.page_size < u64_mod
    → sub64 (add64 mem os.page_size) os.page_size ≡ mem
paged_back os mem h p = omega arith

abbrev request : ℕ → ℕ → Bool → Usage → Request
request size alignment guards usage = record {
  size = size;
  alignment = alignment;
  use_guards = guards;
  usage = usage;
}

-- The bytes from the end of the block on are as `allocate` left them.
abbrev pub Intact : Os → Request → Heap → Heap → Type 0
Intact os r h h' =
    (a : ℕ) → add64 (allocate os r h).0.ptr r.size ≤ a → h'.bytes a ≡ (allocate os r h).1.bytes a

allocate-aligned :
    (os : Os) (size alignment : ℕ) (usage : Usage) (h : Heap)
    → ltb 1 alignment ≡ true
    → let r = request size alignment false usage in
      let got = aligned_malloc os alignment size h in
      allocate os r h ≡ (record { ptr = got.0; request = r }, got.1)
unfolding allocate
allocate-aligned os size alignment usage h e = rw e

module _ (os : Os) (h h' : Heap) (m : (n : ℕ) → os.malloc n < u64_mod)
    (p : (n : ℕ) → os.map_pages n < u64_mod) (page : os.page_size < u64_mod) where
  free-allocate_guarded :
      (size alignment : ℕ) (usage : Usage)
      → let r = request size alignment true usage in
        (free os (allocate os r h).0 h').calls ≡ release os r ∷ h'.calls
  unfolding allocate free release paged_malloc paged_free
  free-allocate_guarded size alignment usage =
      rw (paged_back os (os.map_pages (total_pages os size true true)) (p _) page)

  free-allocate_plain :
      (size alignment : ℕ) (usage : Usage)
      → ltb 1 alignment ≡ false
      → let r = request size alignment false usage in
        (free os (allocate os r h).0 h').calls ≡ release os r ∷ h'.calls
  unfolding allocate free release
  free-allocate_plain size alignment usage e = rw e

  free-allocate_aligned :
      (size alignment : ℕ) (usage : Usage)
      → ltb 1 alignment ≡ true
      → let r = request size alignment false usage in
        Intact os r h h' → (free os (allocate os r h).0 h').calls ≡ release os r ∷ h'.calls
  unfolding free release
  free-allocate_aligned size alignment usage e same =
      rw (allocate-aligned os size alignment usage h e, e)
        (aligned_free-aligned_malloc os alignment size h h' (m _) (λ a le.
          subst (λ (g : Allocation × Heap). add64 g.0.ptr size ≤ a → h'.bytes a ≡ g.1.bytes a)
            (allocate-aligned os size alignment usage h e) (same a) le))

  free-allocate_cases :
      (size alignment : ℕ) (guards : Bool) (usage : Usage)
      → let r = request size alignment guards usage in
        Intact os r h h' → (free os (allocate os r h).0 h').calls ≡ release os r ∷ h'.calls
  free-allocate_cases size alignment true usage same = free-allocate_guarded size alignment usage
  free-allocate_cases size alignment false usage same = elim (Bool-cases (ltb 1 alignment)) [
    | inl a ↦ free-allocate_aligned size alignment usage a same
    | inr a ↦ free-allocate_plain size alignment usage a
  ]

-- For each request, guarded, aligned or plain, freeing what `allocate` returned gives exactly the
-- block that `allocate` got from the system back to it. The conditions are that the system's
-- addresses and its page size fit in 64 bits, and that memory from the end of the block on is as
-- `allocate` left it.
pub free-allocate :
    (os : Os) (r : Request) (h h' : Heap)
    → ((n : ℕ) → os.malloc n < u64_mod)
    → ((n : ℕ) → os.map_pages n < u64_mod)
    → os.page_size < u64_mod
    → Intact os r h h'
    → (free os (allocate os r h).0 h').calls ≡ release os r ∷ h'.calls
free-allocate os r h h' m p page same =
    free-allocate_cases os h h' m p page r.size r.alignment r.use_guards r.usage same

-- When the system has no pages, whatever is asked for, a guarded allocation does not return null
-- but the address of the page behind null, if the page size fits in 64 bits.
pub allocate-no_pages :
    (os : Os) (r : Request) (h : Heap)
    → ((n : ℕ) → os.map_pages n ≡ 0)
    → r.use_guards ≡ true
    → os.page_size < u64_mod
    → (allocate os r h).0.ptr ≡ os.page_size
unfolding allocate paged_malloc
allocate-no_pages os r h none guards small =
    rw (guards, none (total_pages os r.size true true)) (omega arith)
