-- ===== src/Memory.antt =====
-- include/hfts/memory.hpp and src/memory.cpp. Addresses and sizes are size_t, below 2 ^ 64. The
-- system's allocation calls are the parameter `Os`; what the code asks of the system is logged.
pub mod Align
pub mod Bytes
pub mod Default
pub mod Tracked
pub mod Requests
use hfts.Base.{
  ℕ, zero, suc, ◌+◌, ◌-◌, ◌*◌, ◌/◌, ◌%◌, Bool, true, false, Option, none, some, List, [], ◌∷◌, ◌==◌,
  ltb, if◌then◌else◌, update, u64_mod,
}

-- alignUp at size_t and uintptr_t
unfoldable pub align_up : ℕ → ℕ → ℕ
align_up val alignment =
    (alignment * (((val + alignment + u64_mod - 1) % u64_mod) / alignment)) % u64_mod

-- Allocation::Usage; `Count` is the number of them.
pub data Usage : Type 0 where
  undefined stack create vector list stl : Usage

abbrev pub usage_code : Usage → ℕ
usage_code undefined = 0
usage_code stack = 1
usage_code create = 2
usage_code vector = 3
usage_code list = 4
usage_code stl = 5

-- Allocation::Request
pub record Request : Type 0 where
  pub size : ℕ
  pub alignment : ℕ
  pub use_guards : Bool
  pub usage : Usage

pub record Allocation : Type 0 where
  pub ptr : ℕ
  pub request : Request

-- What the system gives: the page size, and the addresses that malloc and mmap return, 0 for failure.
pub record Os : Type 0 where
  pub page_size : ℕ
  pub malloc : ℕ → ℕ
  pub map_pages : ℕ → ℕ

pub data OsCall : Type 0 where
  malloced freed protected : ℕ → OsCall
  mapped unmapped : ℕ → ℕ → OsCall

-- The memory, byte by byte, and the calls of the system, the last first.
pub record Heap : Type 0 where
  pub bytes : ℕ → ℕ
  pub calls : List OsCall

abbrev pub called : OsCall → Heap → Heap
called c h = record h { calls = c ∷ h.calls }

abbrev pub add64 : ℕ → ℕ → ℕ
add64 a b = (a + b) % u64_mod

abbrev pub sub64 : ℕ → ℕ → ℕ
sub64 a b = (a + u64_mod - b) % u64_mod

-- memcpy of a pointer to and from memory: `n` bytes, the lowest first.
unfoldable pub store_bytes : ℕ → ℕ → ℕ → (ℕ → ℕ) → ℕ → ℕ
store_bytes zero a v mem = mem
store_bytes (suc n) a v mem = update (store_bytes n (suc a) (v / 256) mem) a (v % 256)

unfoldable pub load_bytes : ℕ → ℕ → (ℕ → ℕ) → ℕ
load_bytes zero a mem = 0
load_bytes (suc n) a mem = mem a + 256 * load_bytes n (suc a) mem

-- Lines 129 to 131 of pagedMalloc, and lines 153 to 155 of pagedFree
abbrev pub requested_pages : Os → ℕ → ℕ
requested_pages os size = ((size + os.page_size + u64_mod - 1) % u64_mod) / os.page_size

abbrev pub bit : Bool → ℕ
bit b = if b then 1 else 0

abbrev pub total_pages : Os → ℕ → Bool → Bool → ℕ
total_pages os size guard_low guard_high =
    (requested_pages os size + bit guard_low + bit guard_high) % u64_mod

-- pagedMalloc, with the pointer that it returns
unfoldable pub paged_malloc : Os → ℕ → Bool → Bool → Heap → ℕ × Heap
paged_malloc os size guard_low guard_high h =
    let total = total_pages os size guard_low guard_high in
    let mem = os.map_pages total in
    let h₁ = called (mapped total mem) h in
    let h₂ = if guard_low then called (protected mem) h₁ else h₁ in
    let ptr = if guard_low then add64 mem os.page_size else mem in
    let above = add64 ptr (requested_pages os size * os.page_size) in
    (ptr, if guard_high then called (protected above) h₂ else h₂)

-- pagedFree
unfoldable pub paged_free : Os → ℕ → ℕ → Bool → Bool → Heap → Heap
paged_free os ptr size guard_low guard_high h =
    let total = total_pages os size guard_low guard_high in
    let mem = if guard_low then sub64 ptr os.page_size else ptr in called (unmapped mem total) h

-- alignedMalloc
unfoldable pub aligned_malloc : Os → ℕ → ℕ → Heap → ℕ × Heap
aligned_malloc os alignment size h =
    let alloc_size = add64 (add64 size alignment) 8 in
    let allocation = os.malloc alloc_size in
    let aligned = align_up allocation alignment in
    let mem = store_bytes 8 (add64 aligned size) allocation h.bytes in
    (aligned, record { bytes = mem; calls = malloced alloc_size ∷ h.calls })

-- alignedFree
unfoldable pub aligned_free : ℕ → ℕ → Heap → Heap
aligned_free ptr size h = called (freed (load_bytes 8 (add64 ptr size) h.bytes)) h

-- DefaultAllocator::allocate
unfoldable pub allocate : Os → Request → Heap → Allocation × Heap
allocate os request h =
    let paged = paged_malloc os request.size true true h in
    let aligned = aligned_malloc os request.alignment request.size h in
    let plain : ℕ × Heap = (os.malloc request.size, called (malloced request.size) h) in
    let r =
      if request.use_guards then paged else if ltb 1 request.alignment then aligned else plain in
    (record { ptr = r.0; request = request }, r.1)

-- DefaultAllocator::free
unfoldable pub free : Os → Allocation → Heap → Heap
free os allocation h =
    let request = allocation.request in
    if request.use_guards
    then paged_free os allocation.ptr request.size true true h
    else if ltb 1 request.alignment
    then aligned_free allocation.ptr request.size h
    else called (freed allocation.ptr) h
