-- ===== src/Memory/Requests.antt =====
-- include/hfts/memory.hpp: the requests of Allocator::create, make_unique_n, make_shared and of
-- StlAllocator, and the allocations that are freed for them.
use hfts.Base.{
  ℕ, ◌*◌, ◌/◌, ◌<◌, ◌%◌, ◌≡◌, refl, false, Option, none, some, ◌==◌, if◌then◌else◌, arith, u64_mod,
}
use hfts.Memory.{Request, Allocation, Usage, create, stl}

-- sizeof(T) and alignof(T)
pub record Layout : Type 0 where
  pub size : ℕ
  pub align : ℕ

abbrev request : ℕ → ℕ → Usage → Request
request size alignment usage = record {
  size = size;
  alignment = alignment;
  use_guards = false;
  usage = usage;
}

-- The request of Allocator::create and make_shared
unfoldable pub create_request : Layout → Request
create_request t = request t.size t.align create

-- What Allocator::destroy frees
unfoldable pub destroy_allocation : Layout → ℕ → Allocation
destroy_allocation t object = record { ptr = object; request = request t.size t.align create }

-- The request of make_unique_n; for no object there is none.
unfoldable pub make_unique_n_request : Layout → ℕ → Option Request
make_unique_n_request t n =
    if n == 0 then none else some (request ((t.size * n) % u64_mod) t.align create)

-- What Deleter::operator() frees
unfoldable pub deleter_allocation : Layout → ℕ → ℕ → Allocation
deleter_allocation t count object = record {
  ptr = object;
  request = request ((t.size * count) % u64_mod) t.align create;
}

-- StlAllocator::request
unfoldable pub stl_request : Layout → ℕ → Request
stl_request t n = request ((t.size * n) % u64_mod) t.align stl

-- What StlAllocator::deallocate frees
unfoldable pub deallocate_allocation : Layout → ℕ → ℕ → Allocation
unfolding stl_request
deallocate_allocation t p n = record { ptr = p; request = stl_request t n }

-- The allocation that an allocator with the contract of Allocator::allocate returns
abbrev pub got : ℕ → Request → Allocation
got ptr r = record { ptr = ptr; request = r }

-- StlAllocator::max_size
unfoldable pub max_size : Layout → ℕ
max_size t = 0xffff_ffff_ffff_ffff / t.size

-- For a type of less than 2 ^ 64 bytes, the allocation that is freed has all fields equal to the
-- one that was allocated: for an object of `create` that is destroyed, for one of make_unique_n or
-- make_shared that its deleter deletes, and for memory of StlAllocator.
pub freed-allocated :
    (t : Layout) (n ptr : ℕ)
    → t.size < u64_mod
    → (destroy_allocation t ptr ≡ got ptr (create_request t))
      × (deleter_allocation t 1 ptr ≡ got ptr (create_request t))
      × ((r : Request)
          → make_unique_n_request t n ≡ some r
          → deleter_allocation t n ptr ≡ got ptr r)
      × (deallocate_allocation t ptr n ≡ got ptr (stl_request t n))
unfolding destroy_allocation create_request deleter_allocation make_unique_n_request
    deallocate_allocation
freed-allocated t n ptr small = (refl, ground arith, λ r h. ground arith, refl)
