-- ===== src/Vector.antt =====
-- include/hfts/containers.hpp: vector. `elements` points to the buffer inside the vector, to an
-- allocation, or nowhere; `cells` are the places of that storage, where `none` is a place that holds
-- no object. A call that uses an object that is not there, or that writes through the null pointer or
-- behind the storage, is `none`. Sizes are size_t.
pub mod Holds
pub mod Push
pub mod Resize
pub mod Assign
pub mod Copy
use hfts.Base.{
  ℕ, zero, suc, ◌+◌, ◌-◌, ◌*◌, ◌%◌, max, ◌/◌, ◌||◌, leb, Bool, true, false, ◌&&◌, Option, none,
  some, ◌==◌, ltb, if◌then◌else◌, update, u64_mod, inc64, dec64,
}

pub data Elements : Type 0 where
  buffer heap null : Elements

-- sizeof(T), and the pointer that the allocator returns for a request of so many bytes
pub record Storage : Type 0 where
  pub size_of : ℕ
  pub allocate : ℕ → ℕ

-- `places` is for how many objects the storage has room.
pub record Vector {ℓ} (A : Type ℓ) : Type ℓ where
  pub count : ℕ
  pub capacity : ℕ
  pub elements : Elements
  pub places : ℕ
  pub cells : ℕ → Option A

infixl 5 ◌>>=◌
abbrev ◌>>=◌ {ℓ κ} : {A : Type ℓ} {B : Type κ} → Option A → (A → Option B) → Option B
none >>= f = none
some a >>= f = f a

abbrev pub is_heap : Elements → Bool
is_heap e = elim e [ heap ↦ true | _ ↦ false ]

abbrev pub is_null : Elements → Bool
is_null e = elim e [ null ↦ true | _ ↦ false ]

-- The bytes that vector::reserve asks for
abbrev pub request_of : Storage → ℕ → ℕ
request_of t capacity = (t.size_of * capacity) % u64_mod

-- The storage that it gets, and for how many objects it has room
abbrev pub grown : Storage → ℕ → Elements
grown t capacity = if t.allocate (request_of t capacity) == 0 then null else heap

abbrev pub grown_places : Storage → ℕ → ℕ
grown_places t capacity =
    if t.allocate (request_of t capacity) == 0 then 0 else request_of t capacity / t.size_of

module _ {ℓ} {A : Type ℓ} where
  -- vector::vector; the argument is BASE_CAPACITY.
  unfoldable pub make : ℕ → Vector A
  make base = record {
    count = 0;
    capacity = base;
    elements = buffer;
    places = base;
    cells = λ i. none;
  }

  -- Whether the places below `n` hold objects.
  unfoldable pub live_below : ℕ → (ℕ → Option A) → Bool
  live_below zero cells = true
  live_below (suc n) cells = live_below n cells && elim (cells n) [ none ↦ false | some a ↦ true ]

  -- vector::free
  unfoldable pub free : Vector A → Option (Vector A)
  free v =
      if live_below v.count v.cells
      then (if is_heap v.elements
          then some (record v { elements = null; places = 0; cells = λ i. none })
          else some (record v { cells = λ i. if ltb i v.count then none else v.cells i }))
      else none

  -- vector::reserve. To move the elements to the new storage writes behind it if it is too small.
  unfoldable pub reserve : Storage → ℕ → Vector A → Option (Vector A)
  reserve t n v =
      let capacity = max ((n * 2) % u64_mod) 8 in
      if ltb v.capacity n
      then (if live_below v.count v.cells && leb v.count (grown_places t capacity)
          then some (record v {
            capacity = capacity;
            elements = grown t capacity;
            places = grown_places t capacity;
            cells = λ i. if ltb i v.count then v.cells i else none;
          })
          else none)
      else some v

  -- new (&elements[i]) T(a)
  unfoldable pub construct : ℕ → A → Vector A → Option (Vector A)
  construct i a v =
      if is_null v.elements || leb v.places i
      then none
      else some (record v { cells = update v.cells i (some a) })

  -- elements[i].~T()
  unfoldable pub destroy : ℕ → Vector A → Option (Vector A)
  destroy i v = elim (v.cells i) [
    | none ↦ none
    | some a ↦ some (record v { cells = update v.cells i none })
  ]

  -- vector::push_back and emplace_back
  unfoldable pub push_back : Storage → A → Vector A → Option (Vector A)
  push_back t a v₀ = do
    v ← reserve t (inc64 v₀.count) v₀
    w ← construct v.count a v
    some (record w { count = inc64 w.count })

  -- vector::pop_back
  unfoldable pub pop_back : Vector A → Option (Vector A)
  unfolding destroy
  pop_back v = let n = dec64 v.count in destroy n (record v { count = n })

  -- vector::operator[], front and back
  unfoldable pub at : ℕ → Vector A → Option A
  at i v = v.cells i

  unfoldable pub front : Vector A → Option A
  front v = v.cells 0

  unfoldable pub back : Vector A → Option A
  back v = v.cells (dec64 v.count)

  -- The loops of vector::resize, for the number of rounds that they take.
  unfoldable pub construct_loop : ℕ → A → Vector A → Option (Vector A)
  construct_loop zero fresh v = some v
  construct_loop (suc k) fresh v = do
    w ← construct v.count fresh v
    construct_loop k fresh (record w { count = inc64 w.count })

  unfoldable pub destroy_loop : ℕ → Vector A → Option (Vector A)
  destroy_loop zero v = some v
  destroy_loop (suc k) v = do
    w ← destroy (dec64 v.count) (record v { count = dec64 v.count })
    destroy_loop k w

  -- vector::resize; `fresh` is T().
  unfoldable pub resize : Storage → A → ℕ → Vector A → Option (Vector A)
  resize t fresh n v₀ = do
    v ← reserve t n v₀
    w ← construct_loop (n - v.count) fresh v
    destroy_loop (w.count - n) w

  -- The loop of operator=, from `i` on for `k` rounds.
  unfoldable pub copy_loop : ℕ → ℕ → (ℕ → Option A) → Vector A → Option (Vector A)
  copy_loop zero i other v = some v
  copy_loop (suc k) i other v = do a ← other i; w ← construct i a v; copy_loop k (suc i) other w

  -- vector::operator= from another vector
  unfoldable pub assign : Storage → Vector A → Vector A → Option (Vector A)
  assign t other v₀ = do
    v ← free v₀
    w ← reserve t other.count v
    copy_loop other.count 0 other.cells (record w { count = other.count })

  -- vector::operator= that moves, with what it leaves of the other vector
  unfoldable pub assign_move : Storage → A → Vector A → Vector A → Option (Vector A × Vector A)
  assign_move t fresh other v₀ = do
    v ← assign t other v₀
    rest ← resize t fresh 0 other
    some (v, rest)
