-- ===== src/LinkedList.antt =====
-- include/hfts/containers.hpp: list. An entry is a number; `nodes` holds the entries' pointers, in
-- which `none` is null, and `objects` what is built in them. `chains` are the AllocationChains, by
-- address. A call that follows null, reads what was freed, or destroys an object that is not there
-- is `none`.
pub mod Chain
pub mod Links
pub mod Grow
pub mod Freed
pub mod Represents
use hfts.Base.{
  ℕ, zero, suc, ◌+◌, ◌*◌, ◌%◌, Bool, true, false, Option, none, some, List, [], ◌∷◌, ◌==◌,
  if◌then◌else◌, update, inc64, dec64, u64_mod, max,
}
use hfts.Memory.{Allocation, Request, align_up, add64, list}

pub record Nodes : Type 0 where
  pub next : ℕ → Option ℕ
  pub prev : ℕ → Option ℕ

-- AllocationChain
pub record AllocationChain : Type 0 where
  pub allocation : Allocation
  pub next : Option ℕ

pub record LinkedList {ℓ} (A : Type ℓ) : Type ℓ where
  pub size : ℕ
  pub capacity : ℕ
  pub allocations : Option ℕ
  pub chains : ℕ → Option AllocationChain
  pub free : Option ℕ
  pub head : Option ℕ
  pub nodes : Nodes
  pub objects : ℕ → Option A

-- Whether a pointer points to the entry.
abbrev pub is_at : Option ℕ → ℕ → Bool
is_at none e = false
is_at (some j) e = j == e

-- *p = v, for the field `next` or `prev` of the entry that `p` points to, if it is not null
abbrev pub write_at : Option ℕ → Option ℕ → (ℕ → Option ℕ) → ℕ → Option ℕ
write_at none v f = f
write_at (some p) v f = update f p v

-- list::unlink, with what `list` points to then
unfoldable pub unlink : ℕ → Option ℕ → Nodes → Nodes × Option ℕ
unlink entry front n₀ =
    let rest = if is_at front entry then n₀.next entry else front in
    let n₁ : Nodes = record n₀ { next = write_at (n₀.prev entry) (n₀.next entry) n₀.next } in
    let n₂ : Nodes = record n₁ { prev = write_at (n₁.next entry) (n₁.prev entry) n₁.prev } in
    (record { next = update n₂.next entry none; prev = update n₂.prev entry none }, rest)

-- list::link
unfoldable pub link : ℕ → Option ℕ → Nodes → Nodes × Option ℕ
link entry none n = (n, some entry)
link entry (some front) n = (
  record { next = update n.next entry (some front); prev = update n.prev front (some entry) },
  some entry,
)

-- One round of the loop of list::grow
unfoldable pub grow_entry : ℕ → Nodes × Option ℕ → Nodes × Option ℕ
grow_entry entry (n, free) = (
  record {
    next = update n.next entry free;
    prev = write_at free (some entry) (update n.prev entry none);
  },
  some entry,
)

-- The first `count` rounds of the loop, over the entries from `base` on.
unfoldable pub grow_loop : ℕ → ℕ → Nodes × Option ℕ → Nodes × Option ℕ
grow_loop base zero s = s
grow_loop base (suc k) s = grow_entry (base + k) (grow_loop base k s)

-- The sizes and alignments of Entry and AllocationChain
pub record Layouts : Type 0 where
  pub entry_size : ℕ
  pub entry_align : ℕ
  pub chain_size : ℕ
  pub chain_align : ℕ

-- allocChainOffset of list::grow
unfoldable pub chain_offset : Layouts → ℕ → ℕ
chain_offset t count = align_up ((t.entry_size * count) % u64_mod) t.chain_align

-- The request of list::grow
unfoldable pub grow_request : Layouts → ℕ → Request
unfolding chain_offset
grow_request t count = record {
  size = add64 (chain_offset t count) t.chain_size;
  alignment = max t.entry_align t.chain_align;
  use_guards = false;
  usage = list;
}

-- The second loop of list::~list, from an AllocationChain on, with what is freed: a chain lies in the
-- allocation that is freed with it. `none` if the loop has not ended in the rounds given, or reads a
-- chain that is not there.
unfoldable pub free_loop : ℕ → Option ℕ → (ℕ → Option AllocationChain) → Option (List Allocation)
free_loop fuel none chains = some []
free_loop zero (some curr) chains = none
free_loop (suc fuel) (some curr) chains = elim (chains curr) [
  | none ↦ none
  | some chain ↦ elim (free_loop fuel chain.next (update chains curr none)) [
    | none ↦ none
    | some freed ↦ some (chain.allocation ∷ freed)
  ]
]

module _ {ℓ} {A : Type ℓ} where
  -- list::list
  unfoldable pub make : LinkedList A
  make = record {
    size = 0;
    capacity = 0;
    allocations = none;
    chains = λ p. none;
    free = none;
    head = none;
    nodes = record { next = λ e. none; prev = λ e. none };
    objects = λ e. none;
  }

  -- list::grow. The allocator returns `ptr`, where the entries from `base` on lie.
  unfoldable pub grow : Layouts → ℕ → ℕ → ℕ → LinkedList A → LinkedList A
  grow t ptr base count l =
      let r = grow_loop base count (l.nodes, l.free) in
      let chain = ptr + chain_offset t count in
      record l {
        nodes = r.0;
        free = r.1;
        allocations = some chain;
        chains = update l.chains chain (
            some (record {
              allocation = record { ptr = ptr; request = grow_request t count };
              next = l.allocations;
            }));
        capacity = add64 l.capacity count;
      }

  -- Lines 466 to 474 of list::emplace_front, for the entry that `free` points to
  unfoldable pub place : A → LinkedList A → Option (LinkedList A × ℕ)
  place a l = elim l.free [
    | none ↦ none
    | some entry ↦
        let u = unlink entry l.free l.nodes in
        let k = link entry l.head u.0 in
        some (
          record l {
            free = u.1;
            head = k.1;
            nodes = k.0;
            objects = update l.objects entry (some a);
            size = inc64 l.size;
          },
          entry,
        )
  ]

  -- list::emplace_front, with the entry that the iterator points to
  unfoldable pub emplace_front : Layouts → ℕ → ℕ → A → LinkedList A → Option (LinkedList A × ℕ)
  unfolding place
  emplace_front t ptr base a l = elim l.free [
    | none ↦ place a (grow t ptr base (max l.capacity 8) l)
    | some entry ↦ place a l
  ]

  -- list::erase
  unfoldable pub erase : ℕ → LinkedList A → Option (LinkedList A)
  erase entry l = elim (l.objects entry) [
    | none ↦ none
    | some a ↦
        let u = unlink entry l.head l.nodes in
        let k = link entry l.free u.0 in
        some (record l {
          head = u.1;
          free = k.1;
          nodes = k.0;
          objects = update l.objects entry none;
          size = dec64 l.size;
        })
  ]

  -- The first loop of list::~list, from an entry on; `none` if it has not ended in the rounds given, or
  -- has destroyed an object that is not there.
  unfoldable pub destroy_loop : ℕ → Option ℕ → Nodes → (ℕ → Option A) → Option (ℕ → Option A)
  destroy_loop fuel none n objects = some objects
  destroy_loop zero (some e) n objects = none
  destroy_loop (suc fuel) (some e) n objects =
      let rest = destroy_loop fuel (n.next e) n (update objects e none) in
      elim (objects e) [ none ↦ none | some a ↦ rest ]

  -- list::~list, with the objects that are left, and the allocations that are freed, in order
  unfoldable pub destruct : ℕ → LinkedList A → Option ((ℕ → Option A) × List Allocation)
  unfolding free_loop
  destruct fuel l = elim (destroy_loop fuel l.head l.nodes l.objects) [
    | none ↦ none
    | some objects ↦ elim (free_loop fuel l.allocations l.chains) [
      | none ↦ none
      | some freed ↦ some (objects, freed)
    ]
  ]
