-- ===== src/LinkedList/Freed.antt =====
-- include/hfts/containers.hpp: the allocations of a list, which list::grow chains and list::~list frees.
use hfts.Base.{
  subst₂, ℕ, inl, inr, max, zero, suc, Option-cases, ◌++◌, sym, ◌+◌, ◌≤◌, ◌≡◌, refl, false, Option,
  none, some, List, [], ◌∷◌, ◌==◌, update, arith, length, elem, Distinct, ap, ◌∙◌, ==_refl,
}
use hfts.Memory.{Allocation}
use hfts.LinkedList.{
  LinkedList, AllocationChain, Layouts, make, place, emplace_front, erase, grow, grow_request,
  chain_offset, free_loop,
}

abbrev pub allocations_of : List (ℕ × Allocation) → List Allocation
allocations_of [] = []
allocations_of ((p, a) ∷ chain) = a ∷ allocations_of chain

abbrev pub addresses : List (ℕ × Allocation) → List ℕ
addresses [] = []
addresses ((p, a) ∷ chain) = p ∷ addresses chain

-- From a pointer on, the chains hold these allocations, at these addresses.
abbrev pub Held : (ℕ → Option AllocationChain) → Option ℕ → List (ℕ × Allocation) → Type 0
Held chains p [] = p ≡ none
Held chains p ((q, a) ∷ chain) =
    (p ≡ some q)
    × ((next : Option ℕ) × (chains q ≡ some (record { allocation = a; next = next }))
        × Held chains next chain)

Held-update :
    (chains : ℕ → Option AllocationChain) (q : ℕ) (o : Option AllocationChain) (p : Option ℕ)
    (chain : List (ℕ × Allocation))
    → elem q (addresses chain) ≡ false
    → Held chains p chain
    → Held (update chains q o) p chain
Held-update chains q o p [] h v = v
Held-update chains q o p ((r, a) ∷ chain) h (e, (next, at, v)) =
    let rq : (r == q) ≡ false = ground (arith, h) in
    (e, (next, rw rq at, Held-update chains q o next chain (ground (arith, h)) v))

free_loop-step :
    (fuel q : ℕ) (a : Allocation) (next : Option ℕ) (chains : ℕ → Option AllocationChain)
    (freed : List Allocation)
    → chains q ≡ some (record { allocation = a; next = next })
    → free_loop fuel next (update chains q none) ≡ some freed
    → free_loop (suc fuel) (some q) chains ≡ some (a ∷ freed)
unfolding free_loop
free_loop-step fuel q a next chains freed at ran = rw (at, free_loop) (rw ran refl)

-- The loop frees each allocation of the chain once, in order.
pub free_loop_lem :
    (chain : List (ℕ × Allocation)) (fuel : ℕ) (p : Option ℕ) (chains : ℕ → Option AllocationChain)
    → Held chains p chain
    → Distinct (addresses chain)
    → length chain ≤ fuel
    → free_loop fuel p chains ≡ some (allocations_of chain)
unfolding free_loop
free_loop_lem [] fuel p chains v d h = rw (v, free_loop) refl
free_loop_lem ((q, a) ∷ chain) zero p chains v d h = absurd (omega arith)
free_loop_lem ((q, a) ∷ chain) (suc fuel) p chains (e, (next, at, v)) d h =
    ap (λ (o : Option ℕ). free_loop (suc fuel) o chains) e
    ∙ free_loop-step fuel q a next chains (allocations_of chain) at (
        free_loop_lem chain fuel next (update chains q none)
          (Held-update chains q none next chain d.0 v) d.1 (omega arith))

module _ {ℓ} {A : Type ℓ} where
  -- The allocations of a list, each with the address of its AllocationChain
  abbrev pub Allocated : LinkedList A → List (ℕ × Allocation) → Type 0
  Allocated l chain = Held l.chains l.allocations chain × Distinct (addresses chain)

  -- Growing a list puts the new allocation first, if no chain of the list is at the address of the
  -- new one.
  pub grow-Allocated :
      (t : Layouts) (ptr base count : ℕ) (l : LinkedList A) (chain : List (ℕ × Allocation))
      → Allocated l chain
      → elem (ptr + chain_offset t count) (addresses chain) ≡ false
      → Allocated (grow t ptr base count l) (
          (ptr + chain_offset t count, record { ptr = ptr; request = grow_request t count })
          ∷ chain)
  unfolding grow
  grow-Allocated t ptr base count l chain (v, d) fresh =
      let q = ptr + chain_offset t count in
      (
        (
          refl,
          (
            l.allocations,
            rw (==_refl q) refl,
            Held-update l.chains q _ l.allocations chain fresh v,
          ),
        ),
        (fresh, d),
      )

  -- A new list has no allocation.
  pub make-Allocated : (l : LinkedList A) → l ≡ make → Allocated l []
  unfolding make
  make-Allocated l e = (rw e refl, tt)

  Allocated-same :
      (l l' : LinkedList A) (chain : List (ℕ × Allocation))
      → (l'.allocations ≡ l.allocations) × (l'.chains ≡ l.chains)
      → Allocated l chain
      → Allocated l' chain
  Allocated-same l l' chain (one, two) (v, d) =
      (subst₂ (λ chains p. Held chains p chain) (sym two) (sym one) v, d)

  place-chains :
      (a : A) (l l' : LinkedList A) (e : ℕ)
      → place a l ≡ some (l', e)
      → (l'.allocations ≡ l.allocations) × (l'.chains ≡ l.chains)
  unfolding place
  place-chains a l l' e h = ground arith

  -- Erasing keeps the allocations of a list.
  pub erase-Allocated :
      (e : ℕ) (l l' : LinkedList A) (chain : List (ℕ × Allocation))
      → erase e l ≡ some l'
      → Allocated l chain
      → Allocated l' chain
  unfolding erase
  erase-Allocated e l l' chain h v =
      let same : (l'.allocations ≡ l.allocations) × (l'.chains ≡ l.chains) = ground arith in
      Allocated-same l l' chain same v

  emplaced_grown :
      (t : Layouts) (ptr base : ℕ) (a : A) (l : LinkedList A)
      → l.free ≡ none
      → emplace_front t ptr base a l ≡ place a (grow t ptr base (max l.capacity 8) l)
  unfolding emplace_front
  emplaced_grown t ptr base a l n =
      ap
        (λ (o : Option ℕ). elim o [
          | none ↦ place a (grow t ptr base (max l.capacity 8) l)
          | some _ ↦ place a l
        ])
        n

  emplaced_free :
      (t : Layouts) (ptr base : ℕ) (a : A) (l : LinkedList A) (entry : ℕ)
      → l.free ≡ some entry
      → emplace_front t ptr base a l ≡ place a l
  unfolding emplace_front
  emplaced_free t ptr base a l entry n =
      ap
        (λ (o : Option ℕ). elim o [
          | none ↦ place a (grow t ptr base (max l.capacity 8) l)
          | some _ ↦ place a l
        ])
        n

  -- Emplacing keeps the allocations of a list, or puts one before them, if no chain of the list is at
  -- the address where the new one would be.
  pub emplace_front-Allocated :
      (t : Layouts) (ptr base : ℕ) (a : A) (l l' : LinkedList A) (e : ℕ)
      (chain : List (ℕ × Allocation))
      → emplace_front t ptr base a l ≡ some (l', e)
      → Allocated l chain
      → elem (ptr + chain_offset t (max l.capacity 8)) (addresses chain) ≡ false
      → (more : List (ℕ × Allocation)) × Allocated l' (more ++ chain)
  emplace_front-Allocated t ptr base a l l' e chain h v fresh = elim (Option-cases l.free) [
    | inl n ↦
        let count = max l.capacity 8 in
        let new : ℕ × Allocation =
          (ptr + chain_offset t count, record { ptr = ptr; request = grow_request t count }) in
        let grown = grow t ptr base count l in
        (
          new ∷ [],
          Allocated-same grown l' (new ∷ chain)
              (place-chains a grown l' e (sym (emplaced_grown t ptr base a l n) ∙ h))
              (grow-Allocated t ptr base count l chain v fresh),
        )
    | inr (entry, n) ↦ (
      [],
      Allocated-same l l' chain
          (place-chains a l l' e (sym (emplaced_free t ptr base a l entry n) ∙ h)) v,
    )
  ]
