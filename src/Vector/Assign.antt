-- ===== src/Vector/Assign.antt =====
-- include/hfts/containers.hpp: operator= of vector. `free` leaves `elements` null and the capacity
-- as it was, and does not reset the number of elements.
use hfts.Base.{
  ℕ, zero, suc, ◌≤◌, ◌<◌, ◌≡◌, refl, true, false, Option, none, some, List, length, arith, ltb, inl,
  inr, Option-cases,
}
use hfts.Vector.{
  Vector, Storage, is_null, is_heap, null, free, reserve, construct, copy_loop, assign, live_below,
}
use hfts.Vector.Holds.{Holds, live_below-get_elem?}

module _ {ℓ} {A : Type ℓ} where
  copy_null :
      (n i : ℕ) (other : ℕ → Option A) (v : Vector A)
      → is_null v.elements ≡ true
      → copy_loop (suc n) i other v ≡ none
  unfolding copy_loop construct
  copy_null n i other v h = elim (Option-cases (other i)) [
    | inl e ↦ rw (e, copy_loop)
    | inr (a, e) ↦ rw (e, copy_loop) (rw h)
  ]

  copy_null_pos :
      (n : ℕ) (other : ℕ → Option A) (v : Vector A)
      → 0 < n
      → is_null v.elements ≡ true
      → copy_loop n 0 other v ≡ none
  copy_null_pos zero other v pos h = absurd (omega arith)
  copy_null_pos (suc n) other v pos h = copy_null n 0 other v h

  freed_heap :
      (v : Vector A)
      → live_below v.count v.cells ≡ true
      → is_heap v.elements ≡ true
      → free v ≡ some (record v { elements = null; places = 0; cells = λ i. none })
  unfolding free
  freed_heap v l h = rw (l, h)

  kept_room :
      (t : Storage) (n : ℕ) (v : Vector A) → ltb v.capacity n ≡ false → reserve t n v ≡ some v
  unfolding reserve
  kept_room t n v h = rw h

  -- A vector that holds its elements on the heap, and to which a vector of one or more elements
  -- that fit its capacity is assigned, writes the elements through the null pointer.
  pub assign-heap_fails :
      (t : Storage) (v other : Vector A) (xs ys : List A)
      → Holds v xs
      → is_heap v.elements ≡ true
      → Holds other ys
      → 0 < length ys
      → length ys ≤ v.capacity
      → assign t other v ≡ none
  unfolding assign
  assign-heap_fails t v other xs ys h e ho pos fits =
      let live = live_below-get_elem? v.count xs v.cells h.cells (omega (arith, h.count)) in
      let emptied : Vector A = record v { elements = null; places = 0; cells = λ i. none } in
      rw (freed_heap v live e) (
        rw (kept_room t other.count emptied (ground (arith, ho.count))) (
          copy_null_pos other.count other.cells (record emptied { count = other.count })
            (omega (arith, ho.count)) refl))
