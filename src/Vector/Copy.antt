-- ===== src/Vector/Copy.antt =====
-- include/hfts/containers.hpp: operator= of vector, where the elements stay in the buffer, and where
-- they do not fit.
use hfts.Base.{
  ℕ, zero, suc, ◌+◌, ◌≤◌, ◌<◌, ◌≡◌, refl, true, false, Option, none, some, List, ◌==◌, ltb,
  if◌then◌else◌, update, length, get_elem?, arith, Bool-cases, inl, inr, ◌∙◌, sym,
}
use hfts.Vector.{
  Vector, Storage, is_null, is_heap, null, free, reserve, construct, copy_loop, assign, live_below,
}
use hfts.Vector.Holds.{Holds, leb-false, live_below-get_elem?, get_elem?-lt}

module _ {ℓ} {A : Type ℓ} where
  -- The places from `i` on hold the elements of the list.
  abbrev Filled : (ℕ → Option A) → List A → ℕ → Type ℓ
  Filled cells ys i = (j : ℕ) → j < i → cells j ≡ get_elem? ys j

  copy_loop-suc :
      (k i : ℕ) (a : A) (other : ℕ → Option A) (v : Vector A)
      → other i ≡ some a
      → is_null v.elements ≡ false
      → i < v.places
      → copy_loop (suc k) i other v
        ≡ copy_loop k (suc i) other (record v { cells = update v.cells i (some a) })
  unfolding copy_loop construct
  copy_loop-suc k i a other v e h room =
      rw (e, copy_loop) (rw h (rw (leb-false v.places i room) refl))

  copy_loop-zero : (i : ℕ) (other : ℕ → Option A) (v : Vector A) → copy_loop zero i other v ≡ some v
  unfolding copy_loop
  copy_loop-zero i other v = refl

  copy_loop-Holds :
      (k i : ℕ) (other : ℕ → Option A) (v : Vector A) (ys : List A)
      → ((j : ℕ) → j < length ys → other j ≡ get_elem? ys j)
      → Filled v.cells ys i
      → is_null v.elements ≡ false
      → i + k ≡ length ys
      → v.count ≡ length ys
      → length ys ≤ v.capacity
      → v.capacity ≤ v.places
      → (w : Vector A) × (copy_loop k i other v ≡ some w) × Holds w ys × (w.capacity ≡ v.capacity)
  copy_loop-Holds zero i other v ys o f h size count room places = (
    v,
    copy_loop-zero i other v,
    record {
      count = count;
      room = omega arith;
      places = places;
      stored = h;
      cells = λ j lt. f j (omega arith);
    },
    refl,
  )
  copy_loop-Holds (suc k) i other v ys o f h size count room places =
      let (a, found) = get_elem?-lt ys i (omega arith) in
      let built = o i (omega arith) ∙ found in
      let u : Vector A = record v { cells = update v.cells i (some a) } in
      let filled : Filled u.cells ys (suc i) = λ j lt. elim (Bool-cases (j == i)) [
        | inl e ↦ (let same : j ≡ i = ground arith in rw (e, same) (sym found))
        | inr e ↦ rw e (f j (ground arith))
      ] in
      let (w, ran, holds, kept) =
        copy_loop-Holds k (suc i) other u ys o filled h (omega arith) count room places in
      (w, copy_loop-suc k i a other v built h (omega arith) ∙ ran, holds, kept)

  freed : Vector A → Vector A
  freed v =
      if is_heap v.elements
      then record v { elements = null; places = 0; cells = λ i. none }
      else record v { cells = λ i. if ltb i v.count then none else v.cells i }

  free-eq : (v : Vector A) → live_below v.count v.cells ≡ true → free v ≡ some (freed v)
  unfolding free freed
  free-eq v h = elim (Bool-cases (is_heap v.elements)) [ inl e ↦ rw (h, e) | inr e ↦ rw (h, e) ]

  reserve-room : (t : Storage) (n : ℕ) (v : Vector A) → n ≤ v.capacity → reserve t n v ≡ some v
  unfolding reserve
  reserve-room t n v h = ground arith

  reserve-dead :
      (t : Storage) (n : ℕ) (v : Vector A)
      → v.capacity < n
      → live_below v.count v.cells ≡ false
      → reserve t n v ≡ none
  unfolding reserve
  reserve-dead t n v h d = ground arith

  live_below-first :
      (n : ℕ) (cells : ℕ → Option A) → cells 0 ≡ none → 0 < n → live_below n cells ≡ false
  unfolding live_below
  live_below-first zero cells h p = absurd (omega arith)
  live_below-first (suc zero) cells h p = rw h refl
  live_below-first (suc (suc n)) cells h p =
      rw (live_below-first (suc n) cells h (omega arith)) refl

  Holds-live : (v : Vector A) (xs : List A) → Holds v xs → live_below v.count v.cells ≡ true
  Holds-live v xs h = live_below-get_elem? v.count xs v.cells h.cells (omega (arith, h.count))

  assign-eq_room :
      (t : Storage) (other v u : Vector A)
      → free v ≡ some u
      → reserve t other.count u ≡ some u
      → assign t other v ≡ copy_loop other.count 0 other.cells (record u { count = other.count })
  unfolding assign
  assign-eq_room t other v u h k = rw h (rw k refl)

  assign-eq_dead :
      (t : Storage) (other v u : Vector A)
      → free v ≡ some u
      → reserve t other.count u ≡ none
      → assign t other v ≡ none
  unfolding assign
  assign-eq_dead t other v u h k = rw h (rw k refl)

  freed_buffer :
      (v : Vector A)
      → is_heap v.elements ≡ false
      → (is_null (freed v).elements ≡ is_null v.elements)
        × ((freed v).capacity ≡ v.capacity)
        × ((freed v).places ≡ v.places)
  unfolding freed
  freed_buffer v h = rw h (refl, refl, refl)

  freed_first :
      (v : Vector A)
      → 0 < v.count
      → ((freed v).cells 0 ≡ none) × ((freed v).count ≡ v.count) × ((freed v).capacity ≡ v.capacity)
  unfolding freed
  freed_first v p = elim (Bool-cases (is_heap v.elements)) [
    | inl e ↦ rw e (refl, refl, refl)
    | inr e ↦ rw e (ground arith, refl, refl)
  ]

  -- Assigning a vector that holds a list to a vector whose elements are not on the heap succeeds if
  -- the list fits the capacity. The vector then holds that list, and its capacity is as before.
  pub assign-Holds :
      (t : Storage) (v other : Vector A) (xs ys : List A)
      → Holds v xs
      → is_heap v.elements ≡ false
      → Holds other ys
      → length ys ≤ v.capacity
      → (w : Vector A) × (assign t other v ≡ some w) × Holds w ys × (w.capacity ≡ v.capacity)
  assign-Holds t v other xs ys h e o fits =
      let u = freed v in
      let (stored, kept, places) = freed_buffer v e in
      let roomy = reserve-room t other.count u (omega (arith, kept, o.count)) in
      let (w, ran, holds, same) =
        copy_loop-Holds other.count 0 other.cells (record u { count = other.count }) ys o.cells
          (λ j lt. absurd (omega arith)) (stored ∙ h.stored) (omega (arith, o.count)) o.count
          (omega (arith, kept)) (omega (arith, kept, places, h.places)) in
      (
        w,
        assign-eq_room t other v u (free-eq v (Holds-live v xs h)) roomy ∙ ran,
        holds,
        same ∙ kept,
      )

  -- Assigning a vector of more elements than the capacity to a vector that holds at least one
  -- element moves an element that has been destroyed already.
  pub assign-grow_fails :
      (t : Storage) (v other : Vector A) (xs ys : List A)
      → Holds v xs
      → 0 < length xs
      → Holds other ys
      → v.capacity < length ys
      → assign t other v ≡ none
  assign-grow_fails t v other xs ys h p o more =
      let u = freed v in
      let (gone, count, kept) = freed_first v (omega (arith, h.count)) in
      assign-eq_dead t other v u (free-eq v (Holds-live v xs h)) (
        reserve-dead t other.count u (omega (arith, kept, o.count))
          (live_below-first u.count u.cells gone (omega (arith, count, h.count))))
