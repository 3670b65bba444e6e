-- ===== src/Vector/Push.antt =====
-- include/hfts/containers.hpp: push_back and pop_back.
use hfts.Base.{
  subst, ◌+◌, ◌^◌, u64_mod, ◌≤◌, ◌<◌, ◌≡◌, refl, false, none, some, List, [], ◌∷◌, ◌++◌, length,
  length-append, arith, ◌==◌, update, Bool-cases, inl, inr, inc64, dec64, ==_ne, ◌∙◌, sym,
}
use hfts.Vector.{Vector, Storage, is_null, reserve, construct, push_back, pop_back, back}
use hfts.Vector.Holds.{Holds, Allocates, leb-false, reserve-Holds, get_elem?-append, get_elem?-snoc}

module _ {ℓ} {A : Type ℓ} where
  -- The vector after an element has been built behind the last.
  unfoldable pub extended : A → Vector A → Vector A
  extended a w = record w { count = inc64 w.count; cells = update w.cells w.count (some a) }

  pub extended-Holds :
      (a : A) (w : Vector A) (xs : List A)
      → Holds w xs
      → length xs + 1 < u64_mod
      → length xs + 1 ≤ w.capacity
      → Holds (extended a w) (xs ++ a ∷ [])
  unfolding extended
  extended-Holds a w xs h small room = record {
    count = omega (arith, h.count, length-append xs (a ∷ []));
    room = omega (arith, h.count);
    places = h.places;
    stored = h.stored;
    cells = λ i lt. elim (Bool-cases (i == w.count)) [
      | inl e ↦
          let last : i ≡ length xs = ground (arith, h.count) in
          rw (e, last) (cc (get_elem?-snoc xs a))
      | inr e ↦
          let before : i < length xs = ground (arith, h.count, length-append xs (a ∷ [])) in
          rw e (h.cells i before ∙ sym (get_elem?-append xs (a ∷ []) i before))
    ];
  }

  push_back-eq :
      (t : Storage) (a : A) (v w : Vector A)
      → reserve t (inc64 v.count) v ≡ some w
      → is_null w.elements ≡ false
      → w.count < w.places
      → push_back t a v ≡ some (extended a w)
  unfolding push_back construct extended
  push_back-eq t a v w ran stored room =
      rw (ran, push_back) (rw (stored) (rw (leb-false w.places w.count room) refl))

  -- Pushing an element on a vector that holds a list of fewer than 2 ^ 63 - 1 elements succeeds,
  -- and the vector then holds the list with the element at its end. The condition is that what
  -- `reserve` would ask for to hold them, sizeof(T) times twice their number or times 8, is below 2
  -- ^ 64 bytes, and that the allocator does not return null for it.
  pub push_back-Holds :
      (t : Storage) (a : A) (v : Vector A) (xs : List A)
      → Holds v xs
      → length xs + 1 < 2 ^ 63
      → Allocates t (length xs + 1)
      → (w : Vector A) × (push_back t a v ≡ some w) × Holds w (xs ++ a ∷ [])
  push_back-Holds t a v xs h small allocates =
      let next : length xs + 1 ≡ inc64 v.count = omega (arith, h.count) in
      let (w, ran, hw, room) =
        reserve-Holds t (inc64 v.count) v xs h (omega (arith, h.count))
          (subst (Allocates t) next allocates) in
      (
        extended a w,
        push_back-eq t a v w ran hw.stored (omega (arith, room, hw.places, h.count, hw.count)),
        extended-Holds a w xs hw (omega arith) (omega (arith, h.count, hw.count)),
      )

  unfoldable pub shortened : Vector A → Vector A
  shortened v = record v { count = dec64 v.count; cells = update v.cells (dec64 v.count) none }

  pub pop_back-eq :
      (v : Vector A) (a : A) → v.cells (dec64 v.count) ≡ some a → pop_back v ≡ some (shortened v)
  unfolding pop_back shortened
  pop_back-eq v a e = rw (e, pop_back)

  -- Of a vector that holds a list with an element at its end, of fewer than 2 ^ 64 elements, `back`
  -- reads that element, and popping succeeds, leaves the list before it and keeps the capacity.
  pub pop_back-Holds :
      (a : A) (v : Vector A) (xs : List A)
      → Holds v (xs ++ a ∷ [])
      → length xs + 1 < u64_mod
      → (back v ≡ some a)
        × ((w : Vector A) × (pop_back v ≡ some w) × Holds w xs × (w.capacity ≡ v.capacity))
  unfolding back shortened
  pop_back-Holds a v xs h small =
      let size = length-append xs (a ∷ []) in
      let last : dec64 v.count ≡ length xs = omega (arith, h.count, size) in
      let found : v.cells (dec64 v.count) ≡ some a =
        rw last (h.cells (length xs) (omega (arith, size)) ∙ get_elem?-snoc xs a) in
      (
        found,
        (
          shortened v,
          pop_back-eq v a found,
          record {
            count = last;
            room = omega (arith, h.room, h.count, size, last);
            places = h.places;
            stored = h.stored;
            cells = λ i lt.
                rw (==_ne i (dec64 v.count) (λ e. omega arith))
                  (h.cells i (omega (arith, size)) ∙ get_elem?-append xs (a ∷ []) i lt);
          },
          refl,
        ),
      )
