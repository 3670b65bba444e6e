-- ===== src/Vector/Resize.antt =====
-- include/hfts/containers.hpp: vector::resize.
use hfts.Base.{
  ℕ, zero, suc, ◌+◌, ◌-◌, ◌^◌, ◌≤◌, ◌<◌, ◌≡◌, refl, false, some, List, [], ◌∷◌, ◌++◌, length,
  length-append, get_elem?, dec64, u64_mod, arith, ◌∙◌, sym, subst, ==_ne,
}
use mathlib.Core.List.{append_assoc, append-nil}
use hfts.Vector.{
  Vector, Storage, is_null, reserve, construct, destroy, construct_loop, destroy_loop, resize,
}
use hfts.Vector.Holds.{Holds, Allocates, leb-false, reserve-Holds, get_elem?-lt}
use hfts.Vector.Push.{extended, extended-Holds, shortened}

module _ {ℓ} {A : Type ℓ} where
  abbrev pub take : ℕ → List A → List A
  take zero xs = []
  take (suc n) [] = []
  take (suc n) (x ∷ xs) = x ∷ take n xs

  abbrev pub replicate : ℕ → A → List A
  replicate zero a = []
  replicate (suc n) a = a ∷ replicate n a

  pub length-take : (n : ℕ) (xs : List A) → n ≤ length xs → length (take n xs) ≡ n
  length-take zero xs h = refl
  length-take (suc n) [] h = absurd (omega arith)
  length-take (suc n) (x ∷ xs) h = omega (arith, length-take n xs)

  get_elem?-take : (n i : ℕ) (xs : List A) → i < n → get_elem? (take n xs) i ≡ get_elem? xs i
  get_elem?-take zero i xs h = absurd (omega arith)
  get_elem?-take (suc n) i [] h = refl
  get_elem?-take (suc n) zero (x ∷ xs) h = refl
  get_elem?-take (suc n) (suc i) (x ∷ xs) h = get_elem?-take n i xs (omega arith)

  take-all : (n : ℕ) (xs : List A) → length xs ≤ n → take n xs ≡ xs
  take-all zero [] h = refl
  take-all zero (x ∷ xs) h = absurd (omega arith)
  take-all (suc n) [] h = refl
  take-all (suc n) (x ∷ xs) h = rw (take-all n xs (omega arith)) refl

  -- The list that resize makes of a list
  abbrev pub resized : A → ℕ → List A → List A
  resized fresh n xs = take n (xs ++ replicate (n - length xs) fresh)

  extended-capacity : (fresh : A) (v : Vector A) → (extended fresh v).capacity ≡ v.capacity
  unfolding extended
  extended-capacity fresh v = refl

  length-replicate : (n : ℕ) (a : A) → length (replicate n a) ≡ n
  length-replicate zero a = refl
  length-replicate (suc n) a = omega (arith, length-replicate n a)

  take-take : (m n : ℕ) (xs : List A) → m ≤ n → take m (take n xs) ≡ take m xs
  take-take zero n xs h = refl
  take-take (suc m) zero xs h = absurd (omega arith)
  take-take (suc m) (suc n) [] h = refl
  take-take (suc m) (suc n) (x ∷ xs) h = rw (take-take m n xs (omega arith)) refl

  construct_loop-suc :
      (k : ℕ) (fresh : A) (v : Vector A)
      → is_null v.elements ≡ false
      → v.count < v.places
      → construct_loop (suc k) fresh v ≡ construct_loop k fresh (extended fresh v)
  unfolding construct_loop construct extended
  construct_loop-suc k fresh v h room = rw h (rw (leb-false v.places v.count room) refl)

  construct_loop-zero : (fresh : A) (v : Vector A) → construct_loop zero fresh v ≡ some v
  unfolding construct_loop
  construct_loop-zero fresh v = refl

  construct_loop-Holds :
      (k : ℕ) (fresh : A) (v : Vector A) (xs : List A)
      → Holds v xs
      → length xs + k ≤ v.capacity
      → length xs + k < u64_mod
      → (w : Vector A) × (construct_loop k fresh v ≡ some w) × Holds w (xs ++ replicate k fresh)
  construct_loop-Holds zero fresh v xs h room small =
      (v, construct_loop-zero fresh v, rw (append-nil) h)
  construct_loop-Holds (suc k) fresh v xs h room small =
      let size = length-append xs (fresh ∷ []) in
      let more = extended-Holds fresh v xs h (omega arith) (omega arith) in
      let (w, ran, holds) =
        construct_loop-Holds k fresh (extended fresh v) (xs ++ fresh ∷ []) more
          (omega (arith, size, room, extended-capacity fresh v)) (omega (arith, size)) in
      (
        w,
        construct_loop-suc k fresh v h.stored (omega (arith, h.places, h.count)) ∙ ran,
        subst (λ ys. Holds w ys) (append_assoc xs (fresh ∷ []) (replicate k fresh)) holds,
      )

  destroy_loop-suc :
      (k : ℕ) (a : A) (v : Vector A)
      → v.cells (dec64 v.count) ≡ some a
      → destroy_loop (suc k) v ≡ destroy_loop k (shortened v)
  unfolding destroy_loop destroy shortened
  destroy_loop-suc k a v h = rw (h, destroy_loop)

  destroy_loop-zero : (v : Vector A) → destroy_loop zero v ≡ some v
  unfolding destroy_loop
  destroy_loop-zero v = refl

  shortened-Holds :
      (n : ℕ) (v : Vector A) (xs : List A)
      → Holds v xs
      → length xs ≡ suc n
      → suc n < u64_mod
      → Holds (shortened v) (take n xs)
  unfolding shortened
  shortened-Holds n v xs h size small =
      let last : dec64 v.count ≡ n = omega (arith, h.count) in
      let shorter = length-take n xs (omega arith) in
      record {
        count = omega (arith, last, shorter);
        room = omega (arith, h.room, h.count, last);
        places = h.places;
        stored = h.stored;
        cells = λ i lt. rw (==_ne i (dec64 v.count) (λ e. omega (arith, last, shorter))) (
            h.cells i (omega (arith, shorter))
            ∙ sym (get_elem?-take n i xs (omega (arith, shorter))));
      }

  destroy_loop-Holds :
      (k m : ℕ) (v : Vector A) (xs : List A)
      → Holds v xs
      → length xs ≡ m + k
      → length xs < u64_mod
      → (w : Vector A) × (destroy_loop k v ≡ some w) × Holds w (take m xs)
  destroy_loop-Holds zero m v xs h size small =
      (v, destroy_loop-zero v, rw (take-all m xs (omega arith)) h)
  destroy_loop-Holds (suc k) m v xs h size small =
      let (a, found) = get_elem?-lt xs (m + k) (omega arith) in
      let last : dec64 v.count ≡ m + k = omega (arith, h.count) in
      let here : v.cells (dec64 v.count) ≡ some a =
        rw last (h.cells (m + k) (omega arith) ∙ found) in
      let shorter = shortened-Holds (m + k) v xs h (omega arith) (omega arith) in
      let less = length-take (m + k) xs (omega arith) in
      let (w, ran, holds) =
        destroy_loop-Holds k m (shortened v) (take (m + k) xs) shorter less (omega (arith, less)) in
      (
        w,
        destroy_loop-suc k a v here ∙ ran,
        subst (λ ys. Holds w ys) (take-take m (m + k) xs (omega arith)) holds,
      )

  resize-eq :
      (t : Storage) (fresh : A) (n : ℕ) (v u w : Vector A)
      → reserve t n v ≡ some u
      → construct_loop (n - u.count) fresh u ≡ some w
      → resize t fresh n v ≡ destroy_loop (w.count - n) w
  unfolding resize
  resize-eq t fresh n v u w h k = rw (h, resize) (rw (k) refl)

  -- Resizing a vector to a size below 2 ^ 63 succeeds where it holds fewer than 2 ^ 63 elements,
  -- and gives what resizing a list gives: its first elements, and new elements behind them up to
  -- the size. The condition is that what `reserve` would ask for, sizeof(T) times twice the size or
  -- times 8, is below 2 ^ 64 bytes, and that the allocator does not return null for it.
  pub resize-Holds :
      (t : Storage) (fresh : A) (n : ℕ) (v : Vector A) (xs : List A)
      → Holds v xs
      → n < 2 ^ 63
      → length xs < 2 ^ 63
      → Allocates t n
      → (w : Vector A) × (resize t fresh n v ≡ some w) × Holds w (resized fresh n xs)
  resize-Holds t fresh n v xs h small few allocates =
      let (u, ran, hu, room) = reserve-Holds t n v xs h small allocates in
      let size : u.count ≡ length xs = hu.count in
      let more = n - length xs in
      let (w, built, hw) =
        construct_loop-Holds (n - u.count) fresh u xs hu (omega (arith, hu.room)) (omega arith) in
      let ys = xs ++ replicate (n - u.count) fresh in
      let total = length-append xs (replicate (n - u.count) fresh) in
      let many = length-replicate (n - u.count) fresh in
      let (z, dropped, hz) =
        destroy_loop-Holds (w.count - n) n w ys hw (omega (arith, hw.count, total, many))
          (omega (arith, total, many)) in
      (
        z,
        resize-eq t fresh n v u w ran built ∙ dropped,
        subst (λ k. Holds z (take n (xs ++ replicate (n - k) fresh))) size hz,
      )
