-- ===== src/Vector/Holds.antt =====
-- include/hfts/containers.hpp: the list that a vector stands for.
use hfts.Base.{
  ap, ◌∙◌, sym, ==_ne, ◌==◌, leb, ◌/◌, ℕ, zero, suc, ◌*◌, ◌%◌, ◌^◌, max, u64_mod, if◌then◌else◌,
  Bool-cases, ◌≤◌, ◌<◌, ◌≡◌, refl, true, false, Option, none, some, List, [], ◌∷◌, ◌++◌, length,
  get_elem?, arith, ltb, inl, inr,
}
use native.Mathlib.Nat.{mul-div_cancel_left, mod-eq_of_lt}
use hfts.Vector.{Vector, Storage, is_null, live_below, reserve, request_of, grown, grown_places}

-- The allocator returns storage for what vector::reserve asks for to hold `n` elements, and the number of
-- bytes does not wrap.
abbrev pub Allocates : Storage → ℕ → Type 0
Allocates t n =
    (0 < t.size_of)
    × (t.size_of * max (n * 2) 8 < u64_mod)
    × (0 < t.allocate (t.size_of * max (n * 2) 8))

-- The storage that is then got
grown_lem :
    (t : Storage) (n : ℕ)
    → n < 2 ^ 63
    → Allocates t n
    → let capacity = max ((n * 2) % u64_mod) 8 in
      (is_null (grown t capacity) ≡ false)
      × (grown_places t capacity ≡ capacity)
      × (capacity ≡ max (n * 2) 8)
grown_lem t n small (some_bytes, fits, given) =
    let capacity = max ((n * 2) % u64_mod) 8 in
    let same : capacity ≡ max (n * 2) 8 = ground arith in
    let asked : request_of t capacity ≡ t.size_of * max (n * 2) 8 =
      ap (request_of t) same ∙ mod-eq_of_lt fits in
    let there : (t.allocate (request_of t capacity) == 0) ≡ false =
      ==_ne (t.allocate (request_of t capacity)) 0
        (λ z. omega (arith, ap t.allocate asked, z, given)) in
    (
      rw there refl,
      rw there (
          ap (λ (b : ℕ). b / t.size_of) asked
          ∙ mul-div_cancel_left (max (n * 2) 8) some_bytes
          ∙ sym same),
      same,
    )

leb-true : (a b : ℕ) → a ≤ b → leb a b ≡ true
leb-true a b h = ground arith

pub leb-false : (a b : ℕ) → b < a → leb a b ≡ false
leb-false a b h = ground arith

module _ {ℓ} {A : Type ℓ} where
  -- The vector holds the elements of the list, in order, within its capacity.
  pub record Holds (v : Vector A) (xs : List A) : Type ℓ where
    pub count : v.count ≡ length xs
    pub room : v.count ≤ v.capacity
    pub places : v.capacity ≤ v.places
    pub stored : is_null v.elements ≡ false
    pub cells : (i : ℕ) → i < length xs → v.cells i ≡ get_elem? xs i

  pub get_elem?-lt : (xs : List A) (i : ℕ) → i < length xs → (a : A) × (get_elem? xs i ≡ some a)
  get_elem?-lt [] i h = elim h [ ]
  get_elem?-lt (x ∷ xs) zero h = (x, refl)
  get_elem?-lt (x ∷ xs) (suc i) h = get_elem?-lt xs i (omega arith)

  pub live_below-get_elem? :
      (n : ℕ) (xs : List A) (cells : ℕ → Option A)
      → ((i : ℕ) → i < length xs → cells i ≡ get_elem? xs i)
      → n ≤ length xs
      → live_below n cells ≡ true
  unfolding live_below
  live_below-get_elem? zero xs cells h le = refl
  live_below-get_elem? (suc n) xs cells h le =
      let (a, e) = get_elem?-lt xs n (omega arith) in
      rw (live_below-get_elem? n xs cells h (omega arith), h n (omega arith), e)

  pub get_elem?-append :
      (xs ys : List A) (i : ℕ) → i < length xs → get_elem? (xs ++ ys) i ≡ get_elem? xs i
  get_elem?-append [] ys i h = elim h [ ]
  get_elem?-append (x ∷ xs) ys zero h = refl
  get_elem?-append (x ∷ xs) ys (suc i) h = get_elem?-append xs ys i (omega arith)

  pub get_elem?-snoc : (xs : List A) (x : A) → get_elem? (xs ++ x ∷ []) (length xs) ≡ some x
  get_elem?-snoc [] x = refl
  get_elem?-snoc (y ∷ xs) x = get_elem?-snoc xs x

  reserve-eq :
      (t : Storage) (n : ℕ) (v : Vector A)
      → ltb v.capacity n ≡ true
      → live_below v.count v.cells ≡ true
      → v.count ≤ grown_places t (max ((n * 2) % u64_mod) 8)
      → reserve t n v
        ≡ some (record v {
          capacity = max ((n * 2) % u64_mod) 8;
          elements = grown t (max ((n * 2) % u64_mod) 8);
          places = grown_places t (max ((n * 2) % u64_mod) 8);
          cells = λ i. if ltb i v.count then v.cells i else none;
        })
  unfolding reserve
  reserve-eq t n v e live fits =
      rw (e, reserve) (rw (live, reserve) (rw (leb-true v.count _ fits, reserve) refl))

  -- Reserving changes no element, and makes room.
  pub reserve-Holds :
      (t : Storage) (n : ℕ) (v : Vector A) (xs : List A)
      → Holds v xs
      → n < 2 ^ 63
      → Allocates t n
      → (w : Vector A) × (reserve t n v ≡ some w) × Holds w xs × (n ≤ w.capacity)
  unfolding reserve
  reserve-Holds t n v xs h small allocates = elim (Bool-cases (ltb v.capacity n)) [
    | inl e ↦
        let capacity = max ((n * 2) % u64_mod) 8 in
        let (stored, rooms, _) = grown_lem t n small allocates in
        let before : v.capacity < n = ground arith in
        let live = live_below-get_elem? v.count xs v.cells h.cells (omega (arith, h.count)) in
        (
          record v {
            capacity = capacity;
            elements = grown t capacity;
            places = grown_places t capacity;
            cells = λ i. if ltb i v.count then v.cells i else none;
          },
          reserve-eq t n v e live (omega (arith, rooms, h.room, before)),
          record {
            count = h.count;
            room = ground (arith, h.room);
            places = omega (arith, rooms);
            stored = stored;
            cells = λ i lt. ground (arith, h.cells i lt, h.count);
          },
          ground arith,
        )
    | inr e ↦ (v, rw (e, reserve), h, ground arith)
  ]
