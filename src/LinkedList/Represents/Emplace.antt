-- ===== src/LinkedList/Represents/Emplace.antt =====
-- include/hfts/containers.hpp: list::emplace_front, with and without list::grow.
use hfts.Base.{
  ℕ, zero, suc, ◌+◌, ◌-◌, ◌≤◌, ◌<◌, ◌^◌, ◌≡◌, refl, false, none, some, List, [], ◌∷◌, ◌++◌, update,
  arith, length, elem, elem-append, Distinct, ap, ◌∙◌, subst, inc64, u64_mod, max, ==_refl,
  length-append,
}
use hfts.LinkedList.{LinkedList, Layouts, link, unlink, place, grow, grow_loop, emplace_front}
use hfts.LinkedList.Chain.{SameAt-Chain}
use hfts.LinkedList.Links.{Apart, unlink-Chain, unlink-Apart, link-Chain, link-Apart}
use hfts.LinkedList.Grow.{block, length-block, grow_loop_lem}
use hfts.LinkedList.Represents.{
  Owns, Represents, places, Stored-update, Distinct-append, append-Distinct, Apart-sym,
}

block-new : (base k i : ℕ) → i ≤ k → elem (base + k) (block base i ++ []) ≡ false
unfolding block
block-new base k zero h = refl
block-new base k (suc i) h = ground (arith, block-new base k i)

block-Distinct : (base k : ℕ) → Distinct (block base k ++ [])
unfolding block
block-Distinct base zero = tt
block-Distinct base (suc k) = (block-new base k k (omega arith), block-Distinct base k)

block-first :
    (base k : ℕ) → 0 < k → block base k ++ [] ≡ (base + (k - 1)) ∷ (block base (k - 1) ++ [])
unfolding block
block-first base zero h = absurd (omega arith)
block-first base (suc k) h = let less : suc k - 1 ≡ k = omega arith in rw less refl

module _ {ℓ} {A : Type ℓ} where
  -- The list after the first free entry has taken an element.
  placed : ℕ → A → LinkedList A → LinkedList A
  placed e a l =
      let u = unlink e l.free l.nodes in
      let k = link e l.head u.0 in
      record l {
        free = u.1;
        head = k.1;
        nodes = k.0;
        objects = update l.objects e (some a);
        size = inc64 l.size;
      }

  place-eq :
      (e : ℕ) (a : A) (l : LinkedList A) → l.free ≡ some e → place a l ≡ some (placed e a l, e)
  unfolding place placed
  place-eq e a l h = rw (h, place) (rw h refl)

  placed-Owns :
      (e : ℕ) (a : A) (l : LinkedList A) (fs : List ℕ) (items : List (ℕ × A))
      → Owns l (e ∷ fs) items
      → length items + 1 < u64_mod
      → Owns (placed e a l) fs ((e, a) ∷ items)
  unfolding placed
  placed-Owns e a l fs items o small =
      let n = l.nodes in
      let u = unlink e l.free n in
      let (dfs, dis, apart) = Distinct-append (e ∷ fs) (places items) o.distinct in
      let out : elem e (places items) ≡ false = apart e (ground arith) in
      let (frees, next, prev) = unlink-Chain n [] fs e l.free o.free_chain dfs in
      let heads =
        SameAt-Chain n u.0 none l.head (places items)
          (unlink-Apart n [] fs e l.free o.free_chain dfs (places items)
            (Apart-sym (e ∷ fs) (places items) apart))
          o.head_chain in
      let k = link e l.head u.0 in
      let away : Apart fs (e ∷ places items) = λ f m. ground (arith, apart f, m, dfs.0) in
      record {
        free_chain =
            SameAt-Chain u.0 k.0 none u.1 fs (link-Apart u.0 e l.head (places items) fs heads away)
              frees;
        head_chain = link-Chain u.0 e l.head (places items) heads (out, dis) next prev;
        distinct = append-Distinct fs (e ∷ places items) dfs.1 (out, dis) away;
        size = omega (arith, o.size);
        capacity = omega (arith, o.capacity);
        stored = (rw (==_refl e) refl, Stored-update l.objects e (some a) items out o.stored);
      }

  grow-Owns :
      (t : Layouts) (ptr base count : ℕ) (l : LinkedList A) (fs : List ℕ) (items : List (ℕ × A))
      → Owns l fs items
      → Distinct (block base count ++ fs)
      → Apart (block base count) (places items)
      → l.capacity + count < u64_mod
      → Owns (grow t ptr base count l) (block base count ++ fs) items
  unfolding grow
  grow-Owns t ptr base count l fs items o d fresh small =
      let (_, dis, apart) = Distinct-append fs (places items) o.distinct in
      let (chain, same) = grow_loop_lem base count l.nodes l.free fs o.free_chain d in
      let away : Apart (block base count ++ fs) (places items) =
        λ f m. ground (arith, apart f, fresh f, m, elem-append f (block base count) fs) in
      record {
        free_chain = chain;
        head_chain =
            SameAt-Chain l.nodes (grow_loop base count (l.nodes, l.free)).0 none l.head
              (places items)
              (same (places items) (Apart-sym (block base count ++ fs) (places items) away))
              o.head_chain;
        distinct = append-Distinct (block base count ++ fs) (places items) d dis away;
        size = o.size;
        capacity =
            omega (arith, o.capacity, length-append (block base count) fs, length-block base count);
        stored = o.stored;
      }

  emplace-eq_free :
      (t : Layouts) (ptr base e : ℕ) (a : A) (l : LinkedList A)
      → l.free ≡ some e
      → emplace_front t ptr base a l ≡ place a l
  unfolding emplace_front
  emplace-eq_free t ptr base e a l h =
      ap
        (λ o. elim o [ none ↦ place a (grow t ptr base (max l.capacity 8) l) | some _ ↦ place a l ])
        h

  emplace-eq_grow :
      (t : Layouts) (ptr base : ℕ) (a : A) (l : LinkedList A)
      → l.free ≡ none
      → emplace_front t ptr base a l ≡ place a (grow t ptr base (max l.capacity 8) l)
  unfolding emplace_front
  emplace-eq_grow t ptr base a l h =
      ap
        (λ o. elim o [ none ↦ place a (grow t ptr base (max l.capacity 8) l) | some _ ↦ place a l ])
        h

  place-Represents :
      (a : A) (l : LinkedList A) (fs : List ℕ) (items : List (ℕ × A)) (e : ℕ)
      → Owns l (e ∷ fs) items
      → length items + 1 < u64_mod
      → (place a l ≡ some (placed e a l, e))
        × Owns (placed e a l) fs ((e, a) ∷ items)
        × (elem e (places items) ≡ false)
  place-Represents a l fs items e o small =
      let (_, _, apart) = Distinct-append (e ∷ fs) (places items) o.distinct in
      (place-eq e a l o.free_chain.0, placed-Owns e a l fs items o small, apart e (ground arith))

  -- Placing an element at the front of a list that stands for a sequence succeeds. The list then
  -- stands for that sequence with the element before it, in an entry that no element of the
  -- sequence has. The conditions are a capacity below 2 ^ 62, and, if no entry is free, that no
  -- entry of the new block is in use.
  pub emplace_front-Represents :
      (t : Layouts) (ptr base : ℕ) (a : A) (l : LinkedList A) (items : List (ℕ × A))
      → Represents l items
      → l.capacity < 2 ^ 62
      → (l.free ≡ none → Apart (block base (max l.capacity 8)) (places items))
      → (l' : LinkedList A) × (e : ℕ) × (emplace_front t ptr base a l ≡ some (l', e))
        × Represents l' ((e, a) ∷ items)
        × (elem e (places items) ≡ false)
  emplace_front-Represents t ptr base a l items (e ∷ fs, o) small fresh =
      let (ran, owns, new) = place-Represents a l fs items e o (omega (arith, o.capacity)) in
      (placed e a l, e, emplace-eq_free t ptr base e a l o.free_chain.0 ∙ ran, (fs, owns), new)
  emplace_front-Represents t ptr base a l items ([], o) small fresh =
      let count = max l.capacity 8 in
      let g = grow t ptr base count l in
      let grown =
        grow-Owns t ptr base count l [] items o (block-Distinct base count) (fresh o.free_chain)
          (ground arith) in
      let first = base + (count - 1) in
      let owns = subst (λ fs. Owns g fs items) (block-first base count (ground arith)) grown in
      let (ran, more, new) =
        place-Represents a g (block base (count - 1) ++ []) items first owns
          (omega (arith, o.capacity)) in
      (
        placed first a g,
        first,
        emplace-eq_grow t ptr base a l o.free_chain ∙ ran,
        (block base (count - 1) ++ [], more),
        new,
      )
