-- ===== src/LinkedList/Grow.antt =====
-- include/hfts/containers.hpp: the loop of list::grow.
use hfts.Base.{
  ℕ, zero, suc, ◌+◌, ◌≤◌, ◌<◌, ◌≡◌, refl, true, false, Option, none, some, List, [], ◌∷◌, ◌++◌,
  ◌==◌, arith, length, elem, Distinct, ==_refl, ◌∙◌, sym, subst,
}
use hfts.LinkedList.{Nodes, grow_entry, grow_loop}
use hfts.LinkedList.Chain.{Chain, SameAt, SameAt-Chain, elem_ne}
use hfts.LinkedList.Links.{Apart}

-- The entries from `base` on, the last first.
unfoldable pub block : ℕ → ℕ → List ℕ
block base zero = []
block base (suc k) = (base + k) ∷ block base k

pub elem-block : (e base k : ℕ) → elem e (block base k) ≡ true → (base ≤ e) × (e < base + k)
unfolding block
elem-block e base zero h = absurd (cc)
elem-block e base (suc k) h = ground (arith, elem-block e base k)

pub length-block : (base k : ℕ) → length (block base k) ≡ k
unfolding block
length-block base zero = refl
length-block base (suc k) = omega (arith, length-block base k)

grow_entry-Chain :
    (e : ℕ) (n : Nodes) (free : Option ℕ) (es : List ℕ)
    → Chain n none free es
    → Distinct (e ∷ es)
    → Chain (grow_entry e (n, free)).0 none (grow_entry e (n, free)).1 (e ∷ es)
unfolding grow_entry
grow_entry-Chain e n free [] c d = rw (c) (refl, rw (==_refl e) refl, rw (==_refl e) refl)
grow_entry-Chain e n free (z ∷ zs) c d =
    let m : Nodes = (grow_entry e (n, free)).0 in
    let ez : (e == z) ≡ false = ground (arith, d.0) in
    let ze : (z == e) ≡ false = ground (arith, d.0) in
    let first : m.next e ≡ some z = rw (==_refl e) c.0 in
    let empty : m.prev e ≡ none = rw (c.0) (rw (ez) (rw (==_refl e) refl)) in
    let back : m.prev z ≡ some e = rw (c.0) (rw (==_refl z) refl) in
    let here : m.next z ≡ n.next z = rw ze refl in
    let rest : Chain m (some z) (n.next z) zs =
      SameAt-Chain n m (some z) (n.next z) zs
        (λ g u.
          let gz : (g == z) ≡ false = elem_ne g z zs u d.1.0 in
          let ge : (g == e) ≡ false = elem_ne g e zs u (ground (arith, d.0)) in
          (rw ge refl, rw (c.0) (rw (gz) (rw ge refl))))
        c.2 in
    (refl, empty, (first, back, subst (λ w. Chain m (some z) w zs) (sym here) rest))

grow_entry-Apart :
    (e : ℕ) (n : Nodes) (free : Option ℕ) (es hs : List ℕ)
    → Chain n none free es
    → Apart hs (e ∷ es)
    → SameAt n (grow_entry e (n, free)).0 hs
unfolding grow_entry
grow_entry-Apart e n free [] hs c a f m =
    let fe : (f == e) ≡ false = ground (arith, a f m) in (rw fe refl, rw c (rw fe refl))
grow_entry-Apart e n free (z ∷ zs) hs c a f m =
    let out = a f m in
    let fe : (f == e) ≡ false = ground (arith, out) in
    let fz : (f == z) ≡ false = ground (arith, out) in (rw fe refl, rw c.0 (rw fz (rw fe refl)))

-- The loop puts the block before the entries that are free, and leaves other chains as they were.
pub grow_loop_lem :
    (base k : ℕ) (n : Nodes) (free : Option ℕ) (es : List ℕ)
    → Chain n none free es
    → Distinct (block base k ++ es)
    → let r = grow_loop base k (n, free) in
      Chain r.0 none r.1 (block base k ++ es)
      × ((hs : List ℕ) → Apart hs (block base k ++ es) → SameAt n r.0 hs)
unfolding block grow_loop
grow_loop_lem base zero n free es c d = (c, λ hs a f m. (refl, refl))
grow_loop_lem base (suc k) n free es c d =
    let (chain, same) = grow_loop_lem base k n free es c d.1 in
    let r = grow_loop base k (n, free) in
    (
      grow_entry-Chain (base + k) r.0 r.1 (block base k ++ es) chain d,
      λ hs a f m.
          let (x, y) = grow_entry-Apart (base + k) r.0 r.1 (block base k ++ es) hs chain a f m in
          let (u, v) = same hs (λ g w. ground (arith, a g w)) f m in (x ∙ u, y ∙ v),
    )
