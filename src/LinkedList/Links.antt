-- ===== src/LinkedList/Links.antt =====
-- include/hfts/containers.hpp: list::unlink and list::link on one chain, beside others.
use hfts.Base.{
  ℕ, ◌≡◌, refl, true, false, Option, none, some, List, [], ◌∷◌, ◌++◌, ◌==◌, if◌then◌else◌, arith,
  elem, elem-append, Distinct, ==_refl, inl, inr, ◌∙◌, sym, subst,
}
use hfts.LinkedList.{Nodes, is_at, unlink, link}
use hfts.LinkedList.Chain.{
  Chain, SameAt, SameAt-Chain, Distinct-middle, elem_ne, prev_in, next_in, unlink-Chain_lem,
  unlink-SameAt, unlinked_next, unlinked_prev,
}

-- No entry is in both lists.
abbrev pub Apart : List ℕ → List ℕ → Type 0
Apart es fs = (f : ℕ) → elem f es ≡ true → elem f fs ≡ false

module _ (n : Nodes) (pre post : List ℕ) (e : ℕ) (front : Option ℕ)
    (c : Chain n none front (pre ++ e ∷ post)) (d : Distinct (pre ++ e ∷ post)) where
  prev_away : (f : ℕ) → elem f pre ≡ false → is_at (n.prev e) f ≡ false
  prev_away f o = elim (prev_in n none front pre post e c) [
    | inl (x, z) ↦ rw x refl
    | inr (p, m, x) ↦ rw x (ground (arith, elem_ne p f pre m o))
  ]

  next_off : (f : ℕ) → elem f post ≡ false → is_at (n.next e) f ≡ false
  next_off f o = elim (next_in n none front pre post e c) [
    | inl x ↦ rw x refl
    | inr (q, m, x) ↦ rw x (ground (arith, elem_ne q f post m o))
  ]

  apart : is_at (n.prev e) e ≡ false
  apart = prev_away e (Distinct-middle pre post e d).0

  unlinked_front : (if is_at front e then n.next e else front) ≡ (unlink e front n).1
  unfolding unlink
  unlinked_front = refl

  -- An entry that is taken out of its chain leaves the rest of the chain, and points nowhere.
  pub unlink-Chain :
      Chain (unlink e front n).0 none (unlink e front n).1 (pre ++ post)
      × ((unlink e front n).0.next e ≡ none)
      × ((unlink e front n).0.prev e ≡ none)
  unlink-Chain = (
    subst (λ x. Chain (unlink e front n).0 none x (pre ++ post)) unlinked_front
        (unlink-Chain_lem n e front apart none front pre post c d tt),
    unlinked_next e e front n apart ∙ rw (==_refl e) refl,
    unlinked_prev e e front n apart ∙ rw (==_refl e) refl,
  )

  -- Chains of other entries are as they were.
  pub unlink-Apart : (es : List ℕ) → Apart es (pre ++ e ∷ post) → SameAt n (unlink e front n).0 es
  unlink-Apart es a = unlink-SameAt n e front apart es (λ f m.
      let out = a f m in
      (
        ground (arith, out, elem-append f pre (e ∷ post)),
        prev_away f (ground (arith, out, elem-append f pre (e ∷ post))),
        next_off f (ground (arith, out, elem-append f pre (e ∷ post))),
      ))

-- An entry that points nowhere is put before a chain.
pub link-Chain :
    (n : Nodes) (e : ℕ) (front : Option ℕ) (es : List ℕ)
    → Chain n none front es
    → Distinct (e ∷ es)
    → n.next e ≡ none
    → n.prev e ≡ none
    → Chain (link e front n).0 none (link e front n).1 (e ∷ es)
unfolding link
link-Chain n e none [] c d x y = (refl, y, x)
link-Chain n e none (z ∷ zs) c d x y = absurd (cc (c.0))
link-Chain n e (some f) [] c d x y = absurd (cc (c))
link-Chain n e (some f) (z ∷ zs) c d x y =
    let same : f ≡ z = ground (arith, c.0) in
    let m : Nodes = (link e (some f) n).0 in
    let ez : (e == z) ≡ false = ground (arith, d.0) in
    let ze : (z == e) ≡ false = ground (arith, d.0) in
    let here : m.next z ≡ n.next z = rw ze refl in
    let first : m.next e ≡ some z = rw (==_refl e) c.0 in
    let back : m.prev z ≡ some e = rw (same, ==_refl z) refl in
    let empty : m.prev e ≡ none = rw (same, ez) y in
    let rest : Chain m (some z) (n.next z) zs =
      SameAt-Chain n m (some z) (n.next z) zs
        (λ g u.
          let gz : (g == z) ≡ false = elem_ne g z zs u d.1.0 in
          let ge : (g == e) ≡ false = elem_ne g e zs u (ground (arith, d.0)) in
          (rw ge refl, rw (same, gz) refl))
        c.2 in
    (refl, empty, (first, back, subst (λ w. Chain m (some z) w zs) (sym here) rest))

pub link-Apart :
    (n : Nodes) (e : ℕ) (front : Option ℕ) (es hs : List ℕ)
    → Chain n none front es
    → Apart hs (e ∷ es)
    → SameAt n (link e front n).0 hs
unfolding link
link-Apart n e none es hs c a f m = (refl, refl)
link-Apart n e (some g) [] hs c a f m = absurd (cc (c))
link-Apart n e (some g) (z ∷ zs) hs c a f m =
    let same : g ≡ z = ground (arith, c.0) in
    let out = a f m in
    let fe : (f == e) ≡ false = ground (arith, out) in
    let fz : (f == z) ≡ false = ground (arith, out) in (rw fe refl, rw (same, fz) refl)
