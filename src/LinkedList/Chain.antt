-- ===== src/LinkedList/Chain.antt =====
-- include/hfts/containers.hpp: the entries of list as chains, and list::unlink and list::link.
use hfts.Base.{
  ℕ, ◌≡◌, refl, true, false, Option, none, some, List, [], ◌∷◌, ◌++◌, ◌==◌, if◌then◌else◌, arith,
  elem, elem-append, Distinct, Bool-cases, ==_refl, Option-cases, inl, inr, ◌⊎◌, ◌∙◌, sym, ap,
  subst,
}
use hfts.LinkedList.{Nodes, is_at, unlink}

-- From `cur` on, `next` goes along `es` to null, and `prev` goes back, at last to `before`.
abbrev pub Chain : Nodes → Option ℕ → Option ℕ → List ℕ → Type 0
Chain n before cur [] = cur ≡ none
Chain n before cur (e ∷ es) = (cur ≡ some e) × (n.prev e ≡ before) × Chain n (some e) (n.next e) es

-- The pointers of the entries of `es` are the same.
abbrev pub SameAt : Nodes → Nodes → List ℕ → Type 0
SameAt n m es = (e : ℕ) → elem e es ≡ true → (m.next e ≡ n.next e) × (m.prev e ≡ n.prev e)

pub SameAt-Chain :
    (n m : Nodes) (before cur : Option ℕ) (es : List ℕ)
    → SameAt n m es
    → Chain n before cur es
    → Chain m before cur es
SameAt-Chain n m before cur [] s c = c
SameAt-Chain n m before cur (e ∷ es) s c =
    let (next, prev) = s e (ground arith) in
    (
      c.0,
      prev ∙ c.1,
      subst (λ x. Chain m (some e) x es) (sym next)
          (SameAt-Chain n m (some e) (n.next e) es (λ f y. s f (ground arith)) c.2),
    )

-- The pointers after `unlink`
pub unlinked_next :
    (e f : ℕ) (front : Option ℕ) (n : Nodes)
    → is_at (n.prev e) e ≡ false
    → (unlink e front n).0.next f
      ≡ (if f == e then none else if is_at (n.prev e) f then n.next e else n.next f)
unfolding unlink
unlinked_next e f front n h = elim (Option-cases (n.prev e)) [
  | inl x ↦ ground (arith, x)
  | inr (p, x) ↦ ground (arith, x)
]

pub unlinked_prev :
    (e f : ℕ) (front : Option ℕ) (n : Nodes)
    → is_at (n.prev e) e ≡ false
    → (unlink e front n).0.prev f
      ≡ (if f == e then none else if is_at (n.next e) f then n.prev e else n.prev f)
unfolding unlink
unlinked_prev e f front n h = elim (Option-cases (n.prev e)) [
  | inl x ↦ (elim (Option-cases (n.next e)) [
    | inl y ↦ ground (arith, x, y)
    | inr (q, y) ↦ ground (arith, x, y)
  ])
  | inr (p, x) ↦ (elim (Option-cases (n.next e)) [
    | inl y ↦ ground (arith, x, y)
    | inr (q, y) ↦ ground (arith, x, y)
  ])
]

-- A null pointer, or a pointer to no entry of the list
abbrev pub Outside : Option ℕ → List ℕ → Type 0
Outside none es = Unit
Outside (some b) es = elem b es ≡ false

pub elem_ne : (f e : ℕ) (es : List ℕ) → elem f es ≡ true → elem e es ≡ false → (f == e) ≡ false
elem_ne f e es m o = elim (Bool-cases (f == e)) [
  | inl y ↦ (let same : f ≡ e = ground arith in absurd (cc (m, o, ap (λ x. elem x es) same)))
  | inr n ↦ n
]

pub Outside-is_at :
    (b : Option ℕ) (f : ℕ) (es : List ℕ) → Outside b es → elem f es ≡ true → is_at b f ≡ false
Outside-is_at none f es o m = refl
Outside-is_at (some b) f es o m = ground (arith, elem_ne f b es m o)

Outside-tail : (b : Option ℕ) (e : ℕ) (es : List ℕ) → Outside b (e ∷ es) → Outside b es
Outside-tail none e es o = tt
Outside-tail (some b) e es o = ground (arith, o)

pub prev_in :
    (n : Nodes) (before cur : Option ℕ) (pre post : List ℕ) (e : ℕ)
    → Chain n before cur (pre ++ e ∷ post)
    → ((n.prev e ≡ before) × (pre ≡ [])) ⊎ ((p : ℕ) × (elem p pre ≡ true) × (n.prev e ≡ some p))
prev_in n before cur [] post e c = inl (c.1, refl)
prev_in n before cur (y ∷ ys) post e c = elim (prev_in n (some y) (n.next y) ys post e c.2) [
  | inl (x, z) ↦ inr (y, ground arith, x)
  | inr (p, m, x) ↦ inr (p, ground arith, x)
]

pub next_in :
    (n : Nodes) (before cur : Option ℕ) (pre post : List ℕ) (e : ℕ)
    → Chain n before cur (pre ++ e ∷ post)
    → (n.next e ≡ none) ⊎ ((q : ℕ) × (elem q post ≡ true) × (n.next e ≡ some q))
next_in n before cur [] [] e c = inl c.2
next_in n before cur [] (z ∷ zs) e c = inr (z, ground arith, c.2.0)
next_in n before cur (y ∷ ys) post e c = next_in n (some y) (n.next y) ys post e c.2

pub Distinct-middle :
    (pre post : List ℕ) (e : ℕ)
    → Distinct (pre ++ e ∷ post)
    → (elem e pre ≡ false) × (elem e post ≡ false) × Distinct (pre ++ post)
Distinct-middle [] post e d = (refl, d.0, d.1)
Distinct-middle (y ∷ ys) post e d =
    let (a, b, c) = Distinct-middle ys post e d.1 in
    (
      ground (arith, d.0, elem-append y ys (e ∷ post), a),
      b,
      (ground (arith, d.0, elem-append y ys (e ∷ post), elem-append y ys post), c),
    )

pub next_away :
    (n : Nodes) (before cur : Option ℕ) (pre post : List ℕ) (e y : ℕ)
    → Chain n before cur (pre ++ e ∷ post)
    → elem y post ≡ false
    → is_at (n.next e) y ≡ false
next_away n before cur pre post e y c o = elim (next_in n before cur pre post e c) [
  | inl x ↦ rw x refl
  | inr (q, m, x) ↦ rw x (ground (arith, elem_ne q y post m o))
]

link_both :
    (n : Nodes) (y e : ℕ) (ys post : List ℕ)
    → Chain n (some y) (n.next y) (ys ++ e ∷ post)
    → elem y (ys ++ e ∷ post) ≡ false
    → elem e ys ≡ false
    → is_at (n.prev e) y ≡ is_at (n.next y) e
link_both n y e [] post c d f = rw (c.0, c.1) (ground arith)
link_both n y e (w ∷ ws) post c d f = elim (prev_in n (some w) (n.next w) ws post e c.2) [
  | inl (x, z) ↦ rw (c.0, x) (ground (arith, d, f))
  | inr (p, m, x) ↦ rw (c.0, x) (ground (arith, d, f, m, elem-append y ws (e ∷ post)))
]

module _ (n : Nodes) (e : ℕ) (front : Option ℕ) (apart : is_at (n.prev e) e ≡ false) where
  pub unlink-SameAt :
      (es : List ℕ)
      → ((f : ℕ)
          → elem f es ≡ true
          → ((f == e) ≡ false) × (is_at (n.prev e) f ≡ false) × (is_at (n.next e) f ≡ false))
      → SameAt n (unlink e front n).0 es
  unlink-SameAt es out f m =
      let (a, b, c) = out f m in
      (
        unlinked_next e f front n apart ∙ rw (a, b) refl,
        unlinked_prev e f front n apart ∙ rw (a, c) refl,
      )

  unlink-Chain_first :
      (before cur : Option ℕ) (post : List ℕ)
      → Chain n before cur (e ∷ post)
      → Distinct (e ∷ post)
      → Outside before post
      → Chain (unlink e front n).0 before (n.next e) post
  unlink-Chain_first before cur [] c d o = c.2
  unlink-Chain_first before cur (z ∷ zs) c d o =
      let ne : (z == e) ≡ false = ground (arith, d.0) in
      let m = (unlink e front n).0 in
      let here : m.next z ≡ n.next z =
        unlinked_next e z front n apart
        ∙ rw (ne, c.1, Outside-is_at before z (z ∷ zs) o (ground arith)) refl in
      (
        c.2.0,
        unlinked_prev e z front n apart ∙ rw (ne, c.2.0) (ground (arith, c.1)),
        subst (λ x. Chain m (some z) x zs) (sym here)
            (SameAt-Chain n m (some z) (n.next z) zs
              (unlink-SameAt zs (λ f y. (
                elem_ne f e zs y (ground (arith, d.0)),
                rw c.1 (Outside-is_at before f (z ∷ zs) o (ground arith)),
                rw c.2.0 (ground (arith, elem_ne f z zs y d.1.0)),
              )))
              c.2.2),
      )

  pub unlink-Chain_lem :
      (before cur : Option ℕ) (pre post : List ℕ)
      → Chain n before cur (pre ++ e ∷ post)
      → Distinct (pre ++ e ∷ post)
      → Outside before (pre ++ e ∷ post)
      → Chain (unlink e front n).0 before (if is_at cur e then n.next e else cur) (pre ++ post)
  unlink-Chain_lem before cur [] post c d o =
      rw c.0
        (rw (==_refl e) (unlink-Chain_first before cur post c d (Outside-tail before e post o)))
  unlink-Chain_lem before cur (y ∷ ys) post c d o =
      let (a, b, _) = Distinct-middle (y ∷ ys) post e d in
      let ne : (y == e) ≡ false = ground (arith, a) in
      let away : is_at (n.next e) y ≡ false =
        next_away n before cur (y ∷ ys) post e y c
          (ground (arith, d.0, elem-append y ys (e ∷ post))) in
      let m = (unlink e front n).0 in
      let both = link_both n y e ys post c.2 d.0 (ground (arith, a)) in
      let step : m.next y ≡ (if is_at (n.next y) e then n.next e else n.next y) =
        unlinked_next e y front n apart ∙ rw (ne, both) refl in
      (
        rw c.0 (rw ne refl),
        unlinked_prev e y front n apart ∙ rw (ne, away) c.1,
        subst (λ x. Chain m (some y) x (ys ++ post)) (sym step)
            (unlink-Chain_lem (some y) (n.next y) ys post c.2 d.1 d.0),
      )
