-- ===== src/LinkedList/Represents.antt =====
-- include/hfts/containers.hpp: the list of elements, each with the entry that its iterator points
-- to, that a list stands for.
pub mod Emplace
pub mod Erase
use hfts.Base.{
  ℕ, zero, suc, ◌+◌, ◌≤◌, ◌<◌, ◌≡◌, refl, true, false, ◌||◌, Option, none, some, List, [], ◌∷◌,
  ◌++◌, ◌==◌, if◌then◌else◌, update, arith, length, elem, elem-append, Distinct, All, ap, sym, ◌∙◌,
  subst,
}
use mathlib.Core.List.{append_assoc}
use hfts.LinkedList.{LinkedList}
use hfts.LinkedList.Chain.{Chain, Distinct-middle}
use hfts.LinkedList.Links.{Apart}

module _ {ℓ} {A : Type ℓ} where
  abbrev pub places : List (ℕ × A) → List ℕ
  places [] = []
  places ((e, a) ∷ items) = e ∷ places items

  abbrev pub Stored : (ℕ → Option A) → List (ℕ × A) → Type ℓ
  Stored objects [] = Unit
  Stored objects ((e, a) ∷ items) = (objects e ≡ some a) × Stored objects items

  -- The free entries are the chain `fs`, and the items are the chain from `head` on.
  pub record Owns (l : LinkedList A) (fs : List ℕ) (items : List (ℕ × A)) : Type ℓ where
    pub free_chain : Chain l.nodes none l.free fs
    pub head_chain : Chain l.nodes none l.head (places items)
    pub distinct : Distinct (fs ++ places items)
    pub size : l.size ≡ length items
    pub capacity : l.capacity ≡ length fs + length items
    pub stored : Stored l.objects items

  abbrev pub Represents : LinkedList A → List (ℕ × A) → Type ℓ
  Represents l items = (fs : List ℕ) × Owns l fs items

  pub places-append : (xs ys : List (ℕ × A)) → places (xs ++ ys) ≡ places xs ++ places ys
  places-append [] ys = refl
  places-append ((e, a) ∷ xs) ys = ap (λ (es : List ℕ). e ∷ es) (places-append xs ys)

  pub Stored-append :
      (objects : ℕ → Option A) (xs ys : List (ℕ × A))
      → Stored objects (xs ++ ys)
      → Stored objects xs × Stored objects ys
  Stored-append objects [] ys s = (tt, s)
  Stored-append objects ((e, a) ∷ xs) ys s =
      let (u, v) = Stored-append objects xs ys s.1 in ((s.0, u), v)

  pub append-Stored :
      (objects : ℕ → Option A) (xs ys : List (ℕ × A))
      → Stored objects xs
      → Stored objects ys
      → Stored objects (xs ++ ys)
  append-Stored objects [] ys u v = v
  append-Stored objects ((e, a) ∷ xs) ys u v = (u.0, append-Stored objects xs ys u.1 v)

  pub Stored-update :
      (objects : ℕ → Option A) (e : ℕ) (o : Option A) (xs : List (ℕ × A))
      → elem e (places xs) ≡ false
      → Stored objects xs
      → Stored (update objects e o) xs
  Stored-update objects e o [] h s = tt
  Stored-update objects e o ((f, a) ∷ xs) h s =
      let fe : (f == e) ≡ false = ground (arith, h) in
      (rw fe s.0, Stored-update objects e o xs (ground (arith, h)) s.1)

pub Distinct-append :
    (xs ys : List ℕ) → Distinct (xs ++ ys) → Distinct xs × Distinct ys × Apart xs ys
Distinct-append [] ys d = (tt, d, λ f m. absurd (cc (m)))
Distinct-append (x ∷ xs) ys d =
    let (u, v, w) = Distinct-append xs ys d.1 in
    (
      (ground (arith, d.0, elem-append x xs ys), u),
      v,
      λ f m. ground (arith, d.0, elem-append x xs ys, w f, m),
    )

pub append-Distinct :
    (xs ys : List ℕ) → Distinct xs → Distinct ys → Apart xs ys → Distinct (xs ++ ys)
append-Distinct [] ys d e a = e
append-Distinct (x ∷ xs) ys d e a = (
  ground (arith, d.0, elem-append x xs ys, a x),
  append-Distinct xs ys d.1 e (λ f m. a f (ground arith)),
)

pub Apart-sym : (xs ys : List ℕ) → Apart xs ys → Apart ys xs
Apart-sym xs ys a f m = ground (arith, a f)
