-- ===== src/Event/Dependents.antt =====
-- include/hfts/event.hpp: Event::any followed by Event::signal of an event of its range.
use hfts.Base.{
  ℕ, suc, ◌<◌, ◌≡◌, refl, true, false, ◌⊎◌, some, List, All, elem, arith, Bool-cases, inl, inr, ◌∙◌,
}
use hfts.Event.{Events, Mode, make, any_of, signal}
use hfts.Event.Grows.{Ordered, IsSignalled, Flows, at, along, All-elem, elem-All}
use hfts.Event.Any.{Registers, any_of-Registers}
use hfts.Event.Signal.{signal-Flows}

made_deps :
    (mode : Mode) (h : Events) (i d : ℕ)
    → elem d ((make mode false h).0.shared i).deps ≡ true
    → elem d (h.shared i).deps ≡ true
unfolding make
made_deps mode h i d y = ground arith

made_next : (mode : Mode) (h : Events) → (make mode false h).0.next ≡ suc h.next
unfolding make
made_next mode h = refl

made_others :
    (mode : Mode) (h : Events) (i : ℕ)
    → i < h.next
    → ((make mode false h).0.shared i).signalled ≡ (h.shared i).signalled
unfolding make
made_others mode h i lt = ground arith

module _ (mode : Mode) (range : List ℕ) (h h' : Events) (o : Ordered h)
    (a : All (λ it. it < h.next) range) (r : Registers h.next range (make mode false h).0 h') where
  Registers-next : h'.next ≡ suc h.next
  Registers-next = r.next ∙ made_next mode h

  Registers-deps : (i d : ℕ) → elem d (h'.shared i).deps ≡ true → (i < d) × (d < h'.next)
  Registers-deps i d y = elim (r.bounded i d y) [
    | inl old ↦
        let (above, below) =
          All-elem (λ d. (i < d) × (d < h.next)) d (h.shared i).deps (o i)
            (made_deps mode h i d old) in
        (above, omega (arith, below, Registers-next))
    | inr (e, m) ↦
        let made = All-elem (λ it. it < h.next) i range a m in
        (omega (arith, made, e), omega (arith, e, Registers-next))
  ]

  Registers-Ordered : Ordered h'
  Registers-Ordered i =
      elem-All (λ d. (i < d) × (d < h'.next)) (h'.shared i).deps (Registers-deps i)

  Registers-Flows :
      (it : ℕ)
      → elem it range ≡ true
      → (h.shared it).signalled ≡ false
      → IsSignalled h' h.next ⊎ Flows h' h.next it
  Registers-Flows it m n =
      let made = All-elem (λ it. it < h.next) it range a m in
      let quiet : (h'.shared it).signalled ≡ false =
        r.others it (ground (arith, made)) ∙ made_others mode h it made ∙ n in
      elim (Bool-cases (h'.shared h.next).signalled) [
        | inl e ↦ inl e
        | inr e ↦ inr (
            along h.next quiet
              (All-elem (λ it. elem h.next (h'.shared it).deps ≡ true) it range r.registered m)
              (at e))
      ]

-- Signalling an event that is not signalled, of a range of events that have been made, after `any`
-- over the range, returns with both the event and the new event signalled, and `any` has kept the
-- order in which each event depends only on events made before it.
pub signal-any_of :
    (mode : Mode) (range : List ℕ) (h : Events) (it : ℕ)
    → Ordered h
    → All (λ it. it < h.next) range
    → elem it range ≡ true
    → (h.shared it).signalled ≡ false
    → (g : Events) × (h' : Events) × (any_of mode range h ≡ some (g, h.next))
      × (signal (suc h.next) it g ≡ some h')
      × IsSignalled h' it
      × IsSignalled h' h.next
      × Ordered g
signal-any_of mode range h it o a m n =
    let (g, ran, r) = any_of-Registers mode range h a in
    let made = All-elem (λ it. it < h.next) it range a m in
    let next = Registers-next mode range h g o a r in
    let ordered = Registers-Ordered mode range h g o a r in
    let (h', signals, flows) =
      signal-Flows (suc h.next) it g ordered (omega (arith, made, next)) (omega (arith, next)) in
    let quiet : (g.shared it).signalled ≡ false =
      r.others it (ground (arith, made)) ∙ made_others mode h it made ∙ n in
    (
      g,
      h',
      ran,
      signals,
      (flows it).1 (inr (at quiet)),
      (flows h.next).1 (Registers-Flows mode range h g o a r it m n),
      ordered,
    )
