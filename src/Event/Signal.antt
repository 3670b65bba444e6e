-- ===== src/Event/Signal.antt =====
-- include/hfts/event.hpp: Shared::signal and the dependent events.
use hfts.Base.{
  ℕ, zero, suc, ◌+◌, ◌≤◌, ◌<◌, ◌≡◌, refl, true, false, Option, some, List, [], ◌∷◌, All, elem, ◌==◌,
  arith, Bool-cases, inl, inr, ◌∙◌, subst, ◌⊎◌, ◌↔◌,
}
use hfts.Event.{Events, signal, signal_all, set_signalled, notify}
use hfts.Event.Grows.{
  Ordered, Grows, Grows-refl, Grows-trans, Ordered-Grows, raised, raised-Grows, raised-signalled,
  All-signalled_mono, Flows, Flows-Grows, at, along, Closed, Sound, IsSignalled, All-elem,
}

-- The result of signalling an event: it is signalled, and so are the events that the signal flows
-- to, and no others.
pub record Signals (i : ℕ) (h h' : Events) : Type 0 where
  pub grows : Grows h h'
  pub self : IsSignalled h' i
  pub unchanged : IsSignalled h i → h' ≡ h
  pub closed : Closed h h'
  pub sound : Sound (i ∷ []) h h'

Closed-refl : (h : Events) → Closed h h
Closed-refl h j n y = absurd (cc)

Closed-trans : (a b c : Events) → Grows a b → Grows b c → Closed a b → Closed b c → Closed a c
Closed-trans a b c g k x y j n s = elim (Bool-cases (b.shared j).signalled) [
  | inl e ↦ All-signalled_mono (a.shared j).deps b c k (x j n e)
  | inr e ↦ subst (λ ds. All (IsSignalled c) ds) (g.deps j) (y j e s)
]

Sound-refl : (ds : List ℕ) (h : Events) → Sound ds h h
Sound-refl ds h j n y = absurd (cc)

Sound-cons :
    (d : ℕ) (ds : List ℕ) (a b c : Events)
    → Grows a b
    → Sound (d ∷ []) a b
    → Sound ds b c
    → Sound (d ∷ ds) a c
Sound-cons d ds a b c g x y j n s = elim (Bool-cases (b.shared j).signalled) [
  | inl e ↦ (let (f, m, flows) = x j n e in (f, ground arith, flows))
  | inr e ↦ (let (f, m, flows) = y j e s in (f, ground arith, Flows-Grows a b j f g flows))
]

-- What a call that signals one event does.
abbrev Succeeds : (ℕ → Events → Option Events) → ℕ → Events → Type 0
Succeeds call d g = (g' : Events) × (call d g ≡ some g') × Signals d g g'

signal_all-cons :
    (call : ℕ → Events → Option Events) (d : ℕ) (ds : List ℕ) (h h' : Events)
    → call d h ≡ some h'
    → signal_all call (d ∷ ds) h ≡ signal_all call ds h'
unfolding signal_all
signal_all-cons call d ds h h' e = rw (e, signal_all)

signal_all-nil : (call : ℕ → Events → Option Events) (h : Events) → signal_all call [] h ≡ some h
unfolding signal_all
signal_all-nil call h = refl

module _ (call : ℕ → Events → Option Events) (i n : ℕ)
    (calls : (d : ℕ) (g : Events)
      → g.next ≡ n
      → Ordered g
      → i < d
      → d < n
      → Succeeds call d g) where
  signal_all_lem :
      (ds : List ℕ) (h : Events)
      → h.next ≡ n
      → Ordered h
      → All (λ d. (i < d) × (d < n)) ds
      → (h' : Events) × (signal_all call ds h ≡ some h')
        × Grows h h'
        × All (IsSignalled h') ds
        × Closed h h'
        × Sound ds h h'
  signal_all_lem [] h e o a =
      (h, signal_all-nil call h, Grows-refl h, tt, Closed-refl h, Sound-refl [] h)
  signal_all_lem (d ∷ ds) h e o a =
      let (g, ran, s) = calls d h e o a.0.0 a.0.1 in
      let (h', rest, grown, all, closed, sound) =
        signal_all_lem ds g (s.grows.next ∙ e) (Ordered-Grows h g s.grows o) a.1 in
      (
        h',
        signal_all-cons call d ds h g ran ∙ rest,
        Grows-trans s.grows grown,
        (grown.signalled d s.self, all),
        Closed-trans h g h' s.grows grown s.closed closed,
        Sound-cons d ds h g h' s.grows s.sound sound,
      )

signal_signalled :
    (fuel i : ℕ) (h : Events) → (h.shared i).signalled ≡ true → signal (suc fuel) i h ≡ some h
unfolding signal
signal_signalled fuel i h e = rw (e, signal)

signal-raised :
    (fuel i : ℕ) (h : Events)
    → (h.shared i).signalled ≡ false
    → signal (suc fuel) i h ≡ signal_all (signal fuel) (h.shared i).deps (raised i h)
unfolding signal raised
signal-raised fuel i h e = rw (e, signal)

raised-others :
    (i j : ℕ) (h : Events)
    → (j == i) ≡ false
    → ((raised i h).shared j).signalled ≡ (h.shared j).signalled
unfolding raised notify set_signalled
raised-others i j h n = ground arith

raised-Closed :
    (i : ℕ) (h h' : Events)
    → All (IsSignalled h') (h.shared i).deps
    → Closed (raised i h) h'
    → Closed h h'
raised-Closed i h h' all c j n s = elim (Bool-cases (j == i)) [
  | inl e ↦
      let same : i ≡ j = ground arith in
      subst (λ k. All (IsSignalled h') (h.shared k).deps) same all
  | inr e ↦
      subst (λ ds. All (IsSignalled h') ds) ((raised-Grows i h).deps j)
        (c j (raised-others i j h e ∙ n) s)
]

raised-Sound :
    (i : ℕ) (h h' : Events)
    → (h.shared i).signalled ≡ false
    → Sound (h.shared i).deps (raised i h) h'
    → Sound (i ∷ []) h h'
raised-Sound i h h' m c j n s = elim (Bool-cases (j == i)) [
  | inl e ↦
      let same : j ≡ i = ground arith in (i, ground arith, subst (λ k. Flows h j k) same (at n))
  | inr e ↦
      let (d, listed, flows) = c j (raised-others i j h e ∙ n) s in
      (i, ground arith, along d m listed (Flows-Grows h (raised i h) j d (raised-Grows i h) flows))
]

-- Where each event depends only on events made before it, signalling an event that has been made
-- returns, with fuel for the events made after it. The event is then signalled, no event is cleared
-- and no dependency or mode has changed. If it was signalled before, nothing has changed; otherwise
-- each event that depends on it is signalled too.
pub signal-Signals :
    (fuel i : ℕ) (h : Events)
    → Ordered h
    → i < h.next
    → h.next ≤ fuel + i
    → (h' : Events) × (signal fuel i h ≡ some h') × Signals i h h'
signal-Signals zero i h o lt enough = absurd (omega arith)
signal-Signals (suc fuel) i h o lt enough = elim (Bool-cases (h.shared i).signalled) [
  | inl e ↦ (
    h,
    signal_signalled fuel i h e,
    record {
      grows = Grows-refl h;
      self = e;
      unchanged = λ _. refl;
      closed = Closed-refl h;
      sound = Sound-refl (i ∷ []) h;
    },
  )
  | inr e ↦
      let g = raised i h in
      let grown = raised-Grows i h in
      let (h', ran, more, all, closed, sound) =
        signal_all_lem (signal fuel) i h.next
          (λ d k same ok above below. signal-Signals fuel d k ok (omega arith) (omega arith))
          (h.shared i).deps g grown.next (Ordered-Grows h g grown o) (o i) in
      (
        h',
        signal-raised fuel i h e ∙ ran,
        record {
          grows = Grows-trans grown more;
          self = more.signalled i (raised-signalled i h);
          unchanged = λ y. absurd (cc);
          closed = raised-Closed i h h' all closed;
          sound = raised-Sound i h h' e sound;
        },
      )
]

Flows-IsSignalled :
    (h h' : Events) (j i : ℕ) → Closed h h' → Flows h j i → IsSignalled h' i → IsSignalled h' j
Flows-IsSignalled h h' j i c (at n) s = s
Flows-IsSignalled h h' j i c (along d n m f) s =
    Flows-IsSignalled h h' j d c f (All-elem (IsSignalled h') d (h.shared i).deps (c i n s) m)

-- Where each event depends only on events made before it, signalling an event that has been made
-- returns, with fuel for the events made after it. An event is then signalled exactly if it was
-- signalled before, or is reached from the event along dependents through events that were not
-- signalled.
pub signal-Flows :
    (fuel i : ℕ) (h : Events)
    → Ordered h
    → i < h.next
    → h.next ≤ fuel + i
    → (h' : Events) × (signal fuel i h ≡ some h')
      × ((j : ℕ) → IsSignalled h' j ↔ (IsSignalled h j ⊎ Flows h j i))
signal-Flows fuel i h o lt enough =
    let (h', ran, s) = signal-Signals fuel i h o lt enough in
    (
      h',
      ran,
      λ j. (
        λ y. elim (Bool-cases (h.shared j).signalled) [
          | inl e ↦ inl e
          | inr n ↦ inr (reached h h' i j (s.sound j n y))
        ],
        λ x. elim x [
          | inl e ↦ s.grows.signalled j e
          | inr f ↦ Flows-IsSignalled h h' j i s.closed f s.self
        ],
      ),
    )
  where
    reached :
        (h h' : Events) (i j : ℕ) → ((d : ℕ) × (elem d (i ∷ []) ≡ true) × Flows h j d) → Flows h j i
    reached h h' i j (d, m, f) = subst (λ k. Flows h j k) (ground arith) f
