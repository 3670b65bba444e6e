-- ===== src/Event/Grows.antt =====
-- include/hfts/event.hpp: what Shared::signal may change, and how signals flow to dependent events.
use hfts.Base.{
  ℕ, ◌<◌, ◌≡◌, refl, true, false, List, [], ◌∷◌, All, elem, ◌==◌, arith, Bool-cases, inl, inr, ◌∙◌,
  sym, subst, subst₂,
}
use hfts.Event.{Events, set_signalled, notify}

-- Each dependent event was made after the event that it depends on.
abbrev pub Ordered : Events → Type 0
Ordered h = (i : ℕ) → All (λ d. (i < d) × (d < h.next)) (h.shared i).deps

-- What a signal leaves as it was, and that it clears no event.
pub record Grows (h h' : Events) : Type 0 where
  pub next : h'.next ≡ h.next
  pub deps : (i : ℕ) → (h'.shared i).deps ≡ (h.shared i).deps
  pub mode : (i : ℕ) → (h'.shared i).mode ≡ (h.shared i).mode
  pub signalled : (i : ℕ) → (h.shared i).signalled ≡ true → (h'.shared i).signalled ≡ true

pub Grows-refl : (h : Events) → Grows h h
Grows-refl h = record { next = refl; deps = λ i. refl; mode = λ i. refl; signalled = λ i e. e }

pub Grows-trans : {a b c : Events} → Grows a b → Grows b c → Grows a c
Grows-trans g k = record {
  next = k.next ∙ g.next;
  deps = λ i. k.deps i ∙ g.deps i;
  mode = λ i. k.mode i ∙ g.mode i;
  signalled = λ i e. k.signalled i (g.signalled i e);
}

unfoldable pub raised : ℕ → Events → Events
raised i h = notify i (set_signalled i true h)

pub raised-Grows : (i : ℕ) (h : Events) → Grows h (raised i h)
unfolding raised notify set_signalled
raised-Grows i h = record {
  next = ground arith;
  deps = λ j. ground arith;
  mode = λ j. ground arith;
  signalled = λ j e. ground arith;
}

pub raised-signalled : (i : ℕ) (h : Events) → ((raised i h).shared i).signalled ≡ true
unfolding raised notify set_signalled
raised-signalled i h = ground arith

-- Whether an event is signalled, as an equation.
abbrev pub IsSignalled : Events → ℕ → Type 0
IsSignalled h j = (h.shared j).signalled ≡ true

-- A signal of event `i` reaches `j` along dependents, through events that are not signalled.
pub data Flows (h : Events) (j : ℕ) : ℕ → Type 0 where
  at : (h.shared j).signalled ≡ false → Flows h j j
  along :
      {i : ℕ} (d : ℕ)
      → (h.shared i).signalled ≡ false
      → elem d (h.shared i).deps ≡ true
      → Flows h j d
      → Flows h j i

-- The events that are signalled later only have all their dependents signalled.
abbrev pub Closed : Events → Events → Type 0
Closed h h' =
    (j : ℕ)
    → (h.shared j).signalled ≡ false
    → IsSignalled h' j
    → All (IsSignalled h') (h.shared j).deps

-- Each event that is signalled later only is reached from one of the events `ds`.
abbrev pub Sound : List ℕ → Events → Events → Type 0
Sound ds h h' =
    (j : ℕ)
    → (h.shared j).signalled ≡ false
    → IsSignalled h' j
    → (d : ℕ) × (elem d ds ≡ true) × Flows h j d

pub All-elem : (P : ℕ → Type 0) (d : ℕ) (ds : List ℕ) → All P ds → elem d ds ≡ true → P d
All-elem P d [] a h = absurd (cc)
All-elem P d (x ∷ ds) a h = elim (Bool-cases (d == x)) [
  | inl e ↦ (let same : x ≡ d = ground arith in subst P same a.0)
  | inr e ↦ All-elem P d ds a.1 (rw e at h)
]

pub elem-All : (P : ℕ → Type 0) (ds : List ℕ) → ((d : ℕ) → elem d ds ≡ true → P d) → All P ds
elem-All P [] f = tt
elem-All P (x ∷ ds) f = (f x (ground arith), elem-All P ds (λ d e. f d (ground arith)))

unsignalled_before :
    (h g : Events) (j : ℕ)
    → Grows h g
    → (g.shared j).signalled ≡ false
    → (h.shared j).signalled ≡ false
unsignalled_before h g j k e = elim (Bool-cases (h.shared j).signalled) [
  | inl y ↦ absurd (cc (k.signalled j y))
  | inr n ↦ n
]

pub Flows-Grows : (h g : Events) (j i : ℕ) → Grows h g → Flows g j i → Flows h j i
Flows-Grows h g j i k (at n) = at (unsignalled_before h g j k n)
Flows-Grows h g j i k (along d n m f) =
    along d (unsignalled_before h g i k n) (subst (λ ds. elem d ds ≡ true) (k.deps i) m)
      (Flows-Grows h g j d k f)

pub All-signalled_mono :
    (ds : List ℕ) (h h' : Events)
    → Grows h h'
    → All (λ d. (h.shared d).signalled ≡ true) ds
    → All (λ d. (h'.shared d).signalled ≡ true) ds
All-signalled_mono [] h h' g a = tt
All-signalled_mono (d ∷ ds) h h' g a = (g.signalled d a.0, All-signalled_mono ds h h' g a.1)

pub Ordered-Grows : (h h' : Events) → Grows h h' → Ordered h → Ordered h'
Ordered-Grows h h' g o =
    λ i. subst₂ (λ n ds. All (λ d. (i < d) × (d < n)) ds) (sym g.next) (sym (g.deps i)) (o i)
