-- ===== src/Event/Any.antt =====
-- include/hfts/event.hpp: Event::any.
use hfts.Base.{
  ℕ, zero, suc, ◌<◌, ◌≡◌, refl, Bool, true, false, not, ◌||◌, ◌&&◌, some, List, [], ◌∷◌, ◌++◌, ◌==◌,
  if◌then◌else◌, All, arith, elem, elem-append, ◌∙◌, ◌⊎◌, inl, inr, Bool-cases, subst,
}
use hfts.Event.{
  Events, Mode, make, signal, signal_all, set_signalled, notify, push_dep, any_step, any_loop,
  any_of,
}

-- Whether an event of the range is signalled.
unfoldable pub some_signalled : List ℕ → Events → Bool
some_signalled [] h = false
some_signalled (it ∷ rest) h = (h.shared it).signalled || some_signalled rest h

leaf_signal :
    (any : ℕ) (h : Events)
    → (h.shared any).deps ≡ []
    → signal (suc zero) any h
      ≡ some (if (h.shared any).signalled then h else notify any (set_signalled any true h))
unfolding signal signal_all
leaf_signal any h e = rw (e, signal, signal_all) (ground arith)

unfoldable stepped : ℕ → ℕ → Events → Events
stepped any it h = push_dep it any (
    if (h.shared it).signalled && not (h.shared any).signalled
    then notify any (set_signalled any true h)
    else h)

any_step_lem :
    (any it : ℕ) (h : Events)
    → (h.shared any).deps ≡ []
    → any_step any it h ≡ some (stepped any it h)
unfolding any_step stepped
any_step_lem any it h e = rw (leaf_signal any h e) (ground arith)

-- What registering the events of `range` with the event `any` does.
pub record Registers (any : ℕ) (range : List ℕ) (h h' : Events) : Type 0 where
  pub next : h'.next ≡ h.next
  pub self : (h'.shared any).signalled ≡ ((h.shared any).signalled || some_signalled range h)
  pub leaf : (h'.shared any).deps ≡ (h.shared any).deps
  pub others : (i : ℕ) → (i == any) ≡ false → (h'.shared i).signalled ≡ (h.shared i).signalled
  pub kept : (i d : ℕ) → elem d (h.shared i).deps ≡ true → elem d (h'.shared i).deps ≡ true
  pub registered : All (λ it. elem any (h'.shared it).deps ≡ true) range
  pub bounded :
      (i d : ℕ)
      → elem d (h'.shared i).deps ≡ true
      → (elem d (h.shared i).deps ≡ true) ⊎ ((d ≡ any) × (elem i range ≡ true))

some_signalled-congr :
    (any : ℕ) (range : List ℕ) (h h' : Events)
    → ((i : ℕ) → (i == any) ≡ false → (h'.shared i).signalled ≡ (h.shared i).signalled)
    → elem any range ≡ false
    → some_signalled range h' ≡ some_signalled range h
unfolding some_signalled
some_signalled-congr any [] h h' same out = refl
some_signalled-congr any (it ∷ rest) h h' same out =
    ground (arith, same it, some_signalled-congr any rest h h' same)

module _ (any it : ℕ) (h : Events) (ne : (it == any) ≡ false) where
  stepped_self :
      ((stepped any it h).shared any).signalled
      ≡ ((h.shared any).signalled || (h.shared it).signalled)
  unfolding stepped push_dep notify set_signalled
  stepped_self = ground arith

  stepped-leaf : ((stepped any it h).shared any).deps ≡ (h.shared any).deps
  unfolding stepped push_dep notify set_signalled
  stepped-leaf = ground arith

  stepped-next : (stepped any it h).next ≡ h.next
  unfolding stepped push_dep notify set_signalled
  stepped-next = ground arith

  stepped-others :
      (i : ℕ)
      → (i == any) ≡ false
      → ((stepped any it h).shared i).signalled ≡ (h.shared i).signalled
  unfolding stepped push_dep notify set_signalled
  stepped-others i n = ground arith

  stepped-deps :
      (i : ℕ)
      → ((stepped any it h).shared i).deps
        ≡ (if i == it then (h.shared i).deps ++ any ∷ [] else (h.shared i).deps)
  unfolding stepped push_dep notify set_signalled
  stepped-deps i = ground arith

  stepped-kept :
      (i d : ℕ) → elem d (h.shared i).deps ≡ true → elem d ((stepped any it h).shared i).deps ≡ true
  stepped-kept i d e =
      rw (stepped-deps i) (ground (arith, elem-append d (h.shared i).deps (any ∷ [])))

  stepped-registered : elem any ((stepped any it h).shared it).deps ≡ true
  stepped-registered =
      rw (stepped-deps it) (ground (arith, elem-append any (h.shared it).deps (any ∷ [])))

bounded_cons :
    (any it i d : ℕ) (rest : List ℕ) (h : Events)
    → (it == any) ≡ false
    → (elem d ((stepped any it h).shared i).deps ≡ true) ⊎ ((d ≡ any) × (elem i rest ≡ true))
    → (elem d (h.shared i).deps ≡ true) ⊎ ((d ≡ any) × (elem i (it ∷ rest) ≡ true))
bounded_cons any it i d rest h ne (inr (e, m)) = inr (e, ground arith)
bounded_cons any it i d rest h ne (inl y) = elim (Bool-cases (i == it)) [
  | inr n ↦ inl (subst (λ ds. elem d ds ≡ true) (stepped-deps any it h ne i ∙ rw n refl) y)
  | inl e ↦
      let here : elem d ((h.shared i).deps ++ any ∷ []) ≡ true =
        subst (λ ds. elem d ds ≡ true) (stepped-deps any it h ne i ∙ rw e refl) y in
      elim (Bool-cases (elem d (h.shared i).deps)) [
        | inl old ↦ inl old
        | inr new ↦
            inr
              (ground (arith, here, new, elem-append d (h.shared i).deps (any ∷ [])), ground arith)
      ]
]

any_loop-cons :
    (any it : ℕ) (rest : List ℕ) (h : Events)
    → (h.shared any).deps ≡ []
    → any_loop any (it ∷ rest) h ≡ any_loop any rest (stepped any it h)
unfolding any_loop
any_loop-cons any it rest h e = rw (any_step_lem any it h e, any_loop)

any_loop_lem :
    (any : ℕ) (range : List ℕ) (h : Events)
    → (h.shared any).deps ≡ []
    → elem any range ≡ false
    → (h' : Events) × (any_loop any range h ≡ some h') × Registers any range h h'
unfolding some_signalled any_loop
any_loop_lem any [] h e out = (
  h,
  refl,
  record {
    next = refl;
    self = ground arith;
    leaf = refl;
    others = λ i n. refl;
    kept = λ i d y. y;
    registered = tt;
    bounded = λ i d y. inl y;
  },
)
any_loop_lem any (it ∷ rest) h e out =
    let g = stepped any it h in
    let ne : (it == any) ≡ false = ground arith in
    let (h', ran, r) = any_loop_lem any rest g (stepped-leaf any it h ne ∙ e) (ground arith) in
    (
      h',
      any_loop-cons any it rest h e ∙ ran,
      record {
        next = r.next ∙ stepped-next any it h ne;
        self = ground (
          arith,
          r.self,
          stepped_self any it h ne,
          some_signalled-congr any rest h g (stepped-others any it h ne),
        );
        leaf = r.leaf ∙ stepped-leaf any it h ne;
        others = λ i n. r.others i n ∙ stepped-others any it h ne i n;
        kept = λ i d y. r.kept i d (stepped-kept any it h ne i d y);
        registered = (r.kept it any (stepped-registered any it h ne), r.registered);
        bounded = λ i d y. bounded_cons any it i d rest h ne (r.bounded i d y);
      },
    )

made_signalled :
    (mode : Mode) (range : List ℕ) (h : Events)
    → All (λ it. it < h.next) range
    → (some_signalled range (make mode false h).0 ≡ some_signalled range h)
      × (elem h.next range ≡ false)
unfolding some_signalled make
made_signalled mode [] h a = (refl, refl)
made_signalled mode (it ∷ rest) h a = ground (arith, made_signalled mode rest h a.1)

pub any_of-Registers :
    (mode : Mode) (range : List ℕ) (h : Events)
    → All (λ it. it < h.next) range
    → (h' : Events) × (any_of mode range h ≡ some (h', h.next))
      × Registers h.next range (make mode false h).0 h'
unfolding any_of make
any_of-Registers mode range h a =
    let g = (make mode false h).0 in
    let (h', ran, r) =
      any_loop_lem h.next range g (ground arith) (made_signalled mode range h a).1 in
    (h', rw (ran, any_of), r)

-- `any`, over events that have been made, returns a new event that is signalled exactly if an event
-- of the range is, and that each event of the range lists among its dependents. The signals of the
-- events made before are unchanged.
pub any_of_lem :
    (mode : Mode) (range : List ℕ) (h : Events)
    → All (λ it. it < h.next) range
    → (h' : Events) × (any_of mode range h ≡ some (h', h.next))
      × ((h'.shared h.next).signalled ≡ some_signalled range h)
      × All (λ it. elem h.next (h'.shared it).deps ≡ true) range
      × ((i : ℕ) → i < h.next → (h'.shared i).signalled ≡ (h.shared i).signalled)
unfolding any_of make
any_of_lem mode range h a =
    let (h', ran, r) = any_of-Registers mode range h a in
    (
      h',
      ran,
      ground (arith, r.self, (made_signalled mode range h a).0),
      r.registered,
      λ i lt. ground (arith, r.others i),
    )
