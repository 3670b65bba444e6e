-- ===== src/WaitingFibers/Stale.antt =====
-- include/hfts/waitingfiber.hpp: what `take` and `erase` leave behind. `take` takes the fiber out of
-- the map and not out of the set; `erase` takes it out of the set and not out of the map.
use hfts.Base.{
  ℕ, ◌≡◌, refl, true, false, none, some, List, [], ◌∷◌, ltb, arith, Bool-cases, Option-cases, inl,
  inr, subst₂,
}
use hfts.WaitingFibers.{
  Timeout, WaitingFibers, lt, set_erase, set_emplace, map_emplace, map_find, map_erase, take, add,
  erase, to_bool, contains, first, empty,
}
use hfts.WaitingFibers.Order.{IsValid, map_find-map_erase_lem}

abbrev structure : List Timeout → List Timeout → WaitingFibers
structure ts us = record { timeouts = ts; fibers = us }

-- Erasing a fiber changes neither which fibers are contained nor whether any is.
pub contains-erase :
    (f g : ℕ) (w : WaitingFibers)
    → (contains g (erase f w) ≡ contains g w) × (to_bool (erase f w) ≡ to_bool w)
unfolding erase contains to_bool
contains-erase f g w = elim (Option-cases (map_find f w.fibers)) [
  | inl e ↦ (rw (e, erase), rw (e, erase))
  | inr (d, e) ↦ (rw (e, erase), rw (e, erase))
]

lt_irrefl : (t : Timeout) → lt t t ≡ false
unfolding lt
lt_irrefl t = ground arith

-- A fiber that waits alone and is erased leaves a structure that says that fibers wait, and whose
-- first time point is read past the end of the empty set.
pub erase_alone :
    (d f : ℕ)
    → (to_bool (erase f (add d f empty)) ≡ true) × (first (erase f (add d f empty)) ≡ none)
unfolding erase add to_bool first map_find set_erase map_emplace set_emplace
erase_alone d f = ground (arith, lt_irrefl (record { timepoint = d; fiber = f }))

map_find_erased : (f : ℕ) (us : List Timeout) → map_find f us ≡ none → map_erase f us ≡ us
unfolding map_find map_erase
map_find_erased f [] h = refl
map_find_erased f (u ∷ us) h = ground (arith, map_find_erased f us)

-- What a call of `take` does to the structure that the call before it left.
take_taken :
    (now : ℕ) (t : Timeout) (ts us : List Timeout)
    → ltb now t.timepoint ≡ false
    → map_find t.fiber us ≡ none
    → to_bool (structure (t ∷ ts) us) ≡ true
    → take now (structure (t ∷ ts) us) ≡ some (some t.fiber, structure (t ∷ ts) us)
unfolding take
take_taken now t ts us due h ne = rw (ne, due, map_find_erased t.fiber us h)

take_again_lists :
    (now f : ℕ) (ts us : List Timeout) (w' : WaitingFibers)
    → IsValid (structure ts us)
    → take now (structure ts us) ≡ some (some f, w')
    → to_bool w' ≡ true
    → take now w' ≡ some (some f, w')
unfolding take
take_again_lists now f ts [] w' v h ne = absurd (cc)
take_again_lists now f [] (u ∷ us) w' v h ne = absurd (cc)
take_again_lists now f (t ∷ ts) (u ∷ us) w' v h ne = elim (Bool-cases (ltb now t.timepoint)) [
  | inl e ↦ absurd (ground arith)
  | inr e ↦
      let same_fiber : t.fiber ≡ f = ground arith in
      let same_rest : structure (t ∷ ts) (map_erase t.fiber (u ∷ us)) ≡ w' = ground arith in
      subst₂ (λ x y. to_bool y ≡ true → take now y ≡ some (some x, y)) same_fiber same_rest
        (take_taken now t ts (map_erase t.fiber (u ∷ us)) e
          (ground (arith, map_find-map_erase_lem t.fiber t.fiber (u ∷ us) v.keys)))
        ne
]

-- Once `take` has handed out a fiber of a valid structure and other fibers still wait, it hands out
-- the same fiber again and changes nothing.
pub take_again :
    (now f : ℕ) (w w' : WaitingFibers)
    → IsValid w
    → take now w ≡ some (some f, w')
    → to_bool w' ≡ true
    → take now w' ≡ some (some f, w')
take_again now f w w' v h ne = take_again_lists now f w.timeouts w.fibers w' v h ne

-- When no fiber waits, `take` hands out none.
pub take-none : (now : ℕ) (w : WaitingFibers) → to_bool w ≡ false → take now w ≡ some (none, w)
unfolding take
take-none now w h = rw h
