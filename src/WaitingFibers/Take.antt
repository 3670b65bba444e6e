-- ===== src/WaitingFibers/Take.antt =====
-- include/hfts/waitingfiber.hpp: what `take` hands out.
use hfts.Base.{
  ℕ, ◌≤◌, ◌≡◌, refl, false, Option, none, some, List, [], ◌∷◌, ◌==◌, ltb, arith, Bool-cases, inl,
  inr,
}
use hfts.WaitingFibers.{Timeout, WaitingFibers, map_find, map_erase, take, contains, first}
use hfts.WaitingFibers.Order.{IsValid}

abbrev entry : ℕ → ℕ → Timeout
entry d f = record { timepoint = d; fiber = f }

abbrev structure : List Timeout → List Timeout → WaitingFibers
structure ts us = record { timeouts = ts; fibers = us }

-- No fiber of the map has a time point before `tp`.
abbrev pub NoneBefore : ℕ → WaitingFibers → Type 0
NoneBefore tp w = (g d : ℕ) → map_find g w.fibers ≡ some d → tp ≤ d

pub record Taken (now f : ℕ) (w w' : WaitingFibers) : Type 0 where
  pub tp : ℕ
  pub later : List Timeout
  pub handed_out : w.timeouts ≡ record { timepoint = tp; fiber = f } ∷ later
  pub first_at : first w ≡ some tp
  pub still_there : w'.timeouts ≡ w.timeouts
  pub due : tp ≤ now
  pub earliest : NoneBefore tp w
  pub gone : contains f w' ≡ false
  pub kept : (g : ℕ) → (f == g) ≡ false → contains g w' ≡ contains g w
  pub valid : IsValid w'

take_total_lists :
    (now : ℕ) (ts us : List Timeout)
    → IsValid (structure ts us)
    → (o : Option ℕ) × (w' : WaitingFibers) × (take now (structure ts us) ≡ some (o, w'))
unfolding take
take_total_lists now ts [] v = (none, structure ts [], refl)
take_total_lists now [] (u ∷ us) v = absurd (ground arith)
take_total_lists now (t ∷ ts) (u ∷ us) v = elim (Bool-cases (ltb now t.timepoint)) [
  | inl e ↦ (none, structure (t ∷ ts) (u ∷ us), rw e)
  | inr e ↦ (some t.fiber, structure (t ∷ ts) (map_erase t.fiber (u ∷ us)), rw e)
]

-- On a valid structure `take` never reads past the end of the set.
pub take_total :
    (now : ℕ) (w : WaitingFibers)
    → IsValid w
    → (o : Option ℕ) × (w' : WaitingFibers) × (take now w ≡ some (o, w'))
take_total now w v = take_total_lists now w.timeouts w.fibers v
