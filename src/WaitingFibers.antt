-- ===== src/WaitingFibers.antt =====
-- include/hfts/waitingfiber.hpp: the fibers of a worker that wait with a timeout. `timeouts` is the
-- std::set, a list in the order of `lt`; `fibers` is the std::unordered_map, an association list.
-- Fibers and time points are numbers. Dereferencing the end of a container is `none`.
pub mod Order
pub mod Take
pub mod Stale
use hfts.Base.{
  ℕ, ◌≡◌, Bool, true, false, not, Option, none, some, List, [], ◌∷◌, ◌==◌, ltb, if◌then◌else◌,
  is_empty, ◌||◌,
}

pub record Timeout : Type 0 where
  pub timepoint : ℕ
  pub fiber : ℕ

-- Timeout::operator<
unfoldable pub lt : Timeout → Timeout → Bool
lt a b =
    if not (a.timepoint == b.timepoint) then ltb a.timepoint b.timepoint else ltb a.fiber b.fiber

pub record WaitingFibers : Type 0 where
  pub timeouts : List Timeout
  pub fibers : List Timeout

-- std::set::emplace: an element equivalent to one that is there changes nothing.
unfoldable pub set_emplace : Timeout → List Timeout → List Timeout
set_emplace t [] = t ∷ []
set_emplace t (u ∷ us) =
    if lt t u then t ∷ u ∷ us else if lt u t then u ∷ set_emplace t us else u ∷ us

-- std::set::erase by value.
unfoldable pub set_erase : Timeout → List Timeout → List Timeout
set_erase t [] = []
set_erase t (u ∷ us) = if lt t u || lt u t then u ∷ set_erase t us else us

-- std::unordered_map::emplace: a key that is there keeps its value.
unfoldable pub map_find : ℕ → List Timeout → Option ℕ
map_find f [] = none
map_find f (u ∷ us) = if u.fiber == f then some u.timepoint else map_find f us

unfoldable pub map_emplace : Timeout → List Timeout → List Timeout
map_emplace t [] = t ∷ []
map_emplace t (u ∷ us) = if u.fiber == t.fiber then u ∷ us else u ∷ map_emplace t us

unfoldable pub map_erase : ℕ → List Timeout → List Timeout
map_erase f [] = []
map_erase f (u ∷ us) = if u.fiber == f then us else u ∷ map_erase f us

abbrev pub empty : WaitingFibers
empty = record { timeouts = []; fibers = [] }

-- WaitingFibers::operator bool
unfoldable pub to_bool : WaitingFibers → Bool
to_bool w = not (is_empty w.fibers)

-- WaitingFibers::take. The inner `none` is the null pointer.
unfoldable pub take : ℕ → WaitingFibers → Option (Option ℕ × WaitingFibers)
unfolding to_bool
take now w = if not (to_bool w) then some (none, w) else elim w.timeouts [
  | [] ↦ none
  | t ∷ ts ↦
      if ltb now t.timepoint
      then some (none, w)
      else some (some t.fiber, record w { fibers = map_erase t.fiber w.fibers })
]

-- WaitingFibers::first
unfoldable pub first : WaitingFibers → Option ℕ
first w = elim w.timeouts [ [] ↦ none | t ∷ ts ↦ some t.timepoint ]

-- WaitingFibers::add
unfoldable pub add : ℕ → ℕ → WaitingFibers → WaitingFibers
add timeout fiber w =
    let t : Timeout = record { timepoint = timeout; fiber = fiber } in
    record { timeouts = set_emplace t w.timeouts; fibers = map_emplace t w.fibers }

-- WaitingFibers::erase
unfoldable pub erase : ℕ → WaitingFibers → WaitingFibers
erase fiber w = elim (map_find fiber w.fibers) [
  | none ↦ w
  | some timeout ↦ record w {
    timeouts = set_erase (record { timepoint = timeout; fiber = fiber }) w.timeouts;
  }
]

-- WaitingFibers::contains
unfoldable pub contains : ℕ → WaitingFibers → Bool
contains fiber w = elim (map_find fiber w.fibers) [ none ↦ false | some t ↦ true ]
