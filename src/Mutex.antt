-- ===== src/Mutex.antt =====
-- include/hfts/mutex.hpp: mutex and lock over std::mutex and std::unique_lock. A mutex is held or
-- not. A call that C++ leaves undefined, or that would wait for itself, is `none`.
use hfts.Base.{
  Bool, true, false, not, ◌≡◌, refl, Option, none, some, List, [], ◌∷◌, if◌then◌else◌, Bool-cases,
  inl, inr,
}

-- std::mutex::lock by the thread that would be next, unlock, and try_lock
unfoldable pub lock : Bool → Option Bool
lock held = if held then none else some true

unfoldable pub unlock : Bool → Option Bool
unlock held = if held then some false else none

unfoldable pub try_lock : Bool → Bool × Bool
try_lock held = (true, not held)

-- std::unique_lock: whether it owns the mutex, beside the mutex
pub record Unique : Type 0 where
  pub owns : Bool
  pub held : Bool

unfoldable pub adopt : Bool → Unique
adopt held = record { owns = true; held = held }

-- unique_lock::release gives the ownership up, and does not unlock.
unfoldable pub release : Unique → Unique
release u = record u { owns = false }

-- The destructor of unique_lock
unfoldable pub destroy : Unique → Option Bool
destroy u = if u.owns then unlock u.held else some u.held

-- One round of a wait on a condition variable: unlock, and lock again when it is notified
unfoldable pub sleep : Unique → Option Unique
sleep u = elim (unlock u.held) [
  | none ↦ none
  | some free ↦ elim (lock free) [ none ↦ none | some held ↦ some (record u { held = held }) ]
]

-- condition_variable::wait over the values that the predicate has at each wake; `none` inside if it
-- still waits.
unfoldable pub cv_wait : List Bool → Unique → Option (Option Unique)
cv_wait [] u = some none
cv_wait (holds ∷ later) u =
    if holds then some (some u) else elim (sleep u) [ none ↦ none | some v ↦ cv_wait later v ]

-- mutex::wait_locked
unfoldable pub wait_locked : List Bool → Bool → Option (Option Bool)
wait_locked preds held = elim (cv_wait preds (adopt held)) [
  | none ↦ none
  | some o ↦ elim o [
    | none ↦ some none
    | some u ↦ elim (destroy (release u)) [ none ↦ none | some h ↦ some (some h) ]
  ]
]

-- Whether the predicate holds at one of the wakes
unfoldable pub some_true : List Bool → Bool
some_true [] = false
some_true (b ∷ bs) = if b then true else some_true bs

cv_wait_lem :
    (preds : List Bool)
    → cv_wait preds (adopt true) ≡ some (if some_true preds then some (adopt true) else none)
unfolding cv_wait some_true sleep lock unlock adopt
cv_wait_lem [] = refl
cv_wait_lem (true ∷ later) = refl
cv_wait_lem (false ∷ later) = cv_wait_lem later

-- wait_locked, by a holder of the mutex, returns if the predicate holds at one of the wakes, and
-- the mutex is then held still.
pub wait_locked_lem :
    (preds : List Bool)
    → wait_locked preds true ≡ some (if some_true preds then some true else none)
unfolding wait_locked cv_wait destroy release adopt
wait_locked_lem preds = elim (Bool-cases (some_true preds)) [
  | inl e ↦ rw (cv_wait_lem preds, wait_locked) (rw e refl)
  | inr e ↦ rw (cv_wait_lem preds, wait_locked) (rw e refl)
]
