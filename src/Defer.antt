-- ===== src/Defer.antt =====
-- include/hfts/defer.hpp: ScopeExit. A deferred call is moved between objects, released, or run when
-- an object is destroyed; `func` names the call.
use hfts.Base.{ℕ, zero, suc, ◌≡◌, refl, Bool, true, false, List, [], ◌∷◌, ◌++◌, if◌then◌else◌}

pub record ScopeExit : Type 0 where
  pub func : ℕ
  pub active : Bool

-- ScopeExit::ScopeExit, make_scope_exit
unfoldable pub make_scope_exit : ℕ → ScopeExit
make_scope_exit f = record { func = f; active = true }

-- The move constructor: the new object, and what is left of the other
unfoldable pub move : ScopeExit → ScopeExit × ScopeExit
move s = (record { func = s.func; active = s.active }, record s { active = false })

unfoldable pub release : ScopeExit → ScopeExit
release s = record s { active = false }

-- ~ScopeExit: the calls that it makes
unfoldable pub destroy : ScopeExit → List ℕ
destroy s = if s.active then s.func ∷ [] else []

-- The object is moved `n` times, each time into a new object; then all are destroyed, the last made
-- first, as at the end of their scopes.
unfoldable pub moved : ℕ → ScopeExit → List ℕ
moved zero s = destroy s
moved (suc n) s = let (new, old) = move s in moved n new ++ destroy old

-- However often a deferred call is moved, it is made once when all objects are destroyed, and not
-- at all if it was released.
pub moved_lem :
    (n f : ℕ)
    → (moved n (make_scope_exit f) ≡ f ∷ []) × (moved n (release (make_scope_exit f)) ≡ [])
unfolding moved make_scope_exit move release destroy
moved_lem zero f = (refl, refl)
moved_lem (suc n) f = let (runs, stays) = moved_lem n f in (rw runs refl, rw stays refl)
