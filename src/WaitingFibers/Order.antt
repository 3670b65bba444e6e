-- ===== src/WaitingFibers/Order.antt =====
-- include/hfts/waitingfiber.hpp: the order of `timeouts` by Timeout::operator<, and its entries for
-- the fibers of the map.
use hfts.Base.{
  ℕ, ◌≤◌, ◌≡◌, refl, Bool, true, false, ◌&&◌, ◌||◌, none, List, [], ◌∷◌, ◌==◌, if◌then◌else◌, arith,
  Bool-cases, inl, inr, sym, subst,
}
use hfts.WaitingFibers.{
  Timeout, WaitingFibers, lt, set_emplace, set_erase, map_find, map_emplace, map_erase, add,
}

unfoldable pub same : Timeout → Timeout → Bool
same t u = (t.timepoint == u.timepoint) && (t.fiber == u.fiber)

lt_trans : (a b c : Timeout) → lt a b ≡ true → lt b c ≡ true → lt a c ≡ true
unfolding lt
lt_trans a b c h k = ground arith

lt-timepoint-le : (a b : Timeout) → lt a b ≡ true → a.timepoint ≤ b.timepoint
unfolding lt
lt-timepoint-le a b h = ground arith

same_of_not_lt : (a b : Timeout) → lt a b ≡ false → lt b a ≡ false → same a b ≡ true
unfolding lt same
same_of_not_lt a b h k = ground arith

same_refl : (a : Timeout) → same a a ≡ true
unfolding same
same_refl a = ground arith

same_subst : (a b c : Timeout) → same a b ≡ true → same c a ≡ same c b
unfolding same
same_subst a b c h = ground arith

pub same_eq : (a b : Timeout) → same a b ≡ true → a ≡ b
unfolding same
same_eq a b h = ground arith

-- `t` comes strictly before the first element of the list.
abbrev pub Before : Timeout → List Timeout → Type 0
Before t [] = Unit
Before t (u ∷ us) = lt t u ≡ true

abbrev pub IsSorted : List Timeout → Type 0
IsSorted [] = Unit
IsSorted (t ∷ ts) = Before t ts × IsSorted ts

abbrev pub has : Timeout → List Timeout → Bool
has t [] = false
has t (u ∷ us) = same t u || has t us

set_emplace-Before :
    (t u : Timeout) (us : List Timeout) → Before u us → lt u t ≡ true → Before u (set_emplace t us)
unfolding set_emplace
set_emplace-Before t u [] b h = h
set_emplace-Before t u (v ∷ us) b h = ground arith

pub set_emplace-IsSorted :
    (t : Timeout) (us : List Timeout) → IsSorted us → IsSorted (set_emplace t us)
unfolding set_emplace
set_emplace-IsSorted t [] s = ground arith
set_emplace-IsSorted t (u ∷ us) s =
    ground (arith, set_emplace-IsSorted t us s.1, set_emplace-Before t u us s.0)

set_erase-Before :
    (t u : Timeout) (us : List Timeout) → Before u us → IsSorted us → Before u (set_erase t us)
unfolding set_erase
set_erase-Before t u [] b s = tt
set_erase-Before t u (v ∷ []) b s = ground arith
set_erase-Before t u (v ∷ w ∷ us) b s = ground (arith, lt_trans u v w)

pub set_erase-IsSorted : (t : Timeout) (us : List Timeout) → IsSorted us → IsSorted (set_erase t us)
unfolding set_erase
set_erase-IsSorted t [] s = tt
set_erase-IsSorted t (u ∷ us) s = elim (Bool-cases (lt t u || lt u t)) [
  | inl e ↦ rw e (set_erase-Before t u us s.0 s.1, set_erase-IsSorted t us s.1)
  | inr e ↦ rw e s.1
]

pub has-set_emplace :
    (t u : Timeout) (us : List Timeout) → has u (set_emplace t us) ≡ (same u t || has u us)
unfolding set_emplace
has-set_emplace t u [] = refl
has-set_emplace t u (v ∷ us) =
    ground (arith, has-set_emplace t u us, same_of_not_lt t v, same_subst t v u)

-- Each entry of the map is in the set.
abbrev pub Covers : List Timeout → List Timeout → Type 0
Covers [] ts = Unit
Covers (u ∷ us) ts = (has u ts ≡ true) × Covers us ts

Covers-set_emplace :
    (t : Timeout) (us ts : List Timeout) → Covers us ts → Covers us (set_emplace t ts)
Covers-set_emplace t [] ts c = tt
Covers-set_emplace t (u ∷ us) ts c =
    (rw (has-set_emplace t u ts, c.0) (ground arith), Covers-set_emplace t us ts c.1)

map_emplace-Covers :
    (t : Timeout) (us ts : List Timeout)
    → Covers us ts
    → has t ts ≡ true
    → Covers (map_emplace t us) ts
unfolding map_emplace
map_emplace-Covers t [] ts c h = (h, tt)
map_emplace-Covers t (u ∷ us) ts c h = ground (arith, map_emplace-Covers t us ts c.1 h)

pub map_erase-Covers : (f : ℕ) (us ts : List Timeout) → Covers us ts → Covers (map_erase f us) ts
unfolding map_erase
map_erase-Covers f [] ts c = tt
map_erase-Covers f (u ∷ us) ts c = ground (arith, map_erase-Covers f us ts c.1)

-- Every other element of a sorted list has a time point that is no earlier than the first's.
pub has-Before :
    (t u : Timeout) (us : List Timeout)
    → Before u us
    → IsSorted us
    → has t us ≡ true
    → u.timepoint ≤ t.timepoint
has-Before t u [] b s h = absurd (cc)
has-Before t u (v ∷ us) b s h = elim (Bool-cases (same t v)) [
  | inl e ↦ subst (λ w. u.timepoint ≤ w.timepoint) (sym (same_eq t v e)) (lt-timepoint-le u v b)
  | inr e ↦ omega (arith, lt-timepoint-le u v b, has-Before t v us s.0 s.1 (ground arith))
]

map_find-map_emplace_other :
    (t : Timeout) (g : ℕ) (us : List Timeout)
    → map_find g us ≡ none
    → (t.fiber == g) ≡ false
    → map_find g (map_emplace t us) ≡ none
unfolding map_find map_emplace
map_find-map_emplace_other t g [] h n = ground arith
map_find-map_emplace_other t g (u ∷ us) h n = ground (arith, map_find-map_emplace_other t g us)

map_find-map_erase :
    (f g : ℕ) (us : List Timeout) → map_find g us ≡ none → map_find g (map_erase f us) ≡ none
unfolding map_find map_erase
map_find-map_erase f g [] h = refl
map_find-map_erase f g (u ∷ us) h = ground (arith, map_find-map_erase f g us)

-- A key occurs once in the map.
abbrev pub KeysDistinct : List Timeout → Type 0
KeysDistinct [] = Unit
KeysDistinct (u ∷ us) = (map_find u.fiber us ≡ none) × KeysDistinct us

map_emplace-KeysDistinct :
    (t : Timeout) (us : List Timeout) → KeysDistinct us → KeysDistinct (map_emplace t us)
unfolding map_find map_emplace
map_emplace-KeysDistinct t [] d = ground arith
map_emplace-KeysDistinct t (u ∷ us) d =
    ground (arith, map_find-map_emplace_other t u.fiber us d.0, map_emplace-KeysDistinct t us d.1)

pub map_erase-KeysDistinct :
    (f : ℕ) (us : List Timeout) → KeysDistinct us → KeysDistinct (map_erase f us)
unfolding map_find map_erase
map_erase-KeysDistinct f [] d = tt
map_erase-KeysDistinct f (u ∷ us) d =
    ground (arith, map_find-map_erase f u.fiber us d.0, map_erase-KeysDistinct f us d.1)

pub map_find-map_erase_lem :
    (f g : ℕ) (us : List Timeout)
    → KeysDistinct us
    → map_find g (map_erase f us) ≡ (if f == g then none else map_find g us)
unfolding map_find map_erase
map_find-map_erase_lem f g [] d = ground arith
map_find-map_erase_lem f g (u ∷ us) d = ground (arith, map_find-map_erase_lem f g us d.1)

-- The set is in order, the keys of the map are distinct, and each has its entry in the set.
pub record IsValid (w : WaitingFibers) : Type 0 where
  pub sorted : IsSorted w.timeouts
  pub keys : KeysDistinct w.fibers
  pub covers : Covers w.fibers w.timeouts

has-set_emplace_self : (t : Timeout) (us : List Timeout) → has t (set_emplace t us) ≡ true
has-set_emplace_self t us = rw (has-set_emplace t t us, same_refl t)

pub add-IsValid :
    (w : WaitingFibers) (timeout fiber : ℕ) → IsValid w → IsValid (add timeout fiber w)
unfolding add
add-IsValid w timeout fiber v = record {
  sorted = set_emplace-IsSorted _ w.timeouts v.sorted;
  keys = map_emplace-KeysDistinct _ w.fibers v.keys;
  covers =
      map_emplace-Covers _ w.fibers _ (Covers-set_emplace _ w.fibers w.timeouts v.covers)
        (has-set_emplace_self _ w.timeouts);
}
