-- ===== src/Affinity/Process.antt =====
-- src/thread.cpp: Affinity::all, and the set of cores that Impl::setAffinity asks for.
use hfts.Base.{
  ℕ, zero, suc, ◌+◌, ◌%◌, ◌^◌, ◌≤◌, ◌<◌, ◌≡◌, refl, Bool, true, false, ◌||◌, ◌&&◌, some, List, [],
  ◌∷◌, ltb, leb, if◌then◌else◌, update, elem, arith, ◌∙◌,
}
use hfts.Affinity.{all, all_loop}
use hfts.Thread.{cpu_set, set_affinity}

elem-all_loop : (k i c : ℕ) → i + k ≤ 2 ^ 16 → elem c (all_loop k i) ≡ (leb i c && ltb c (i + k))
unfolding all_loop
elem-all_loop zero i c h = ground arith
elem-all_loop (suc k) i c h =
    let kept : i % 2 ^ 16 ≡ i = omega arith in
    rw kept (ground (arith, elem-all_loop k (suc i) c (omega arith)))

-- `all` gives the cores below the number that the system counts, if that is at most 2 ^ 16.
pub elem-all : (count c : ℕ) → count ≤ 2 ^ 16 → elem c (all count) ≡ ltb c count
unfolding all
elem-all count c h = ground (arith, elem-all_loop count 0 c (omega arith))

cpu_set_lem :
    (cores : List ℕ) (set : ℕ → Bool) (c : ℕ)
    → cpu_set cores set c ≡ (set c || (elem c cores && ltb c 1024))
unfolding cpu_set
cpu_set_lem [] set c = ground arith
cpu_set_lem (d ∷ cores) set c =
    cpu_set_lem cores (if ltb d 1024 then update set d true else set) c ∙ (ground arith)

-- A thread with the affinity of all cores asks for the cores that are below the number of cores,
-- and below the size of the system's set.
pub set_affinity-all :
    (count : ℕ)
    → 0 < count
    → count ≤ 2 ^ 16
    → (set : ℕ → Bool) × (set_affinity (all count) ≡ some set)
      × ((c : ℕ) → set c ≡ (ltb c count && ltb c 1024))
unfolding set_affinity all all_loop
set_affinity-all zero p h = absurd (omega arith)
set_affinity-all (suc k) p h = (
  cpu_set (all (suc k)) (λ i. false),
  refl,
  λ c. cpu_set_lem (all (suc k)) (λ i. false) c ∙ rw (elem-all (suc k) c h) refl,
)
