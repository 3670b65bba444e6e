-- ===== src/Base/Update.antt =====
-- A store from numbers (fibers, slots, addresses) to values, and a count over its first entries.
use Prim.Native.Nat.{ℕ, zero, suc, ◌+◌, ◌≤◌, ◌<◌}
use mathlib.Core.Path.{◌≡◌, refl}
use mathlib.Core.Bool.{Bool, false}
use native.Mathlib.Omega.{arith}
use hfts.Base.Tests.{◌==◌, if◌then◌else◌}

abbrev pub update {ℓ} : {A : Type ℓ} → (ℕ → A) → ℕ → A → ℕ → A
update m k v j = if j == k then v else m j

-- How many of the entries below `n` pass the test.
unfoldable pub count_below {ℓ} : {A : Type ℓ} → (A → Bool) → (ℕ → A) → ℕ → ℕ
count_below p m zero = 0
count_below p m (suc n) = count_below p m n + (if p (m n) then 1 else 0)

pub count_below-suc {ℓ} :
    {A : Type ℓ} (p : A → Bool) (m : ℕ → A) (n : ℕ)
    → count_below p m (suc n) ≡ count_below p m n + (if p (m n) then 1 else 0)
unfolding count_below
count_below-suc p m n = refl

module _ {ℓ} {A : Type ℓ} (p : A → Bool) (m : ℕ → A) (k : ℕ) (v : A) where
  pub count_below-update_out : (n : ℕ) → n ≤ k → count_below p (update m k v) n ≡ count_below p m n
  unfolding count_below
  count_below-update_out zero h = refl
  count_below-update_out (suc n) h = ground (arith, count_below-update_out n)

  pub count_below-update :
      (n : ℕ)
      → k < n
      → count_below p (update m k v) n + (if p (m k) then 1 else 0)
        ≡ count_below p m n + (if p v then 1 else 0)
  unfolding count_below
  count_below-update zero h = elim h [ ]
  count_below-update (suc n) h = ground (arith, count_below-update n, count_below-update_out n)

pub count_below-le {ℓ} : {A : Type ℓ} (p : A → Bool) (m : ℕ → A) (n : ℕ) → count_below p m n ≤ n
unfolding count_below
count_below-le p m zero = omega arith
count_below-le p m (suc n) = ground (arith, count_below-le p m n)

pub count_below-zero {ℓ} :
    {A : Type ℓ} (p : A → Bool) (m : ℕ → A) (n k : ℕ)
    → count_below p m n ≡ 0
    → k < n
    → p (m k) ≡ false
unfolding count_below
count_below-zero p m zero k h lt = elim lt [ ]
count_below-zero p m (suc n) k h lt = ground (arith, count_below-zero p m n k)
