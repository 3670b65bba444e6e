-- ===== src/Scheduler/System/Counts.antt =====
-- How many tasks of a list, or of the lists of all workers, pass a test.
use hfts.Base.{
  ℕ, zero, suc, ◌+◌, ◌≤◌, ◌<◌, ◌≡◌, refl, Bool, false, List, [], ◌∷◌, ◌++◌, ◌==◌, if◌then◌else◌,
  arith, Bool-cases, inl, inr,
}
use hfts.Task.{Task}

unfoldable pub count : (Task → Bool) → List Task → ℕ
count p [] = 0
count p (task ∷ tasks) = (if p task then 1 else 0) + count p tasks

pub count-append :
    (p : Task → Bool) (xs ys : List Task) → count p (xs ++ ys) ≡ count p xs + count p ys
unfolding count
count-append p [] ys = omega arith
count-append p (x ∷ xs) ys = omega (arith, count-append p xs ys)

unfoldable pub sum_below : (ℕ → ℕ) → ℕ → ℕ
sum_below f zero = 0
sum_below f (suc n) = sum_below f n + f n

pub sum_below-same :
    (f g : ℕ → ℕ) (i n : ℕ)
    → n ≤ i
    → ((j : ℕ) → (j == i) ≡ false → g j ≡ f j)
    → sum_below g n ≡ sum_below f n
unfolding sum_below
sum_below-same f g i zero h same = refl
sum_below-same f g i (suc n) h same =
    let ne : (n == i) ≡ false = ground arith in
    omega (arith, sum_below-same f g i n (omega arith) same, same n ne)

-- A sum changes by what its only changed summand changes.
pub sum_below-change :
    (f g : ℕ → ℕ) (i n : ℕ)
    → i < n
    → ((j : ℕ) → (j == i) ≡ false → g j ≡ f j)
    → sum_below g n + f i ≡ sum_below f n + g i
unfolding sum_below
sum_below-change f g i zero h same = absurd (omega arith)
sum_below-change f g i (suc n) h same = elim (Bool-cases (n == i)) [
  | inl e ↦
      let here : n ≡ i = ground arith in
      rw here (omega (arith, sum_below-same f g i i (omega arith) same))
  | inr e ↦ omega (arith, sum_below-change f g i n (ground arith) same, same n e)
]
