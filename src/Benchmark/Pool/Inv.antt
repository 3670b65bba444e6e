-- ===== src/Benchmark/Pool/Inv.antt =====
-- example/benchmark.cpp: what `pending` of PlainThreadPool counts, and where its tasks are.
use hfts.Base.{
  ℕ, zero, suc, ◌+◌, ◌%◌, ◌<◌, ◌≡◌, refl, Bool, true, false, List, [], ◌∷◌, ◌++◌, ◌==◌,
  if◌then◌else◌, update, length, length-append, u64_mod, arith, count_below, count_below-update,
  Bool-cases, inl, inr, some, ◌⊎◌, ◌∙◌,
}
use hfts.Benchmark.Pool.{
  Pool, Stage, waits, runs, ran, left, System, Step, Reach, start, enqueue, wake, finish, shut_down,
  enqueues, wakes, returns, finishes, shuts_down, here, next,
}

-- How many tasks of a list pass a test.
unfoldable pub tally : (ℕ → Bool) → List ℕ → ℕ
tally p [] = 0
tally p (task ∷ tasks) = (if p task then 1 else 0) + tally p tasks

tally-append : (p : ℕ → Bool) (xs ys : List ℕ) → tally p (xs ++ ys) ≡ tally p xs + tally p ys
unfolding tally
tally-append p [] ys = omega arith
tally-append p (x ∷ xs) ys = omega (arith, tally-append p xs ys)

abbrev pub is_busy : Stage → Bool
is_busy at = elim at [ waits ↦ false | runs task ↦ true | ran ↦ true | left ↦ false ]

-- Whether a thread runs a task that passes the test.
abbrev pub runs_such : (ℕ → Bool) → Stage → Bool
runs_such p at = elim at [ waits ↦ false | runs task ↦ p task | ran ↦ false | left ↦ false ]

abbrev pub is_left : Stage → Bool
is_left at = elim at [ left ↦ true | _ ↦ false ]

pub record Inv (s : System) : Type 0 where
  pub counted :
      s.pool.pending ≡ (length s.pool.queue + count_below is_busy s.thread s.worker_count) % u64_mod
  pub everywhere :
      (p : ℕ → Bool)
      → tally p s.accepted
        ≡ tally p s.pool.queue + count_below (runs_such p) s.thread s.worker_count + tally p s.ended
  pub closed :
      (i : ℕ) → is_left (s.thread i) ≡ true → (s.pool.shutdown ≡ true) × (length s.pool.queue ≡ 0)

-- What a wake does: it leaves, or takes the first task.
abbrev Woken : Pool → Pool → Stage → Type 0
Woken p q at =
    (q.pending ≡ p.pending)
    × (q.shutdown ≡ p.shutdown)
    × (length p.queue ≡ length q.queue + (if is_busy at then 1 else 0))
    × ((t : ℕ → Bool) → tally t p.queue ≡ tally t q.queue + (if runs_such t at then 1 else 0))
    × (is_left at ≡ true → (q.shutdown ≡ true) × (length q.queue ≡ 0))

wake_leaves : (p q : Pool) (at : Stage) → p.queue ≡ [] → wake p ≡ some (q, at) → Woken p q at
unfolding wake tally
wake_leaves p q at e h = elim (Bool-cases p.shutdown) [
  | inl y ↦ (
    ground (arith, e, y, h),
    ground (arith, e, y, h),
    ground (arith, e, y, h),
    λ t. ground (arith, e, y, h),
    λ l. ground (arith, e, y, h),
  )
  | inr n ↦ absurd (ground (arith, e, n, h))
]

wake_takes :
    (p q : Pool) (at : Stage) (task : ℕ) (rest : List ℕ)
    → p.queue ≡ task ∷ rest
    → wake p ≡ some (q, at)
    → Woken p q at
unfolding wake tally
wake_takes p q at task rest e h = (
  ground (arith, e, h),
  ground (arith, e, h),
  ground (arith, e, h),
  λ t. ground (arith, e, h),
  λ l. absurd (ground (arith, e, h)),
)

List-cases : (xs : List ℕ) → (xs ≡ []) ⊎ ((x : ℕ) × (rest : List ℕ) × (xs ≡ x ∷ rest))
List-cases [] = inl refl
List-cases (x ∷ rest) = inr (x, rest, refl)

wake-Woken : (p q : Pool) (at : Stage) → wake p ≡ some (q, at) → Woken p q at
wake-Woken p q at h = elim (List-cases p.queue) [
  | inl e ↦ wake_leaves p q at e h
  | inr (task, rest, e) ↦ wake_takes p q at task rest e h
]

count_below-none :
    {A : Type 0} (p : A → Bool) (a : A) (n : ℕ) → p a ≡ false → count_below p (λ i. a) n ≡ 0
unfolding count_below
count_below-none p a zero h = refl
count_below-none p a (suc n) h = rw h (omega (arith, count_below-none p a n h))

pub start-Inv : (n : ℕ) → Inv (start n)
unfolding start tally
start-Inv n = record {
  counted = omega (arith, count_below-none is_busy waits n refl);
  everywhere = λ p. omega (arith, count_below-none (runs_such p) waits n refl);
  closed = λ i e. absurd (cc (e));
}

module _ (s : System) (v : Inv s) where
  -- What a count over the threads becomes when thread `i`, which stood at `was`, goes on to `at`.
  moved :
      (p : Stage → Bool) (i : ℕ) (at : Stage) {was : Stage}
      → i < s.worker_count
      → s.thread i ≡ was
      → count_below p (update s.thread i at) s.worker_count + (if p was then 1 else 0)
        ≡ count_below p s.thread s.worker_count + (if p at then 1 else 0)
  moved p i at lt e = rw (← e) (count_below-update p s.thread i at s.worker_count lt)

  kept :
      (i j : ℕ) (at : Stage)
      → is_left (update s.thread i at j) ≡ true
      → is_left at ≡ false
      → is_left (s.thread j) ≡ true
  kept i j at l n = elim (Bool-cases (j == i)) [
    | inl y ↦ (let gone = rw y at l in absurd (cc (gone, n)))
    | inr y ↦ rw y at l
  ]

  enqueues-Inv :
      (task : ℕ)
      → s.pool.shutdown ≡ false
      → Inv (record s { pool = enqueue task s.pool; accepted = task ∷ s.accepted })
  unfolding enqueue tally
  enqueues-Inv task open_still = record {
    counted = omega (arith, v.counted, length-append s.pool.queue (task ∷ []));
    everywhere = λ p. omega (arith, v.everywhere p, tally-append p s.pool.queue (task ∷ []));
    closed = λ i e. absurd (ground (arith, v.closed i e, open_still));
  }

  wakes-Inv :
      (i : ℕ) (p : Pool) (at : Stage)
      → i < s.worker_count
      → s.thread i ≡ waits
      → wake s.pool ≡ some (p, at)
      → Inv (record s { pool = p; thread = update s.thread i at })
  wakes-Inv i p at lt e ran_it =
      let (same, still, queue, tasks, leaves) = wake-Woken s.pool p at ran_it in
      record {
        counted = omega (arith, v.counted, same, queue, moved is_busy i at lt e);
        everywhere = λ t. omega (arith, v.everywhere t, tasks t, moved (runs_such t) i at lt e);
        closed = λ j l. elim (Bool-cases (j == i)) [
          | inl y ↦ leaves (rw y at l)
          | inr n ↦ let old = v.closed j (rw n at l) in (still ∙ old.0, omega (arith, old.1, queue))
        ];
      }

  returns-Inv :
      (i task : ℕ)
      → i < s.worker_count
      → s.thread i ≡ runs task
      → Inv (record s { thread = update s.thread i ran; ended = task ∷ s.ended })
  unfolding tally
  returns-Inv i task lt e = record {
    counted = omega (arith, v.counted, moved is_busy i ran lt e);
    everywhere = λ p. omega (arith, v.everywhere p, moved (runs_such p) i ran lt e);
    closed = λ j l. v.closed j (kept i j ran l refl);
  }

  finishes-Inv :
      (i : ℕ)
      → i < s.worker_count
      → s.thread i ≡ ran
      → Inv (record s { pool = (finish s.pool).0; thread = update s.thread i waits })
  unfolding finish
  finishes-Inv i lt e = record {
    counted = omega (arith, v.counted, moved is_busy i waits lt e);
    everywhere = λ p. omega (arith, v.everywhere p, moved (runs_such p) i waits lt e);
    closed = λ j l. v.closed j (kept i j waits l refl);
  }

  shuts_down-Inv : Inv (record s { pool = shut_down s.pool })
  unfolding shut_down
  shuts_down-Inv = record {
    counted = v.counted;
    everywhere = v.everywhere;
    closed = λ i e. (refl, (v.closed i e).1);
  }

Step-Inv : (s t : System) → Step s t → Inv s → Inv t
Step-Inv s t (enqueues task e) v = enqueues-Inv s v task e
Step-Inv s t (wakes i p at lt e h) v = wakes-Inv s v i p at lt e h
Step-Inv s t (returns i task lt e) v = returns-Inv s v i task lt e
Step-Inv s t (finishes i lt e) v = finishes-Inv s v i lt e
Step-Inv s t shuts_down v = shuts_down-Inv s v

pub Reach-Inv : (n : ℕ) (s : System) → Reach (start n) s → Inv s
Reach-Inv n s here = start-Inv n
Reach-Inv n s (next {t = t} r step) = Step-Inv t s step (Reach-Inv n t r)
