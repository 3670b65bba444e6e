-- ===== src/Worker/Wait.antt =====
-- src/worker.cpp: Worker::wait with a predicate, and without, and the two locks.
use hfts.Base.{
  ℕ, zero, suc, ◌<◌, ◌≡◌, refl, Bool, true, false, not, ◌&&◌, ◌||◌, Option, none, some, List, [],
  ◌∷◌, if◌then◌else◌, Bool-cases, inl, inr, get_elem?, length, arith, ◌∙◌, subst,
}
use hfts.Mutex.{lock, unlock}

-- What the thread does with the two locks, and where a fiber is parked: its state says that it waits.
pub data Deed : Type 0 where
  locks_user unlocks_user locks_work unlocks_work parks : Deed

-- Both locks, and what was done, the last first.
pub record Locks : Type 0 where
  pub user : Bool
  pub work : Bool
  pub log : List Deed

-- A call of `lock` on a mutex that is held, or of `unlock` on one that is not, is `none`.
abbrev pub lock_work : Locks → Option Locks
lock_work l = elim (lock l.work) [
  | none ↦ none
  | some b ↦ some (record l { work = b; log = locks_work ∷ l.log })
]

abbrev pub unlock_work : Locks → Option Locks
unlock_work l = elim (unlock l.work) [
  | none ↦ none
  | some b ↦ some (record l { work = b; log = unlocks_work ∷ l.log })
]

abbrev pub lock_user : Locks → Option Locks
lock_user l = elim (lock l.user) [
  | none ↦ none
  | some b ↦ some (record l { user = b; log = locks_user ∷ l.log })
]

abbrev pub unlock_user : Locks → Option Locks
unlock_user l = elim (unlock l.user) [
  | none ↦ none
  | some b ↦ some (record l { user = b; log = unlocks_user ∷ l.log })
]

infixl 5 ◌>>=◌
abbrev ◌>>=◌ : {A B : Type 0} → Option A → (A → Option B) → Option B
none >>= f = none
some a >>= f = f a

-- What Worker::suspend, called with the mutex held, does with it; what it does with the worker is in
-- Worker. The fiber is parked first; then `work.mutex` is given up, in
-- waitForWork or by the fibers that run meanwhile, and is held again when the fiber goes on.
unfoldable pub suspend : Locks → Option Locks
suspend l₀ = do l₁ ← unlock_work (record l₀ { log = parks ∷ l₀.log }); lock_work l₁

-- The body of the loop, but for the test of the time
unfoldable pub wait_round : Locks → Option Locks
unfolding suspend
wait_round l₀ = do
  l₁ ← lock_work l₀
  l₂ ← unlock_user l₁
  l₃ ← suspend l₂
  l₄ ← unlock_work l₃
  lock_user l₄

-- What a round sees: the predicate before it, and whether the time has come after it.
pub record Look : Type 0 where
  pub pred : Bool
  pub late : Bool

-- Worker::wait returns, or is suspended still when what it sees ends.
pub data Outcome : Type 0 where
  returned : Bool → Locks → Outcome
  suspended : Outcome

-- Worker::wait without a predicate: whether there is a timeout, and whether its time has come at the
-- end
unfoldable pub wait_once : Bool → Bool → Locks → Option (Bool × Locks)
unfolding suspend
wait_once timed late l₀ = do
  l₁ ← lock_work l₀
  l₂ ← suspend l₁
  l₃ ← unlock_work l₂
  some (not timed || not late, l₃)

-- Worker::wait with a predicate, where `timed` says whether there is a timeout
unfoldable pub wait : Bool → List Look → Locks → Option Outcome
unfolding wait_round
wait timed [] l = some suspended
wait timed (look ∷ later) l = if look.pred then some (returned true l) else elim (wait_round l) [
  | none ↦ none
  | some k ↦ if timed && look.late then some (returned false k) else wait timed later k
]

abbrev pub held : List Deed → Locks
held log = record { user = true; work = false; log = log }

-- What a round does, the last first: `work.mutex` is locked before the user's lock is given up, and is
-- given up only behind the parking.
abbrev pub round : List Deed → List Deed
round log =
    locks_user ∷ unlocks_work ∷ locks_work ∷ unlocks_work ∷ parks ∷ unlocks_user ∷ locks_work ∷ log

abbrev pub rounds : ℕ → List Deed → List Deed
rounds zero log = log
rounds (suc k) log = rounds k (round log)

wait_round_lem : (log : List Deed) → wait_round (held log) ≡ some (held (round log))
unfolding wait_round suspend lock unlock
wait_round_lem log = refl

-- At the first `k` looks the predicate did not hold, nor had the time come.
abbrev pub AllPassed : Bool → List Look → ℕ → Type 0
AllPassed timed looks k =
    (j : ℕ) (look : Look)
    → j < k
    → get_elem? looks j ≡ some look
    → (look.pred ≡ false) × ((timed && look.late) ≡ false)

-- The look after those
abbrev pub Sees : List Look → ℕ → (Look → Type 0) → Type 0
Sees looks k P = (look : Look) × (get_elem? looks k ≡ some look) × P look

-- How a wait ends that has passed `k` looks.
pub data Ends (timed : Bool) (looks : List Look) (log : List Deed) (k : ℕ) : Outcome → Type 0 where
  holds :
      Sees looks k (λ look. look.pred ≡ true)
      → Ends timed looks log k (returned true (held (rounds k log)))
  too_late :
      Sees looks k (λ look. (look.pred ≡ false) × (timed ≡ true) × (look.late ≡ true))
      → Ends timed looks log k (returned false (held (rounds (suc k) log)))
  no_more : k ≡ length looks → Ends timed looks log k suspended

wait-stops :
    (timed : Bool) (look : Look) (later : List Look) (log : List Deed)
    → look.pred ≡ true
    → wait timed (look ∷ later) (held log) ≡ some (returned true (held log))
unfolding wait
wait-stops timed look later log e = rw (e, wait) refl

wait-late :
    (timed : Bool) (look : Look) (later : List Look) (log : List Deed)
    → look.pred ≡ false
    → (timed && look.late) ≡ true
    → wait timed (look ∷ later) (held log) ≡ some (returned false (held (round log)))
unfolding wait
wait-late timed look later log e t = rw (e, wait) (rw (wait_round_lem log) (rw t refl))

wait-goes_on :
    (timed : Bool) (look : Look) (later : List Look) (log : List Deed)
    → look.pred ≡ false
    → (timed && look.late) ≡ false
    → wait timed (look ∷ later) (held log) ≡ wait timed later (held (round log))
unfolding wait
wait-goes_on timed look later log e t = rw (e, wait) (rw (wait_round_lem log) (rw t refl))

AllPassed-cons :
    (timed : Bool) (look : Look) (later : List Look) (k : ℕ)
    → look.pred ≡ false
    → (timed && look.late) ≡ false
    → AllPassed timed later k
    → AllPassed timed (look ∷ later) (suc k)
AllPassed-cons timed look later k e t all zero other lt h =
    subst (λ (l : Look). (l.pred ≡ false) × ((timed && l.late) ≡ false)) (cc (h)) (e, t)
AllPassed-cons timed look later k e t all (suc j) other lt h = all j other (omega arith) h

Ends-cons :
    (timed : Bool) (look : Look) (later : List Look) (log : List Deed) (k : ℕ) (o : Outcome)
    → Ends timed later (round log) k o
    → Ends timed (look ∷ later) log (suc k) o
Ends-cons timed look later log k o (holds (l, at, h)) = holds (l, at, h)
Ends-cons timed look later log k o (too_late (l, at, h)) = too_late (l, at, h)
Ends-cons timed look later log k o (no_more e) = no_more (omega (arith, e))

-- A call of Worker::wait with a predicate, by a holder of the user's lock where `work.mutex` is
-- free, passes the looks at which the predicate does not hold and no timeout has come. It returns
-- true at the next look if the predicate holds, false if it does not and the time of a timeout has
-- come, and is suspended still if there is no next look. It returns with the user's lock held and
-- `work.mutex` free, and neither locks a mutex that is held nor unlocks one that is free. In each
-- round it locks `work.mutex` before it gives the user's lock up, and gives `work.mutex` up only
-- when the fiber is parked.
pub wait_lem :
    (timed : Bool) (looks : List Look) (log : List Deed)
    → (o : Outcome) × (k : ℕ) × (wait timed looks (held log) ≡ some o)
      × AllPassed timed looks k
      × Ends timed looks log k o
unfolding wait
wait_lem timed [] log = (suspended, 0, refl, λ j look lt. absurd (omega arith), no_more refl)
wait_lem timed (look ∷ later) log = elim (Bool-cases look.pred) [
  | inl e ↦ (
    returned true (held log),
    0,
    wait-stops timed look later log e,
    λ j l lt. absurd (omega arith),
    holds (look, refl, e),
  )
  | inr e ↦ elim (Bool-cases (timed && look.late)) [
    | inl t ↦ (
      returned false (held (round log)),
      0,
      wait-late timed look later log e t,
      λ j l lt. absurd (omega arith),
      too_late (look, refl, (e, ground (arith, t), ground (arith, t))),
    )
    | inr t ↦
        let (o, k, ran, all, ends) = wait_lem timed later (round log) in
        (
          o,
          suc k,
          wait-goes_on timed look later log e t ∙ ran,
          AllPassed-cons timed look later k e t all,
          Ends-cons timed look later log k o ends,
        )
  ]
]

-- Worker::wait without a predicate parks the fiber once, with `work.mutex` held, and leaves it free,
-- and returns false just where there is a timeout whose time has come.
pub wait_once_lem :
    (timed late user : Bool) (log : List Deed)
    → wait_once timed late (record { user = user; work = false; log = log })
      ≡ some (
        not (timed && late),
        record {
          user = user;
          work = false;
          log = unlocks_work ∷ locks_work ∷ unlocks_work ∷ parks ∷ locks_work ∷ log;
        },
      )
unfolding wait_once suspend lock unlock
wait_once_lem true late user log = refl
wait_once_lem false late user log = refl
