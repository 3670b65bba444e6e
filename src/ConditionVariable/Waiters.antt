-- ===== src/ConditionVariable/Waiters.antt =====
-- include/hfts/conditionvariable.hpp: the callers of `wait` and of `wait_until`, in any order.
use hfts.Base.{
  ℕ, suc, ◌+◌, ◌%◌, ◌<◌, ◌≡◌, true, List, [], ◌∷◌, length, elem, map, ltb, if◌then◌else◌, u32_mod,
}
use mathlib.Core.List.{reverse}
use hfts.ConditionVariable.{
  ConditionVariable, Notice, fiber, condition_one, condition_all, empty, notify_one, notify_all,
  wait_begin, wait_emplace, wait_erase, wait_on_condition, wait_off_condition, wait_end,
}

-- `between` counts the callers that have incremented `waiting_num`, and are neither in `waiting` nor
-- counted by `waiting_on_condition_num`.
pub record Callers : Type 0 where
  pub cv : ConditionVariable
  pub between : ℕ

pub data Step (s : Callers) : Callers → Type 0 where
  begins : Step s (record { cv = wait_begin s.cv; between = suc s.between })
  emplaces :
      (f k : ℕ) → s.between ≡ suc k → Step s (record { cv = wait_emplace f s.cv; between = k })
  erases :
      (f : ℕ)
      → elem f s.cv.waiting ≡ true
      → Step s (record { cv = wait_erase f s.cv; between = suc s.between })
  goes_on_condition :
      (k : ℕ) → s.between ≡ suc k → Step s (record { cv = wait_on_condition s.cv; between = k })
  goes_off_condition :
      0 < s.cv.waiting_on_condition_num
      → Step s (record { cv = wait_off_condition s.cv; between = suc s.between })
  ends : (k : ℕ) → s.between ≡ suc k → Step s (record { cv = wait_end s.cv; between = k })
  notifies_one : Step s (record { cv = notify_one s.cv; between = s.between })
  notifies_all : Step s (record { cv = notify_all s.cv; between = s.between })

abbrev pub start : Callers
start = record { cv = empty; between = 0 }

pub data Reach : Callers → Type 0 where
  here : Reach start
  next : {s t : Callers} → Reach s → Step s t → Reach t

-- All callers of a wait
abbrev pub callers : Callers → ℕ
callers s = s.between + length s.cv.waiting + s.cv.waiting_on_condition_num

abbrev Counted : Callers → Type 0
Counted s = s.cv.waiting_num ≡ callers s % u32_mod

-- What a notification of one waits for: the fiber that was the last to wait, or a thread if no fiber
-- waits, or nothing if none does.
abbrev pub to_one : ConditionVariable → List Notice
to_one c = elim c.waiting [
  | f ∷ rest ↦ fiber f ∷ []
  | [] ↦ if ltb 0 c.waiting_on_condition_num then condition_one ∷ [] else []
]

-- What a notification of all waits for.
abbrev pub to_threads : ConditionVariable → List Notice
to_threads c = if ltb 0 c.waiting_on_condition_num then condition_all ∷ [] else []

-- Each waiting fiber once, the last of the list last, as the log is in reverse
abbrev pub to_fibers : ConditionVariable → List Notice
to_fibers c = reverse (map fiber c.waiting)
