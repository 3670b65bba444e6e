-- ===== src/ConditionVariable.antt =====
-- include/hfts/conditionvariable.hpp: ConditionVariable. The integers are 32 bits wide, and the
-- parts of `wait` between two uses of the counters are functions of their own.
pub mod Waiters
use hfts.Base.{ℕ, ◌^◌, Bool, ◌&&◌, List, [], ◌∷◌, ltb, ◌==◌, if◌then◌else◌, erase, inc32, dec32}

-- A call of Fiber::notify, or of the std::condition_variable.
pub data Notice : Type 0 where
  fiber : ℕ → Notice
  condition_one condition_all : Notice

-- `waiting` is a list of fibers, and `log` holds what was notified, the last first.
pub record ConditionVariable : Type 0 where
  pub waiting : List ℕ
  pub waiting_num : ℕ
  pub waiting_on_condition_num : ℕ
  pub log : List Notice

unfoldable pub empty : ConditionVariable
empty = record { waiting = []; waiting_num = 0; waiting_on_condition_num = 0; log = [] }

-- A 32-bit signed integer is above 0.
abbrev pub is_positive : ℕ → Bool
is_positive n = ltb 0 n && ltb n (2 ^ 31)

-- ConditionVariable::notify_one
unfoldable pub notify_one : ConditionVariable → ConditionVariable
notify_one c = if c.waiting_num == 0 then c else elim c.waiting [
  | f ∷ rest ↦ record c { log = fiber f ∷ c.log }
  | [] ↦
      if is_positive c.waiting_on_condition_num then record c { log = condition_one ∷ c.log } else c
]

unfoldable pub notify_each : List ℕ → List Notice → List Notice
notify_each [] log = log
notify_each (f ∷ fs) log = notify_each fs (fiber f ∷ log)

-- ConditionVariable::notify_all
unfoldable pub notify_all : ConditionVariable → ConditionVariable
unfolding notify_each
notify_all c =
    if c.waiting_num == 0
    then c
    else (let log = notify_each c.waiting c.log in
        if is_positive c.waiting_on_condition_num
        then record c { log = condition_all ∷ log }
        else record c { log = log })

-- waitingNum++, once the predicate has been false
unfoldable pub wait_begin : ConditionVariable → ConditionVariable
wait_begin c = record c { waiting_num = inc32 c.waiting_num }

-- waiting.emplace_front
unfoldable pub wait_emplace : ℕ → ConditionVariable → ConditionVariable
wait_emplace f c = record c { waiting = f ∷ c.waiting }

-- waiting.erase, of the place of this fiber
unfoldable pub wait_erase : ℕ → ConditionVariable → ConditionVariable
wait_erase f c = record c { waiting = erase f c.waiting }

-- waitingOnConditionNum++ and waitingOnConditionNum--, for a thread with no fiber
unfoldable pub wait_on_condition : ConditionVariable → ConditionVariable
wait_on_condition c = record c { waiting_on_condition_num = inc32 c.waiting_on_condition_num }

unfoldable pub wait_off_condition : ConditionVariable → ConditionVariable
wait_off_condition c = record c { waiting_on_condition_num = dec32 c.waiting_on_condition_num }

-- waitingNum--
unfoldable pub wait_end : ConditionVariable → ConditionVariable
wait_end c = record c { waiting_num = dec32 c.waiting_num }
