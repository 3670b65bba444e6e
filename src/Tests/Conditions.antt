-- ===== src/Tests/Conditions.antt =====
-- include/hfts/conditionvariable.hpp at concrete inputs.
use hfts.ConditionVariable.{ConditionVariable, empty, wait_begin, wait_emplace, wait_on_condition}
use hfts.ConditionVariable.Waiters.{Callers}

-- Fiber 3, fiber 4 and a thread wait.
abbrev one : ConditionVariable
one = wait_emplace 3 (wait_begin empty)

abbrev two : ConditionVariable
two = wait_emplace 4 (wait_begin one)

abbrev three : Callers
three = record { cv = wait_on_condition (wait_begin two); between = 0 }
