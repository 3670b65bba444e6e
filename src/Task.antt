-- ===== src/Task.antt =====
-- include/hfts/task.hpp: a task is a function with a flag.
use hfts.Base.{ℕ, Bool, true, false, Option, none, some, bit_and, ◌==◌}

pub data Flag : Type 0 where
  none_flag same_thread : Flag

abbrev pub flag_code : Flag → ℕ
flag_code none_flag = 0
flag_code same_thread = 1

-- `func` names the closure; `none` is the empty std::function.
pub record Task : Type 0 where
  pub func : Option ℕ
  pub flag : Flag

abbrev pub empty_task : Task
empty_task = record { func = none; flag = none_flag }

unfoldable pub assign_function : Task → Option ℕ → Task
assign_function t f = record { func = f; flag = none_flag }

unfoldable pub to_bool : Task → Bool
to_bool t = elim t.func [ none ↦ false | some f ↦ true ]

unfoldable pub is : Task → Flag → Bool
is t f = bit_and (flag_code t.flag) (flag_code f) == flag_code f
