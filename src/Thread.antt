-- ===== src/Thread.antt =====
-- include/hfts/thread.hpp and src/thread.cpp: Thread with pthreads. A Thread object is named by its
-- place, and a Thread::Impl by the order of their making. A null pointer that is followed, an Impl
-- that is used after its delete, and a std::thread that is destroyed before it is joined are `none`.
pub mod Owned
use hfts.Base.{
  ℕ, suc, ◌^◌, Bool, true, false, ◌&&◌, ◌||◌, Option, none, some, List, [], ◌∷◌, ◌==◌, ltb,
  if◌then◌else◌, update,
}

-- The std::thread of an Impl: it is not made, or runs and may be joined, or is deleted.
pub data Life : Type 0 where
  unmade joinable deleted : Life

-- `impl` is Thread::impl of each object.
pub record Threads : Type 0 where
  pub impl : ℕ → Option ℕ
  pub life : ℕ → Life
  pub made : ℕ

unfoldable pub no_threads : Threads
no_threads = record { impl = λ h. none; life = λ i. unmade; made = 0 }

-- Thread::Thread from a function
unfoldable pub create : ℕ → Threads → Threads
create h t = record {
  impl = update t.impl h (some t.made);
  life = update t.life t.made joinable;
  made = suc t.made;
}

-- Thread::join
unfoldable pub join : ℕ → Threads → Option Threads
join h t = elim (t.impl h) [
  | none ↦ none
  | some i ↦ elim (t.life i) [
    | joinable ↦ some (record t { impl = update t.impl h none; life = update t.life i deleted })
    | _ ↦ none
  ]
]

-- The move constructor of Thread
unfoldable pub move_construct : ℕ → ℕ → Threads → Threads
move_construct to from t = record t { impl = update (update t.impl to (t.impl from)) from none }

-- Thread::operator=. To delete an Impl that is joinable ends the program.
unfoldable pub move_assign : ℕ → ℕ → Threads → Option Threads
unfolding move_construct
move_assign to from t = elim (t.impl to) [ some i ↦ none | none ↦ some (move_construct to from t) ]

-- Impl::setAffinity, for the indices of the affinity's cores: the set that is given to
-- pthread_setaffinity_np, if it is called. CPU_SET ignores what is not below CPU_SETSIZE.
unfoldable pub cpu_set : List ℕ → (ℕ → Bool) → ℕ → Bool
cpu_set [] set = set
cpu_set (c ∷ cores) set = cpu_set cores (if ltb c 1024 then update set c true else set)

unfoldable pub set_affinity : List ℕ → Option (ℕ → Bool)
unfolding cpu_set
set_affinity [] = none
set_affinity (c ∷ cores) = some (cpu_set (c ∷ cores) (λ i. false))

-- What a program does with its Thread objects
pub data Op : Type 0 where
  creates joins : ℕ → Op
  constructs assigns : ℕ → ℕ → Op

unfoldable pub run_op : Op → Threads → Option Threads
run_op (creates h) t = some (create h t)
run_op (joins h) t = join h t
run_op (constructs to from) t = some (move_construct to from t)
run_op (assigns to from) t = move_assign to from t

unfoldable pub run : List Op → Threads → Option Threads
run [] t = some t
run (op ∷ ops) t = elim (run_op op t) [ none ↦ none | some u ↦ run ops u ]
