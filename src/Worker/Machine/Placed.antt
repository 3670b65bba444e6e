-- ===== src/Worker/Machine/Placed.antt =====
-- src/worker.cpp: the steps that leave the current fiber where it is, and the invariant.
use hfts.Base.{
  ℕ, ◌+◌, ◌%◌, ◌≤◌, ◌≡◌, refl, Bool, true, false, Option, none, some, List, [], ◌∷◌, ◌++◌, length,
  u64_mod, arith, inc64, dec64, length-append, elem-append, Distinct-snoc, inl, inr, ap, update,
}
use hfts.Task.{Task}
use hfts.WaitingFibers.{WaitingFibers}
use hfts.WaitingFibers
use hfts.Worker.{
  State, idle, waiting, yielded, queued, running, enqueue_fiber, enqueue_task, steal,
  receive_stolen, suspend_begin, queue_fiber, take_task,
}
use hfts.Worker.Queues.{steal-cases}
use hfts.Worker.Machine.{Machine, looping, in_task, suspending, is_idle, with_worker}
use hfts.Worker.Machine.Inv.{Inv}

-- A change of the tasks, with `num` changed as well.
tasks-Inv :
    (m : Machine) (tasks : List Task) (num : ℕ) (locked : Bool)
    → Inv m
    → num ≡ (length tasks + length m.worker.work.fibers) % u64_mod
    → let work = m.worker.work in
      Inv (
        with_worker m
          (record (m.worker) { work = record work { num = num; tasks = tasks; locked = locked } }))
tasks-Inv m tasks num locked v h = record {
  counted = h;
  blocked = v.blocked;
  fibers_ok = v.fibers_ok;
  in_queue = v.in_queue;
  in_idle_set = v.in_idle_set;
  queue_distinct = v.queue_distinct;
  idle_distinct = v.idle_distinct;
}

push_task_counted :
    (m : Machine) (task : Task)
    → Inv m
    → inc64 m.worker.work.num
      ≡ (length (m.worker.work.tasks ++ task ∷ []) + length m.worker.work.fibers) % u64_mod
push_task_counted m task v = omega (arith, v.counted, length-append m.worker.work.tasks (task ∷ []))

pub enqueues-Inv :
    (m : Machine) (task : Task) → Inv m → Inv (with_worker m (enqueue_task task m.worker).0)
unfolding enqueue_task
enqueues-Inv m task v = tasks-Inv m _ _ false v (push_task_counted m task v)

pub receives-Inv :
    (m : Machine) (task : Task) → Inv m → Inv (with_worker m (receive_stolen task m.worker))
unfolding receive_stolen
receives-Inv m task v = tasks-Inv m _ _ m.worker.work.locked v (push_task_counted m task v)

pop_task_counted :
    (m : Machine) (task : Task) (rest : List Task)
    → Inv m
    → m.worker.work.tasks ≡ task ∷ rest
    → dec64 m.worker.work.num ≡ (length rest + length m.worker.work.fibers) % u64_mod
pop_task_counted m task rest v e = omega (arith, v.counted, ap length e)

pub steals-Inv : (m : Machine) → Inv m → Inv (with_worker m (steal m.worker).0)
unfolding steal
steals-Inv m v = elim (steal-cases m.worker) [
  | inl e ↦ rw e v
  | inr (task, rest, (e, l, s, h)) ↦
      rw h (tasks-Inv m rest _ m.worker.work.locked v (pop_task_counted m task rest v e))
]

-- The current fiber starts on a task.
pub runs_task-Inv :
    (m : Machine) (task : Task) (rest : List Task)
    → m.pc ≡ looping
    → m.worker.work.tasks ≡ task ∷ rest
    → Inv m
    → Inv (record m { worker = take_task rest m.worker; pc = in_task })
unfolding take_task
runs_task-Inv m task rest p e v = record {
  counted = pop_task_counted m task rest v e;
  blocked = v.blocked;
  fibers_ok = λ f. ground (arith, v.fibers_ok f);
  in_queue = v.in_queue;
  in_idle_set = v.in_idle_set;
  queue_distinct = v.queue_distinct;
  idle_distinct = v.idle_distinct;
}

-- A task returns.
pub returns-Inv : (m : Machine) → m.pc ≡ in_task → Inv m → Inv (record m { pc = looping })
returns-Inv m p v = record {
  counted = v.counted;
  blocked = v.blocked;
  fibers_ok = λ f. ground (arith, v.fibers_ok f);
  in_queue = v.in_queue;
  in_idle_set = v.in_idle_set;
  queue_distinct = v.queue_distinct;
  idle_distinct = v.idle_distinct;
}

-- A fiber waits, and is not notified.
abbrev is_waiting : State → Bool
is_waiting s = elim s [ waiting ↦ true | yielded ↦ true | _ ↦ false ]

-- The current fiber begins to wait.
current-Inv :
    (m : Machine) (s : State) (rest : WaitingFibers)
    → m.pc ≡ in_task
    → is_waiting s ≡ true
    → Inv m
    → let work = m.worker.work in
      Inv (record m {
        worker = record (m.worker) {
          state = update m.worker.state m.worker.current_fiber s;
          work = record work { waiting = rest };
        };
        pc = suspending;
      })
current-Inv m s rest p h v = record {
  counted = v.counted;
  blocked = v.blocked;
  fibers_ok = λ f. ground (arith, v.fibers_ok f);
  in_queue = λ f. ground (arith, v.in_queue f, v.fibers_ok f);
  in_idle_set = λ f. ground (arith, v.in_idle_set f, v.fibers_ok f);
  queue_distinct = v.queue_distinct;
  idle_distinct = v.idle_distinct;
}

pub suspends-Inv :
    (m : Machine) (timeout : Option ℕ)
    → m.pc ≡ in_task
    → Inv m
    → Inv (record m { worker = suspend_begin timeout m.worker; pc = suspending })
unfolding suspend_begin
suspends-Inv m none p v = current-Inv m yielded m.worker.work.waiting p refl v
suspends-Inv m (some timeout) p v =
    current-Inv m waiting (WaitingFibers.add timeout m.worker.current_fiber m.worker.work.waiting) p
      refl v

module _ (m : Machine) (fiber : ℕ) (v : Inv m) where
  -- A fiber that waits is queued.
  queue_fiber-Inv :
      (rest : WaitingFibers)
      → is_waiting (m.worker.state fiber) ≡ true
      → fiber ≤ m.worker.worker_fibers
      → let work = m.worker.work in
        Inv (
          with_worker m
            (queue_fiber fiber (record (m.worker) { work = record work { waiting = rest } })).0)
  unfolding queue_fiber
  queue_fiber-Inv rest e h = record {
    counted = omega (arith, v.counted, length-append m.worker.work.fibers (fiber ∷ []));
    blocked = v.blocked;
    fibers_ok = λ f. ground (arith, v.fibers_ok f);
    in_queue = λ f. ground (arith, v.in_queue f, elem-append f m.worker.work.fibers (fiber ∷ []));
    in_idle_set = λ f. ground (arith, v.in_idle_set f);
    queue_distinct =
        Distinct-snoc fiber m.worker.work.fibers v.queue_distinct
          (ground (arith, v.in_queue fiber));
    idle_distinct = v.idle_distinct;
  }

  notifies_by_state :
      (s : State)
      → m.worker.state fiber ≡ s
      → fiber ≤ m.worker.worker_fibers
      → is_idle s ≡ false
      → Inv (with_worker m (enqueue_fiber fiber m.worker).0)
  unfolding enqueue_fiber
  notifies_by_state idle e h i = absurd (cc)
  notifies_by_state waiting e h i =
      rw (e, enqueue_fiber)
        (queue_fiber-Inv (WaitingFibers.erase fiber m.worker.work.waiting) (ap is_waiting e) h)
  notifies_by_state yielded e h i =
      rw (e, enqueue_fiber) (queue_fiber-Inv m.worker.work.waiting (ap is_waiting e) h)
  notifies_by_state queued e h i = rw (e, enqueue_fiber) v
  notifies_by_state running e h i = rw (e, enqueue_fiber) v

  -- A fiber that is not idle is notified.
  pub notifies-Inv :
      fiber ≤ m.worker.worker_fibers
      → is_idle (m.worker.state fiber) ≡ false
      → Inv (with_worker m (enqueue_fiber fiber m.worker).0)
  notifies-Inv h i = notifies_by_state (m.worker.state fiber) refl h i
