-- ===== src/Worker/Machine/Switch.antt =====
-- src/worker.cpp: the steps that switch to another fiber, and the invariant.
use hfts.Base.{
  ℕ, suc, ◌+◌, ◌≤◌, ◌<◌, ◌≡◌, ◌≢◌, ◌⊎◌, refl, true, false, List, [], ◌∷◌, if◌then◌else◌, update,
  elem, erase, length, count_below, arith, inc64, dec64, inl, inr, ap, count_below-update,
  count_below-suc, elem-erase, erase-Distinct,
}
use hfts.Worker.{
  idle, queued, running, suspend_target, suspend_end, idle_target, change_fiber_state,
}
use hfts.Worker.Machine.{
  Machine, Frame, fresh, in_suspend, in_idle, active, looping, in_task, suspending, switch_to_fiber,
}
use hfts.Worker.Machine.Inv.{Inv, is_in_suspend}

-- How a switch changes the number of fibers that are switched away in `suspend`.
moved_count :
    (frame : ℕ → Frame) (n current to : ℕ) (back : Frame)
    → current < n
    → to < n
    → frame current ≡ active
    → count_below is_in_suspend (update (update frame current back) to active) n
        + (if is_in_suspend (update frame current back to) then 1 else 0)
      ≡ count_below is_in_suspend frame n + (if is_in_suspend back then 1 else 0)
moved_count frame n current to back hc ht e = ground (
  arith,
  count_below-update is_in_suspend frame current back n hc,
  count_below-update is_in_suspend (update frame current back) to active n ht,
)

-- The first fiber of the queue is queued and not current while the current one runs.
module _ (m : Machine) (fiber : ℕ) (rest : List ℕ) (v : Inv m) (p : m.pc ≡ looping)
    (e : m.worker.work.fibers ≡ fiber ∷ rest) where
  first_queued : m.worker.state fiber ≡ queued
  first_queued = ground (arith, v.in_queue fiber)

  first_in_suspend : m.frame fiber ≡ in_suspend
  first_in_suspend = ground (arith, first_queued, v.fibers_ok fiber)

  first_ne_current : fiber ≢ m.worker.current_fiber
  first_ne_current = λ h. ground (arith, first_queued, v.fibers_ok fiber)

  current_running : m.worker.state m.worker.current_fiber ≡ running
  current_running = ground (arith, v.fibers_ok m.worker.current_fiber)

  current_active : m.frame m.worker.current_fiber ≡ active
  current_active = ground (arith, v.fibers_ok m.worker.current_fiber)

  current_idle_set : elem m.worker.current_fiber m.worker.idle_fibers ≡ false
  current_idle_set = ground (arith, v.in_idle_set m.worker.current_fiber, current_running)

  rest_without : elem fiber rest ≡ false
  rest_without = ground (arith, e, v.queue_distinct)

abbrev ran_fiber : Machine → ℕ → List ℕ → Machine
ran_fiber m fiber rest =
    let w = m.worker in
    let work = w.work in
    record {
      worker = record w {
        current_fiber = fiber;
        work = record work {
          num = dec64 work.num;
          num_blocked_fibers = dec64 work.num_blocked_fibers;
          fibers = rest;
        };
        idle_fibers = w.current_fiber ∷ w.idle_fibers;
        state = update (update w.state w.current_fiber idle) fiber running;
      };
      frame = update (update m.frame w.current_fiber in_idle) fiber active;
      pc = in_task;
    }

runs_fiber_lem :
    (m : Machine) (fiber : ℕ) (rest : List ℕ)
    → Inv m
    → m.pc ≡ looping
    → m.worker.work.fibers ≡ fiber ∷ rest
    → switch_to_fiber in_idle m.frame (idle_target fiber rest m.worker) ≡ ran_fiber m fiber rest
unfolding switch_to_fiber idle_target suspend_end
runs_fiber_lem m fiber rest v p e = ground (
  arith,
  first_in_suspend m fiber rest v p e,
  first_ne_current m fiber rest v p e,
  current_idle_set m fiber rest v p e,
)

-- runUntilIdle goes on with a queued fiber.
pub ran_fiber-Inv :
    (m : Machine) (fiber : ℕ) (rest : List ℕ)
    → Inv m
    → m.pc ≡ looping
    → m.worker.work.fibers ≡ fiber ∷ rest
    → Inv (ran_fiber m fiber rest)
ran_fiber-Inv m fiber rest v p e = record {
  counted = omega (arith, v.counted, ap length e);
  blocked = ground (
    arith,
    v.blocked,
    ne,
    at_frame,
    moved_count m.frame (suc m.worker.worker_fibers) current fiber in_idle
        (ground (arith, v.fibers_ok current)) (ground (arith, at_frame, ne, v.fibers_ok fiber))
        (current_active m fiber rest v p e),
  );
  fibers_ok =
      λ f. ground (arith, v.fibers_ok f, v.fibers_ok current, v.fibers_ok fiber, at_frame, ne);
  in_queue = λ f. ground (arith, v.in_queue f, at_frame, ne, running_now, rest_out, e);
  in_idle_set =
      λ f. ground (arith, v.in_idle_set f, first_queued m fiber rest v p e, running_now, ne);
  queue_distinct = ground (arith, v.queue_distinct, e);
  idle_distinct = (current_idle_set m fiber rest v p e, v.idle_distinct);
}
  where
    current : ℕ
    current = m.worker.current_fiber

    at_frame : m.frame fiber ≡ in_suspend
    at_frame = first_in_suspend m fiber rest v p e

    ne : fiber ≢ m.worker.current_fiber
    ne = first_ne_current m fiber rest v p e

    running_now : m.worker.state m.worker.current_fiber ≡ running
    running_now = current_running m fiber rest v p e

    rest_out : elem fiber rest ≡ false
    rest_out = rest_without m fiber rest v p e

-- The fiber that `suspend` takes off the queue; it may be the current one.
abbrev took_fiber : Machine → ℕ → List ℕ → Machine
took_fiber m to rest =
    let w = m.worker in
    let work = w.work in
    record {
      worker = record w {
        current_fiber = to;
        work = record work {
          num = dec64 work.num;
          num_blocked_fibers = dec64 (inc64 work.num_blocked_fibers);
          fibers = rest;
        };
        state = update w.state to running;
      };
      frame = update (update m.frame w.current_fiber in_suspend) to active;
      pc = in_task;
    }

module _ (m : Machine) (to : ℕ) (rest : List ℕ) (v : Inv m) (p : m.pc ≡ suspending)
    (e : m.worker.work.fibers ≡ to ∷ rest) where
  to_queued : m.worker.state to ≡ queued
  to_queued = ground (arith, v.in_queue to)

  to_in_suspend : update m.frame m.worker.current_fiber in_suspend to ≡ in_suspend
  to_in_suspend = ground (arith, to_queued, v.fibers_ok to)

  rest_without_to : elem to rest ≡ false
  rest_without_to = ground (arith, e, v.queue_distinct)

  took_fiber_lem :
      (pick : ℕ)
      → switch_to_fiber in_suspend m.frame (suspend_target pick m.worker) ≡ took_fiber m to rest
  unfolding switch_to_fiber suspend_target suspend_end
  took_fiber_lem pick = rw (e, to_in_suspend)

  pub took_fiber-Inv : Inv (took_fiber m to rest)
  took_fiber-Inv = record {
    counted = omega (arith, v.counted, ap length e);
    blocked = ground (
      arith,
      v.blocked,
      to_in_suspend,
      moved_count m.frame (suc m.worker.worker_fibers) m.worker.current_fiber to in_suspend
          (ground (arith, v.fibers_ok m.worker.current_fiber))
          (ground (arith, to_queued, v.fibers_ok to))
          (ground (arith, v.fibers_ok m.worker.current_fiber)),
    );
    fibers_ok = λ f.
        ground
          (arith, v.fibers_ok f, v.fibers_ok m.worker.current_fiber, v.fibers_ok to, to_queued);
    in_queue = λ f. ground (arith, v.in_queue f, rest_without_to, e);
    in_idle_set = λ f. ground (arith, v.in_idle_set f, to_queued);
    queue_distinct = ground (arith, v.queue_distinct, e);
    idle_distinct = v.idle_distinct;
  }

abbrev took_idle : Machine → ℕ → Machine
took_idle m pick =
    let w = m.worker in
    let work = w.work in
    record {
      worker = record w {
        current_fiber = pick;
        work = record work { num_blocked_fibers = inc64 work.num_blocked_fibers };
        idle_fibers = erase pick w.idle_fibers;
        state = update w.state pick running;
      };
      frame = update (update m.frame w.current_fiber in_suspend) pick active;
      pc = looping;
    }

module _ (m : Machine) (pick : ℕ) (v : Inv m) (p : m.pc ≡ suspending)
    (e : m.worker.work.fibers ≡ []) (i : elem pick m.worker.idle_fibers ≡ true) where
  pick_idle : m.worker.state pick ≡ idle
  pick_idle = ground (arith, v.in_idle_set pick)

  pick_in_idle : update m.frame m.worker.current_fiber in_suspend pick ≡ in_idle
  pick_in_idle = ground (arith, pick_idle, v.fibers_ok pick)

  took_idle_lem :
      switch_to_fiber in_suspend m.frame (suspend_target pick m.worker) ≡ took_idle m pick
  unfolding switch_to_fiber suspend_target change_fiber_state
  took_idle_lem = ground (arith, e, pick_in_idle, i)

  pub took_idle-Inv : Inv (took_idle m pick)
  took_idle-Inv = record {
    counted = v.counted;
    blocked = ground (
      arith,
      v.blocked,
      pick_in_idle,
      moved_count m.frame (suc m.worker.worker_fibers) m.worker.current_fiber pick in_suspend
          (ground (arith, v.fibers_ok m.worker.current_fiber))
          (ground (arith, pick_idle, v.fibers_ok pick))
          (ground (arith, v.fibers_ok m.worker.current_fiber)),
    );
    fibers_ok = λ f.
        ground
          (arith, v.fibers_ok f, v.fibers_ok m.worker.current_fiber, v.fibers_ok pick, pick_idle);
    in_queue = λ f. ground (arith, v.in_queue f, pick_idle);
    in_idle_set = λ f.
        ground (arith, v.in_idle_set f, elem-erase f pick m.worker.idle_fibers v.idle_distinct);
    queue_distinct = v.queue_distinct;
    idle_distinct = erase-Distinct pick m.worker.idle_fibers v.idle_distinct;
  }

abbrev made_fiber : Machine → Machine
made_fiber m =
    let w = m.worker in
    let work = w.work in
    record {
      worker = record w {
        current_fiber = suc w.worker_fibers;
        work = record work { num_blocked_fibers = inc64 work.num_blocked_fibers };
        worker_fibers = suc w.worker_fibers;
        state = update w.state (suc w.worker_fibers) running;
      };
      frame = update (update m.frame w.current_fiber in_suspend) (suc w.worker_fibers) active;
      pc = looping;
    }

module _ (m : Machine) (v : Inv m) (p : m.pc ≡ suspending) (e : m.worker.work.fibers ≡ [])
    (i : m.worker.idle_fibers ≡ []) where
  new_fresh : update m.frame m.worker.current_fiber in_suspend (suc m.worker.worker_fibers) ≡ fresh
  new_fresh =
      ground (arith, v.fibers_ok (suc m.worker.worker_fibers), v.fibers_ok m.worker.current_fiber)

  made_frame : m.frame (suc m.worker.worker_fibers) ≡ fresh
  made_frame =
      ground (arith, v.fibers_ok (suc m.worker.worker_fibers), v.fibers_ok m.worker.current_fiber)

  current_below : m.worker.current_fiber ≤ m.worker.worker_fibers
  current_below = ground (arith, v.fibers_ok m.worker.current_fiber)

  made_fiber_lem :
      (pick : ℕ) → switch_to_fiber in_suspend m.frame (suspend_target pick m.worker) ≡ made_fiber m
  unfolding switch_to_fiber suspend_target
  made_fiber_lem pick = rw (e, i, new_fresh)

  pub made_fiber-Inv : Inv (made_fiber m)
  made_fiber-Inv = record {
    counted = v.counted;
    blocked = ground (
      arith,
      v.blocked,
      new_fresh,
      made_frame,
      count_below-suc is_in_suspend m.frame (suc m.worker.worker_fibers),
      moved_count m.frame (suc (suc m.worker.worker_fibers)) m.worker.current_fiber
          (suc m.worker.worker_fibers) in_suspend (omega (arith, current_below)) (omega arith)
          (ground (arith, v.fibers_ok m.worker.current_fiber)),
    );
    fibers_ok =
        λ f. ground (arith, v.fibers_ok f, v.fibers_ok m.worker.current_fiber, current_below);
    in_queue = λ f. ground (arith, v.in_queue f, e);
    in_idle_set = λ f. ground (arith, v.in_idle_set f, i);
    queue_distinct = v.queue_distinct;
    idle_distinct = v.idle_distinct;
  }

switches-Inv_lists :
    (m : Machine) (pick : ℕ) (fibers idles : List ℕ)
    → m.worker.work.fibers ≡ fibers
    → m.worker.idle_fibers ≡ idles
    → m.pc ≡ suspending
    → (m.worker.idle_fibers ≡ []) ⊎ (elem pick m.worker.idle_fibers ≡ true)
    → Inv m
    → Inv (switch_to_fiber in_suspend m.frame (suspend_target pick m.worker))
switches-Inv_lists m pick (to ∷ rest) idles e i p h v =
    rw (took_fiber_lem m to rest v p e pick) (took_fiber-Inv m to rest v p e)
switches-Inv_lists m pick [] [] e i p h v =
    rw (made_fiber_lem m v p e i pick) (made_fiber-Inv m v p e i)
switches-Inv_lists m pick [] (j ∷ js) e i p (inl h) v = absurd (cc)
switches-Inv_lists m pick [] (j ∷ js) e i p (inr h) v =
    rw (took_idle_lem m pick v p e h) (took_idle-Inv m pick v p e h)

-- `suspend` switches to a queued fiber, to an idle one, or to a new one.
pub switches-Inv :
    (m : Machine) (pick : ℕ)
    → m.pc ≡ suspending
    → (m.worker.idle_fibers ≡ []) ⊎ (elem pick m.worker.idle_fibers ≡ true)
    → Inv m
    → Inv (switch_to_fiber in_suspend m.frame (suspend_target pick m.worker))
switches-Inv m pick p h v =
    switches-Inv_lists m pick m.worker.work.fibers m.worker.idle_fibers refl refl p h v

pub runs_fiber-Inv :
    (m : Machine) (fiber : ℕ) (rest : List ℕ)
    → m.pc ≡ looping
    → m.worker.work.fibers ≡ fiber ∷ rest
    → Inv m
    → Inv (switch_to_fiber in_idle m.frame (idle_target fiber rest m.worker))
runs_fiber-Inv m fiber rest p e v =
    rw (runs_fiber_lem m fiber rest v p e) (ran_fiber-Inv m fiber rest v p e)
