-- ===== src/Scheduler/Bind.antt =====
-- src/scheduler.cpp: the threads that are bound to a scheduler.
use hfts.Base.{ℕ, ◌≡◌, refl, false, none, some, List, [], ◌∷◌, ◌==◌, if◌then◌else◌, arith, is_empty}
use hfts.Worker.{Worker, init, single_threaded}
use hfts.Scheduler.{Scheduler, find, emplace, erase_tid, bind, unbind, may_destroy}

find-emplace :
    (tid j : ℕ) (w : Worker) (m : List (ℕ × Worker))
    → find tid m ≡ none
    → find j (emplace tid w m) ≡ (if tid == j then some w else find j m)
unfolding find emplace
find-emplace tid j w [] h = refl
find-emplace tid j w ((t, v) ∷ m) h = ground (arith, find-emplace tid j w m)

erase_tid-emplace :
    (tid : ℕ) (w : Worker) (m : List (ℕ × Worker))
    → find tid m ≡ none
    → erase_tid tid (emplace tid w m) ≡ m
unfolding find emplace erase_tid
erase_tid-emplace tid w [] h = ground arith
erase_tid-emplace tid w ((t, v) ∷ m) h = ground (arith, erase_tid-emplace tid w m)

find-emplace_self :
    (tid : ℕ) (w : Worker) (m : List (ℕ × Worker))
    → find tid m ≡ none
    → find tid (emplace tid w m) ≡ some w
find-emplace_self tid w m h = rw (find-emplace tid tid w m h) (ground arith)

emplace_not_empty :
    (tid : ℕ) (w : Worker) (m : List (ℕ × Worker)) → is_empty (emplace tid w m) ≡ false
unfolding emplace
emplace_not_empty tid w [] = refl
emplace_not_empty tid w ((t, v) ∷ m) = ground arith

-- A thread that is not bound gets a new single-threaded worker by `bind`, and the scheduler may
-- then not be destroyed. `unbind` gives the scheduler from before, and notifies exactly if no
-- thread is bound then.
pub unbind-bind :
    (tid : ℕ) (s : Scheduler)
    → find tid s.by_tid ≡ none
    → (find tid (bind tid s).by_tid ≡ some (init 0xffff_ffff single_threaded))
      × (may_destroy (bind tid s) ≡ false)
      × (unbind tid (bind tid s) ≡ some (s, may_destroy s))
unfolding bind unbind may_destroy
unbind-bind tid s h =
    let fresh = init 0xffff_ffff single_threaded in
    let found = find-emplace_self tid fresh s.by_tid h in
    (
      found,
      emplace_not_empty tid fresh s.by_tid,
      rw (found, erase_tid-emplace tid fresh s.by_tid h, unbind),
    )
