-- ===== src/Event/Semaphore.antt =====
-- include/hfts/event.hpp: sequences of calls on one event, automatic or manual.
use hfts.Base.{
  ℕ, zero, suc, ◌+◌, ◌≤◌, ◌≡◌, refl, Bool, true, Option, none, some, List, [], ◌∷◌, if◌then◌else◌,
  arith,
}
use hfts.Event.{
  Events, Mode, auto, manual, signal, signal_all, set_signalled, notify, clear, reset, wait,
  wait_until, test,
}

-- A call on one event by any thread. A wait that blocks is tried again later.
pub data Call : Type 0 where
  signals clears waits tests : Call
  waits_until : Bool → Call

abbrev or_same : Events → Option Events → Events
or_same h none = h
or_same h (some h') = h'

abbrev passed : Option Events → ℕ
passed none = 0
passed (some h) = 1

abbrev bit : Bool → ℕ
bit b = if b then 1 else 0

-- The events after a call, and how many waits or tests it lets pass.
unfoldable pub call : ℕ → Call → Events → Events × ℕ
call i signals h = (or_same h (signal (suc zero) i h), 0)
call i clears h = (clear i h, 0)
call i waits h = (or_same h (wait i h), passed (wait i h))
call i tests h = let r = test i h in (r.0, bit r.1)
call i (waits_until late) h = elim (wait_until late i h) [ none ↦ (h, 0) | some r ↦ (r.0, bit r.1) ]

-- How many of a sequence of calls pass.
unfoldable pub passes : ℕ → List Call → Events → ℕ
passes i [] h = 0
passes i (c ∷ cs) h = let r = call i c h in r.1 + passes i cs r.0

abbrev is_signal : Call → ℕ
is_signal signals = 1
is_signal _ = 0

unfoldable pub count_signals : List Call → ℕ
count_signals [] = 0
count_signals (c ∷ cs) = is_signal c + count_signals cs

abbrev level : ℕ → Events → ℕ
level i h = bit (h.shared i).signalled

abbrev pub Alone : ℕ → Mode → Events → Type 0
Alone i mode h = ((h.shared i).mode ≡ mode) × ((h.shared i).deps ≡ [])

signal_alone :
    (i : ℕ) (h : Events)
    → (h.shared i).deps ≡ []
    → signal (suc zero) i h
      ≡ some (if (h.shared i).signalled then h else notify i (set_signalled i true h))
unfolding signal signal_all
signal_alone i h e = rw (e, signal, signal_all) (ground arith)

call_auto :
    (i : ℕ) (c : Call) (h : Events)
    → Alone i auto h
    → Alone i auto (call i c h).0
      × ((call i c h).1 + level i (call i c h).0 ≤ is_signal c + level i h)
unfolding call notify clear wait wait_until test reset set_signalled
call_auto i signals h a = rw (signal_alone i h a.1) (ground arith)
call_auto i clears h a = ground arith
call_auto i waits h a = ground arith
call_auto i tests h a = ground arith
call_auto i (waits_until late) h a = ground arith

-- For an automatic event that no other event depends on, the waits and tests that pass in a
-- sequence of calls are at most as many as its signals, with one more if the event was signalled
-- before.
pub passes-le-signals :
    (i : ℕ) (cs : List Call) (h : Events)
    → Alone i auto h
    → passes i cs h ≤ count_signals cs + (if (h.shared i).signalled then 1 else 0)
unfolding passes count_signals
passes-le-signals i [] h a = ground arith
passes-le-signals i (c ∷ cs) h a =
    let (alone, le) = call_auto i c h a in
    omega (arith, le, passes-le-signals i cs (call i c h).0 alone)

abbrev pub NoClear : List Call → Type 0
NoClear [] = Unit
NoClear (clears ∷ cs) = ⊥
NoClear (_ ∷ cs) = NoClear cs

abbrev is_pass : Call → ℕ
is_pass signals = 0
is_pass clears = 0
is_pass _ = 1

unfoldable pub count_waits : List Call → ℕ
count_waits [] = 0
count_waits (c ∷ cs) = is_pass c + count_waits cs

call_manual :
    (i : ℕ) (c : Call) (cs : List Call) (h : Events)
    → Alone i manual h
    → (h.shared i).signalled ≡ true
    → NoClear (c ∷ cs)
    → Alone i manual (call i c h).0
      × (((call i c h).0.shared i).signalled ≡ true)
      × ((call i c h).1 ≡ is_pass c)
      × NoClear cs
unfolding call notify wait wait_until test reset set_signalled
call_manual i signals cs h a e n = rw (signal_alone i h a.1) (ground arith)
call_manual i clears cs h a e n = absurd n
call_manual i waits cs h a e n = ground arith
call_manual i tests cs h a e n = ground arith
call_manual i (waits_until late) cs h a e n = ground arith

-- For a manual event that is signalled and that no other event depends on, all waits and tests of a
-- sequence of calls pass, if no call clears it.
pub passes-manual :
    (i : ℕ) (cs : List Call) (h : Events)
    → Alone i manual h
    → (h.shared i).signalled ≡ true
    → NoClear cs
    → passes i cs h ≡ count_waits cs
unfolding passes count_waits
passes-manual i [] h a e n = refl
passes-manual i (c ∷ cs) h a e n =
    let (alone, up, one, rest) = call_manual i c cs h a e n in
    omega (arith, one, passes-manual i cs (call i c h).0 alone up rest)
