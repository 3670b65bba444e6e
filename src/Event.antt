-- ===== src/Event.antt =====
-- include/hfts/event.hpp. Events are shared by pointer: `Events` is the store of Event::Shared, and an
-- event is its place in it. `log` holds the calls of the condition variables. A call that blocks is
-- `none`; the recursion of `signal` over the dependent events is on fuel.
pub mod Grows
pub mod Signal
pub mod Any
pub mod Dependents
pub mod Semaphore
use hfts.Base.{
  ℕ, zero, suc, Bool, true, false, not, Option, none, some, List, [], ◌∷◌, ◌++◌, if◌then◌else◌,
  update,
}

-- Event::Mode
pub data Mode : Type 0 where
  auto manual : Mode

-- Event::Shared, without its mutex and condition variable
pub record Shared : Type 0 where
  pub deps : List ℕ
  pub mode : Mode
  pub signalled : Bool

pub data Notify : Type 0 where
  notify_one notify_all : ℕ → Notify

pub record Events : Type 0 where
  pub next : ℕ
  pub shared : ℕ → Shared
  pub log : List Notify

-- Event::Event
unfoldable pub make : Mode → Bool → Events → Events × ℕ
make mode initial_state h =
    let s : Shared = record { deps = []; mode = mode; signalled = initial_state } in
    (record h { next = suc h.next; shared = update h.shared h.next s }, h.next)

unfoldable pub set_signalled : ℕ → Bool → Events → Events
set_signalled i b h =
    let s = h.shared i in record h { shared = update h.shared i (record s { signalled = b }) }

-- Lines 136 to 140 of Shared::signal
unfoldable pub notify : ℕ → Events → Events
notify i h = elim (h.shared i).mode [
  | auto ↦ record h { log = notify_one i ∷ h.log }
  | manual ↦ record h { log = notify_all i ∷ h.log }
]

unfoldable pub signal_all : (ℕ → Events → Option Events) → List ℕ → Events → Option Events
signal_all call [] h = some h
signal_all call (d ∷ ds) h = elim (call d h) [ none ↦ none | some h' ↦ signal_all call ds h' ]

-- Event::Shared::signal
unfoldable pub signal : ℕ → ℕ → Events → Option Events
signal zero i h = none
signal (suc fuel) i h =
    let rest = signal_all (signal fuel) (h.shared i).deps (notify i (set_signalled i true h)) in
    if (h.shared i).signalled then some h else rest

-- Event::clear
unfoldable pub clear : ℕ → Events → Events
unfolding set_signalled
clear i h = set_signalled i false h

-- Lines 149 to 151: what a wait that is over does.
unfoldable pub reset : ℕ → Events → Events
unfolding set_signalled
reset i h = elim (h.shared i).mode [ auto ↦ set_signalled i false h | manual ↦ h ]

-- Event::wait
unfoldable pub wait : ℕ → Events → Option Events
wait i h = if (h.shared i).signalled then some (reset i h) else none

-- Event::wait_until and wait_for; `timed_out` says whether the time has come.
unfoldable pub wait_until : Bool → ℕ → Events → Option (Events × Bool)
wait_until timed_out i h =
    if (h.shared i).signalled
    then some (reset i h, true)
    else if timed_out
    then some (h, false)
    else none

-- Event::test
unfoldable pub test : ℕ → Events → Events × Bool
test i h = if not (h.shared i).signalled then (h, false) else (reset i h, true)

-- Event::isSignalled
unfoldable pub is_signalled : ℕ → Events → Bool
is_signalled i h = (h.shared i).signalled

unfoldable pub push_dep : ℕ → ℕ → Events → Events
push_dep i d h =
    let s = h.shared i in
    record h { shared = update h.shared i (record s { deps = s.deps ++ d ∷ [] }) }

-- Lines 229 to 234: one event of the range.
unfoldable pub any_step : ℕ → ℕ → Events → Option Events
any_step any it h =
    let pushed = push_dep it any h in
    if (h.shared it).signalled
    then (elim (signal (suc zero) any h) [ none ↦ none | some h' ↦ some (push_dep it any h') ])
    else some pushed

unfoldable pub any_loop : ℕ → List ℕ → Events → Option Events
any_loop any [] h = some h
any_loop any (it ∷ rest) h = elim (any_step any it h) [
  | none ↦ none
  | some h' ↦ any_loop any rest h'
]

-- Event::any, with the place of the new event
unfoldable pub any_of : Mode → List ℕ → Events → Option (Events × ℕ)
any_of mode range h =
    let m = make mode false h in
    elim (any_loop m.1 range m.0) [ none ↦ none | some h' ↦ some (h', m.1) ]
