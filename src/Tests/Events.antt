-- ===== src/Tests/Events.antt =====
-- include/hfts/event.hpp and include/hfts/waitgroup.hpp at concrete inputs.
use hfts.Base.{
  ◌↔◌, ◌⊎◌, ℕ, zero, suc, ◌+◌, ◌≤◌, ◌<◌, ◌≡◌, refl, true, false, none, some, List, [], ◌∷◌, All,
  elem, arith, if◌then◌else◌,
}
use hfts.Event.{Events, Shared, auto, manual, signal, any_of}
use hfts.Event.Grows.{Ordered, Flows, IsSignalled}
use hfts.Event.Signal.{signal-Flows}
use hfts.Event.Dependents.{signal-any_of}
use hfts.Event.Any.{some_signalled, any_of_lem}
use hfts.Event.Semaphore.{
  Call, signals, waits, tests, waits_until, passes, count_signals, passes-le-signals,
}
use hfts.WaitGroup.{WaitGroup, wait, dones, dones_lem}

-- Event 0 is automatic, event 1 is manual and signalled, event 2 is any of the two.
abbrev event : ℕ → Shared
event zero = record { deps = 2 ∷ []; mode = auto; signalled = false }
event (suc zero) = record { deps = 2 ∷ []; mode = manual; signalled = true }
event (suc (suc i)) = record { deps = []; mode = auto; signalled = false }

abbrev three : Events
three = record { next = 3; shared = event; log = [] }

three-Ordered : Ordered three
three-Ordered zero = ((omega arith, omega arith), tt)
three-Ordered (suc zero) = ((omega arith, omega arith), tt)
three-Ordered (suc (suc i)) = tt

abbrev calls : List Call
calls = signals ∷ waits ∷ tests ∷ signals ∷ waits_until false ∷ []

passes-le-signals_example :
    passes 2 calls three ≤ count_signals calls + (if (three.shared 2).signalled then 1 else 0)
passes-le-signals_example = passes-le-signals 2 calls three (refl, refl)

-- A manual event, signalled, that no other depends on.
abbrev raised : Events
raised = record {
  next = 1;
  shared = λ i. record { deps = []; mode = manual; signalled = true };
  log = [];
}

any_of_lem_example :
    (h' : Events) × (any_of manual (0 ∷ 1 ∷ []) three ≡ some (h', 3))
    × ((h'.shared 3).signalled ≡ some_signalled (0 ∷ 1 ∷ []) three)
    × All (λ it. elem 3 (h'.shared it).deps ≡ true) (0 ∷ 1 ∷ [])
    × ((i : ℕ) → i < 3 → (h'.shared i).signalled ≡ (three.shared i).signalled)
any_of_lem_example = any_of_lem manual (0 ∷ 1 ∷ []) three (omega arith, (omega arith, tt))

abbrev group : WaitGroup
group = record { count = 3; notified = 0 }

dones_lem_example :
    ((dones 2 group).1 ≡ false)
    × (wait (dones 2 group).0 ≡ none)
    × ((dones 2 group).0.notified ≡ 0)
    × ((dones 3 group).1 ≡ true)
    × ((dones 3 group).0.notified ≡ 1)
    × (wait (dones 3 group).0 ≡ some (dones 3 group).0)
dones_lem_example = dones_lem 2 2 group refl (omega arith) (omega arith)

signal-Flows_example :
    (h' : Events) × (signal 3 0 three ≡ some h')
    × ((j : ℕ) → IsSignalled h' j ↔ (IsSignalled three j ⊎ Flows three j 0))
signal-Flows_example = signal-Flows 3 0 three three-Ordered (omega arith) (omega arith)

signal-any_of_example :
    (g : Events) × (h' : Events) × (any_of auto (2 ∷ 0 ∷ []) three ≡ some (g, 3))
    × (signal 4 0 g ≡ some h')
    × IsSignalled h' 0
    × IsSignalled h' 3
    × Ordered g
signal-any_of_example =
    signal-any_of auto (2 ∷ 0 ∷ []) three 0 three-Ordered (omega arith, (omega arith, tt)) refl refl
