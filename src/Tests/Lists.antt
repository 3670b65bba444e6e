-- ===== src/Tests/Lists.antt =====
-- include/hfts/containers.hpp: list at concrete inputs.
use hfts.Base.{ℕ, ◌≡◌, refl, true, false, Option, none, some, List, [], ◌∷◌, elem, arith, update}
use hfts.Memory.{Allocation, Request, list}
use hfts.LinkedList.Freed.{Allocated}
use hfts.LinkedList.{LinkedList, Layouts, emplace_front, erase, destruct}
use hfts.LinkedList.Represents.{Represents, places}
use hfts.LinkedList.Represents.Emplace.{emplace_front-Represents}
use hfts.LinkedList.Represents.Erase.{erase-Represents, destruct-Represents}

abbrev layouts : Layouts
layouts = record { entry_size = 24; entry_align = 8; chain_size = 40; chain_align = 8 }

-- Entry 5 is free, and entries 3 and 4 hold 30 and 40.
abbrev next_of : ℕ → Option ℕ
next_of = update (λ e. none) 3 (some 4)

abbrev prev_of : ℕ → Option ℕ
prev_of = update (λ e. none) 4 (some 3)

abbrev held : ℕ → Option ℕ
held = update (update (λ e. none) 3 (some 30)) 4 (some 40)

-- Two allocations, each with its chain.
abbrev request : Request
request = record { size = 232; alignment = 8; use_guards = false; usage = list }

abbrev older : Allocation
older = record { ptr = 1856; request = request }

abbrev newer : Allocation
newer = record { ptr = 3904; request = request }

abbrev chain : List (ℕ × Allocation)
chain = (4096, newer) ∷ (2048, older) ∷ []

abbrev three : LinkedList ℕ
three = record {
  size = 2;
  capacity = 3;
  allocations = some 4096;
  chains =
      update (update (λ p. none) 2048 (some (record { allocation = older; next = none }))) 4096
        (some (record { allocation = newer; next = some 2048 }));
  free = some 5;
  head = some 3;
  nodes = record { next = next_of; prev = prev_of };
  objects = held;
}

abbrev items : List (ℕ × ℕ)
items = (3, 30) ∷ (4, 40) ∷ []

three-Represents : Represents three items
three-Represents = (
  5 ∷ [],
  record {
    free_chain = (refl, refl, refl);
    head_chain = (refl, refl, (refl, refl, refl));
    distinct = (refl, (refl, (refl, tt)));
    size = refl;
    capacity = refl;
    stored = (refl, (refl, tt));
  },
)

three-Allocated : Allocated three chain
three-Allocated = ((refl, (some 2048, refl, (refl, (none, refl, refl)))), (refl, (refl, tt)))

emplace_front-Represents_example :
    (l' : LinkedList ℕ) × (e : ℕ) × (emplace_front layouts 4096 100 50 three ≡ some (l', e))
    × Represents l' ((e, 50) ∷ items)
    × (elem e (places items) ≡ false)
emplace_front-Represents_example =
    emplace_front-Represents layouts 4096 100 50 three items three-Represents (omega arith)
      (λ none_free. absurd (cc (none_free)))

erase-Represents_example :
    (l' : LinkedList ℕ) × (erase 4 three ≡ some l')
    × Represents l' ((3, 30) ∷ [])
    × (l'.free ≡ some 4)
    × (l'.capacity ≡ 3)
erase-Represents_example =
    erase-Represents 4 40 three ((3, 30) ∷ []) [] three-Represents (omega arith)

destruct-Represents_example :
    (left : ℕ → Option ℕ) × (destruct 2 three ≡ some (left, newer ∷ older ∷ []))
    × ((e : ℕ) → elem e (places items) ≡ true → left e ≡ none)
destruct-Represents_example =
    destruct-Represents 2 three items chain three-Represents three-Allocated (omega arith)
      (omega arith)
