-- ===== src/Tests/Containers.antt =====
-- include/hfts/containers.hpp at concrete inputs.
use hfts.Base.{ℕ, ◌≡◌, refl, Option, none, some, [], ◌∷◌, ◌++◌, arith, get_elem?}
use hfts.Vector.{Vector, Storage, buffer, heap, push_back, resize, assign}
use hfts.Vector.Holds.{Holds}
use hfts.Vector.Push.{push_back-Holds}
use hfts.Vector.Resize.{resized, resize-Holds}
use hfts.Vector.Copy.{assign-Holds, assign-grow_fails}
use hfts.Vector.Assign.{assign-heap_fails}

abbrev cells : ℕ → Option ℕ
cells i = get_elem? (3 ∷ 4 ∷ []) i

-- An int has four bytes.
abbrev ints : Storage
ints = record { size_of = 4; allocate = λ bytes. 4096 }

abbrev full : Vector ℕ
full = record { count = 2; capacity = 2; elements = buffer; places = 2; cells = cells }

abbrev moved : Vector ℕ
moved = record { count = 2; capacity = 8; elements = heap; places = 8; cells = cells }

full-Holds : Holds full ((3 ∷ []) ++ 4 ∷ [])
full-Holds = record {
  count = refl;
  room = omega arith;
  places = omega arith;
  stored = refl;
  cells = λ i lt. refl;
}

moved-Holds : Holds moved (3 ∷ 4 ∷ [])
moved-Holds = record {
  count = refl;
  room = omega arith;
  places = omega arith;
  stored = refl;
  cells = λ i lt. refl;
}

push_back-Holds_example :
    (w : Vector ℕ) × (push_back ints 5 full ≡ some w) × Holds w ((3 ∷ 4 ∷ []) ++ 5 ∷ [])
push_back-Holds_example =
    push_back-Holds ints 5 full (3 ∷ 4 ∷ []) full-Holds (omega arith)
      (omega arith, omega arith, omega arith)

assign-heap_fails_example : assign ints full moved ≡ none
assign-heap_fails_example =
    assign-heap_fails ints moved full (3 ∷ 4 ∷ []) (3 ∷ 4 ∷ []) moved-Holds refl full-Holds
      (omega arith) (omega arith)

resize-Holds_example :
    (w : Vector ℕ) × (resize ints 0 4 full ≡ some w) × Holds w (resized 0 4 (3 ∷ 4 ∷ []))
resize-Holds_example =
    resize-Holds ints 0 4 full (3 ∷ 4 ∷ []) full-Holds (omega arith) (omega arith)
      (omega arith, omega arith, omega arith)

abbrev single : Vector ℕ
single = record {
  count = 1;
  capacity = 2;
  elements = buffer;
  places = 2;
  cells = λ i. get_elem? (9 ∷ []) i;
}

single-Holds : Holds single (9 ∷ [])
single-Holds = record {
  count = refl;
  room = omega arith;
  places = omega arith;
  stored = refl;
  cells = λ i lt. refl;
}

assign-Holds_example :
    (w : Vector ℕ) × (assign ints single full ≡ some w) × Holds w (9 ∷ []) × (w.capacity ≡ 2)
assign-Holds_example =
    assign-Holds ints full single (3 ∷ 4 ∷ []) (9 ∷ []) full-Holds refl single-Holds (omega arith)

-- The list of three does not fit.
abbrev large : Vector ℕ
large = record {
  count = 3;
  capacity = 8;
  elements = heap;
  places = 8;
  cells = λ i. get_elem? (1 ∷ 2 ∷ 3 ∷ []) i;
}

large-Holds : Holds large (1 ∷ 2 ∷ 3 ∷ [])
large-Holds = record {
  count = refl;
  room = omega arith;
  places = omega arith;
  stored = refl;
  cells = λ i lt. refl;
}

assign-grow_fails_example : assign ints large full ≡ none
assign-grow_fails_example =
    assign-grow_fails ints full large (3 ∷ 4 ∷ []) (1 ∷ 2 ∷ 3 ∷ []) full-Holds (omega arith)
      large-Holds (omega arith)
