-- ===== src/Affinity/Remove.antt =====
-- src/thread.cpp: Affinity::remove, round by round.
use hfts.Base.{
  ℕ, zero, suc, ◌+◌, ◌-◌, ◌≡◌, refl, true, false, ◌||◌, none, some, List, [], ◌∷◌, ◌++◌, ◌==◌,
  if◌then◌else◌, length, length-append, get_elem?, set, drop_last, elem, All, arith, Bool-cases,
  inl, inr, Option-cases, ◌∙◌, sym, ap, subst,
}
use mathlib.Core.List.{append_assoc, append-nil}
use native.Mathlib.Nat.{zero-add, suc-add, add-zero}
use hfts.Affinity.{remove, remove_loop, swap_remove, sort}
use hfts.Affinity.Add.{elem-sort}

elem-set : (c i v : ℕ) (xs : List ℕ) → elem c (set xs i v) ≡ true → ((c == v) || elem c xs) ≡ true
elem-set c i v [] h = absurd (cc)
elem-set c zero v (x ∷ xs) h = ground arith
elem-set c (suc i) v (x ∷ xs) h = ground (arith, elem-set c i v xs)

elem-drop_last : (c : ℕ) (xs : List ℕ) → elem c (drop_last xs) ≡ true → elem c xs ≡ true
elem-drop_last c [] h = h
elem-drop_last c (x ∷ []) h = absurd (cc)
elem-drop_last c (x ∷ y ∷ ys) h = ground (arith, elem-drop_last c (y ∷ ys))

elem-get_elem? : (c i : ℕ) (xs : List ℕ) → get_elem? xs i ≡ some c → elem c xs ≡ true
elem-get_elem? c i [] h = absurd (cc)
elem-get_elem? c zero (x ∷ xs) h = ground arith
elem-get_elem? c (suc i) (x ∷ xs) h = ground (arith, elem-get_elem? c i xs h)

elem-swap_remove : (c i : ℕ) (xs : List ℕ) → elem c (swap_remove i xs) ≡ true → elem c xs ≡ true
unfolding swap_remove
elem-swap_remove c i xs h = elim (Option-cases (get_elem? xs (length xs - 1))) [
  | inl e ↦ ground (arith, e)
  | inr (b, e) ↦
      let kept : elem c (drop_last (set xs i b)) ≡ true = ground (arith, e) in
      ground (
        arith,
        elem-set c i b xs (elem-drop_last c (set xs i b) kept),
        elem-get_elem? b (length xs - 1) xs e,
      )
]

-- One round of the loop.
round : ℕ → ℕ → List ℕ → List ℕ → List ℕ
round i c other cores = if elem c other then swap_remove i cores else cores

remove_loop-suc :
    (k i c : ℕ) (other cores : List ℕ)
    → get_elem? cores i ≡ some c
    → remove_loop (suc k) i other cores ≡ remove_loop k (suc i) other (round i c other cores)
unfolding remove_loop round
remove_loop-suc k i c other cores e = rw (e, remove_loop)

remove_loop-end :
    (k i : ℕ) (other cores : List ℕ)
    → get_elem? cores i ≡ none
    → remove_loop k i other cores ≡ cores
unfolding remove_loop
remove_loop-end zero i other cores e = refl
remove_loop-end (suc k) i other cores e = rw (e, remove_loop)

remove_loop-zero : (i : ℕ) (other cores : List ℕ) → remove_loop zero i other cores ≡ cores
unfolding remove_loop
remove_loop-zero i other cores = refl

elem-round :
    (i c d : ℕ) (other cores : List ℕ) → elem c (round i d other cores) ≡ true → elem c cores ≡ true
unfolding round
elem-round i c d other cores h = elim (Bool-cases (elem d other)) [
  | inl e ↦ elem-swap_remove c i cores (rw e at h)
  | inr e ↦ (rw e at h)
]

elem-remove_loop :
    (k i c : ℕ) (other cores : List ℕ)
    → elem c (remove_loop k i other cores) ≡ true
    → elem c cores ≡ true
elem-remove_loop zero i c other cores h =
    subst (λ xs. elem c xs ≡ true) (remove_loop-zero i other cores) h
elem-remove_loop (suc k) i c other cores h = elim (Option-cases (get_elem? cores i)) [
  | inl e ↦ subst (λ xs. elem c xs ≡ true) (remove_loop-end (suc k) i other cores e) h
  | inr (d, e) ↦ elem-round i c d other cores (
      elem-remove_loop k (suc i) c other (round i d other cores)
        (subst (λ xs. elem c xs ≡ true) (remove_loop-suc k i d other cores e) h))
]

-- A core that is there after `remove` was there before.
pub elem-remove :
    (c : ℕ) (other cores : List ℕ) → elem c (remove other cores) ≡ true → elem c cores ≡ true
unfolding remove
elem-remove c other cores h =
    elem-remove_loop (length cores) 0 c other cores
      (sym (elem-sort c (remove_loop (length cores) 0 other cores)) ∙ h)

-- No core of the list is among the others.
abbrev pub NoneIn : List ℕ → List ℕ → Type 0
NoneIn other = All (λ c. elem c other ≡ false)

get_elem?-middle :
    (done rest : List ℕ) (x : ℕ) → get_elem? (done ++ x ∷ rest) (length done) ≡ some x
get_elem?-middle [] rest x = refl
get_elem?-middle (d ∷ done) rest x = get_elem?-middle done rest x

round_out : (i c : ℕ) (other cores : List ℕ) → elem c other ≡ false → round i c other cores ≡ cores
unfolding round
round_out i c other cores h = rw h

round_in :
    (i c : ℕ) (other cores : List ℕ)
    → elem c other ≡ true
    → round i c other cores ≡ swap_remove i cores
unfolding round
round_in i c other cores h = rw h

remove_loop-skip :
    (k : ℕ) (other done pre rest : List ℕ)
    → NoneIn other pre
    → remove_loop (length pre + k) (length done) other (done ++ (pre ++ rest))
      ≡ remove_loop k (length (done ++ pre)) other (done ++ (pre ++ rest))
remove_loop-skip k other done [] rest n = rw (append-nil, zero-add)
remove_loop-skip k other done (x ∷ pre) rest n =
    let here =
      remove_loop-suc (length pre + k) (length done) x other (done ++ (x ∷ (pre ++ rest)))
        (get_elem?-middle done (pre ++ rest) x) in
    let later = remove_loop-skip k other (done ++ x ∷ []) pre rest n.1 in
    let size : length (done ++ x ∷ []) ≡ suc (length done) =
      omega (arith, length-append done (x ∷ [])) in
    rw suc-add (
      here
      ∙ (rw (round_out (length done) x other (done ++ (x ∷ (pre ++ rest))) n.0)
          (simp (append_assoc, size) at later)))

get_elem?-last :
    (done : List ℕ) (a b : ℕ) → get_elem? (done ++ (a ∷ b ∷ [])) (suc (length done)) ≡ some b
get_elem?-last [] a b = refl
get_elem?-last (d ∷ done) a b = get_elem?-last done a b

set-middle :
    (done rest : List ℕ) (a v : ℕ) → set (done ++ a ∷ rest) (length done) v ≡ done ++ v ∷ rest
set-middle [] rest a v = refl
set-middle (d ∷ done) rest a v = ap (λ (l : List ℕ). d ∷ l) (set-middle done rest a v)

drop_last-snoc : (done : List ℕ) (a b : ℕ) → drop_last (done ++ (a ∷ b ∷ [])) ≡ done ++ a ∷ []
drop_last-snoc [] a b = refl
drop_last-snoc (d ∷ []) a b = refl
drop_last-snoc (d ∷ e ∷ done) a b = ap (λ (l : List ℕ). d ∷ l) (drop_last-snoc (e ∷ done) a b)

get_elem?-behind : (done : List ℕ) (b : ℕ) → get_elem? (done ++ b ∷ []) (suc (length done)) ≡ none
get_elem?-behind [] b = refl
get_elem?-behind (d ∷ done) b = get_elem?-behind done b

swap_remove-two :
    (done : List ℕ) (a b : ℕ) → swap_remove (length done) (done ++ (a ∷ b ∷ [])) ≡ done ++ b ∷ []
unfolding swap_remove
swap_remove-two done a b =
    let index : length (done ++ (a ∷ b ∷ [])) - 1 ≡ suc (length done) =
      omega (arith, length-append done (a ∷ b ∷ [])) in
    rw (index, get_elem?-last done a b, swap_remove)
      (rw (set-middle done (b ∷ []) a b, drop_last-snoc done b b))

-- If of a list the last two cores, and no others, are among those to be removed, `remove` leaves
-- the last one in.
pub remove-two :
    (pre other : List ℕ) (a b : ℕ)
    → NoneIn other pre
    → elem a other ≡ true
    → elem b other ≡ true
    → remove other (pre ++ (a ∷ b ∷ [])) ≡ sort (pre ++ b ∷ [])
unfolding remove
remove-two pre other a b n ha hb =
    let size : length (pre ++ (a ∷ b ∷ [])) ≡ length pre + 2 =
      omega (arith, length-append pre (a ∷ b ∷ [])) in
    let skip = remove_loop-skip 2 other [] pre (a ∷ b ∷ []) n in
    let hit =
      remove_loop-suc 1 (length pre) a other (pre ++ (a ∷ b ∷ []))
        (get_elem?-middle pre (b ∷ []) a) in
    let swapped =
      round_in (length pre) a other (pre ++ (a ∷ b ∷ [])) ha ∙ swap_remove-two pre a b in
    let last =
      remove_loop-end 1 (suc (length pre)) other (pre ++ b ∷ []) (get_elem?-behind pre b) in
    let all : remove_loop (length (pre ++ (a ∷ b ∷ []))) 0 other (pre ++ (a ∷ b ∷ []))
        ≡ pre ++ b ∷ [] =
      rw size (skip ∙ (hit ∙ (ap (remove_loop 1 (suc (length pre)) other) swapped ∙ last))) in
    ap sort all

-- If none of the cores is among those to be removed, `remove` orders them and removes none.
pub remove-none : (other cores : List ℕ) → NoneIn other cores → remove other cores ≡ sort cores
unfolding remove
remove-none other cores n =
    let skip = remove_loop-skip 0 other [] cores [] n in
    ap sort (simp (append-nil, add-zero) at skip ∙ remove_loop-zero (length cores) other cores)
