-- ===== src/Scheduler/Spinning.antt =====
-- src/scheduler.cpp: the spinning workers, and the worker that Scheduler::enqueue tries.
use hfts.Base.{
  ℕ, zero, suc, ◌+◌, ◌-◌, ◌*◌, ◌/◌, ◌%◌, ◌≤◌, ◌<◌, ◌≡◌, refl, Option, none, some, update, inc32,
  dec32, u32_mod, arith, Option-cases, Bool-cases, leb, inl, inr, ◌∙◌, ap, subst,
}
use native.Mathlib.Nat.{div-add-mod, mod-lt}
use hfts.Scheduler.{Scheduler, make, on_begin_spinning, pick_worker}

abbrev pub slot : Scheduler → ℕ
slot s = dec32 s.next_spinning_worker_idx % s.count

-- The stack after a slot has been taken.
abbrev pub popped : Scheduler → Scheduler
popped s = record s {
  next_spinning_worker_idx = dec32 s.next_spinning_worker_idx;
  spinning_workers = update s.spinning_workers (slot s) none;
}

abbrev pub chosen : Scheduler → Scheduler
chosen s = let r = popped s in record r { next_enqueue_index = inc32 s.next_enqueue_index }

picked_some :
    (s : Scheduler) (idx : ℕ)
    → s.spinning_workers (slot s) ≡ some idx
    → pick_worker s ≡ (popped s, idx)
unfolding pick_worker
picked_some s idx h = rw (h, pick_worker)

picked_none :
    (s : Scheduler)
    → s.spinning_workers (slot s) ≡ none
    → pick_worker s ≡ (chosen s, s.next_enqueue_index % s.count)
unfolding pick_worker
picked_none s h = rw (h, pick_worker)

-- A worker that begins to spin is the next that `enqueue` tries, whatever its slot held, if the
-- stack index is a 32-bit number; the index and the counter of the fair choice are then as before,
-- and the slot is free.
pub pick_worker-on_begin_spinning :
    (id : ℕ) (s : Scheduler)
    → s.next_spinning_worker_idx < u32_mod
    → let r = pick_worker (on_begin_spinning id s) in
      (r.1 ≡ id)
      × (r.0.next_spinning_worker_idx ≡ s.next_spinning_worker_idx)
      × (r.0.next_enqueue_index ≡ s.next_enqueue_index)
      × (r.0.spinning_workers (s.next_spinning_worker_idx % s.count) ≡ none)
unfolding on_begin_spinning
pick_worker-on_begin_spinning id s h =
    rw (picked_some (on_begin_spinning id s) id (rw same (ground arith)))
      (refl, same, refl, ground (arith, same))
  where
    same : dec32 (inc32 s.next_spinning_worker_idx) ≡ s.next_spinning_worker_idx
    same = omega arith

abbrev pub SlotOk : ℕ → Option ℕ → Type 0
SlotOk count none = Unit
SlotOk count (some id) = id < count

-- Each slot is free or names a worker thread.
pub record IsValid (s : Scheduler) : Type 0 where
  pub some_worker : 0 < s.count
  pub slots : (i : ℕ) → SlotOk s.count (s.spinning_workers i)

pub make-IsValid : (count : ℕ) → 0 < count → IsValid (make count)
unfolding make
make-IsValid count h = record { some_worker = h; slots = λ i. tt }

pub on_begin_spinning-IsValid :
    (id : ℕ) (s : Scheduler) → IsValid s → id < s.count → IsValid (on_begin_spinning id s)
unfolding on_begin_spinning
on_begin_spinning-IsValid id s v h = record {
  some_worker = v.some_worker;
  slots = λ i. ground (arith, v.slots i);
}

-- From a scheduler that has a worker thread, and whose slots each are free or name one, `enqueue`
-- tries a worker thread that there is, and leaves such a scheduler.
pub pick_worker-IsValid :
    (s : Scheduler) → IsValid s → IsValid (pick_worker s).0 × ((pick_worker s).1 < s.count)
pick_worker-IsValid s v = elim (Option-cases (s.spinning_workers (slot s))) [
  | inl e ↦ rw (picked_none s e) (
    record { some_worker = v.some_worker; slots = λ i. ground (arith, v.slots i) },
    omega (arith, v.some_worker),
  )
  | inr (idx, e) ↦ rw (picked_some s idx e) (
    record { some_worker = v.some_worker; slots = λ i. ground (arith, v.slots i) },
    subst (SlotOk s.count) e (v.slots (slot s)),
  )
]

-- The worker that the round with the number `k` tries, when no round succeeds before.
pub nth_pick : ℕ → Scheduler → ℕ
nth_pick zero s = (pick_worker s).1
nth_pick (suc k) s = nth_pick k (pick_worker s).0

abbrev pub NoneSpins : Scheduler → Type 0
NoneSpins s = (i : ℕ) → s.spinning_workers i ≡ none

small :
    (s : Scheduler)
    → s.next_enqueue_index < u32_mod
    → (s.next_enqueue_index + 0) % u32_mod ≡ s.next_enqueue_index
small s h = omega arith

later :
    (k : ℕ) (s : Scheduler)
    → s.next_enqueue_index < u32_mod
    → (inc32 s.next_enqueue_index + k) % u32_mod % s.count
      ≡ (s.next_enqueue_index + suc k) % u32_mod % s.count
later k s h =
    let same : (inc32 s.next_enqueue_index + k) % u32_mod
        ≡ (s.next_enqueue_index + suc k) % u32_mod =
      omega arith in
    ap (λ (n : ℕ). n % s.count) same

nth_pick_lem :
    (k : ℕ) (s : Scheduler)
    → NoneSpins s
    → s.next_enqueue_index < u32_mod
    → nth_pick k s ≡ (s.next_enqueue_index + k) % u32_mod % s.count
unfolding nth_pick
nth_pick_lem zero s h b = rw (picked_none s (h (slot s)), nth_pick) (rw (small s b) refl)
nth_pick_lem (suc k) s h b =
    rw (picked_none s (h (slot s)), nth_pick)
      (nth_pick_lem k (chosen s) (λ i. ground (arith, h i)) (omega arith) ∙ later k s b)

multiple_mod : (q c j : ℕ) → j < c → (q * c + j) % c ≡ j
multiple_mod q c j h = grind arith

round_robin : (n c j : ℕ) → j < c → (k : ℕ) × (k < c) × ((n + k) % c ≡ j)
round_robin n c j h = elim (Bool-cases (leb (n % c) j)) [
  | inl e ↦
      let le : n % c ≤ j = ground arith in
      let sum : n + (j - n % c) ≡ n / c * c + j = omega (arith, div-add-mod n c) in
      (j - n % c, omega arith, rw sum (multiple_mod (n / c) c j h))
  | inr e ↦
      let lt : j < n % c = ground arith in
      let below : n % c < c = omega (arith, mod-lt n {m = c} (omega arith)) in
      let sum : n + (j + c - n % c) ≡ (n / c + 1) * c + j = omega (arith, div-add-mod n c) in
      (j + c - n % c, omega arith, rw sum (multiple_mod (n / c + 1) c j h))
]

-- While no worker spins, any worker thread is tried within as many rounds as there are worker
-- threads, if the counter of the fair choice does not wrap in them.
pub nth_pick_fair :
    (j : ℕ) (s : Scheduler)
    → NoneSpins s
    → j < s.count
    → s.next_enqueue_index + s.count ≤ u32_mod
    → (k : ℕ) × (k < s.count) × (nth_pick k s ≡ j)
nth_pick_fair j s h lt room =
    let (k, below, hit) = round_robin s.next_enqueue_index s.count j lt in
    let whole : (s.next_enqueue_index + k) % u32_mod ≡ s.next_enqueue_index + k = omega arith in
    (k, below, nth_pick_lem k s h (omega arith) ∙ ap (λ (n : ℕ). n % s.count) whole ∙ hit)
