-- ===== src/FiberContext/Laws.antt =====
-- include/hfts/osfiberm.hpp and src/osfiber_i.S: where a new fiber starts, and how a fiber goes on.
use hfts.Base.{
  ℕ, ◌+◌, ◌/◌, ◌%◌, ◌≤◌, ◌<◌, ◌≡◌, ◌≢◌, refl, true, false, Bool, some, get_elem?, u32_mod, u64_mod,
  arith, ==_refl, ==_ne, sym,
}
use hfts.Memory.{Allocation, Request, add64}
use hfts.FiberContext.{
  Register, r0, r1, r16, r17, r18, r19, r20, r21, r22, r23, r24, r25, r26, r27, r28, r29, v8, v9,
  v10, v11, v12, v13, v14, v15, sp, lr, Context, clear_low, fields, offset, set_run, save, swap,
  stack_request, create_fiber,
}

-- The offset of each register that the assembly uses is that of its field in the struct.
pub offset_lem : (r : Register) → (get_elem? fields (offset r / 8) ≡ some r) × (offset r % 8 ≡ 0)
unfolding offset
offset_lem r0 = (refl, refl)
offset_lem r1 = (refl, refl)
offset_lem r16 = (refl, refl)
offset_lem r17 = (refl, refl)
offset_lem r18 = (refl, refl)
offset_lem r19 = (refl, refl)
offset_lem r20 = (refl, refl)
offset_lem r21 = (refl, refl)
offset_lem r22 = (refl, refl)
offset_lem r23 = (refl, refl)
offset_lem r24 = (refl, refl)
offset_lem r25 = (refl, refl)
offset_lem r26 = (refl, refl)
offset_lem r27 = (refl, refl)
offset_lem r28 = (refl, refl)
offset_lem r29 = (refl, refl)
offset_lem v8 = (refl, refl)
offset_lem v9 = (refl, refl)
offset_lem v10 = (refl, refl)
offset_lem v11 = (refl, refl)
offset_lem v12 = (refl, refl)
offset_lem v13 = (refl, refl)
offset_lem v14 = (refl, refl)
offset_lem v15 = (refl, refl)
offset_lem sp = (refl, refl)
offset_lem lr = (refl, refl)

abbrev pub is_kept : Register → Bool
is_kept r = elim r [ r0 ↦ false | r1 ↦ false | _ ↦ true ]

save_kept : (r : Register) (cpu from : Context) → is_kept r ≡ true → save cpu from r ≡ cpu r
unfolding save
save_kept r0 cpu from h = absurd (cc)
save_kept r1 cpu from h = absurd (cc)
save_kept r16 cpu from h = refl
save_kept r17 cpu from h = refl
save_kept r18 cpu from h = refl
save_kept r19 cpu from h = refl
save_kept r20 cpu from h = refl
save_kept r21 cpu from h = refl
save_kept r22 cpu from h = refl
save_kept r23 cpu from h = refl
save_kept r24 cpu from h = refl
save_kept r25 cpu from h = refl
save_kept r26 cpu from h = refl
save_kept r27 cpu from h = refl
save_kept r28 cpu from h = refl
save_kept r29 cpu from h = refl
save_kept v8 cpu from h = refl
save_kept v9 cpu from h = refl
save_kept v10 cpu from h = refl
save_kept v11 cpu from h = refl
save_kept v12 cpu from h = refl
save_kept v13 cpu from h = refl
save_kept v14 cpu from h = refl
save_kept v15 cpu from h = refl
save_kept sp cpu from h = refl
save_kept lr cpu from h = refl

-- A fiber that is switched away, and whose saved context is as it was saved when it is switched to
-- again, goes on with the contents that each register had, all but x0 and x1.
pub swap-swap :
    (a b : ℕ) (cpu later : Context) (contexts others : ℕ → Context) (r : Register)
    → a ≢ b
    → others a ≡ (swap a b (cpu, contexts)).1 a
    → is_kept r ≡ true
    → (swap b a (later, others)).0 r ≡ cpu r
unfolding swap
swap-swap a b cpu later contexts others r ne same k =
    rw (==_ne a b ne) (rw (same) (rw (==_refl a) (save_kept r cpu (contexts a) k)))

clear_low_lem : (a : ℕ) → (clear_low a % 16 ≡ 0) × (clear_low a ≤ a) × (a < clear_low a + 16)
clear_low_lem a = (omega arith, omega arith, omega arith)

-- The first switch to a new fiber goes to the trampoline, with OSFiber::run and the fiber's address
-- as its arguments, on a stack pointer that is a multiple of 16, lies within the allocated stack
-- and is less than 16 bytes below its end. The conditions are a stack of 16 or more and fewer than
-- 2 ^ 32 bytes, whose end is below 2 ^ 64, and that the fiber is not the one that is switched away.
pub create_fiber_lem :
    (trampoline run self stack_size func from to : ℕ) (allocate : Request → Allocation)
    (cpu : Context) (contexts : ℕ → Context)
    → 16 ≤ stack_size
    → stack_size < u32_mod
    → (allocate (stack_request stack_size)).ptr + stack_size < u64_mod
    → from ≢ to
    → contexts to ≡ (create_fiber trampoline run allocate self stack_size func).context
    → let base = (allocate (stack_request stack_size)).ptr in
      let new = (swap from to (cpu, contexts)).0 in
      (new lr ≡ trampoline)
      × (new r0 ≡ run)
      × (new r1 ≡ self)
      × (new sp % 16 ≡ 0)
      × (base ≤ new sp)
      × (new sp ≤ base + stack_size)
      × (base + stack_size < new sp + 16)
unfolding swap create_fiber set_run
create_fiber_lem trampoline run self stack_size func from to allocate cpu contexts big small fits ne
      same =
    let base = (allocate (stack_request stack_size)).ptr in
    let whole : add64 base (stack_size % u32_mod) ≡ base + stack_size = omega arith in
    let (aligned, below, above) = clear_low_lem (base + stack_size) in
    rw (==_ne to from (λ e. ne (sym e)))
      (rw same (rw whole (refl, refl, refl, aligned, omega (arith, above), below, above)))
