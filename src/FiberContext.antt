-- ===== src/FiberContext.antt =====
-- include/hfts/osfiberm.hpp and src/osfiber_i.S: the registers of a fiber that is switched away, the
-- start of a fiber on its stack, and the switch. Addresses of functions and closures are numbers.
pub mod Laws
use hfts.Base.{
  ℕ, ◌+◌, ◌*◌, ◌/◌, ◌%◌, ◌^◌, Option, none, some, List, [], ◌∷◌, ◌==◌, if◌then◌else◌, update, false,
  u32_mod, u64_mod,
}
use hfts.Memory.{Allocation, Request, stack, undefined, add64}

-- The fields of hfts_fiber_context
pub data Register : Type 0 where
  r0 r1 r16 r17 r18 r19 r20 r21 r22 r23 r24 r25 r26 r27 r28 r29 : Register
  v8 v9 v10 v11 v12 v13 v14 v15 sp lr : Register

-- Contents of the registers: of the processor, or as they are saved
abbrev pub Context : Type 0
Context = Register → ℕ

-- The struct's fields in order
abbrev pub fields : List Register
fields =
    r0 ∷ r1 ∷ r16 ∷ r17 ∷ r18 ∷ r19 ∷ r20 ∷ r21 ∷ r22 ∷ r23 ∷ r24 ∷ r25 ∷ r26 ∷ r27 ∷ r28 ∷ r29 ∷ v8
    ∷ v9 ∷ v10 ∷ v11 ∷ v12 ∷ v13 ∷ v14 ∷ v15 ∷ sp ∷ lr ∷ []

-- The offsets HFTS_REG_... that the assembly uses
unfoldable pub offset : Register → ℕ
offset r0 = 0x00
offset r1 = 0x08
offset r16 = 0x10
offset r17 = 0x18
offset r18 = 0x20
offset r19 = 0x28
offset r20 = 0x30
offset r21 = 0x38
offset r22 = 0x40
offset r23 = 0x48
offset r24 = 0x50
offset r25 = 0x58
offset r26 = 0x60
offset r27 = 0x68
offset r28 = 0x70
offset r29 = 0x78
offset v8 = 0x80
offset v9 = 0x88
offset v10 = 0x90
offset v11 = 0x98
offset v12 = 0xa0
offset v13 = 0xa8
offset v14 = 0xb0
offset v15 = 0xb8
offset sp = 0xc0
offset lr = 0xc8

abbrev pub zero_context : Context
zero_context r = 0

-- `& ~15` clears the four lowest bits.
abbrev pub clear_low : ℕ → ℕ
clear_low a = 16 * (a / 16)

-- hfts_fiber_set_run; `trampoline` is the address of hfts_fiber_trampoline.
unfoldable pub set_run : ℕ → ℕ → ℕ → ℕ → ℕ → Context → Context
set_run trampoline stack_ptr stack_size func arg ctx r0 = func
set_run trampoline stack_ptr stack_size func arg ctx r1 = arg
set_run trampoline stack_ptr stack_size func arg ctx sp = clear_low (add64 stack_ptr stack_size)
set_run trampoline stack_ptr stack_size func arg ctx lr = trampoline
set_run trampoline stack_ptr stack_size func arg ctx r = ctx r

-- hfts_fiber_swap stores the registers of the processor in `from` but x0 and x1,
unfoldable pub save : Context → Context → Context
save cpu from r0 = from r0
save cpu from r1 = from r1
save cpu from r = cpu r

-- and then loads all of them from `to`. Contexts are named by their addresses.
unfoldable pub swap : ℕ → ℕ → Context × (ℕ → Context) → Context × (ℕ → Context)
unfolding save
swap from to (cpu, contexts) =
    let saved = update contexts from (save cpu (contexts from)) in (saved to, saved)

-- OSFiber, without its allocator. `target` is a closure.
pub record OsFiber : Type 0 where
  pub target : Option ℕ
  pub context : Context
  pub stack_memory : Allocation

-- The request for a stack
unfoldable pub stack_request : ℕ → Request
stack_request stack_size = record {
  size = stack_size;
  alignment = 16;
  use_guards = false;
  usage = stack;
}

-- OSFiber::createFiber, for the address `self` of the new object. `allocate` is the allocator, and
-- `run` the address of OSFiber::run.
unfoldable pub create_fiber : ℕ → ℕ → (Request → Allocation) → ℕ → ℕ → ℕ → OsFiber
unfolding set_run stack_request
create_fiber trampoline run allocate self stack_size func =
    let memory = allocate (stack_request stack_size) in
    record {
      target = some func;
      context = set_run trampoline memory.ptr (stack_size % u32_mod) run self zero_context;
      stack_memory = memory;
    }

-- OSFiber::createFiberFromCurrentThread
unfoldable pub create_fiber_from_current_thread : OsFiber
create_fiber_from_current_thread = record {
  target = none;
  context = zero_context;
  stack_memory = record {
    ptr = 0;
    request = record { size = 0; alignment = 0; use_guards = false; usage = undefined };
  };
}

-- OSFiber::~OSFiber: what is freed
unfoldable pub destroyed : OsFiber → Option Allocation
destroyed f = if f.stack_memory.ptr == 0 then none else some f.stack_memory
