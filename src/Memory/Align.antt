-- ===== src/Memory/Align.antt =====
-- include/hfts/memory.hpp: alignUp.
use hfts.Base.{ℕ, ◌+◌, ◌-◌, ◌*◌, ◌/◌, ◌%◌, ◌≤◌, ◌<◌, ◌≡◌, refl, arith, u64_mod}
use native.Mathlib.Nat.{div-add-mod, mod-lt}
use hfts.Memory.{align_up}

-- For an alignment above 0, and where the sum does not wrap, `align_up` gives the least multiple of
-- the alignment that is no less than the value.
pub align_up_lem :
    (val alignment : ℕ)
    → 0 < alignment
    → val + alignment ≤ u64_mod
    → (val ≤ align_up val alignment)
      × (align_up val alignment < val + alignment)
      × ((k : ℕ) × (align_up val alignment ≡ alignment * k))
unfolding align_up
align_up_lem val alignment pos small =
    let n = val + alignment - 1 in
    let same : (val + alignment + u64_mod - 1) % u64_mod ≡ n = omega arith in
    rw same (
      let parts = div-add-mod n alignment in
      let rest = mod-lt n {m = alignment} pos in
      let whole : (alignment * (n / alignment)) % u64_mod ≡ alignment * (n / alignment) =
        omega (arith, parts) in
      rw whole (omega (arith, parts, rest), omega (arith, parts, rest), (n / alignment, refl)))
