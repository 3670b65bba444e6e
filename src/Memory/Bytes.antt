-- ===== src/Memory/Bytes.antt =====
-- src/memory.cpp: the copies of a pointer to memory and from it, byte by byte.
use hfts.Base.{ℕ, zero, suc, ◌/◌, ◌%◌, ◌^◌, ◌≤◌, ◌<◌, ◌≡◌, refl, arith, update, ==_ne, ==_refl}
use native.Mathlib.Nat.{pow-suc}
use hfts.Memory.{store_bytes, load_bytes}

pub load_bytes-congr :
    (n a : ℕ) (mem mem' : ℕ → ℕ)
    → ((b : ℕ) → a ≤ b → mem' b ≡ mem b)
    → load_bytes n a mem' ≡ load_bytes n a mem
unfolding load_bytes
load_bytes-congr zero a mem mem' h = refl
load_bytes-congr (suc n) a mem mem' h =
    omega
      (arith, h a (omega arith), load_bytes-congr n (suc a) mem mem' (λ b le. h b (omega arith)))

above_store :
    (n a v c : ℕ) (mem : ℕ → ℕ) → load_bytes n (suc a) (update mem a c) ≡ load_bytes n (suc a) mem
above_store n a v c mem =
    load_bytes-congr n (suc a) mem (update mem a c) (λ b le. rw (==_ne b a (λ e. omega arith)))

pub load-store :
    (n a v : ℕ) (mem : ℕ → ℕ) → v < 256 ^ n → load_bytes n a (store_bytes n a v mem) ≡ v
unfolding load_bytes store_bytes
load-store zero a v mem h = omega arith
load-store (suc n) a v mem h =
    let high : v / 256 < 256 ^ n = omega (arith, pow-suc 256 n) in
    rw
      (
        ==_refl a,
        above_store n a v (v % 256) (store_bytes n (suc a) (v / 256) mem),
        load-store n (suc a) (v / 256) mem high,
      )
      (omega arith)

-- Bytes below the address that a pointer is stored at are left as they were.
pub store_bytes_below : (n a v b : ℕ) (mem : ℕ → ℕ) → b < a → store_bytes n a v mem b ≡ mem b
unfolding store_bytes
store_bytes_below zero a v b mem h = refl
store_bytes_below (suc n) a v b mem h =
    rw (==_ne b a (λ e. omega arith)) (store_bytes_below n (suc a) (v / 256) b mem (omega arith))
