-- ===== src/Fractal/Written.antt =====
-- example/fractal.cpp: what writeBMP returns, and what stands in the file, on a takes that fills up.
use hfts.Base.{
  ℕ, zero, suc, ◌+◌, ◌*◌, ◌^◌, ◌<◌, ◌≡◌, ◌⊎◌, inl, inr, refl, Bool, true, false, List, [], ◌∷◌,
  ◌++◌, length, length-append, u32_mod, arith, Bool-cases, ap, ◌∙◌, sym, subst,
}
use mathlib.Core.List.{append_assoc, append-nil}
use native.Mathlib.Nat.{add-zero}
use hfts.Vector.Resize.{take}
use hfts.Fractal.{Color, Writer, no_file, put1, write_open, stride_of}
use hfts.Fractal.Bytes.{put_all, bitmap, write_open-eq}

module _ (takes : ℕ → Bool) where
  -- Every byte was written, and `ok` holds; or a byte could not be, those before it were, and `ok`
  -- does not hold.
  abbrev pub Written : List ℕ → Writer → Writer → Type 0
  Written xs w r =
      ((r.ok ≡ true)
        × (r.taken ≡ w.taken ++ xs)
        × ((k : ℕ) → k < length xs → takes (length w.taken + k) ≡ true))
      ⊎ ((k : ℕ) × (k < length xs)
          × (takes (length w.taken + k) ≡ false)
          × (r.ok ≡ false)
          × (r.taken ≡ w.taken ++ take k xs))

  put_all-stopped :
      (xs : List ℕ) (w : Writer)
      → w.ok ≡ false
      → ((put_all takes xs w).ok ≡ false) × ((put_all takes xs w).taken ≡ w.taken)
  unfolding put_all put1
  put_all-stopped [] w h = (h, refl)
  put_all-stopped (x ∷ xs) w h =
      let (ok, file) = put_all-stopped xs (put1 takes x w) (ground (arith, h)) in
      (ok, file ∙ ground (arith, h))

  put1-full :
      (x : ℕ) (w : Writer)
      → takes (length w.taken) ≡ false
      → ((put1 takes x w).ok ≡ false) × ((put1 takes x w).taken ≡ w.taken)
  unfolding put1
  put1-full x w h = (ground (arith, h), ground (arith, h))

  put1-room :
      (x : ℕ) (w : Writer)
      → w.ok ≡ true
      → takes (length w.taken) ≡ true
      → ((put1 takes x w).ok ≡ true) × ((put1 takes x w).taken ≡ w.taken ++ x ∷ [])
  unfolding put1
  put1-room x w k h = (ground (arith, k, h), ground (arith, k, h))

  -- The first byte and those behind it are written.
  first_behind :
      (x : ℕ) (xs : List ℕ) (w u : Writer)
      → u.taken ≡ w.taken ++ x ∷ []
      → takes (length w.taken) ≡ true
      → ((k : ℕ) → k < length xs → takes (length u.taken + k) ≡ true)
      → (k : ℕ) → k < suc (length xs)
      → takes (length w.taken + k) ≡ true
  first_behind x xs w u e room all zero lt = ap takes (add-zero (length w.taken)) ∙ room
  first_behind x xs w u e room all (suc k) lt = ap takes (one_more x k w u e) ∙ all k (omega arith)
    where
      one_more :
          (x k : ℕ) (w u : Writer)
          → u.taken ≡ w.taken ++ x ∷ []
          → length w.taken + suc k ≡ length u.taken + k
      one_more x k w u e = omega (arith, ap length e, length-append w.taken (x ∷ []))

  Written-cons :
      (x : ℕ) (xs : List ℕ) (w u r : Writer)
      → u.taken ≡ w.taken ++ x ∷ []
      → takes (length w.taken) ≡ true
      → Written xs u r
      → Written (x ∷ xs) w r
  Written-cons x xs w u r e room (inl (ok, file, all)) = inl (
    ok,
    file ∙ ap (λ (ys : List ℕ). ys ++ xs) e ∙ append_assoc w.taken (x ∷ []) xs,
    first_behind x xs w u e room all,
  )
  Written-cons x xs w u r e room (inr (k, lt, full, ok, file)) = inr (
    suc k,
    omega arith,
    ap takes (omega (arith, ap length e, length-append w.taken (x ∷ []))) ∙ full,
    ok,
    file ∙ ap (λ (ys : List ℕ). ys ++ take k xs) e ∙ append_assoc w.taken (x ∷ []) (take k xs),
  )

  put_all-Written : (xs : List ℕ) (w : Writer) → w.ok ≡ true → Written xs w (put_all takes xs w)
  unfolding put_all
  put_all-Written [] w h = inl (h, sym (append-nil w.taken), λ k lt. elim lt [ ])
  put_all-Written (x ∷ xs) w h = elim (Bool-cases (takes (length w.taken))) [
    | inr full ↦
        let (stops, same) = put1-full x w full in
        let (ok, file) = put_all-stopped xs (put1 takes x w) stops in
        inr (
          0,
          omega arith,
          ap takes (add-zero (length w.taken)) ∙ full,
          ok,
          file ∙ same ∙ sym (append-nil w.taken),
        )
    | inl room ↦
        let (goes_on, more) = put1-room x w h room in
        Written-cons x xs w (put1 takes x w) (put_all takes xs (put1 takes x w)) more room
          (put_all-Written xs (put1 takes x w) goes_on)
  ]

  pub write_open-Written :
      (texels : ℕ → Color) (width height : ℕ)
      → width < 2 ^ 32
      → height < 2 ^ 32
      → 54 + stride_of width * height < u32_mod
      → Written (bitmap texels width height) no_file (write_open takes texels width height)
  write_open-Written texels width height a b fits =
      subst (Written (bitmap texels width height) no_file)
        (sym (write_open-eq takes texels width height a b fits))
        (put_all-Written (bitmap texels width height) no_file refl)
