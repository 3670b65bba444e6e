-- ===== src/Fractal.antt =====
-- example/fractal.cpp: writeBMP. `takes` says, for the number of bytes that fwrite has taken, whether
-- it takes the next; fwrite keeps bytes in a buffer, and `close` is what fclose makes of them on the
-- disk. `width` and `height` are positive ints whose image fits a file of fewer than 2 ^ 32 bytes. The
-- computation of the colors, with floats, is left out.
pub mod Bytes
pub mod Written
pub mod Pixels
use hfts.Base.{
  ℕ, zero, suc, ◌+◌, ◌-◌, ◌*◌, ◌/◌, ◌%◌, ◌^◌, Bool, true, false, ◌&&◌, Option, none, some, List, [],
  ◌∷◌, ◌++◌, if◌then◌else◌, length, u32_mod,
}

-- Color<uint8_t>
pub record Color : Type 0 where
  pub r : ℕ
  pub g : ℕ
  pub b : ℕ

-- The bytes that fwrite took, and `ok`
pub record Writer : Type 0 where
  pub taken : List ℕ
  pub ok : Bool

-- What writeBMP returns, and the file, if fopen has opened one
pub record Saved : Type 0 where
  pub returned : Bool
  pub file : Option (List ℕ)

abbrev pub no_file : Writer
no_file = record { taken = []; ok = true }

-- `padding` and `stride`
unfoldable pub padding_of : ℕ → ℕ
padding_of width = (u32_mod - (3 * width) % u32_mod) % 4

unfoldable pub stride_of : ℕ → ℕ
unfolding padding_of
stride_of width = (3 * width + padding_of width) % u32_mod

module _ (takes : ℕ → Bool) where
  unfoldable pub put1 : ℕ → Writer → Writer
  put1 val w =
      if w.ok && takes (length w.taken)
      then record w { taken = w.taken ++ val ∷ [] }
      else record w { ok = false }

  unfoldable pub put2 : ℕ → Writer → Writer
  unfolding put1
  put2 val w = put1 ((val / 2 ^ 8) % 2 ^ 8) (put1 (val % 2 ^ 8) w)

  unfoldable pub put4 : ℕ → Writer → Writer
  unfolding put2
  put4 val w = put2 ((val / 2 ^ 16) % 2 ^ 16) (put2 (val % 2 ^ 16) w)

  -- The bitmap file header
  unfoldable pub put_file_header : ℕ → ℕ → Writer → Writer
  put_file_header stride height w =
      put4 54 (put4 0 (put4 ((54 + stride * height) % u32_mod) (put1 b'M' (put1 b'B' w))))

  -- The BITMAPINFOHEADER
  unfoldable pub put_info_header : ℕ → ℕ → Writer → Writer
  put_info_header width height w₀ =
      let w = put2 24 (put2 1 (put4 height (put4 width (put4 40 w₀)))) in
      put4 0 (put4 0 (put4 72 (put4 72 (put4 0 (put4 0 w)))))

  -- The loop over `x`, for the `k` texels from `i` on
  unfoldable pub put_texels : (ℕ → Color) → ℕ → ℕ → Writer → Writer
  unfolding put1
  put_texels texels zero i w = w
  put_texels texels (suc k) i w =
      let texel = texels i in
      put_texels texels k (suc i) (put1 texel.r (put1 texel.g (put1 texel.b w)))

  unfoldable pub put_padding : ℕ → Writer → Writer
  unfolding put1
  put_padding zero w = w
  put_padding (suc k) w = put_padding k (put1 0 w)

  -- The loop over `y`, from `height - 1` down
  unfoldable pub put_rows : (ℕ → Color) → ℕ → ℕ → Writer → Writer
  unfolding put_texels put_padding
  put_rows texels width zero w = w
  put_rows texels width (suc y) w =
      put_rows texels width y
        (put_padding (padding_of width) (put_texels texels width (y * width) w))

  -- The code of writeBMP behind fopen and up to fclose
  unfoldable pub write_open : (ℕ → Color) → ℕ → ℕ → Writer
  write_open texels width height =
      put_rows texels width height
        (put_info_header width height (put_file_header (stride_of width) height no_file))

  -- writeBMP; `opens` says whether fopen opens the file. What fclose returns is not looked at.
  unfoldable pub write_bmp : Bool → (List ℕ → List ℕ) → (ℕ → Color) → ℕ → ℕ → Saved
  unfolding write_open
  write_bmp opens close texels width height =
      let w = write_open texels width height in
      if opens
      then record { returned = w.ok; file = some (close w.taken) }
      else record { returned = false; file = none }
