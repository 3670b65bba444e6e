-- ===== src/Fractal/Pixels.antt =====
-- example/fractal.cpp: where the bytes of a texel stand in a bitmap.
use hfts.Base.{ℕ, ◌+◌, ◌-◌, ◌*◌, ◌≡◌, some, List, get_elem?}
use hfts.Fractal.{Color, stride_of}

-- The three bytes of a texel, in the file's order
abbrev pub HasTexel : List ℕ → ℕ → Color → Type 0
HasTexel file at texel =
    (get_elem? file at ≡ some texel.b)
    × (get_elem? file (at + 1) ≡ some texel.g)
    × (get_elem? file (at + 2) ≡ some texel.r)

abbrev pub texel_place : ℕ → ℕ → ℕ → ℕ → ℕ
texel_place width height x y = 54 + (stride_of width * (height - 1 - y) + 3 * x)
