-- ===== src/Fractal/Bytes.antt =====
-- example/fractal.cpp: the bytes that writeBMP writes, as one list.
use hfts.Base.{
  ℕ, zero, suc, ◌+◌, ◌*◌, ◌/◌, ◌%◌, ◌^◌, ◌<◌, ◌≡◌, refl, Bool, List, [], ◌∷◌, ◌++◌, u32_mod, arith,
  ap, ◌∙◌, sym,
}
use hfts.Fractal.{
  Color, Writer, no_file, padding_of, stride_of, put1, put2, put4, put_file_header, put_info_header,
  put_texels, put_padding, put_rows, write_open,
}

-- A number in `n` bytes, the lowest first
unfoldable pub little : ℕ → ℕ → List ℕ
little zero v = []
little (suc n) v = (v % 256) ∷ little n (v / 256)

unfoldable pub texel_bytes : (ℕ → Color) → ℕ → ℕ → List ℕ
texel_bytes texels zero i = []
texel_bytes texels (suc k) i =
    (texels i).b ∷ (texels i).g ∷ (texels i).r ∷ texel_bytes texels k (suc i)

unfoldable pub zeros : ℕ → List ℕ
zeros zero = []
zeros (suc k) = 0 ∷ zeros k

unfoldable pub row_bytes : (ℕ → Color) → ℕ → ℕ → List ℕ
row_bytes texels width zero = []
row_bytes texels width (suc y) =
    texel_bytes texels width (y * width) ++ (zeros (padding_of width) ++ row_bytes texels width y)

-- The bytes of the two headers
unfoldable pub file_bytes : ℕ → ℕ → List ℕ
file_bytes stride height =
    b'B' ∷ b'M' ∷ (little 4 (54 + stride * height) ++ (little 4 0 ++ little 4 54))

unfoldable pub info_bytes : ℕ → ℕ → List ℕ
info_bytes width height =
    little 4 40
    ++ (little 4 width
        ++ (little 4 height
            ++ (little 2 1
                ++ (little 2 24
                    ++ (little 4 0
                        ++ (little 4 0
                            ++ (little 4 72 ++ (little 4 72 ++ (little 4 0 ++ little 4 0)))))))))

-- What is in the file of an image
unfoldable pub bitmap : (ℕ → Color) → ℕ → ℕ → List ℕ
bitmap texels width height =
    file_bytes (stride_of width) height
    ++ (info_bytes width height ++ row_bytes texels width height)

module _ (takes : ℕ → Bool) where
  -- The bytes of a list are put one by one.
  unfoldable pub put_all : List ℕ → Writer → Writer
  put_all [] w = w
  put_all (x ∷ xs) w = put_all xs (put1 takes x w)

  put_all-append : (xs ys : List ℕ) (w : Writer) → put_all (xs ++ ys) w ≡ put_all ys (put_all xs w)
  unfolding put_all
  put_all-append [] ys w = refl
  put_all-append (x ∷ xs) ys w = put_all-append xs ys (put1 takes x w)

  put2-eq : (v : ℕ) (w : Writer) → put2 takes v w ≡ put_all (little 2 v) w
  unfolding put2 put_all little
  put2-eq v w = refl

  put4-eq : (v : ℕ) (w : Writer) → v < 2 ^ 32 → put4 takes v w ≡ put_all (little 4 v) w
  unfolding put4 put_all little
  put4-eq v w h =
      let a : (v % 2 ^ 16) % 2 ^ 8 ≡ v % 256 = omega arith in
      let b : ((v % 2 ^ 16) / 2 ^ 8) % 2 ^ 8 ≡ (v / 256) % 256 = omega arith in
      let c : ((v / 2 ^ 16) % 2 ^ 16) % 2 ^ 8 ≡ (v / 256 / 256) % 256 = omega arith in
      let d : (((v / 2 ^ 16) % 2 ^ 16) / 2 ^ 8) % 2 ^ 8 ≡ (v / 256 / 256 / 256) % 256 =
        omega arith in
      λ i. put1 takes (d i) (put1 takes (c i) (put1 takes (b i) (put1 takes (a i) w)))

  put_all-cons :
      (x : ℕ) (xs : List ℕ) (w : Writer) → put_all (x ∷ xs) w ≡ put_all xs (put1 takes x w)
  unfolding put_all
  put_all-cons x xs w = refl

  put4-then :
      (v : ℕ) (ys : List ℕ) (w : Writer)
      → v < 2 ^ 32
      → put_all (little 4 v ++ ys) w ≡ put_all ys (put4 takes v w)
  put4-then v ys w h = put_all-append (little 4 v) ys w ∙ ap (put_all ys) (sym (put4-eq v w h))

  put2-then :
      (v : ℕ) (ys : List ℕ) (w : Writer)
      → put_all (little 2 v ++ ys) w ≡ put_all ys (put2 takes v w)
  put2-then v ys w = put_all-append (little 2 v) ys w ∙ ap (put_all ys) (sym (put2-eq v w))

  put_texels-eq :
      (texels : ℕ → Color) (k i : ℕ) (w : Writer)
      → put_texels takes texels k i w ≡ put_all (texel_bytes texels k i) w
  unfolding put_texels put_all texel_bytes
  put_texels-eq texels zero i w = refl
  put_texels-eq texels (suc k) i w = put_texels-eq texels k (suc i) _

  put_padding-eq : (k : ℕ) (w : Writer) → put_padding takes k w ≡ put_all (zeros k) w
  unfolding put_padding put_all zeros
  put_padding-eq zero w = refl
  put_padding-eq (suc k) w = put_padding-eq k (put1 takes 0 w)

  put_rows-eq :
      (texels : ℕ → Color) (width y : ℕ) (w : Writer)
      → put_rows takes texels width y w ≡ put_all (row_bytes texels width y) w
  unfolding put_rows row_bytes
  put_rows-eq texels width zero w = nothing w
    where
      nothing : (w : Writer) → w ≡ put_all [] w
      nothing w = unfold put_all in refl
  put_rows-eq texels width (suc y) w =
      let row = texel_bytes texels width (y * width) in
      let pad = zeros (padding_of width) in
      put_rows-eq texels width y _
      ∙ ap (put_all (row_bytes texels width y)) (
          put_padding-eq (padding_of width) _
          ∙ ap (put_all pad) (put_texels-eq texels width (y * width) w))
      ∙ sym (
          put_all-append row (pad ++ row_bytes texels width y) w
          ∙ put_all-append pad (row_bytes texels width y) (put_all row w))

  put_file_header-eq :
      (stride height : ℕ) (w : Writer)
      → 54 + stride * height < u32_mod
      → put_file_header takes stride height w ≡ put_all (file_bytes stride height) w
  unfolding put_file_header file_bytes
  put_file_header-eq stride height w fits =
      let whole : (54 + stride * height) % u32_mod ≡ 54 + stride * height = omega arith in
      rw whole (
        sym (
          put_all-cons b'B' _ w
          ∙ put_all-cons b'M' _ _
          ∙ put4-then (54 + stride * height) _ _ (omega arith)
          ∙ put4-then 0 _ _ (omega arith)
          ∙ sym (put4-eq 54 _ (omega arith))))

  put_info_header-eq :
      (width height : ℕ) (w : Writer)
      → width < 2 ^ 32
      → height < 2 ^ 32
      → put_info_header takes width height w ≡ put_all (info_bytes width height) w
  unfolding put_info_header info_bytes
  put_info_header-eq width height w a b = sym (
      put4-then 40 _ w (omega arith)
      ∙ put4-then width _ _ a
      ∙ put4-then height _ _ b
      ∙ put2-then 1 _ _
      ∙ put2-then 24 _ _
      ∙ put4-then 0 _ _ (omega arith)
      ∙ put4-then 0 _ _ (omega arith)
      ∙ put4-then 72 _ _ (omega arith)
      ∙ put4-then 72 _ _ (omega arith)
      ∙ put4-then 0 _ _ (omega arith)
      ∙ sym (put4-eq 0 _ (omega arith)))

  pub write_open-eq :
      (texels : ℕ → Color) (width height : ℕ)
      → width < 2 ^ 32
      → height < 2 ^ 32
      → 54 + stride_of width * height < u32_mod
      → write_open takes texels width height ≡ put_all (bitmap texels width height) no_file
  unfolding write_open bitmap
  write_open-eq texels width height a b fits =
      let first = file_bytes (stride_of width) height in
      let info = info_bytes width height in
      let rows = row_bytes texels width height in
      put_rows-eq texels width height _
      ∙ ap (put_all rows) (
          put_info_header-eq width height _ a b
          ∙ ap (put_all info) (put_file_header-eq (stride_of width) height no_file fits))
      ∙ sym (
          put_all-append first (info ++ rows) no_file
          ∙ put_all-append info rows (put_all first no_file))
