-- ===== src/Tests/Kap.antt =====
-- Rows of a KAP image with three colors.
use smrender.Base.{
  ℕ, ◌^◌, ◌≤◌, ◌<◌, ◌≡◌, refl, ap, inl, inr, none, some, List, [], ◌∷◌, ◌++◌, map, arith, length,
  In,
}
use smrender.Bstring.{Bytes}
use smrender.Kap.{bsb_compress_row, index_row, get_depth, depth_loop}
use smrender.Kap.Rows.{read_row}
use smrender.Kap.Sizes.{length-bsb_compress_row}
use smrender.Kap.Depths.{color_of, read_row-index_row, read_row-last_color}

abbrev colors : List ℕ
colors = 0xff0000 ∷ 0x00ff00 ∷ 0x0000ff ∷ []

-- Three pixels, of the first color and the third one.
abbrev three_pixels : List ℕ
three_pixels = 0xff0000 ∷ 0xff0000 ∷ 0x0000ff ∷ []

colors_depth : get_depth 3 ≡ 2
unfolding get_depth depth_loop
colors_depth = refl

three_pixels-In : (col : ℕ) → In col three_pixels → In col colors
three_pixels-In col (inl e) = inl e
three_pixels-In col (inr (inl e)) = inl e
three_pixels-In col (inr (inr (inl e))) = inr (inr (inl e))
three_pixels-In col (inr (inr (inr h))) = absurd h

read_row-index_row_example :
    (row : Bytes) × (read_row 3
        (get_depth 3)
        (bsb_compress_row (index_row colors three_pixels) (get_depth 3) 200 3 ++ [])
      ≡ some (200, (row, [])))
    × (map (color_of colors) row ≡ some 0xff0000 ∷ some 0xff0000 ∷ some 0x0000ff ∷ [])
read_row-index_row_example =
    read_row-index_row colors three_pixels 200 [] (omega arith)
      (omega (arith, ap (λ d. 2 ^ d) colors_depth)) three_pixels-In (omega arith) (omega arith)

two_runs-small : (x : ℕ) → In x (1 ∷ 1 ∷ 3 ∷ []) → (0 < x) × (x < 2 ^ 2)
two_runs-small x (inl e) = (omega arith, omega arith)
two_runs-small x (inr (inl e)) = (omega arith, omega arith)
two_runs-small x (inr (inr (inl e))) = (omega arith, omega arith)
two_runs-small x (inr (inr (inr h))) = absurd h

length-bsb_compress_row_example : length (bsb_compress_row (1 ∷ 1 ∷ 3 ∷ []) 2 200 3) ≤ 7
length-bsb_compress_row_example =
    length-bsb_compress_row 2 200 (1 ∷ 1 ∷ 3 ∷ []) (omega arith) (omega arith) (omega arith)
      two_runs-small

-- Two colors, and a pixel of the second one.
abbrev two : List ℕ
two = 0xff0000 ∷ 0x0000ff ∷ []

others : ¬ In {A = ℕ} 0x0000ff (0xff0000 ∷ [])
others (inl e) = absurd (omega arith)
others (inr h) = absurd h

read_row-last_color_example :
    (read_row 1 (get_depth 2) (bsb_compress_row (index_row two (0x0000ff ∷ [])) (get_depth 2) 5 1)
      ≡ none)
    × (read_row 1
          (get_depth 2)
          (bsb_compress_row (index_row two (0x0000ff ∷ [])) (get_depth 2) 5 1 ++ 0 ∷ 65 ∷ [])
        ≡ some (5, (0 ∷ [], 65 ∷ [])))
read_row-last_color_example =
    read_row-last_color 0 5 (0xff0000 ∷ []) 0x0000ff (65 ∷ []) (omega arith) (omega arith) others
      refl
