-- ===== src/Kap/Depths.antt =====
-- The colors of a row, and the bits that their indices take.
use smrender.Base.{
  length-append, and_split, ℕ, zero, suc, ◌+◌, ◌-◌, ◌%◌, ◌^◌, ◌≤◌, ◌<◌, ◌≡◌, refl, sym, ap, ◌∙◌,
  ◌≢◌, inl, inr, Bool, true, ◌&&◌, Option, none, some, List, [], ◌∷◌, ◌++◌, map, arith, ltb, leb,
  ◌==◌, ltb→lt, leb→le, ==_iff, Bool-cases, length, get_elem?, In, length-map, true-false,
}
use smrender.Base.Tables.{every_from, every_from-at}
use smrender.Bstring.{Bytes}
use mathlib.Core.List.{append_assoc}
use smrender.Kap.Groups.{pow_pos, groups, read_nb, read_more, read_nb-compress_nb}
use smrender.Kap.Runs.{read_runs}
use smrender.Kap.{
  compress_nb, bsb_compress_nb, put_pixel, run_of, x_out, stretch, compress_runs, bsb_compress_row,
  palette_from, palette_index, index_byte, index_row, depth_loop, get_depth,
}
use smrender.Kap.Rows.{read_row, read_row-bsb_compress_row}

-- The color of a pixel, which is an index of the palette plus 1.
unfoldable pub color_of : List ℕ → ℕ → Option ℕ
color_of palette zero = none
color_of palette (suc i) = get_elem? palette i

-- A color of the palette is found, at an index in its bounds.
palette_from-In :
    (i : ℕ) (palette : List ℕ) (col : ℕ)
    → In col palette
    → (j : ℕ) × (palette_from i palette col ≡ some (i + suc j))
      × (j < length palette)
      × (get_elem? palette j ≡ some col)
unfolding palette_from
palette_from-In i [] col h = absurd h
palette_from-In i (c ∷ palette) col h = elim (Bool-cases (col == c)) [
  | inl e ↦ (0, rw e refl, omega arith, ap some (sym ((==_iff col c).0 e)))
  | inr e ↦
      let (j, found, bound, at) = palette_from-In (i + 1) palette col (elim h [
        | inl eq ↦ absurd (true-false (rw (← e) (sym ((==_iff col c).1 eq))))
        | inr m ↦ m
      ]) in
      (suc j, rw e (found ∙ ap some (omega arith)), omega arith, at)
]

-- The depth of up to 127 colors.
depth_test : ℕ → Bool
depth_test hcnt = leb hcnt (2 ^ get_depth hcnt) && ltb (get_depth hcnt) 8

depths : every_from 128 0 depth_test ≡ true
unfolding every_from depth_test get_depth depth_loop
depths = refl

pub get_depth_bound : (hcnt : ℕ) → hcnt < 128 → (hcnt ≤ 2 ^ get_depth hcnt) × (get_depth hcnt < 8)
unfolding depth_test
get_depth_bound hcnt h =
    let row : depth_test hcnt ≡ true =
      every_from-at 128 0 hcnt depth_test depths (omega arith) (omega arith) in
    let (fits, small) = and_split (leb hcnt (2 ^ get_depth hcnt)) (ltb (get_depth hcnt) 8) row in
    (leb→le _ _ fits, ltb→lt _ _ small)

-- A color of the palette is an index above 0 that the reader looks up.
index_byte-color :
    (palette : List ℕ) (col : ℕ)
    → length palette < 128
    → In col palette
    → (0 < index_byte (palette_index palette col))
      × (index_byte (palette_index palette col) ≤ length palette)
      × (color_of palette (index_byte (palette_index palette col)) ≡ some col)
unfolding palette_index index_byte color_of
index_byte-color palette col small h =
    let (j, found, bound, at) = palette_from-In 0 palette col h in
    let low : (0 + suc j) % 256 ≡ suc j = omega arith in
    rw (found, low) (omega arith, omega arith, at)

length-index_row : (palette cols : List ℕ) → length (index_row palette cols) ≡ length cols
unfolding index_row
length-index_row palette cols = length-map cols _

index_row_bound :
    (palette cols : List ℕ)
    → length palette < 128
    → ((col : ℕ) → In col cols → In col palette)
    → (x : ℕ) → In x (index_row palette cols)
    → (0 < x) × (x ≤ length palette)
unfolding index_row
index_row_bound palette [] small all x h = absurd h
index_row_bound palette (col ∷ cols) small all x (inl e) =
    let (low, high, at) = index_byte-color palette col small (all col (inl refl)) in
    rw e (low, high)
index_row_bound palette (col ∷ cols) small all x (inr h) =
    index_row_bound palette cols small (λ c m. all c (inr m)) x h

index_row-colors :
    (palette cols : List ℕ)
    → length palette < 128
    → ((col : ℕ) → In col cols → In col palette)
    → map (color_of palette) (index_row palette cols) ≡ map some cols
unfolding index_row
index_row-colors palette [] small all = refl
index_row-colors palette (col ∷ cols) small all =
    let (low, high, at) = index_byte-color palette col small (all col (inl refl)) in
    rw (at, index_row-colors palette cols small (λ c m. all c (inr m))) refl

-- A row of colors of a palette of up to 127 colors, of which save_kap makes indices with the depth
-- of the palette, is read back with its line number: the indices are those of the same colors. The
-- condition is that the number of colors is not the power of 2 of the depth; the row has less than
-- 2^16 pixels.
pub read_row-index_row :
    (palette cols : List ℕ) (line : ℕ) (rest : Bytes)
    → length palette < 128
    → length palette ≢ 2 ^ get_depth (length palette)
    → ((col : ℕ) → In col cols → In col palette)
    → line < 65536
    → length cols < 65536
    → (row : Bytes) × (read_row (length cols) (get_depth (length palette)) (
          bsb_compress_row (index_row palette cols) (get_depth (length palette)) line (length cols)
          ++ rest)
        ≡ some (line, (row, rest)))
      × (map (color_of palette) row ≡ map some cols)
read_row-index_row palette cols line rest small depth all hl hw =
    let len = length-index_row palette cols in
    let (fits, bits) = get_depth_bound (length palette) small in
    let read =
      read_row-bsb_compress_row (get_depth (length palette)) line (index_row palette cols) rest bits
        hl (omega arith)
        (λ x h.
          let (low, high) = index_row_bound palette cols small all x h in omega (arith, depth)) in
    (index_row palette cols, rw len at read, index_row-colors palette cols small all)

-- For the powers of 2: the depth, the run of one pixel that has the last index, and that of one
-- pixel 0.
powers :
    (k : ℕ)
    → k < 6
    → (get_depth (2 ^ (k + 1)) ≡ k + 1)
      × (compress_runs 1 (6 - k) 1 1 0 0 (2 ^ (k + 1) ∷ []) ≡ 128 ∷ [])
      × (compress_runs 1 (6 - k) 1 1 0 0 (0 ∷ []) ≡ 128 ∷ 0 ∷ [])
unfolding get_depth depth_loop compress_runs bsb_compress_nb compress_nb put_pixel run_of x_out
    stretch
powers zero h = (refl, refl, refl)
powers (suc zero) h = (refl, refl, refl)
powers (suc (suc zero)) h = (refl, refl, refl)
powers (suc (suc (suc zero))) h = (refl, refl, refl)
powers (suc (suc (suc (suc zero)))) h = (refl, refl, refl)
powers (suc (suc (suc (suc (suc zero))))) h = (refl, refl, refl)
powers (suc (suc (suc (suc (suc (suc k)))))) h = absurd (omega arith)

-- The index of the last color is written as the pixel 0 is, less its last byte.
last_color :
    (k line : ℕ)
    → k < 6
    → bsb_compress_row (2 ^ (k + 1) ∷ []) (k + 1) line 1 ++ (0 ∷ [])
      ≡ bsb_compress_row (0 ∷ []) (k + 1) line 1
unfolding bsb_compress_row
last_color k line h =
    let dec : 7 - (k + 1) ≡ 6 - k = omega arith in
    let (depth, last, none_of_it) = powers k h in
    rw (dec, last, none_of_it) (append_assoc (bsb_compress_nb line 0 127) (128 ∷ 0 ∷ []) (0 ∷ []))

-- The index of the last color is their number, if it is none of the others.
palette_from-last :
    (i : ℕ) (front : List ℕ) (col : ℕ)
    → ¬ In col front
    → palette_from i (front ++ col ∷ []) col ≡ some (i + length front + 1)
unfolding palette_from
palette_from-last i [] col other = rw ((==_iff col col).1 refl) (ap some (omega arith))
palette_from-last i (c ∷ front) col other = elim (Bool-cases (col == c)) [
  | inl e ↦ absurd (other (inl ((==_iff col c).0 e)))
  | inr e ↦ rw e (palette_from-last (i + 1) front col (λ m. other (inr m)) ∙ ap some (omega arith))
]

small_power : (k : ℕ) → k < 6 → 2 ^ (k + 1) % 256 ∷ [] ≡ 2 ^ (k + 1) ∷ []
small_power zero h = refl
small_power (suc zero) h = refl
small_power (suc (suc zero)) h = refl
small_power (suc (suc (suc zero))) h = refl
small_power (suc (suc (suc (suc zero)))) h = refl
small_power (suc (suc (suc (suc (suc zero))))) h = refl
small_power (suc (suc (suc (suc (suc (suc k)))))) h = absurd (omega arith)

-- The pixel 0 takes the end of the row, and nothing ends it then.
one_run : (k : ℕ) → k < 6 → read_runs 1 (6 - k) (128 ∷ 0 ∷ []) ≡ none
unfolding read_runs read_nb read_more
one_run zero h = refl
one_run (suc zero) h = refl
one_run (suc (suc zero)) h = refl
one_run (suc (suc (suc zero))) h = refl
one_run (suc (suc (suc (suc zero)))) h = refl
one_run (suc (suc (suc (suc (suc zero))))) h = refl
one_run (suc (suc (suc (suc (suc (suc k)))))) h = absurd (omega arith)

-- The row of one pixel of the last color cannot be read by itself.
row_alone :
    (k line : ℕ)
    → k < 6
    → line < 65536
    → read_row 1 (k + 1) (bsb_compress_row (2 ^ (k + 1) ∷ []) (k + 1) line 1) ≡ none
unfolding read_row bsb_compress_row bsb_compress_nb
row_alone k line h hl =
    let dec : 7 - (k + 1) ≡ 6 - k = omega arith in
    let (depth, last, none_of_it) = powers k h in
    let first =
      read_nb-compress_nb 3 7 0 line (128 ∷ 0 ∷ []) (omega arith) (omega arith)
        (unfold groups in omega arith) in
    rw (dec, last, first, one_run k h) refl

index_row-last :
    (k : ℕ) (front : List ℕ) (col : ℕ)
    → k < 6
    → ¬ In col front
    → length (front ++ col ∷ []) ≡ 2 ^ (k + 1)
    → index_row (front ++ col ∷ []) (col ∷ []) ≡ 2 ^ (k + 1) ∷ []
unfolding index_row palette_index index_byte
index_row-last k front col h other len =
    let found = palette_from-last 0 front col other in
    let count : 0 + length front + 1 ≡ 2 ^ (k + 1) =
      omega (arith, length-append front (col ∷ []), len) in
    rw found (ap (λ n. n % 256 ∷ []) count ∙ small_power k h)

-- With 2, 4, 8, 16, 32 or 64 colors the index of the last one, `col`, is the power of 2 of the depth,
-- which has a bit too many: the row that save_kap makes of one pixel of that color cannot be read by
-- itself, and with a byte 0 behind the row a reader takes that byte too and finds the pixel 0, which
-- is no index of a color. The colors before the last one are others.
pub read_row-last_color :
    (k line : ℕ) (front : List ℕ) (col : ℕ) (rest : Bytes)
    → k < 6
    → line < 65536
    → ¬ In col front
    → length (front ++ col ∷ []) ≡ 2 ^ (k + 1)
    → (read_row 1 (get_depth (length (front ++ col ∷ []))) (
          bsb_compress_row
            (index_row (front ++ col ∷ []) (col ∷ []))
            (get_depth (length (front ++ col ∷ [])))
            line
            1)
        ≡ none)
      × (read_row 1 (get_depth (length (front ++ col ∷ []))) (
            bsb_compress_row
              (index_row (front ++ col ∷ []) (col ∷ []))
              (get_depth (length (front ++ col ∷ [])))
              line
              1
            ++ 0 ∷ rest)
          ≡ some (line, (0 ∷ [], rest)))
read_row-last_color k line front col rest h hl other len =
    let (depth, last, none_of_it) = powers k h in
    let row = bsb_compress_row (2 ^ (k + 1) ∷ []) (k + 1) line 1 in
    let zero_row =
      read_row-bsb_compress_row (k + 1) line (0 ∷ []) rest (omega arith) hl (omega arith)
        (λ x m. elim m [ inl e ↦ rw e (pow_pos (k + 1)) | inr n ↦ absurd n ]) in
    let bracket : row ++ 0 ∷ rest ≡ bsb_compress_row (0 ∷ []) (k + 1) line 1 ++ rest =
      sym (append_assoc row (0 ∷ []) rest) ∙ ap (λ l. l ++ rest) (last_color k line h) in
    rw (index_row-last k front col h other len, len, depth)
      (row_alone k line h hl, rw bracket zero_row)
