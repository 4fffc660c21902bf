-- ===== src/Kap/Sizes.antt =====
-- The number of bytes that a row takes.
use smrender.Base.{
  ℕ, zero, suc, ◌+◌, ◌-◌, ◌*◌, ◌/◌, ◌%◌, ◌^◌, ◌≤◌, ◌<◌, ◌≡◌, refl, inl, inr, true, false, [], ◌∷◌,
  ◌++◌, arith, ltb, Bool-cases, length, drop, length-append, In, subst, length-drop,
}
use smrender.Bstring.{Bytes}
use smrender.Kap.{put_pixel, compress_nb, bsb_compress_nb, run_of, compress_runs, bsb_compress_row}
use smrender.Kap.Groups.{groups, bit_or-IsByte, bit_or_low-IsByte, pow_pos, pixel_low}
use smrender.Kap.Runs.{run_of_bound, stretch_none, In-drop}
use Prim.Native.Nat.{bit_or}

put_pixel-length : (b : ℕ) → 0 < b → length (put_pixel b) ≡ 1
unfolding put_pixel
put_pixel-length zero h = absurd (omega arith)
put_pixel-length (suc b) h = refl

-- A byte of a pixel and a number that is not 0 is written alone.
byte_length :
    (d c v nb : ℕ)
    → d < 8
    → c < 2
    → v < 2 ^ (7 - d)
    → 0 < c * 128 + v * 2 ^ d
    → nb < 2 ^ d
    → length (put_pixel (bit_or (c * 128 + v * 2 ^ d) nb % 256)) ≡ 1
byte_length d c v nb hd hc hv bit hn =
    let is = bit_or-IsByte d c v nb hd hc hv hn in
    put_pixel-length _ (let e = is.is_sum in omega arith)

-- A number takes one byte where it fits in what is left of the byte of the pixel.
length-compress_nb_short :
    (k d c v nb : ℕ)
    → d < 8
    → c < 2
    → v < 2 ^ (7 - d)
    → 0 < c * 128 + v * 2 ^ d
    → nb < 2 ^ d
    → length (compress_nb k nb (c * 128 + v * 2 ^ d) (2 ^ d - 1)) ≡ 1
unfolding compress_nb
length-compress_nb_short zero d c v nb hd hc hv bit hn = byte_length d c v nb hd hc hv bit hn
length-compress_nb_short (suc k) d c v nb hd hc hv bit hn =
    let e : ltb (2 ^ d - 1) nb ≡ false = ground arith in rw e (byte_length d c v nb hd hc hv bit hn)

-- One that does not fit takes a byte behind those of the rest of it.
length-compress_nb_long :
    (k d c v nb : ℕ)
    → d < 8
    → c < 2
    → v < 2 ^ (7 - d)
    → 2 ^ d ≤ nb
    → length (compress_nb (suc k) nb (c * 128 + v * 2 ^ d) (2 ^ d - 1))
      ≡ length (compress_nb k (nb / 128) (1 * 128 + v * 2 ^ d) (2 ^ d - 1)) + 1
unfolding compress_nb
length-compress_nb_long k d c v nb hd hc hv long =
    let P = c * 128 + v * 2 ^ d in
    let low = pixel_low d v hd hv in
    let top : P % 128 + 128 ≡ 1 * 128 + v * 2 ^ d = omega arith in
    let e : ltb (2 ^ d - 1) nb ≡ true = let p = pow_pos d in ground arith in
    rw (e, top)
      (length-append (compress_nb k (nb / 128) (1 * 128 + v * 2 ^ d) (2 ^ d - 1))
        ((nb % 128 + P / 128 * 128) ∷ []))

-- A number takes at most a byte for each of the pixels that it counts.
length-compress_nb_pixels :
    (k d c v nb : ℕ)
    → d < 8
    → c < 2
    → v < 2 ^ (7 - d)
    → 0 < c * 128 + v * 2 ^ d
    → nb < groups k
    → length (compress_nb k nb (c * 128 + v * 2 ^ d) (2 ^ d - 1)) ≤ nb + 1
unfolding groups
length-compress_nb_pixels zero d c v nb hd hc hv bit hn =
    let p = pow_pos d in
    omega (arith, length-compress_nb_short 0 d c v nb hd hc hv bit (omega arith))
length-compress_nb_pixels (suc k) d c v nb hd hc hv bit hn = elim (Bool-cases (ltb nb (2 ^ d))) [
  | inl e ↦ omega (arith, length-compress_nb_short (suc k) d c v nb hd hc hv bit (ground arith))
  | inr e ↦
      let p = pow_pos d in
      let long : 2 ^ d ≤ nb = ground arith in
      omega (
        arith,
        length-compress_nb_long k d c v nb hd hc hv long,
        length-compress_nb_pixels k d 1 v (nb / 128) hd (omega arith) hv (omega arith)
            (omega arith),
      )
]

-- The number of a line takes at most 3 bytes.
line_zero : length (bsb_compress_nb 0 0 127) ≡ 2
unfolding bsb_compress_nb compress_nb put_pixel
line_zero = refl

line_short : (line : ℕ) → line < 127 → length (bsb_compress_nb (suc line) 0 127) ≡ 1
unfolding bsb_compress_nb compress_nb
line_short line small =
    let e : ltb 127 (suc line) ≡ false = ground arith in
    let is = bit_or_low-IsByte 7 0 (suc line) (omega arith) (omega arith) (omega arith) in
    rw e (put_pixel-length _ (let sum = is.is_sum in omega arith))

line_long : (line : ℕ) → 128 ≤ line → line < 65536 → length (bsb_compress_nb line 0 127) ≤ 3
unfolding bsb_compress_nb
line_long line long small =
    let first =
      length-compress_nb_long 2 7 0 0 line (omega arith) (omega arith) (omega arith) long in
    elim (Bool-cases (ltb (line / 128) 128)) [
      | inl e ↦ omega (
        arith,
        first,
        length-compress_nb_short 2 7 1 0 (line / 128) (omega arith) (omega arith) (omega arith)
            (omega arith) (ground arith),
      )
      | inr e ↦ omega (
        arith,
        first,
        length-compress_nb_long 1 7 1 0 (line / 128) (omega arith) (omega arith) (omega arith)
            (ground arith),
        length-compress_nb_short 1 7 1 0 (line / 128 / 128) (omega arith) (omega arith)
            (omega arith) (omega arith) (omega arith),
      )
    ]

length-bsb_compress_nb_line : (line : ℕ) → line < 65536 → length (bsb_compress_nb line 0 127) ≤ 3
length-bsb_compress_nb_line zero small = omega (arith, line_zero)
length-bsb_compress_nb_line (suc line) small = elim (Bool-cases (ltb line 127)) [
  | inl e ↦ omega (arith, line_short line (ground arith))
  | inr e ↦ line_long (suc line) (ground arith) small
]

shift_pos : (x d : ℕ) → 0 < x → 0 < x * 2 ^ d
shift_pos zero d h = absurd (omega arith)
shift_pos (suc x) d h = omega (arith, pow_pos d)

-- The runs of a row take at most a byte for each pixel.
length-compress_runs :
    (fuel bits i w : ℕ) (row : Bytes)
    → length row ≤ fuel
    → i + length row ≡ w
    → w < 65536
    → bits < 8
    → ((x : ℕ) → In x row → (0 < x) × (x < 2 ^ bits))
    → length (compress_runs fuel (7 - bits) w w i i row) ≤ length row
unfolding compress_runs bsb_compress_nb
length-compress_runs fuel bits i w [] len at small hb all = omega arith
length-compress_runs zero bits i w (x ∷ row) len at small hb all = absurd (omega arith)
length-compress_runs (suc fuel) bits i w (x ∷ row) len at small hb all =
    let n = run_of x row in
    let dec = 7 - bits in
    let bound = run_of_bound x row in
    let left = length-drop n row in
    let here : (i + 1 + n) % 65536 ≡ i + 1 + n = omega arith in
    let same : 7 - dec ≡ bits = omega arith in
    let (positive, fits) = all x (inl refl) in
    let pixel : x < 2 ^ (7 - dec) = rw same fits in
    let low : x * 2 ^ dec % 256 ≡ x * 2 ^ dec =
      omega (arith, pixel_low dec x (omega arith) pixel) in
    let others = compress_runs fuel dec w w (i + 1 + n) (i + 1 + n) (drop n row) in
    let ih =
      length-compress_runs fuel bits (i + 1 + n) w (drop n row) (omega arith) (omega arith) small hb
        (λ y h. all y (inr (In-drop y n row h))) in
    let plain : 0 * 128 + x * 2 ^ dec ≡ x * 2 ^ dec = omega arith in
    let run : length (compress_nb 3 n (x * 2 ^ dec) (2 ^ dec - 1)) ≤ n + 1 =
      subst (λ p. length (compress_nb 3 n p (2 ^ dec - 1)) ≤ n + 1) plain
        (length-compress_nb_pixels 3 dec 0 x n (omega arith) (omega arith) pixel
          (omega (arith, shift_pos x dec positive)) (unfold groups in omega arith)) in
    rw (here, stretch_none n (i + 1 + n) w (omega arith), low)
      (omega (arith, ih, length-append (compress_nb 3 n (x * 2 ^ dec) (2 ^ dec - 1)) others, run))

-- A row takes at most 4 bytes more than it has pixels, which is the size of `buf_out` in save_kap,
-- if no pixel is 0 or has more bits than are written of it, for rows and line numbers below 2^16
-- and a row that is not stretched.
pub length-bsb_compress_row :
    (bits line : ℕ) (row : Bytes)
    → bits < 8
    → line < 65536
    → length row < 65536
    → ((x : ℕ) → In x row → (0 < x) × (x < 2 ^ bits))
    → length (bsb_compress_row row bits line (length row)) ≤ length row + 4
unfolding bsb_compress_row
length-bsb_compress_row bits line row hb hl hw all =
    let runs = compress_runs (length row) (7 - bits) (length row) (length row) 0 0 row in
    omega (
      arith,
      length-append (bsb_compress_nb line 0 0x7f) (runs ++ 0 ∷ []),
      length-append runs (0 ∷ []),
      length-bsb_compress_nb_line line hl,
      length-compress_runs (length row) bits 0 (length row) row (omega arith) (omega arith) hw hb
          all,
    )
