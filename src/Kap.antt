-- ===== src/Kap.antt =====
-- The rows of a KAP image, src/smkap.c. A buffer that is filled is the list of its bytes.
pub mod Groups
pub mod Runs
pub mod Rows
pub mod Sizes
pub mod Depths
use smrender.Base.{
  ℕ, zero, suc, ◌+◌, ◌-◌, ◌*◌, ◌/◌, ◌%◌, ◌^◌, Option, none, some, List, [], ◌∷◌, ◌++◌, map, ltb,
  ◌==◌, if◌then◌else◌, length, drop,
}
use smrender.Bstring.{Bytes}
use Prim.Native.Nat.{bit_or}

-- p[count++] = pixel, behind a byte 0x80 if it is 0.
unfoldable pub put_pixel : ℕ → Bytes
put_pixel zero = 0x80 ∷ 0 ∷ []
put_pixel (suc pixel) = suc pixel ∷ []

-- bsb_compress_nb, without the recursion where `nb` is not above `max`; the first argument is the
-- depth of the recursion. A third shift of a uint16_t by 7 bits gives 0, which is not above `max`.
unfoldable pub compress_nb : ℕ → ℕ → ℕ → ℕ → Bytes
compress_nb zero nb pixel max = put_pixel (bit_or pixel nb % 256)
compress_nb (suc k) nb pixel max =
    let more =
      compress_nb k (nb / 128) (pixel % 128 + 128) max ++ ((nb % 128 + pixel / 128 * 128) ∷ []) in
    if ltb max nb then more else put_pixel (bit_or pixel nb % 256)

unfoldable pub bsb_compress_nb : ℕ → ℕ → ℕ → Bytes
bsb_compress_nb nb pixel max = compress_nb 3 nb pixel max

-- The pixels in front that are `last_pix`.
unfoldable pub run_of : ℕ → Bytes → ℕ
run_of last_pix [] = 0
run_of last_pix (x ∷ buf) = let n = run_of last_pix buf in if x == last_pix then n + 1 else 0

-- xout, in uint32_t and uint16_t
unfoldable pub x_out : ℕ → ℕ → ℕ → ℕ
x_out ipixelin widthin widthout = (ipixelin * 2 + 1) * widthout % 2 ^ 32 / (widthin * 2) % 2 ^ 16

-- run_length and ipixelout after the test of xout.
unfoldable pub stretch : ℕ → ℕ → ℕ → ℕ × ℕ
stretch run_length ipixelout xout =
    if ltb ipixelout xout
    then ((run_length + (xout - ipixelout)) % 2 ^ 16, xout)
    else (run_length, ipixelout)

-- while (ipixelin < widthin), on fuel; the list is buf_in from `ipixelin` up to `widthin`.
unfoldable pub compress_runs : ℕ → ℕ → ℕ → ℕ → ℕ → ℕ → Bytes → Bytes
compress_runs fuel dec widthin widthout ipixelin ipixelout [] = []
compress_runs zero dec widthin widthout ipixelin ipixelout (last_pix ∷ buf) = []
compress_runs (suc fuel) dec widthin widthout ipixelin ipixelout (last_pix ∷ buf) =
    let n = run_of last_pix buf in
    let (run_length, out) =
      stretch n ((ipixelout + 1 + n) % 2 ^ 16) (x_out (ipixelin + 1 + n) widthin widthout) in
    bsb_compress_nb run_length (last_pix * 2 ^ dec % 256) (2 ^ dec - 1)
    ++ compress_runs fuel dec widthin widthout (ipixelin + 1 + n) out (drop n buf)

-- bsb_compress_row, for bits_out up to 7 and widthin bytes in `buf_in`.
unfoldable pub bsb_compress_row : Bytes → ℕ → ℕ → ℕ → Bytes
bsb_compress_row buf_in bits_out line widthout =
    let dec = 7 - bits_out in
    bsb_compress_nb line 0 0x7f
    ++ (compress_runs (length buf_in) dec (length buf_in) widthout 0 0 buf_in ++ (0 ∷ []))

-- palette_index, from the index `i` on; none is -1.
unfoldable pub palette_from : ℕ → List ℕ → ℕ → Option ℕ
palette_from i [] col = none
palette_from i (c ∷ palette) col =
    let rest = palette_from (i + 1) palette col in if col == c then some (i + 1) else rest

unfoldable pub palette_index : List ℕ → ℕ → Option ℕ
palette_index palette col = palette_from 0 palette col

-- buf_in[x] = palette_index(...): -1 is 255 in a byte.
unfoldable pub index_byte : Option ℕ → ℕ
index_byte none = 255
index_byte (some i) = i % 256

-- The row of `buf_in` that save_kap makes of a row of colors.
unfoldable pub index_row : List ℕ → List ℕ → Bytes
index_row palette cols = map (λ col. index_byte (palette_index palette col)) cols

-- for (d = 1, m = 2; m < hcnt; m <<= 1, d++), on fuel
unfoldable pub depth_loop : ℕ → ℕ → ℕ → ℕ → ℕ
depth_loop zero d m hcnt = d
depth_loop (suc fuel) d m hcnt =
    let more = depth_loop fuel (d + 1) (m * 2) hcnt in if ltb m hcnt then more else d

-- get_depth, of a number of colors that is not negative; the power of 2 at `d` is above `d`.
unfoldable pub get_depth : ℕ → ℕ
get_depth hcnt = depth_loop hcnt 1 2 hcnt
