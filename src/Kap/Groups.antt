-- ===== src/Kap/Groups.antt =====
-- Numbers in groups of 7 bits, behind the bits of a pixel, and how a reader finds them.
use smrender.Base.{
  and_split, ℕ, zero, suc, ◌+◌, ◌-◌, ◌*◌, ◌/◌, ◌%◌, ◌^◌, ◌<◌, ◌≡◌, refl, sym, ap, ◌∙◌, inl, inr,
  Bool, true, false, ◌&&◌, Option, none, some, [], ◌∷◌, ◌++◌, arith, ltb, leb, ◌==◌, if◌then◌else◌,
  ltb→lt, ==_iff, Bool-cases, subst,
}
use smrender.Base.Tables.{every_from, every_from-at}
use smrender.Bstring.{Bytes}
use Prim.Native.Nat.{bit_or}
use mathlib.Core.List.{append_assoc}
use smrender.Kap.{put_pixel, compress_nb}

-- The rest of a number: groups of 7 bits, of which all but the last have the top bit.
unfoldable pub read_more : ℕ → ℕ → Bytes → Option (ℕ × (ℕ × Bytes))
read_more pixel n [] = none
read_more pixel n (b ∷ rest) =
    let more = read_more pixel (n * 128 + b % 128) rest in
    if leb 128 b then more else some (pixel, (n * 128 + b % 128, rest))

-- A pixel and a number: the first byte has the pixel above the `dec` lowest of its 7 bits.
unfoldable pub read_nb : ℕ → Bytes → Option (ℕ × (ℕ × Bytes))
read_nb dec [] = none
read_nb dec (b ∷ rest) =
    let pixel = b % 128 / 2 ^ dec in
    let n = b % 2 ^ dec in if leb 128 b then read_more pixel n rest else some (pixel, (n, rest))

-- The byte of a pixel and a number, with the bit `c` on top, and what it is read as.
byte_test : ℕ → ℕ → ℕ → ℕ → Bool
byte_test d c v n =
    let b = bit_or (c * 128 + v * 2 ^ d) n % 256 in
    ((b == c * 128 + v * 2 ^ d + n) && ltb (v * 2 ^ d + n) 128)
    && ((b % 128 / 2 ^ d == v) && (b % 2 ^ d == n))

table : ℕ → Bool
table d =
    every_from 2 0 (λ c. every_from (2 ^ (7 - d)) 0 (λ v. every_from (2 ^ d) 0 (byte_test d c v)))

tables : every_from 8 0 table ≡ true
unfolding table every_from byte_test
tables = refl

pub pow_pos : (d : ℕ) → 0 < 2 ^ d
pow_pos zero = omega arith
pow_pos (suc d) = omega (arith, pow_pos d)

-- The bits of a pixel and a number do not overlap, and a reader finds them.
pub record IsByte (d c v n b : ℕ) : Type 0 where
  pub is_sum : b ≡ c * 128 + v * 2 ^ d + n
  is_low : v * 2 ^ d + n < 128
  reads_pixel : b % 128 / 2 ^ d ≡ v
  reads_number : b % 2 ^ d ≡ n

pub bit_or-IsByte :
    (d c v n : ℕ)
    → d < 8
    → c < 2
    → v < 2 ^ (7 - d)
    → n < 2 ^ d
    → IsByte d c v n (bit_or (c * 128 + v * 2 ^ d) n % 256)
unfolding table byte_test
bit_or-IsByte d c v n hd hc hv hn =
    let row : table d ≡ true = every_from-at 8 0 d table tables (omega arith) (omega arith) in
    let row2 =
      every_from-at 2 0 c
        (λ c. every_from (2 ^ (7 - d)) 0 (λ v. every_from (2 ^ d) 0 (byte_test d c v))) row
        (omega arith) (omega arith) in
    let row3 =
      every_from-at (2 ^ (7 - d)) 0 v (λ v. every_from (2 ^ d) 0 (byte_test d c v)) row2
        (omega arith) (omega arith) in
    let row4 = every_from-at (2 ^ d) 0 n (byte_test d c v) row3 (omega arith) (omega arith) in
    let b = bit_or (c * 128 + v * 2 ^ d) n % 256 in
    let (front, reads) =
      and_split ((b == c * 128 + v * 2 ^ d + n) && ltb (v * 2 ^ d + n) 128)
        ((b % 128 / 2 ^ d == v) && (b % 2 ^ d == n)) row4 in
    let (sum, low) = and_split (b == c * 128 + v * 2 ^ d + n) (ltb (v * 2 ^ d + n) 128) front in
    let (pixel, number) = and_split (b % 128 / 2 ^ d == v) (b % 2 ^ d == n) reads in
    record {
      is_sum = (==_iff _ _).0 sum;
      is_low = ltb→lt _ _ low;
      reads_pixel = (==_iff _ _).0 pixel;
      reads_number = (==_iff _ _).0 number;
    }

pub bit_or_low-IsByte :
    (d v n : ℕ) → d < 8 → v < 2 ^ (7 - d) → n < 2 ^ d → IsByte d 0 v n (bit_or (v * 2 ^ d) n % 256)
bit_or_low-IsByte d v n hd hv hn =
    let plain : 0 * 128 + v * 2 ^ d ≡ v * 2 ^ d = omega arith in
    subst (λ x. IsByte d 0 v n (bit_or x n % 256)) plain
      (bit_or-IsByte d 0 v n hd (omega arith) hv hn)

pub pixel_low : (d v : ℕ) → d < 8 → v < 2 ^ (7 - d) → v * 2 ^ d < 128
pixel_low d v hd hv =
    let low = bit_or-IsByte d 0 v 0 hd (omega arith) hv (pow_pos d) in omega (arith, low.is_low)

-- A byte with the top bit is followed by the rest of its number.
read_nb_top :
    (d v n b : ℕ) (rest : Bytes)
    → IsByte d 1 v n b
    → read_nb d (put_pixel b ++ rest) ≡ read_more v n rest
unfolding read_nb put_pixel
read_nb_top d v n zero rest is = let e = is.is_sum in absurd (omega arith)
read_nb_top d v n (suc b) rest is =
    let top : leb 128 (suc b) ≡ true = let e = is.is_sum in ground arith in
    rw (top, is.reads_pixel, is.reads_number) refl

zero-IsByte : (d : ℕ) → d < 8 → IsByte d 1 0 0 128
zero-IsByte d h =
    let is = bit_or-IsByte d 1 0 0 h (omega arith) (pow_pos (7 - d)) (pow_pos d) in
    subst (IsByte d 1 0 0) (is.is_sum ∙ omega arith) is

-- A byte without it is all of the number.
read_nb_low :
    (d v n b : ℕ) (rest : Bytes)
    → d < 8
    → IsByte d 0 v n b
    → read_nb d (put_pixel b ++ rest) ≡ some (v, (n, rest))
unfolding read_nb put_pixel read_more
read_nb_low d v n zero rest h is =
    let z = zero-IsByte d h in
    let ev : v ≡ 0 = sym (is.reads_pixel) ∙ z.reads_pixel in
    let en : n ≡ 0 = let e = is.is_sum in omega arith in
    rw (z.reads_pixel, z.reads_number, ev, en) refl
read_nb_low d v n (suc b) rest h is =
    let top : leb 128 (suc b) ≡ false = let e = is.is_sum in let l = is.is_low in ground arith in
    rw (top, is.reads_pixel, is.reads_number) refl

read_more_top :
    (v nb b : ℕ) (rest : Bytes)
    → b ≡ nb % 128 + 128
    → read_more v (nb / 128) (b ∷ rest) ≡ read_more v nb rest
unfolding read_more
read_more_top v nb b rest e =
    let top : leb 128 b ≡ true = ground arith in
    let whole : nb / 128 * 128 + b % 128 ≡ nb = omega arith in rw (top, whole) refl

read_more_low :
    (v nb b : ℕ) (rest : Bytes)
    → b ≡ nb % 128
    → read_more v (nb / 128) (b ∷ rest) ≡ some (v, (nb, rest))
unfolding read_more
read_more_low v nb b rest e =
    let top : leb 128 b ≡ false = ground arith in
    let whole : nb / 128 * 128 + b % 128 ≡ nb = omega arith in rw (top, whole) refl

-- The numbers of up to `k` groups
unfoldable pub groups : ℕ → ℕ
groups zero = 1
groups (suc k) = groups k * 128

-- A number whose first byte has the top bit is continued by what comes behind it.
compress_nb_continues :
    (k d v nb : ℕ) (rest : Bytes)
    → d < 8
    → v < 2 ^ (7 - d)
    → nb < groups k
    → read_nb d (compress_nb k nb (1 * 128 + v * 2 ^ d) (2 ^ d - 1) ++ rest) ≡ read_more v nb rest
unfolding compress_nb groups
compress_nb_continues zero d v nb rest hd hv hn =
    read_nb_top d v nb _ rest
      (bit_or-IsByte d 1 v nb hd (omega arith) hv (omega (arith, pow_pos d)))
compress_nb_continues (suc k) d v nb rest hd hv hn =
    let P = 1 * 128 + v * 2 ^ d in
    let b = nb % 128 + P / 128 * 128 in
    let low = pixel_low d v hd hv in
    elim (Bool-cases (ltb (2 ^ d - 1) nb)) [
      | inl e ↦
          let same : P % 128 + 128 ≡ P = omega arith in
          let ih = compress_nb_continues k d v (nb / 128) (b ∷ rest) hd hv (omega arith) in
          rw (e, same)
            (ap (read_nb d) (append_assoc (compress_nb k (nb / 128) P (2 ^ d - 1)) (b ∷ []) rest)
              ∙ ih
              ∙ read_more_top v nb b rest (omega arith))
      | inr e ↦
          let fits : nb < 2 ^ d = let p = pow_pos d in ground arith in
          rw e (read_nb_top d v nb _ rest (bit_or-IsByte d 1 v nb hd (omega arith) hv fits))
    ]

-- What is written of a number is read back.
pub read_nb-compress_nb :
    (k d v nb : ℕ) (rest : Bytes)
    → d < 8
    → v < 2 ^ (7 - d)
    → nb < groups k
    → read_nb d (compress_nb k nb (v * 2 ^ d) (2 ^ d - 1) ++ rest) ≡ some (v, (nb, rest))
unfolding compress_nb groups
read_nb-compress_nb zero d v nb rest hd hv hn =
    read_nb_low d v nb _ rest hd (bit_or_low-IsByte d v nb hd hv (omega (arith, pow_pos d)))
read_nb-compress_nb (suc k) d v nb rest hd hv hn =
    let P = v * 2 ^ d in
    let b = nb % 128 + P / 128 * 128 in
    let low = pixel_low d v hd hv in
    elim (Bool-cases (ltb (2 ^ d - 1) nb)) [
      | inl e ↦
          let top : P % 128 + 128 ≡ 1 * 128 + P = omega arith in
          let ih = compress_nb_continues k d v (nb / 128) (b ∷ rest) hd hv (omega arith) in
          rw (e, top)
            (ap (read_nb d)
                (append_assoc (compress_nb k (nb / 128) (1 * 128 + P) (2 ^ d - 1)) (b ∷ []) rest)
              ∙ ih
              ∙ read_more_low v nb b rest (omega arith))
      | inr e ↦
          let fits : nb < 2 ^ d = let p = pow_pos d in ground arith in
          rw e (read_nb_low d v nb _ rest hd (bit_or_low-IsByte d v nb hd hv fits))
    ]
