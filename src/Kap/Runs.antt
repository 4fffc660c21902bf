-- ===== src/Kap/Runs.antt =====
-- The runs of a row, and how a reader finds the row.
use smrender.Base.{
  ℕ, zero, suc, ◌+◌, ◌-◌, ◌*◌, ◌/◌, ◌%◌, ◌^◌, ◌≤◌, ◌<◌, ◌≡◌, refl, ap, ◌∙◌, inl, inr, false, Option,
  none, some, [], ◌∷◌, ◌++◌, arith, ltb, ◌==◌, ==_iff, Bool-cases, length, drop, replicate, In,
  length-drop,
}
use mathlib.Core.List.{append_assoc}
use Prim.Native.Nat.{bit_or}
use native.Mathlib.Nat.{div-lt_iff_lt-mul, mod-le}
use smrender.Base.{◌>>=◌}
use smrender.Bstring.{Bytes}
use smrender.Kap.{put_pixel, compress_nb, bsb_compress_nb, run_of, x_out, stretch, compress_runs}
use smrender.Kap.Groups.{read_nb, read_nb-compress_nb, groups, pixel_low}

-- The runs up to the byte 0.
unfoldable pub read_runs : ℕ → ℕ → Bytes → Option (Bytes × Bytes)
read_runs fuel dec [] = none
read_runs fuel dec (zero ∷ rest) = some ([], rest)
read_runs zero dec (suc b ∷ rest) = none
read_runs (suc fuel) dec (suc b ∷ rest) = do
  (pixel, (n, more)) ← read_nb dec (suc b ∷ rest)
  (row, behind) ← read_runs fuel dec more
  some (replicate (n + 1) pixel ++ row, behind)

-- No number and no run starts with the byte 0.
put_pixel_head : (b : ℕ) → (h : ℕ) × (t : Bytes) × (put_pixel b ≡ suc h ∷ t)
unfolding put_pixel
put_pixel_head zero = (127, 0 ∷ [], refl)
put_pixel_head (suc b) = (b, [], refl)

pub compress_nb_head :
    (k nb pixel max : ℕ) → (h : ℕ) × (t : Bytes) × (compress_nb k nb pixel max ≡ suc h ∷ t)
unfolding compress_nb
compress_nb_head zero nb pixel max = put_pixel_head _
compress_nb_head (suc k) nb pixel max =
    let b = nb % 128 + pixel / 128 * 128 in
    elim (Bool-cases (ltb max nb)) [
      | inl e ↦
          let (h, t, eq) = compress_nb_head k (nb / 128) (pixel % 128 + 128) max in
          (h, t ++ (b ∷ []), rw e (ap (λ l. l ++ (b ∷ [])) eq))
      | inr e ↦ let (h, t, eq) = put_pixel_head (bit_or pixel nb % 256) in (h, t, rw e eq)
    ]

-- A row is the run in front of it and what is behind.
pub run_of-drop :
    (x : ℕ) (buf : Bytes) → replicate (run_of x buf) x ++ drop (run_of x buf) buf ≡ buf
unfolding run_of
run_of-drop x [] = refl
run_of-drop x (y ∷ buf) = elim (Bool-cases (y == x)) [
  | inl e ↦
      let eq : y ≡ x = (==_iff y x).0 e in
      let next : run_of x buf + 1 ≡ suc (run_of x buf) = omega arith in
      rw (e, next) (rw eq (ap (λ l. x ∷ l) (run_of-drop x buf)))
  | inr e ↦ rw e refl
]

pub run_of_bound : (x : ℕ) (buf : Bytes) → run_of x buf ≤ length buf
unfolding run_of
run_of_bound x [] = omega arith
run_of_bound x (y ∷ buf) =
    let ih = run_of_bound x buf in
    elim (Bool-cases (y == x)) [ inl e ↦ rw e (omega arith) | inr e ↦ rw e (omega arith) ]

-- Between widths that are equal no run is made longer.
x_out_bound : (i w : ℕ) → 0 < w → x_out i w w ≤ i
unfolding x_out
x_out_bound i w h =
    let whole = mod-le ((i * 2 + 1) * w) (2 ^ 32) in
    let product : (i * 2 + 1) * w < (i + 1) * (w * 2) = omega arith in
    let fits : (i * 2 + 1) * w % 2 ^ 32 < (i + 1) * (w * 2) = omega arith in
    let quotient = (div-lt_iff_lt-mul {k = w * 2} (omega arith)).1 fits in
    let rest = mod-le ((i * 2 + 1) * w % 2 ^ 32 / (w * 2)) (2 ^ 16) in omega arith

pub stretch_none : (n i w : ℕ) → 0 < w → stretch n i (x_out i w w) ≡ (n, i)
unfolding stretch
stretch_none n i w h =
    let b = x_out_bound i w h in let e : ltb i (x_out i w w) ≡ false = ground arith in rw e refl

-- A run that is read, in front of the others.
read_runs_step :
    (fuel dec : ℕ) (run more : Bytes) (h : ℕ) (t : Bytes) (pixel n : ℕ) (row rest : Bytes)
    → run ≡ suc h ∷ t
    → read_nb dec (run ++ more) ≡ some (pixel, (n, more))
    → read_runs fuel dec more ≡ some (row, rest)
    → read_runs (suc fuel) dec (run ++ more) ≡ some (replicate (n + 1) pixel ++ row, rest)
unfolding read_runs
read_runs_step fuel dec run more h t pixel n row rest head first others =
    let first' : read_nb dec (suc h ∷ (t ++ more)) ≡ some (pixel, (n, more)) =
      rw (← ap (λ r. read_nb dec (r ++ more)) head) first in
    rw head (rw first' (rw others refl))

pub In-drop : (x n : ℕ) (row : Bytes) → In x (drop n row) → In x row
In-drop x zero row h = h
In-drop x (suc n) [] h = absurd h
In-drop x (suc n) (y ∷ row) h = inr (In-drop x n row h)

-- The runs of a row, and the byte 0 behind them, are read back.
pub read_runs-compress_runs :
    (fuel bits i w : ℕ) (row rest : Bytes)
    → length row ≤ fuel
    → i + length row ≡ w
    → w < 65536
    → bits < 8
    → ((x : ℕ) → In x row → x < 2 ^ bits)
    → read_runs fuel (7 - bits) (compress_runs fuel (7 - bits) w w i i row ++ 0 ∷ rest)
      ≡ some (row, rest)
unfolding read_runs compress_runs bsb_compress_nb
read_runs-compress_runs fuel bits i w [] rest len at small hb all = refl
read_runs-compress_runs zero bits i w (x ∷ row) rest len at small hb all = absurd (omega arith)
read_runs-compress_runs (suc fuel) bits i w (x ∷ row) rest len at small hb all =
    let n = run_of x row in
    let dec = 7 - bits in
    let bound = run_of_bound x row in
    let here : (i + 1 + n) % 65536 ≡ i + 1 + n = omega arith in
    let same : 7 - dec ≡ bits = omega arith in
    let pixel : x < 2 ^ (7 - dec) = rw same (all x (inl refl)) in
    let low : x * 2 ^ dec % 256 ≡ x * 2 ^ dec =
      omega (arith, pixel_low dec x (omega arith) pixel) in
    let others = compress_runs fuel dec w w (i + 1 + n) (i + 1 + n) (drop n row) in
    let run = compress_nb 3 n (x * 2 ^ dec) (2 ^ dec - 1) in
    let left = length-drop n row in
    let ih =
      read_runs-compress_runs fuel bits (i + 1 + n) w (drop n row) rest (omega arith) (omega arith)
        small hb (λ y h. all y (inr (In-drop y n row h))) in
    let first =
      read_nb-compress_nb 3 dec x n (others ++ 0 ∷ rest) (omega arith) pixel
        (unfold groups in omega arith) in
    let (h, t, head) = compress_nb_head 3 n (x * 2 ^ dec) (2 ^ dec - 1) in
    let next : n + 1 ≡ suc n = omega arith in
    rw (here, stretch_none n (i + 1 + n) w (omega arith), low)
      (ap (read_runs (suc fuel) dec) (append_assoc run others (0 ∷ rest))
        ∙ read_runs_step fuel dec run (others ++ 0 ∷ rest) h t x n (drop n row) rest head first ih
        ∙ rw next (ap (λ l. some (x ∷ l, rest)) (run_of-drop x row)))
