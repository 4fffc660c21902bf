-- ===== src/Bstring/Number.antt =====
-- The number readers of libsmrender/bstring.c: `bs_tol` and `bs_tod`.
use smrender.Base.{
  ℕ, zero, suc, ◌+◌, ◌-◌, ◌*◌, ◌%◌, ◌^◌, Bool, true, false, not, ◌&&◌, [], ◌∷◌, ltb, leb, ◌==◌,
  if◌then◌else◌,
}
use smrender.Bstring.{Bytes}

abbrev pub is_digit : ℕ → Bool
is_digit c = leb b'0' c && leb c b'9'

-- for (; b.len && isdigit; advance) { l *= 10; l += *b.buf - '0'; }, in a 64 bit `long`, of
-- which an overflow is given its bit pattern.
unfoldable pub tol_loop : ℕ → Bytes → ℕ
tol_loop l [] = l
tol_loop l (c ∷ b) =
    let rest = tol_loop ((l * 10 + (c - b'0')) % 2 ^ 64) b in if is_digit c then rest else l

abbrev pub signed : Bool → ℕ → ℕ
signed minus l = if minus then (2 ^ 64 - l) % 2 ^ 64 else l

-- The result is the bit pattern of the `long`.
unfoldable pub bs_tol : Bytes → ℕ
unfolding tol_loop
bs_tol [] = 0
bs_tol (c ∷ b) = if c == b'-' then signed true (tol_loop 0 b) else signed false (tol_loop 0 (c ∷ b))

-- The `double` operations that the sources apply, as parameters.
pub record Double : Type 1 where
  pub Value : Type 0
  pub zero_value : Value
  pub mul_ten : Value → Value
  pub add_digit : Value → ℕ → Value
  pub div_ten : Value → Value
  pub negate : Value → Value
  pub less : Value → Value → Bool

module _ (D : Double) where
  open D use {Value, zero_value, mul_ten, add_digit, div_ten, negate}

  -- `e` is one more than in C, where it begins with -1.
  unfoldable pub tod_loop : ℕ → Value → Bytes → ℕ × Value
  tod_loop e d [] = (e, d)
  tod_loop e d (c ∷ b) =
      let dot = tod_loop (e + 1) d b in
      let digit = tod_loop (if ltb 0 e then e + 1 else e) (add_digit (mul_ten d) (c - b'0')) b in
      if c == b'.' then dot else if not (is_digit c) then (e, d) else digit

  -- for (; e > 0; e--) d /= 10.0, with the same shift of `e`
  unfoldable pub scale_down : ℕ → Value → Value
  scale_down zero d = d
  scale_down (suc zero) d = d
  scale_down (suc (suc e)) d = scale_down (suc e) (div_ten d)

  unfoldable pub tod_abs : Bytes → Value
  unfolding tod_loop scale_down
  tod_abs b = let (e, d) = tod_loop 0 zero_value b in scale_down e d

  unfoldable pub bs_tod : Bytes → Value
  unfolding tod_abs
  bs_tod [] = zero_value
  bs_tod (c ∷ b) = if c == b'-' then negate (tod_abs b) else tod_abs (c ∷ b)
