-- ===== src/Length/Default.antt =====
-- The unit that parse_length_def() gives.
use smrender.Base.{none-some, some_inj, ◌≡◌, ap, ◌≢◌, Option, none, some, arith, subst}
use smrender.Bstring.{Bytes}
use smrender.Length.{LengthUnit, unit_or, parse_length, with_default, parse_length_def}

module _ {D : Type 0} (strtod : Bytes → Option (D × Bytes)) where
  unit_or-u_1 : (v u : LengthUnit) → u ≢ LengthUnit.u_1 → unit_or strtod v u ≢ LengthUnit.u_1
  unfolding unit_or
  unit_or-u_1 LengthUnit.u_1 u h = h
  unit_or-u_1 LengthUnit.u_nm u h = λ e. ground arith
  unit_or-u_1 LengthUnit.u_kbl u h = λ e. ground arith
  unit_or-u_1 LengthUnit.u_ft u h = λ e. ground arith
  unit_or-u_1 LengthUnit.u_mm u h = λ e. ground arith
  unit_or-u_1 LengthUnit.u_deg u h = λ e. ground arith
  unit_or-u_1 LengthUnit.u_min u h = λ e. ground arith
  unit_or-u_1 LengthUnit.u_m u h = λ e. ground arith
  unit_or-u_1 LengthUnit.u_km u h = λ e. ground arith
  unit_or-u_1 LengthUnit.u_in u h = λ e. ground arith
  unit_or-u_1 LengthUnit.u_cm u h = λ e. ground arith
  unit_or-u_1 LengthUnit.u_px u h = λ e. ground arith
  unit_or-u_1 LengthUnit.u_pt u h = λ e. ground arith

  with_default-u_1 :
      (o : Option (D × LengthUnit)) (u v : LengthUnit) (val : D)
      → u ≢ LengthUnit.u_1
      → with_default strtod o u ≡ some (val, v)
      → v ≢ LengthUnit.u_1
  unfolding with_default
  with_default-u_1 none u v val h e = absurd (none-some e)
  with_default-u_1 (some (x, w)) u v val h e =
      subst (λ k. k ≢ LengthUnit.u_1) (ap (λ (p : D × LengthUnit). p.1) (some_inj e))
        (unit_or-u_1 w u h)

  -- With a default unit other than "1" the unit of a length that parse_length_def() reads is never "1".
  parse_length_def-u_1 :
      (s : Bytes) (u v : LengthUnit) (val : D)
      → u ≢ LengthUnit.u_1
      → parse_length_def strtod s u ≡ some (val, v)
      → v ≢ LengthUnit.u_1
  unfolding parse_length_def
  parse_length_def-u_1 s u v val h e = with_default-u_1 (parse_length strtod s) u v val h e
