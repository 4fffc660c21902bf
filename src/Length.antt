-- ===== src/Length.antt =====
-- Lengths with a unit in src/smrparse.c.
pub mod Default
use smrender.Base.{Bool, true, ◌&&◌, ◌||◌, Option, none, some, [], ◌∷◌, leb, ◌==◌, if◌then◌else◌}
use smrender.Bstring.{Bytes}
use smrender.Params.{same_bytes, same_word}

-- unit_t, as far as parse_unit gives it
pub data LengthUnit : Type 0 where
  u_1 u_nm u_kbl u_ft u_mm u_deg u_min u_m u_km u_in u_cm u_px u_pt : LengthUnit

-- The test for a unit that is missing: *uptr == '\0' || *uptr == ':'
unfoldable pub no_unit : Bytes → Bool
no_unit [] = true
no_unit (c ∷ s) = c == 58

unfoldable pub parse_unit : Bytes → LengthUnit
unfolding no_unit
parse_unit s =
    if no_unit s
    then LengthUnit.u_1
    else if same_word s (110 ∷ 109 ∷ []) || same_word s (115 ∷ 109 ∷ [])
    then LengthUnit.u_nm
    else if same_word s (107 ∷ 98 ∷ 108 ∷ [])
    then LengthUnit.u_kbl
    else if same_word s (102 ∷ 116 ∷ [])
    then LengthUnit.u_ft
    else if same_word s (109 ∷ 109 ∷ [])
    then LengthUnit.u_mm
    else if same_word s (100 ∷ 101 ∷ 103 ∷ 114 ∷ 101 ∷ 101 ∷ 115 ∷ [])
        || same_word s (100 ∷ 101 ∷ 103 ∷ [])
        || same_bytes s (194 ∷ 176 ∷ [])
        || same_bytes s (176 ∷ [])
    then LengthUnit.u_deg
    else if same_word s (39 ∷ []) || same_word s (109 ∷ 105 ∷ 110 ∷ [])
    then LengthUnit.u_min
    else if same_word s (109 ∷ [])
    then LengthUnit.u_m
    else if same_word s (107 ∷ 109 ∷ [])
    then LengthUnit.u_km
    else if same_word s (105 ∷ 110 ∷ []) || same_word s (34 ∷ [])
    then LengthUnit.u_in
    else if same_word s (99 ∷ 109 ∷ [])
    then LengthUnit.u_cm
    else if same_word s (112 ∷ 120 ∷ [])
    then LengthUnit.u_px
    else if same_word s (112 ∷ 116 ∷ [])
    then LengthUnit.u_pt
    else LengthUnit.u_1

-- for (; isspace(*eptr); eptr++), in the C locale
unfoldable pub skip_spaces : Bytes → Bytes
skip_spaces [] = []
skip_spaces (c ∷ s) =
    let rest = skip_spaces s in if c == 32 || (leb 9 c && leb c 13) then rest else c ∷ s

-- `strtod` gives the value and the string behind it, and none for an error or if there is no number.
module _ {D : Type 0} (strtod : Bytes → Option (D × Bytes)) where
  unfoldable pub length_of : Option (D × Bytes) → Option (D × LengthUnit)
  length_of none = none
  length_of (some (val, eptr)) = some (val, parse_unit (skip_spaces eptr))

  -- parse_length; -1 is none.
  unfoldable pub parse_length : Bytes → Option (D × LengthUnit)
  unfolding length_of
  parse_length s = length_of (strtod s)

  unfoldable pub unit_or : LengthUnit → LengthUnit → LengthUnit
  unit_or LengthUnit.u_1 u = u
  unit_or v u = v

  unfoldable pub with_default : Option (D × LengthUnit) → LengthUnit → Option (D × LengthUnit)
  unfolding unit_or
  with_default none u = none
  with_default (some (val, v)) u = some (val, unit_or v u)

  unfoldable pub parse_length_def : Bytes → LengthUnit → Option (D × LengthUnit)
  unfolding with_default parse_length
  parse_length_def s u = with_default (parse_length s) u
