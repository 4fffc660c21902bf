-- ===== src/Params.antt =====
-- The parameters of a rule's function in libsmrender/smutil.c: `get_param_err` and what stands on it.
pub mod Lookup
use smrender.Base.{
  ℕ, ◌+◌, Bool, true, false, not, ◌&&◌, ◌||◌, Option, none, some, List, [], ◌∷◌, map, leb, ◌==◌,
  if◌then◌else◌, ℤ, pos,
}
use smrender.Bstring.{Bytes}

-- fparam_t; `D` are the double values, and none is the NULL pointer.
pub record Fparam (D : Type 0) : Type 0 where
  pub attr : Bytes
  pub val : Option Bytes
  pub dval : D
  pub conv_error : ℕ

-- strcmp(a, b) == 0
unfoldable pub same_bytes : Bytes → Bytes → Bool
same_bytes [] [] = true
same_bytes [] (y ∷ b) = false
same_bytes (x ∷ a) [] = false
same_bytes (x ∷ a) (y ∷ b) = x == y && same_bytes a b

-- The letter in lower case, in the C locale.
abbrev pub to_lower : ℕ → ℕ
to_lower c = if leb 65 c && leb c 90 then c + 32 else c

-- strcasecmp(a, b) == 0
unfoldable pub same_word : Bytes → Bytes → Bool
unfolding same_bytes
same_word a b = same_bytes (map to_lower a) (map to_lower b)

module _ {D : Type 0} where
  -- get_param_err: the entry from which the value, *dval and *err are taken; none is NULL. A list
  -- that is NULL is empty.
  unfoldable pub get_param_err : Bytes → List (Fparam D) → Option (Fparam D)
  unfolding same_bytes
  get_param_err attr [] = none
  get_param_err attr (p ∷ fp) =
      let rest = get_param_err attr fp in if same_bytes attr p.attr then some p else rest

  -- get_param: the value, (*fp)->val, which is NULL for an attribute without a value, too
  unfoldable pub get_param : Bytes → List (Fparam D) → Option Bytes
  unfolding get_param_err
  get_param attr fp = elim (get_param_err attr fp) [ none ↦ none | some p ↦ p.val ]

  -- get_paramd
  unfoldable pub get_paramd : Bytes → List (Fparam D) → D → D
  unfolding get_param_err
  get_paramd attr fp def = elim (get_param_err attr fp) [
    | none ↦ def
    | some p ↦ elim p.val [ none ↦ def | some s ↦ if p.conv_error == 0 then p.dval else def ]
  ]

  -- get_param_bool2 of the entry found and its value; `is_zero` is the test of a double against 0.
  unfoldable pub param_bool : (D → Bool) → Option (Fparam D) → ℤ → ℤ
  unfolding same_word
  param_bool is_zero none def = def
  param_bool is_zero (some p) def = elim p.val [
    | none ↦ def
    | some s ↦
        if not (is_zero p.dval)
          || same_word s (121 ∷ 101 ∷ 115 ∷ [])
          || same_word s (116 ∷ 114 ∷ 117 ∷ 101 ∷ [])
        then pos 1
        else if same_word s (110 ∷ 111 ∷ [])
            || same_word s (102 ∷ 97 ∷ 108 ∷ 115 ∷ 101 ∷ [])
            || same_word s (48 ∷ [])
        then pos 0
        else def
  ]

  unfoldable pub get_param_bool2 : (D → Bool) → Bytes → List (Fparam D) → ℤ → ℤ
  unfolding get_param_err param_bool
  get_param_bool2 is_zero attr fp def = param_bool is_zero (get_param_err attr fp) def

  unfoldable pub get_param_bool : (D → Bool) → Bytes → List (Fparam D) → ℤ
  unfolding get_param_bool2
  get_param_bool is_zero attr fp = get_param_bool2 is_zero attr fp (pos 0)
