-- ===== src/ParamText/Written.antt =====
-- Parameters as they are written.
use smrender.Base.{◌≡◌, refl, Bool, true, ◌&&◌, Option, none, some, List, [], ◌∷◌, ◌++◌}
use smrender.Bstring.{Bytes}
use smrender.ParamText.{has_char}
use smrender.ParamText.Words.{IsDelim, escape, is_word}

-- An attribute, and its value if it has one.
abbrev pub Param : Type 0
Param = Bytes × Option Bytes

-- attr=value; or attr;
unfoldable pub print_value : Option Bytes → Bytes
print_value none = 59 ∷ []
print_value (some v) = 61 ∷ (escape (59 ∷ []) v ++ (59 ∷ []))

unfoldable pub print_param : Param → Bytes
print_param p = escape (61 ∷ 59 ∷ []) p.0 ++ print_value p.1

unfoldable pub print_params : List Param → Bytes
print_params [] = []
print_params (p ∷ ps) = print_param p ++ print_params ps

unfoldable pub value_is_word : Option Bytes → Bool
value_is_word none = true
value_is_word (some v) = is_word v

unfoldable pub are_words : List Param → Bool
are_words [] = true
are_words (p ∷ ps) = (is_word p.0 && value_is_word p.1) && are_words ps

pub attr-IsDelim : IsDelim (61 ∷ 59 ∷ [])
unfolding has_char
attr-IsDelim = record { backslash = refl; letter_n = refl }

pub value-IsDelim : IsDelim (59 ∷ [])
unfolding has_char
value-IsDelim = record { backslash = refl; letter_n = refl }

pub delims_found :
    (has_char (61 ∷ 59 ∷ []) 61 ≡ true)
    × (has_char (61 ∷ 59 ∷ []) 59 ≡ true)
    × (has_char (59 ∷ []) 59 ≡ true)
unfolding has_char
delims_found = (refl, refl, refl)
