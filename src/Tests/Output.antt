-- ===== src/Tests/Output.antt =====
-- Strings in the JSON output.
use smrender.Base.{◌+◌, ◌≡◌, refl, true, false, none, some, [], ◌∷◌, ◌++◌, length}
use smrender.Bstring.{Bytes}
use smrender.Json.{bs_stresc, esc_loop, strpos, esc_char, jesc}
use smrender.Json.Read.{is_text, are_chars, read_json, read_json-jesc}

-- a"b and a newline
abbrev quoted : Bytes
quoted = 97 ∷ 34 ∷ 98 ∷ 10 ∷ []

quoted-chars : are_chars quoted ≡ true
unfolding are_chars is_text
quoted-chars = refl

read_json-jesc_example :
    (sized out : Bytes) × (jesc none quoted ≡ some sized)
    × (jesc (some (length sized + 1 + 0)) quoted ≡ some out)
    × (length out ≡ length sized)
    × (read_json false (out ++ 34 ∷ 44 ∷ []) ≡ some (quoted, 44 ∷ []))
read_json-jesc_example = read_json-jesc quoted (44 ∷ []) 0 quoted-chars

-- A buffer of 2 bytes: the quote and what is behind it are missing, and there is no error.
cut_off : jesc (some 2) quoted ≡ some (97 ∷ [])
unfolding jesc bs_stresc esc_loop strpos esc_char
cut_off = refl

-- A control character that JSON does not allow in a string is written as it is.
control_kept : jesc none (1 ∷ []) ≡ some (1 ∷ [])
unfolding jesc bs_stresc esc_loop strpos esc_char
control_kept = refl
