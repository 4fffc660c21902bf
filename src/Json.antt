-- ===== src/Json.antt =====
-- Strings in the JSON output, src/smjson.c: `bs_stresc` and `jesc`.
pub mod Escaped
pub mod Read
use smrender.Base.{
  ℕ, ◌+◌, ◌-◌, ◌*◌, Option, none, some, [], ◌∷◌, ◌++◌, ltb, ◌==◌, if◌then◌else◌, length, get_or,
  ◌>>=◌,
}
use smrender.Bstring.{Bytes}

-- strpos: the index of the character; none is -1. strchr() finds the NUL at the end, too.
unfoldable pub strpos : Bytes → ℕ → Option ℕ
strpos [] c = if c == 0 then some 0 else none
strpos (x ∷ s) c = let rest = strpos s c >>= λ n. some (n + 1) in if x == c then some 0 else rest

-- What is written for a character: a backslash and its replacement, if it is one of `echars`
unfoldable pub esc_char : Bytes → ℕ → Option ℕ → Bytes
esc_char uchars c none = c ∷ []
esc_char uchars c (some n) = 92 ∷ get_or uchars n 0 ∷ []

-- The loop of bs_stresc with `room` = dlen - len: the characters written to `dst`, of which the value
-- of the function is the number; none is -1.
unfoldable pub esc_loop : Bytes → Bytes → ℕ → Bytes → Option Bytes
esc_loop echars uchars room [] = some []
esc_loop echars uchars room (c ∷ src) =
    let out = esc_char uchars c (strpos echars c) in
    let rest = esc_loop echars uchars (room - length out) src >>= λ l. some (out ++ l) in
    if room == 0 then some [] else if ltb room (length out) then none else rest

-- bs_stresc: `dlen` is none for the NULL pointer as `dst`.
unfoldable pub bs_stresc : Bytes → Bytes → Option ℕ → Bytes → Option Bytes
bs_stresc echars uchars none src =
    if length echars == length uchars then esc_loop echars uchars (length src * 2) src else none
bs_stresc echars uchars (some dlen) src =
    if length echars == length uchars then esc_loop echars uchars (dlen - 1) src else none

-- "\"\\/\b\f\n\r\t" and "\"\\/bfnrt"
abbrev pub json_echars : Bytes
json_echars = 34 ∷ 92 ∷ 47 ∷ 8 ∷ 12 ∷ 10 ∷ 13 ∷ 9 ∷ []

abbrev pub json_uchars : Bytes
json_uchars = 34 ∷ 92 ∷ 47 ∷ 98 ∷ 102 ∷ 110 ∷ 114 ∷ 116 ∷ []

-- jesc
unfoldable pub jesc : Option ℕ → Bytes → Option Bytes
jesc dlen src = bs_stresc json_echars json_uchars dlen src
