-- ===== src/Json/Read.antt =====
-- What is written by jesc is read back.
use smrender.Base.{
  ℕ, ◌+◌, ◌-◌, ◌*◌, ◌≡◌, refl, ap, ◌∙◌, Bool, true, false, not, ◌&&◌, ◌||◌, Option, none, some, [],
  ◌∷◌, ◌++◌, arith, ltb, leb, ◌==◌, if◌then◌else◌, ==_iff, length, get_or, false-true, ◌>>=◌,
}
use smrender.Base.{and_split, not-true}
use smrender.Base.Tables.{every_from, every_from-at}
use smrender.Bstring.{Bytes}
use mathlib.Core.List.{append_assoc}
use smrender.Json.{strpos, esc_char, bs_stresc, json_echars, json_uchars, jesc}
use smrender.Json.Escaped.{escaped, escaped-length, esc_loop-escaped}

-- JSON's characters behind a backslash, but \u.
unfoldable pub unescape : ℕ → Option ℕ
unescape c =
    if c == 34
    then some 34
    else if c == 92
    then some 92
    else if c == 47
    then some 47
    else if c == 98
    then some 8
    else if c == 102
    then some 12
    else if c == 110
    then some 10
    else if c == 114
    then some 13
    else if c == 116
    then some 9
    else none

-- A reader of a JSON string up to its quotation mark: the characters, and what is behind it. A control
-- character is an error; `true` is behind a backslash.
unfoldable pub read_json : Bool → Bytes → Option (Bytes × Bytes)
read_json escape [] = none
read_json false (c ∷ t) =
    let rest = read_json (c == 92) t in
    if c == 34
    then some ([], t)
    else if c == 92
    then rest
    else if ltb c 32
    then none
    else (rest >>= λ r. some (c ∷ r.0, r.1))
read_json true (c ∷ t) =
    let rest = read_json false t in unescape c >>= λ x. rest >>= λ r. some (x ∷ r.0, r.1)

-- A character that a JSON string can hold, escaped or not, without \u: no control character but
-- \b, \t, \n, \f and \r.
unfoldable pub is_text : ℕ → Bool
is_text c = ltb c 256 && (leb 32 c || (c == 8 || (c == 9 || (c == 10 || (c == 12 || c == 13)))))

unfoldable pub are_chars : Bytes → Bool
are_chars [] = true
are_chars (c ∷ src) = is_text c && are_chars src

is_char : ℕ → Option ℕ → Bool
is_char c none = false
is_char c (some x) = x == c

-- A character that is not replaced is read as it is, and a replacement stands for the character.
char_test : ℕ → Option ℕ → Bool
char_test c none = not (c == 34) && (not (c == 92) && not (ltb c 32))
char_test c (some n) = is_char c (unescape (get_or json_uchars n 0))

byte_test : ℕ → Bool
byte_test c = not (is_text c) || char_test c (strpos json_echars c)

bytes : every_from 256 0 byte_test ≡ true
unfolding every_from byte_test char_test is_char is_text unescape strpos
bytes = refl

is_char-some : (c : ℕ) (o : Option ℕ) → is_char c o ≡ true → o ≡ some c
unfolding is_char
is_char-some c none e = absurd (false-true e)
is_char-some c (some x) e = ap some ((==_iff x c).0 e)

text_small : (c : ℕ) → is_text c ≡ true → ltb c 256 ≡ true
unfolding is_text
text_small c ok = (and_split (ltb c 256) _ ok).0

text_test : (c : ℕ) → is_text c ≡ true → char_test c (strpos json_echars c) ≡ true
unfolding byte_test
text_test c ok =
    let small = text_small c ok in
    let test : byte_test c ≡ true =
      every_from-at 256 0 c byte_test bytes (ground arith) (ground arith) in
    rw ok at test

read_char :
    (c : ℕ) (t : Bytes) (o : Option ℕ)
    → char_test c o ≡ true
    → read_json false (esc_char json_uchars c o ++ t)
      ≡ (read_json false t >>= λ r. some (c ∷ r.0, r.1))
unfolding char_test esc_char read_json
read_char c t none ok =
    let (quote, others) = and_split (not (c == 34)) _ ok in
    let (backslash, control) = and_split (not (c == 92)) _ others in
    rw (not-true (c == 34) quote, not-true (c == 92) backslash, not-true (ltb c 32) control) refl
read_char c t (some n) ok =
    let char = is_char-some c (unescape (get_or json_uchars n 0)) ok in rw char refl

read_json-escaped :
    (src rest : Bytes)
    → are_chars src ≡ true
    → read_json false (escaped json_echars json_uchars src ++ 34 ∷ rest) ≡ some (src, rest)
unfolding escaped are_chars
read_json-escaped [] rest ok = unfold read_json in refl
read_json-escaped (c ∷ src) rest ok =
    let (here, others) = and_split (is_text c) (are_chars src) ok in
    let all = escaped json_echars json_uchars src in
    ap (read_json false)
      (append_assoc (esc_char json_uchars c (strpos json_echars c)) all (34 ∷ rest))
    ∙ read_char c (all ++ 34 ∷ rest) (strpos json_echars c) (text_test c here)
    ∙ rw (read_json-escaped src rest others) refl

-- jesc without a buffer gives a length, and with a buffer of that length and one byte more, or with
-- `n` bytes more than that, it writes as many characters. From these, with a quotation mark behind
-- them, a reader of JSON strings, which ends at the first quotation mark that has no backslash and
-- rejects control characters, reads the source and leaves what is behind the mark. The source has no
-- control character but \b, \t, \n, \f and \r.
pub read_json-jesc :
    (src rest : Bytes) (n : ℕ)
    → are_chars src ≡ true
    → (sized out : Bytes) × (jesc none src ≡ some sized)
      × (jesc (some (length sized + 1 + n)) src ≡ some out)
      × (length out ≡ length sized)
      × (read_json false (out ++ 34 ∷ rest) ≡ some (src, rest))
unfolding jesc bs_stresc
read_json-jesc src rest n ok =
    let all = escaped json_echars json_uchars src in
    let (low, high) = escaped-length json_echars json_uchars src in
    (
      all,
      all,
      esc_loop-escaped json_echars json_uchars src (length src * 2) high,
      esc_loop-escaped json_echars json_uchars src (length all + 1 + n - 1) (omega arith),
      refl,
      read_json-escaped src rest ok,
    )
