-- ===== src/ParamText/Backslash.antt =====
-- What stands behind an escaped backslash.
use smrender.Base.{
  and_split, or_split, not-true, ℕ, ◌≡◌, refl, ap, ◌∙◌, true, false, not, ◌||◌, none, some, [], ◌∷◌,
  ◌++◌, ◌==◌, false-true,
}
use mathlib.Core.List.{append_assoc}
use smrender.Bstring.{Bytes}
use smrender.ParamText.{
  has_char, strchr, is_sep, next_char, is_escaped, keep, Mode, scan, is_space, token_of,
  parse_string,
}
use smrender.ParamText.Words.{
  IsDelim, escape, escape_char, no_backslash, ends_in_space, is_word, scan-escape_char, scan-escape,
  escape_head, strtrunc_same,
}

backslash_is_escaped : has_char (110 ∷ 92 ∷ []) 92 ≡ true
unfolding has_char
backslash_is_escaped = refl

scan_two_backslashes :
    (delim : Bytes) (c : ℕ) (rest : Bytes)
    → IsDelim delim
    → scan delim none Mode.look (92 ∷ 92 ∷ c ∷ rest)
      ≡ keep 92 (keep c (scan delim none Mode.look rest))
unfolding scan is_escaped strchr next_char is_sep
scan_two_backslashes delim c rest ok = rw (ok.backslash, backslash_is_escaped) refl

-- The loop takes the character behind an escaped backslash as it is.
scan_escaped_backslash :
    (delim s : Bytes) (c : ℕ) (rest : Bytes)
    → IsDelim delim
    → no_backslash s ≡ true
    → scan delim none Mode.look (escape delim s ++ 92 ∷ 92 ∷ c ∷ rest) ≡ record {
      chars = s ++ 92 ∷ c ∷ (scan delim none Mode.look rest).chars;
      stop = (scan delim none Mode.look rest).stop;
    }
unfolding escape no_backslash keep
scan_escaped_backslash delim [] c rest ok nb = scan_two_backslashes delim c rest ok
scan_escaped_backslash delim (x ∷ s) c rest ok nb =
    let (front, others) = and_split (not (x == 92)) (no_backslash s) nb in
    ap (scan delim none Mode.look)
      (append_assoc (escape_char delim x) (escape delim s) (92 ∷ 92 ∷ c ∷ rest))
    ∙ scan-escape_char delim x (escape delim s ++ 92 ∷ 92 ∷ c ∷ rest) ok (not-true (x == 92) front)
    ∙ ap (keep x) (scan_escaped_backslash delim s c rest ok others)

ends_in_space-append :
    (s : Bytes) (x : ℕ) (u : Bytes) → ends_in_space (s ++ x ∷ u) ≡ ends_in_space (x ∷ u)
unfolding ends_in_space
ends_in_space-append [] x u = refl
ends_in_space-append (y ∷ []) x u = refl
ends_in_space-append (y ∷ z ∷ s) x u = ends_in_space-append (z ∷ s) x u

-- A delimiter behind an escaped backslash does not end the string: it and what stands behind it, up to
-- the next delimiter, become a part of the string.
pub parse_string_escaped_backslash :
    (delim s u : Bytes) (c : ℕ) (rest : Bytes)
    → IsDelim delim
    → is_word s ≡ true
    → is_word u ≡ true
    → has_char delim c ≡ true
    → parse_string delim (escape delim s ++ 92 ∷ 92 ∷ c ∷ (escape delim u ++ c ∷ rest))
      ≡ some (record { str = s ++ 92 ∷ c ∷ u; nextchar = some c; src = rest })
unfolding parse_string is_word
parse_string_escaped_backslash delim [] u c rest ok word word_u hc = absurd (false-true word)
parse_string_escaped_backslash delim (x ∷ s) [] c rest ok word word_u hc =
    absurd (false-true word_u)
parse_string_escaped_backslash delim (x ∷ s) (y ∷ u) c rest ok word word_u hc =
    let (head, tail) = and_split (not (is_space x || has_char (39 ∷ 34 ∷ []) x)) _ word in
    let (nb, trimmed) = and_split (no_backslash (x ∷ s)) (not (ends_in_space (x ∷ s))) tail in
    let (sp, quote) = or_split (is_space x) (has_char (39 ∷ 34 ∷ []) x) (not-true _ head) in
    let (head_u, tail_u) = and_split (not (is_space y || has_char (39 ∷ 34 ∷ []) y)) _ word_u in
    let (nb_u, trimmed_u) = and_split (no_backslash (y ∷ u)) (not (ends_in_space (y ∷ u))) tail_u in
    let all = x ∷ s ++ 92 ∷ c ∷ (y ∷ u) in
    let end : ends_in_space all ≡ false =
      ends_in_space-append (x ∷ s) 92 (c ∷ y ∷ u)
      ∙ ends_in_space-append (92 ∷ c ∷ []) y u
      ∙ not-true (ends_in_space (y ∷ u)) trimmed_u in
    let second = scan-escape delim (y ∷ u) c rest ok nb_u hc in
    escape_head delim x s _ ok sp quote
    ∙ ap (λ sc. some (token_of delim sc))
        (scan_escaped_backslash delim (x ∷ s) c (escape delim (y ∷ u) ++ c ∷ rest) ok nb
          ∙ ap (λ sc. record { chars = x ∷ s ++ 92 ∷ c ∷ sc.chars; stop = sc.stop }) second)
    ∙ (unfold token_of in
        rw hc (
          ap (λ t. some (record { str = t; nextchar = some c; src = rest }))
            (strtrunc_same all end)))
