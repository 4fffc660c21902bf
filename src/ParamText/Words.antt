-- ===== src/ParamText/Words.antt =====
-- Words written with backslashes in front of the delimiters, and read back.
use smrender.Base.{
  and_split, or_split, not-true, ℕ, ◌≡◌, refl, sym, ap, ◌∙◌, inl, inr, Bool, true, false, not, ◌&&◌,
  ◌||◌, none, some, [], ◌∷◌, ◌++◌, ◌==◌, if◌then◌else◌, ==_iff, Bool-cases, false-true, true-false,
}
use mathlib.Core.List.{append_assoc}
use smrender.Bstring.{Bytes}
use smrender.Length.{skip_spaces}
use smrender.ParamText.{
  has_char, strchr, is_sep, next_char, is_escaped, Stop, keep, stop_at, Mode, scan, is_space,
  trunc_end, strtrunc, token_of, parse_token, parse_string,
}

-- A character as it is written: a delimiter behind a backslash, a newline as \n.
unfoldable pub escape_char : Bytes → ℕ → Bytes
escape_char delim c =
    if has_char delim c then 92 ∷ c ∷ [] else if c == 10 then 92 ∷ 110 ∷ [] else c ∷ []

unfoldable pub escape : Bytes → Bytes → Bytes
escape delim [] = []
escape delim (c ∷ s) = escape_char delim c ++ escape delim s

-- A word has no backslash, no space at its ends and no quote in front.
unfoldable pub no_backslash : Bytes → Bool
no_backslash [] = true
no_backslash (c ∷ s) = not (c == 92) && no_backslash s

unfoldable pub ends_in_space : Bytes → Bool
ends_in_space [] = false
ends_in_space (c ∷ []) = is_space c
ends_in_space (c ∷ d ∷ s) = ends_in_space (d ∷ s)

unfoldable pub is_word : Bytes → Bool
is_word [] = false
is_word (c ∷ s) =
    not (is_space c || has_char (39 ∷ 34 ∷ []) c)
    && (no_backslash (c ∷ s) && not (ends_in_space (c ∷ s)))

-- Delimiters for which the escapes are not ambiguous.
pub record IsDelim (delim : Bytes) : Type 0 where
  pub backslash : has_char delim 92 ≡ false
  pub letter_n : has_char delim 110 ≡ false

trunc_end_same : (s : Bytes) → ends_in_space s ≡ false → trunc_end s ≡ s
unfolding trunc_end ends_in_space
trunc_end_same [] e = refl
trunc_end_same (c ∷ []) e = rw e refl
trunc_end_same (c ∷ d ∷ s) e = rw (trunc_end_same (d ∷ s) e) refl

pub strtrunc_same : (s : Bytes) → ends_in_space s ≡ false → strtrunc s ≡ s
unfolding strtrunc ends_in_space
strtrunc_same [] e = refl
strtrunc_same (c ∷ []) e = ap (λ t. c ∷ t) (trunc_end_same [] refl)
strtrunc_same (c ∷ d ∷ s) e = ap (λ t. c ∷ t) (trunc_end_same (d ∷ s) e)

delim_differs :
    (delim : Bytes) (c d : ℕ)
    → has_char delim c ≡ true
    → has_char delim d ≡ false
    → (c == d) ≡ false
delim_differs delim c d hc hd = elim (Bool-cases (c == d)) [
  | inl e ↦ absurd (true-false (sym hc ∙ ap (has_char delim) ((==_iff c d).0 e) ∙ hd))
  | inr e ↦ e
]

n_is_escaped : has_char (110 ∷ 92 ∷ []) 110 ≡ true
unfolding has_char
n_is_escaped = refl

backslash_is_no_quote : has_char (39 ∷ 34 ∷ []) 92 ≡ false
unfolding has_char
backslash_is_no_quote = refl

-- The loop of parse_string takes the backslashes away.
pub scan-escape_char :
    (delim : Bytes) (c : ℕ) (text : Bytes)
    → IsDelim delim
    → (c == 92) ≡ false
    → scan delim none Mode.look (escape_char delim c ++ text)
      ≡ keep c (scan delim none Mode.look text)
unfolding scan escape_char is_escaped strchr next_char is_sep
scan-escape_char delim c text ok nb = elim (Bool-cases (has_char delim c)) [
  | inl e ↦
      let n : (c == 110) ≡ false = delim_differs delim c 110 e ok.letter_n in
      rw e (rw (ok.backslash, e, nb, n) refl)
  | inr e ↦ elim (Bool-cases (c == 10)) [
    | inl nl ↦
        let eq : c ≡ 10 = (==_iff c 10).0 nl in
        rw (e, nl) (rw (ok.backslash, ok.letter_n, eq, n_is_escaped) refl)
    | inr nl ↦ rw (e, nl) (rw (e, nb) refl)
  ]
]

pub scan-escape :
    (delim s : Bytes) (c : ℕ) (rest : Bytes)
    → IsDelim delim
    → no_backslash s ≡ true
    → has_char delim c ≡ true
    → scan delim none Mode.look (escape delim s ++ c ∷ rest)
      ≡ record { chars = s; stop = Stop.at_char c rest }
unfolding escape no_backslash keep
scan-escape delim [] c rest ok nb hc = unfold scan stop_at in rw hc refl
scan-escape delim (x ∷ s) c rest ok nb hc =
    let (front, others) = and_split (not (x == 92)) (no_backslash s) nb in
    ap (scan delim none Mode.look) (append_assoc (escape_char delim x) (escape delim s) (c ∷ rest))
    ∙ scan-escape_char delim x (escape delim s ++ c ∷ rest) ok (not-true (x == 92) front)
    ∙ ap (keep x) (scan-escape delim s c rest ok others hc)

-- No space is skipped in front of a word that is written, and it does not start with a quote.
pub escape_head :
    (delim : Bytes) (x : ℕ) (s text : Bytes)
    → IsDelim delim
    → is_space x ≡ false
    → has_char (39 ∷ 34 ∷ []) x ≡ false
    → parse_token delim (skip_spaces (escape delim (x ∷ s) ++ text))
      ≡ some (token_of delim (scan delim none Mode.look (escape delim (x ∷ s) ++ text)))
unfolding escape escape_char parse_token skip_spaces is_space
escape_head delim x s text ok sp quote = elim (Bool-cases (has_char delim x)) [
  | inl e ↦ rw e (rw backslash_is_no_quote refl)
  | inr e ↦ elim (Bool-cases (x == 10)) [
    | inl nl ↦ rw (e, nl) (rw backslash_is_no_quote refl)
    | inr nl ↦ rw (e, nl) (rw (sp, quote) refl)
  ]
]

-- A word that is written, with a delimiter behind it, is the token that parse_string returns.
pub parse_string-escape :
    (delim s : Bytes) (c : ℕ) (rest : Bytes)
    → IsDelim delim
    → is_word s ≡ true
    → has_char delim c ≡ true
    → parse_string delim (escape delim s ++ c ∷ rest)
      ≡ some (record { str = s; nextchar = some c; src = rest })
unfolding parse_string is_word
parse_string-escape delim [] c rest ok word hc = absurd (false-true word)
parse_string-escape delim (x ∷ s) c rest ok word hc =
    let (head, tail) = and_split (not (is_space x || has_char (39 ∷ 34 ∷ []) x)) _ word in
    let (nb, trimmed) = and_split (no_backslash (x ∷ s)) (not (ends_in_space (x ∷ s))) tail in
    let (sp, quote) = or_split (is_space x) (has_char (39 ∷ 34 ∷ []) x) (not-true _ head) in
    escape_head delim x s (c ∷ rest) ok sp quote
    ∙ ap (λ sc. some (token_of delim sc)) (scan-escape delim (x ∷ s) c rest ok nb hc)
    ∙ (unfold token_of in
        rw hc (
          ap (λ t. some (record { str = t; nextchar = some c; src = rest }))
            (strtrunc_same (x ∷ s) (not-true (ends_in_space (x ∷ s)) trimmed))))
