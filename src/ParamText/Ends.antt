-- ===== src/ParamText/Ends.antt =====
-- parse_fparam comes to an end.
use smrender.Base.{
  ℕ, zero, suc, ◌+◌, ◌-◌, ◌≤◌, ◌<◌, ◌≡◌, refl, sym, ◌∙◌, ◌≢◌, inl, inr, ◌&&◌, ◌||◌, Option, none,
  some, [], ◌∷◌, arith, leb, ◌==◌, if◌then◌else◌, Bool-cases, Option-cases, length, none-some,
  some_inj,
}
use smrender.Bstring.{Bytes}
use smrender.Length.{skip_spaces}
use smrender.ParamText.{
  has_char, is_sep, next_char, is_escaped, Stop, keep, stop_at, Mode, scan, Token, token_of,
  parse_token, parse_string, Number, Entry, Parsed, add_entry, value_of, switch_char, fparam_loop,
  parse_fparam,
}
use smrender.ParamText.Entries.{fparam_loop_token, fparam_loop_no_token}

skip_spaces-length : (s : Bytes) → length (skip_spaces s) ≤ length s
unfolding skip_spaces
skip_spaces-length [] = omega arith
skip_spaces-length (c ∷ s) =
    let ih = skip_spaces-length s in
    elim (Bool-cases (c == 32 || (leb 9 c && leb c 13))) [
      | inl e ↦ rw e (omega arith)
      | inr e ↦ rw e (omega arith)
    ]

-- The characters behind the one at which the loop stops.
rest_of : Stop → Bytes
rest_of Stop.at_nul = []
rest_of Stop.behind_nul = []
rest_of (Stop.at_char c rest) = rest

token_of-src :
    (delim chars : Bytes) (stop : Stop)
    → (token_of delim (record { chars = chars; stop = stop })).src ≡ rest_of stop
unfolding token_of rest_of
token_of-src delim chars Stop.at_nul = refl
token_of-src delim chars Stop.behind_nul = refl
token_of-src delim chars (Stop.at_char c rest) = refl

-- The loop leaves less than there was.
scan-rest :
    (delim : Bytes) (sep : Option ℕ) (mode : Mode) (text : Bytes)
    → length (rest_of (scan delim sep mode text).stop) ≤ length text - 1
unfolding scan keep stop_at rest_of
scan-rest delim sep Mode.look [] = omega arith
scan-rest delim sep Mode.unescape [] = omega arith
scan-rest delim sep Mode.skip [] = omega arith
scan-rest delim sep Mode.look (c ∷ text) =
    let esc = c == 92 && is_escaped delim sep (next_char text) in
    elim (Bool-cases (has_char delim c || is_sep sep (some c))) [
      | inl e ↦ rw e (omega arith)
      | inr e ↦ elim (Bool-cases esc) [
        | inl esc_e ↦ rw (e, esc_e) (let ih = scan-rest delim sep Mode.unescape text in omega arith)
        | inr esc_e ↦ rw (e, esc_e) (let ih = scan-rest delim sep Mode.look text in omega arith)
      ]
    ]
scan-rest delim sep Mode.unescape (c ∷ text) =
    let ih = scan-rest delim sep (if c == 92 then Mode.skip else Mode.look) text in omega arith
scan-rest delim sep Mode.skip (c ∷ text) =
    let ih = scan-rest delim sep Mode.look text in omega arith

-- A token that parse_string returns leaves less text.
token_shorter :
    (delim : Bytes) (sep : Option ℕ) (text : Bytes) (n : ℕ)
    → length text - 1 < n
    → length ((token_of delim (scan delim sep Mode.look text)).src) < n
token_shorter delim sep text n h =
    let sc = scan delim sep Mode.look text in
    let src = token_of-src delim sc.chars sc.stop in
    rw src (let le = scan-rest delim sep Mode.look text in omega arith)

parse_token_shorter :
    (delim text : Bytes) (t : Token) → parse_token delim text ≡ some t → length t.src < length text
unfolding parse_token
parse_token_shorter delim [] t e = absurd (none-some e)
parse_token_shorter delim (c ∷ text) t e = elim (Bool-cases (has_char (39 ∷ 34 ∷ []) c)) [
  | inl q ↦
      let found = some_inj (rw q at e) in
      rw (← found) (token_shorter delim (some c) text (suc (length text)) (omega arith))
  | inr q ↦
      let found = some_inj (rw q at e) in
      rw (← found) (token_shorter delim none (c ∷ text) (suc (length text)) (omega arith))
]

parse_string_shorter :
    (delim src : Bytes) (t : Token) → parse_string delim src ≡ some t → length t.src < length src
unfolding parse_string
parse_string_shorter delim src t e =
    omega (arith, parse_token_shorter delim (skip_spaces src) t e, skip_spaces-length src)

-- The length of the text that is left; a NULL pointer ends the loop.
left : Option Bytes → ℕ
left none = 0
left (some text) = length text

module _ {D : Type 0} (strtod : Bytes → Number D) where
  left-value_of :
      (text : Bytes) → left ((value_of strtod (parse_string (59 ∷ []) text)).1) ≤ length text
  unfolding value_of left
  left-value_of text = elim (Option-cases (parse_string (59 ∷ []) text)) [
    | inl e ↦ rw e (omega arith)
    | inr (t, e) ↦ rw e (let s = parse_string_shorter (59 ∷ []) text t e in omega arith)
  ]

  left-switch_char :
      (str : Bytes) (nextchar : Option ℕ) (src : Bytes)
      → left ((switch_char strtod (record { str = str; nextchar = nextchar; src = src })).1)
        ≤ length src
  unfolding switch_char left
  left-switch_char str none src = omega arith
  left-switch_char str (some c) src = elim (Bool-cases (c == 59)) [
    | inl e ↦ rw e (omega arith)
    | inr e ↦ elim (Bool-cases (c == 61)) [
      | inl q ↦ rw (e, q) (left-value_of src)
      | inr q ↦ rw (e, q) (omega arith)
    ]
  ]

  add_entry_ends :
      (e : Entry D) (p : Parsed D) → p ≢ Parsed.no_fuel → add_entry e p ≢ Parsed.no_fuel
  unfolding add_entry
  add_entry_ends e (Parsed.entries l) ne eq = ground arith
  add_entry_ends e Parsed.null_pointer ne eq = ground arith
  add_entry_ends e Parsed.no_fuel ne eq = ne eq

  fparam_loop_ends :
      (fuel : ℕ) (parm : Option Bytes)
      → left parm < fuel
      → fparam_loop strtod fuel parm ≢ Parsed.no_fuel
  unfolding left fparam_loop
  fparam_loop_ends zero none h eq = ground arith
  fparam_loop_ends (suc fuel) none h eq = ground arith
  fparam_loop_ends zero (some text) h eq = absurd (omega arith)
  fparam_loop_ends (suc fuel) (some text) h eq =
      elim (Option-cases (parse_string (61 ∷ 59 ∷ []) text)) [
        | inl e ↦
            let end : ◌≡◌ {A = Parsed D} (Parsed.entries []) Parsed.no_fuel =
              sym (fparam_loop_no_token strtod fuel text e) ∙ eq in
            ground arith
        | inr (t, e) ↦
            let shorter = parse_string_shorter (61 ∷ 59 ∷ []) text t e in
            let less = left-switch_char t.str t.nextchar t.src in
            let ends = fparam_loop_ends fuel (switch_char strtod t).1 (omega arith) in
            add_entry_ends _ _ ends (sym (fparam_loop_token strtod fuel text t e) ∙ eq)
      ]

  -- parse_fparam comes to an end for every text: it returns a list or reads the NULL pointer.
  pub parse_fparam_ends : (parm : Bytes) → parse_fparam strtod parm ≢ Parsed.no_fuel
  unfolding parse_fparam left
  parse_fparam_ends parm = fparam_loop_ends (length parm + 1) (some parm) (omega arith)
