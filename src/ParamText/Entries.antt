-- ===== src/ParamText/Entries.antt =====
-- Lists of parameters written as text, and what parse_fparam makes of them.
use smrender.Base.{
  and_split, ℕ, zero, suc, ◌+◌, ◌-◌, ◌≤◌, ◌≡◌, refl, sym, ap, ◌∙◌, true, none, some, List, [], ◌∷◌,
  ◌++◌, map, arith, length, length-append,
}
use mathlib.Core.List.{append_assoc, append-nil}
use smrender.Bstring.{Bytes}
use smrender.Length.{skip_spaces}
use smrender.ParamText.{
  Token, parse_token, parse_string, Number, Val, Entry, Parsed, add_entry, number_of, value_of,
  switch_char, fparam_loop, parse_fparam,
}
use smrender.ParamText.Words.{escape, is_word, parse_string-escape}
use smrender.ParamText.Written.{
  Param, print_value, print_param, print_params, value_is_word, are_words, attr-IsDelim,
  value-IsDelim, delims_found,
}

module _ {D : Type 0} (strtod : Bytes → Number D) where
  -- The entry of a parameter: what strtod makes of the value, or no value.
  unfoldable pub entry_of : Param → Entry D
  entry_of (attr, none) = record { attr = attr; val = Val.null }
  entry_of (attr, some v) = record { attr = attr; val = number_of strtod v }

  unfoldable pub add_all : List Param → Parsed D → Parsed D
  add_all [] parsed = parsed
  add_all (p ∷ ps) parsed = add_entry (entry_of p) (add_all ps parsed)

  -- A round of the loop for a token.
  pub fparam_loop_token :
      (fuel : ℕ) (parm : Bytes) (t : Token)
      → parse_string (61 ∷ 59 ∷ []) parm ≡ some t
      → fparam_loop strtod (suc fuel) (some parm)
        ≡ add_entry
            (record { attr = t.str; val = (switch_char strtod t).0 })
            (fparam_loop strtod fuel (switch_char strtod t).1)
  unfolding fparam_loop add_entry
  fparam_loop_token fuel parm t found = rw (found, fparam_loop) refl

  pub fparam_loop_no_token :
      (fuel : ℕ) (parm : Bytes)
      → parse_string (61 ∷ 59 ∷ []) parm ≡ none
      → fparam_loop strtod (suc fuel) (some parm) ≡ Parsed.entries []
  unfolding fparam_loop
  fparam_loop_no_token fuel parm end = rw (end, fparam_loop) refl

  switch_char-semicolon :
      (attr text : Bytes)
      → switch_char strtod (record { str = attr; nextchar = some 59; src = text })
        ≡ (Val.null, some text)
  unfolding switch_char
  switch_char-semicolon attr text = refl

  switch_char-equals :
      (attr v text : Bytes)
      → is_word v ≡ true
      → switch_char strtod
          (record { str = attr; nextchar = some 61; src = escape (59 ∷ []) v ++ 59 ∷ text })
        ≡ (number_of strtod v, some text)
  unfolding switch_char value_of
  switch_char-equals attr v text word =
      let (eq, semi, semi_only) = delims_found in
      ap (value_of strtod) (parse_string-escape (59 ∷ []) v 59 text value-IsDelim word semi_only)

  -- One parameter in front of some text is one round of the loop.
  fparam_loop-print_param :
      (fuel : ℕ) (p : Param) (text : Bytes)
      → is_word p.0 ≡ true
      → value_is_word p.1 ≡ true
      → fparam_loop strtod (suc fuel) (some (print_param p ++ text))
        ≡ add_entry (entry_of p) (fparam_loop strtod fuel (some text))
  unfolding print_param print_value value_is_word entry_of
  fparam_loop-print_param fuel (attr, none) text ha hv =
      let (eq, semi, semi_only) = delims_found in
      rw (append_assoc (escape (61 ∷ 59 ∷ []) attr) (59 ∷ []) text) (
        fparam_loop_token fuel _ _
          (parse_string-escape (61 ∷ 59 ∷ []) attr 59 text attr-IsDelim ha semi)
        ∙ rw (switch_char-semicolon attr text) refl)
  fparam_loop-print_param fuel (attr, some v) text ha hv =
      let (eq, semi, semi_only) = delims_found in
      let value = escape (59 ∷ []) v in
      rw
        (
          append_assoc (escape (61 ∷ 59 ∷ []) attr) (61 ∷ (value ++ (59 ∷ []))) text,
          append_assoc value (59 ∷ []) text,
        )
        (fparam_loop_token fuel _ _
            (parse_string-escape (61 ∷ 59 ∷ []) attr 61 (value ++ 59 ∷ text) attr-IsDelim ha eq)
          ∙ rw (switch_char-equals attr v text hv) refl)

  fparam_loop-print_params :
      (fuel : ℕ) (ps : List Param) (text : Bytes)
      → are_words ps ≡ true
      → fparam_loop strtod (length ps + fuel) (some (print_params ps ++ text))
        ≡ add_all ps (fparam_loop strtod fuel (some text))
  unfolding print_params are_words add_all
  fparam_loop-print_params fuel [] text words =
      let same : 0 + fuel ≡ fuel = omega arith in ap (λ f. fparam_loop strtod f (some text)) same
  fparam_loop-print_params fuel (p ∷ ps) text words =
      let (here, others) = and_split _ (are_words ps) words in
      let (ha, hv) = and_split (is_word p.0) (value_is_word p.1) here in
      let next : suc (length ps) + fuel ≡ suc (length ps + fuel) = omega arith in
      rw (next, append_assoc (print_param p) (print_params ps) text)
        (fparam_loop-print_param (length ps + fuel) p (print_params ps ++ text) ha hv
          ∙ ap (add_entry (entry_of p)) (fparam_loop-print_params fuel ps text others))

  params_length : (ps : List Param) → length ps ≤ length (print_params ps)
  unfolding print_params print_param print_value
  params_length [] = omega arith
  params_length ((attr, none) ∷ ps) = omega (
    arith,
    params_length ps,
    length-append (escape (61 ∷ 59 ∷ []) attr ++ (59 ∷ [])) (print_params ps),
    length-append (escape (61 ∷ 59 ∷ []) attr) (59 ∷ []),
  )
  params_length ((attr, some v) ∷ ps) =
      let value = 61 ∷ (escape (59 ∷ []) v ++ (59 ∷ [])) in
      omega (
        arith,
        params_length ps,
        length-append (escape (61 ∷ 59 ∷ []) attr ++ value) (print_params ps),
        length-append (escape (61 ∷ 59 ∷ []) attr) value,
      )

  -- parse_fparam on written parameters with some text behind them is its loop on the text.
  parse_fparam-front :
      (ps : List Param) (text : Bytes)
      → are_words ps ≡ true
      → (k : ℕ) × (length text ≤ k)
        × (parse_fparam strtod (print_params ps ++ text)
            ≡ add_all ps (fparam_loop strtod (k + 1) (some text)))
  unfolding parse_fparam
  parse_fparam-front ps text words =
      let len = length-append (print_params ps) text in
      let enough = params_length ps in
      let k = length (print_params ps ++ text) - length ps in
      let split : length (print_params ps ++ text) + 1 ≡ length ps + (k + 1) = omega arith in
      (k, omega arith, rw split (fparam_loop-print_params (k + 1) ps text words))

  add_all-entries :
      (ps : List Param) → add_all ps (Parsed.entries []) ≡ Parsed.entries (map entry_of ps)
  unfolding add_all add_entry
  add_all-entries [] = refl
  add_all-entries (p ∷ ps) = ap (add_entry (entry_of p)) (add_all-entries ps)

  add_all-null : (ps : List Param) → add_all ps Parsed.null_pointer ≡ Parsed.null_pointer
  unfolding add_all add_entry
  add_all-null [] = refl
  add_all-null (p ∷ ps) = ap (add_entry (entry_of p)) (add_all-null ps)

  loop_end : (k : ℕ) → fparam_loop strtod (k + 1) (some []) ≡ Parsed.entries []
  unfolding fparam_loop parse_string parse_token skip_spaces
  loop_end k = let next : k + 1 ≡ suc k = omega arith in rw next refl

  loop_null : (k : ℕ) → fparam_loop strtod k none ≡ Parsed.null_pointer
  unfolding fparam_loop
  loop_null zero = refl
  loop_null (suc k) = refl

  switch_char_no_value :
      (attr spaces : Bytes)
      → skip_spaces spaces ≡ []
      → switch_char strtod (record { str = attr; nextchar = some 61; src = spaces })
        ≡ (Val.null, none)
  unfolding switch_char parse_string value_of parse_token
  switch_char_no_value attr spaces blank = rw blank refl

  -- A list of parameters that is written as attr=value; or attr; with a backslash in front of each
  -- delimiter and newlines as \n is read back by parse_fparam, the numbers of the values included.
  -- The attributes and values are not empty, have no backslash, no space in front and behind, and no
  -- quote in front.
  pub parse_fparam-print_params :
      (ps : List Param)
      → are_words ps ≡ true
      → parse_fparam strtod (print_params ps) ≡ Parsed.entries (map entry_of ps)
  parse_fparam-print_params ps words =
      let (k, enough, front) = parse_fparam-front ps [] words in
      ap (parse_fparam strtod) (sym (append-nil (print_params ps)))
      ∙ front
      ∙ ap (add_all ps) (loop_end k)
      ∙ add_all-entries ps

  -- If nothing but spaces stands behind the '=' of the last of the parameters, parse_fparam reads the
  -- NULL pointer, whatever parameters stand before it.
  pub parse_fparam_no_value :
      (ps : List Param) (attr spaces : Bytes)
      → are_words ps ≡ true
      → is_word attr ≡ true
      → skip_spaces spaces ≡ []
      → parse_fparam strtod (print_params ps ++ (escape (61 ∷ 59 ∷ []) attr ++ 61 ∷ spaces))
        ≡ Parsed.null_pointer
  parse_fparam_no_value ps attr spaces words word blank =
      let text = escape (61 ∷ 59 ∷ []) attr ++ 61 ∷ spaces in
      let (k, enough, front) = parse_fparam-front ps text words in
      let next : k + 1 ≡ suc k = omega arith in
      let (eq, semi, semi_only) = delims_found in
      let last : fparam_loop strtod (k + 1) (some text) ≡ Parsed.null_pointer = rw next (
        fparam_loop_token k text _
          (parse_string-escape (61 ∷ 59 ∷ []) attr 61 spaces attr-IsDelim word eq)
        ∙ rw (switch_char_no_value attr spaces blank, loop_null k) (unfold add_entry in refl)) in
      front ∙ ap (add_all ps) last ∙ add_all-null ps
