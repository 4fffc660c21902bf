-- ===== src/ParamText.antt =====
-- The parameters of a rule as text, src/smrparse.c: `parse_string` and `parse_fparam`. A text ends
-- before its NUL; what the code writes into the text becomes the token.
pub mod Words
pub mod Written
pub mod Entries
pub mod Ends
pub mod Backslash
use smrender.Base.{
  ℕ, zero, suc, ◌+◌, Bool, true, false, ◌&&◌, ◌||◌, Option, none, some, List, [], ◌∷◌, leb, ◌==◌,
  if◌then◌else◌, length,
}
use smrender.Bstring.{Bytes}
use smrender.Length.{skip_spaces}

-- strchr(s, c) != NULL for a character, and for one that may be the NUL, which strchr finds, too
unfoldable pub has_char : Bytes → ℕ → Bool
has_char [] c = false
has_char (x ∷ s) c = let rest = has_char s c in x == c || rest

unfoldable pub strchr : Bytes → Option ℕ → Bool
strchr s none = true
strchr s (some c) = has_char s c

-- *sep == c; none is the separator "".
unfoldable pub is_sep : Option ℕ → Option ℕ → Bool
is_sep none c = false
is_sep (some q) none = false
is_sep (some q) (some c) = c == q

unfoldable pub next_char : Bytes → Option ℕ
next_char [] = none
next_char (c ∷ text) = some c

-- The test for an escaped character behind a backslash: "n\\" are 110 and 92.
unfoldable pub is_escaped : Bytes → Option ℕ → Option ℕ → Bool
is_escaped delim sep next = strchr delim next || strchr (110 ∷ 92 ∷ []) next || is_sep sep next

-- Where the loop of parse_string stops: at the NUL, on the NUL that memmove() has left behind it, or
-- at a character, in front of the rest.
pub data Stop : Type 0 where
  at_nul : Stop
  behind_nul : Stop
  at_char : ℕ → Bytes → Stop

-- The characters of the token, and the stop.
pub record Scanned : Type 0 where
  pub chars : Bytes
  pub stop : Stop

unfoldable pub keep : ℕ → Scanned → Scanned
keep c sc = record { chars = c ∷ sc.chars; stop = sc.stop }

unfoldable pub stop_at : Stop → Scanned
stop_at s = record { chars = []; stop = s }

-- How the loop treats the next character: it is looked at, it is what an escape is moved onto, or it
-- is behind an escaped backslash, where *src is moved twice, and is taken as it is.
pub data Mode : Type 0 where
  look unescape skip : Mode

-- for (s = *src; ...; (*src)++)
unfoldable pub scan : Bytes → Option ℕ → Mode → Bytes → Scanned
scan delim sep Mode.look [] = stop_at Stop.at_nul
scan delim sep Mode.unescape [] = stop_at Stop.behind_nul
scan delim sep Mode.skip [] = stop_at Stop.behind_nul
scan delim sep Mode.look (c ∷ text) =
    let esc = c == 92 && is_escaped delim sep (next_char text) in
    let rest = scan delim sep (if esc then Mode.unescape else Mode.look) text in
    if has_char delim c || is_sep sep (some c)
    then stop_at (Stop.at_char c text)
    else if esc
    then rest
    else keep c rest
scan delim sep Mode.unescape (c ∷ text) =
    let rest = scan delim sep (if c == 92 then Mode.skip else Mode.look) text in
    keep (if c == 110 then 10 else c) rest
scan delim sep Mode.skip (c ∷ text) = keep c (scan delim sep Mode.look text)

-- isspace(c), in the C locale
unfoldable pub is_space : ℕ → Bool
is_space c = c == 32 || (leb 9 c && leb c 13)

-- The characters behind the first one, without the spaces at the end.
unfoldable pub trunc_end : Bytes → Bytes
trunc_end [] = []
trunc_end (c ∷ s) = elim (trunc_end s) [
  | [] ↦ if is_space c then [] else c ∷ []
  | d ∷ t ↦ c ∷ (d ∷ t)
]

-- strtrunc keeps the first character.
unfoldable pub strtrunc : Bytes → Bytes
strtrunc [] = []
strtrunc (c ∷ s) = c ∷ trunc_end s

-- The string that parse_string returns, *nextchar (none is the NUL) and the text at *src.
pub record Token : Type 0 where
  pub str : Bytes
  pub nextchar : Option ℕ
  pub src : Bytes

-- if (!**src) ... else if (strchr(delim, **src) != NULL) ... else if (*sep == **src); the loop stops
-- for no other reason.
unfoldable pub token_of : Bytes → Scanned → Token
token_of delim sc = elim sc.stop [
  | Stop.at_nul ↦ record { str = strtrunc sc.chars; nextchar = none; src = [] }
  | Stop.behind_nul ↦ record { str = sc.chars; nextchar = none; src = [] }
  | Stop.at_char c rest ↦ record {
    str = if has_char delim c then strtrunc sc.chars else sc.chars;
    nextchar = some c;
    src = rest;
  }
]

-- parse_string on the text behind its leading spaces: the quotes are 39 and 34.
unfoldable pub parse_token : Bytes → Bytes → Option Token
parse_token delim [] = none
parse_token delim (c ∷ text) =
    if has_char (39 ∷ 34 ∷ []) c
    then some (token_of delim (scan delim (some c) Mode.look text))
    else some (token_of delim (scan delim none Mode.look (c ∷ text)))

-- parse_string; none is NULL, and *src is NULL then.
unfoldable pub parse_string : Bytes → Bytes → Option Token
parse_string delim src = parse_token delim (skip_spaces src)

-- strtod(): the value, the number of characters that it takes and errno
pub record Number (D : Type 0) : Type 0 where
  pub value : D
  pub taken : ℕ
  pub errno : ℕ

-- val and what is made of it; it is not set where `switch (c)` has no case for the character.
pub data Val (D : Type 0) : Type 0 where
  null : Val D
  text : Bytes → D → ℕ → Val D
  not_set : Val D

-- fparam_t as parse_fparam fills it
pub record Entry (D : Type 0) : Type 0 where
  pub attr : Bytes
  pub val : Val D

-- The list that parse_fparam returns, the NULL pointer that skipb() reads, or no fuel.
pub data Parsed (D : Type 0) : Type 0 where
  entries : List (Entry D) → Parsed D
  null_pointer : Parsed D
  no_fuel : Parsed D

unfoldable pub add_entry : {D : Type 0} → Entry D → Parsed D → Parsed D
add_entry e (Parsed.entries l) = Parsed.entries (e ∷ l)
add_entry e Parsed.null_pointer = Parsed.null_pointer
add_entry e Parsed.no_fuel = Parsed.no_fuel

module _ {D : Type 0} (strtod : Bytes → Number D) where
  -- conv_error: EDOM is 33.
  unfoldable pub number_of : Bytes → Val D
  number_of s = let n = strtod s in Val.text s n.value (if n.taken == 0 then 33 else n.errno)

  -- val and the pointer `parm` behind case '='
  unfoldable pub value_of : Option Token → Val D × Option Bytes
  value_of none = (Val.null, none)
  value_of (some t) = (number_of t.str, some t.src)

  -- switch (c): the value and `parm`; '=' is 61 and ';' is 59.
  unfoldable pub switch_char : Token → Val D × Option Bytes
  switch_char t = elim t.nextchar [
    | none ↦ (Val.not_set, some t.src)
    | some c ↦
        if c == 59
        then (Val.null, some t.src)
        else if c == 61
        then value_of (parse_string (59 ∷ []) t.src)
        else (Val.not_set, some t.src)
  ]

  -- The loop of parse_fparam, on fuel; `parm` is none for NULL.
  unfoldable pub fparam_loop : ℕ → Option Bytes → Parsed D
  fparam_loop fuel none = Parsed.null_pointer
  fparam_loop zero (some parm) = Parsed.no_fuel
  fparam_loop (suc fuel) (some parm) = elim (parse_string (61 ∷ 59 ∷ []) parm) [
    | none ↦ Parsed.entries []
    | some t ↦
        let (val, next) = switch_char t in
        add_entry (record { attr = t.str; val = val }) (fparam_loop fuel next)
  ]

  -- parse_fparam; each round takes a character of the text.
  unfoldable pub parse_fparam : Bytes → Parsed D
  parse_fparam parm = fparam_loop (length parm + 1) (some parm)
