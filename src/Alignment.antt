-- ===== src/Alignment.antt =====
-- The alignment of captions and images in src/smrparse.c, as flags POS_N, POS_S, POS_E and POS_W.
pub mod Opposite
use smrender.Base.{Bool, true, false, ◌||◌, Option, none, some, List, [], ◌∷◌, if◌then◌else◌}
use smrender.Bstring.{Bytes}
use smrender.Params.{Fparam, same_word, get_param}

-- The bits of `pos`.
pub record Alignment : Type 0 where
  pub pos_n : Bool
  pub pos_s : Bool
  pub pos_e : Bool
  pub pos_w : Bool

abbrev pub no_alignment : Alignment
no_alignment = record { pos_n = false; pos_s = false; pos_e = false; pos_w = false }

abbrev pub east : Alignment
east = record no_alignment { pos_e = true }

abbrev pub west : Alignment
west = record no_alignment { pos_w = true }

abbrev pub north : Alignment
north = record no_alignment { pos_n = true }

abbrev pub south : Alignment
south = record no_alignment { pos_s = true }

-- a | b
abbrev pub join : Alignment → Alignment → Alignment
join a b = record {
  pos_n = a.pos_n || b.pos_n;
  pos_s = a.pos_s || b.pos_s;
  pos_e = a.pos_e || b.pos_e;
  pos_w = a.pos_w || b.pos_w;
}

-- The strings "center" and "middle" and all unknown ones give 0; what errno is then is left out.
unfoldable pub parse_alignment_str : Bytes → Alignment
unfolding same_word
parse_alignment_str s =
    if same_word s (101 ∷ 97 ∷ 115 ∷ 116 ∷ [])
    then east
    else if same_word s (119 ∷ 101 ∷ 115 ∷ 116 ∷ [])
    then west
    else if same_word s (110 ∷ 111 ∷ 114 ∷ 116 ∷ 104 ∷ [])
    then north
    else if same_word s (115 ∷ 111 ∷ 117 ∷ 116 ∷ 104 ∷ [])
    then south
    else if same_word s (110 ∷ 111 ∷ 114 ∷ 116 ∷ 104 ∷ 101 ∷ 97 ∷ 115 ∷ 116 ∷ [])
    then join east north
    else if same_word s (110 ∷ 111 ∷ 114 ∷ 116 ∷ 104 ∷ 119 ∷ 101 ∷ 115 ∷ 116 ∷ [])
    then join west north
    else if same_word s (115 ∷ 111 ∷ 117 ∷ 116 ∷ 104 ∷ 101 ∷ 97 ∷ 115 ∷ 116 ∷ [])
    then join east south
    else if same_word s (115 ∷ 111 ∷ 117 ∷ 116 ∷ 104 ∷ 119 ∷ 101 ∷ 115 ∷ 116 ∷ [])
    then join west south
    else no_alignment

-- parse_alignment_str(s) & (POS_E | POS_W), or 0 for the NULL pointer
unfoldable pub horizontal : Option Bytes → Alignment
horizontal none = no_alignment
horizontal (some s) = record (parse_alignment_str s) { pos_n = false; pos_s = false }

-- parse_alignment_str(s) & (POS_N | POS_S), or 0 for the NULL pointer
unfoldable pub vertical : Option Bytes → Alignment
vertical none = no_alignment
vertical (some s) = record (parse_alignment_str s) { pos_e = false; pos_w = false }

-- The parameter "align" goes before "halign" and "valign".
unfoldable pub align_or : Option Bytes → Alignment → Alignment
align_or none rest = rest
align_or (some s) rest = parse_alignment_str s

module _ {D : Type 0} where
  unfoldable pub parse_alignment : List (Fparam D) → Alignment
  unfolding horizontal vertical align_or get_param
  parse_alignment fp = align_or (get_param (97 ∷ 108 ∷ 105 ∷ 103 ∷ 110 ∷ []) fp) (
      join (horizontal (get_param (104 ∷ 97 ∷ 108 ∷ 105 ∷ 103 ∷ 110 ∷ []) fp))
        (vertical (get_param (118 ∷ 97 ∷ 108 ∷ 105 ∷ 103 ∷ 110 ∷ []) fp)))
