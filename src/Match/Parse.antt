-- ===== src/Match/Parse.antt =====
-- parse_matchtype and parse_matchtag of src/smrparse.c.
use smrender.Base.{
  ℕ, ◌-◌, true, false, ◌&&◌, Option, none, some, [], ◌∷◌, ltb, ◌==◌, if◌then◌else◌, length, get_or,
  take, ℤ, pos, negsuc, ltb_ℤ, minus_one,
}
use smrender.Bstring.{Bytes}
use smrender.Match.{Libc, Tag, SpecialKind, SpecialTag, Stag, direct, regex, gt, lt, no_special}

-- `c` and `d` enclose the string, which is longer than 2: what stands between them.
unfoldable pub strip : ℕ → ℕ → Bytes → Option Bytes
strip c d [] = none
strip c d (x ∷ b) =
    if ltb 2 (length (x ∷ b)) && x == c && get_or b (length b - 1) 0 == d
    then some (take (length b - 1) b)
    else none

module _ (L : Libc) where
  open L use {regcomp, strtod}

  abbrev with_kind : SpecialKind L → SpecialTag L → SpecialTag L
  with_kind k t = record t { kind = k }

  pub record Matchtype : Type 0 where
    pub result : ℤ
    pub b : Bytes
    pub t : SpecialTag L

  -- The tests for !...! and ~...~ in their order, on what `strip` makes of the string.
  unfoldable pub flags_from : Option Bytes → Option Bytes → Bytes → Bytes × SpecialTag L
  flags_from (some b') _ b =
      (b', record { kind = direct; special_invert = true; special_not = false })
  flags_from none (some b') b =
      (b', record { kind = direct; special_invert = false; special_not = true })
  flags_from none none b = (b, no_special L)

  unfoldable pub parse_flags : Bytes → Bytes × SpecialTag L
  unfolding flags_from
  parse_flags b = flags_from (strip b'!' b'!' b) (strip b'~' b'~' b) b

  unfoldable pub parse_regex : Bytes → SpecialTag L → Matchtype
  parse_regex b t = elim (regcomp b) [
    | none ↦ record { result = minus_one; b = b; t = t }
    | some re ↦ record { result = pos 0; b = b; t = with_kind (regex re) t }
  ]

  unfoldable pub parse_number : (L.double.Value → SpecialKind L) → Bytes → SpecialTag L → Matchtype
  parse_number kind b t = elim (strtod b) [
    | none ↦ record { result = negsuc 1; b = b; t = t }
    | some val ↦ record { result = pos 0; b = b; t = with_kind (kind val) t }
  ]

  -- The tests for /.../, ]...[ and [...] in their order.
  unfoldable pub kind_from :
      Option Bytes → Option Bytes → Option Bytes → Bytes → SpecialTag L → Matchtype
  unfolding parse_regex parse_number
  kind_from (some b') _ _ b t = parse_regex b' t
  kind_from none (some b') _ b t = parse_number gt b' t
  kind_from none none (some b') b t = parse_number lt b' t
  kind_from none none none b t = record { result = pos 0; b = b; t = t }

  unfoldable pub parse_kind : Bytes × SpecialTag L → Matchtype
  unfolding kind_from
  parse_kind (b, t) = kind_from (strip b'/' b'/' b) (strip b']' b'[' b) (strip b'[' b']' b) b t

  unfoldable pub parse_matchtype : Bytes → Matchtype
  unfolding parse_flags parse_kind
  parse_matchtype b = parse_kind (parse_flags b)

  -- What parse_matchtag leaves: its return value and the two structures.
  pub record Matchtag : Type 0 where
    pub result : ℤ
    pub ot : Tag
    pub st : Stag L

  -- if ((e = ...) < 0) return e;  The stag is zeroed before.
  unfoldable pub parse_matchtag : Tag → Matchtag
  parse_matchtag ot =
      let key = parse_matchtype ot.k in
      let value = parse_matchtype ot.v in
      if ltb_ℤ key.result (pos 0)
      then record {
        result = key.result;
        ot = record ot { k = key.b };
        st = record { stk = key.t; stv = no_special L };
      }
      else record {
        result = if ltb_ℤ value.result (pos 0) then value.result else pos 0;
        ot = record { k = key.b; v = value.b };
        st = record { stk = key.t; stv = value.t };
      }
