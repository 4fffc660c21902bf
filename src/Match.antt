-- ===== src/Match.antt =====
-- Matching of tags: `bs_match`, `bs_match_attr` and `match_attr` of libsmrender/smutil.c, and
-- `parse_matchtype` and `parse_matchtag` of src/smrparse.c.
pub mod Attr
pub mod Parse
pub mod Syntax
use smrender.Base.{
  ℕ, ◌+◌, Bool, true, false, not, ◌&&◌, ◌||◌, Option, List, [], ◌∷◌, if◌then◌else◌, ℤ, pos, nonzero,
  minus_one,
}
use smrender.Bstring.{Bytes, bs_cmp2}
use smrender.Bstring.Number.{Double, bs_tod}

-- `struct otag`
pub record Tag : Type 0 where
  pub k : Bytes
  pub v : Bytes

-- The functions of the C library on regular expressions and numbers.
pub record Libc : Type 1 where
  pub double : Double
  -- regex_t
  pub Regex : Type 0
  -- regcomp(), `none` where it fails
  pub regcomp : Bytes → Option Regex
  -- regexec() == 0
  pub regexec : Regex → Bytes → Bool
  -- strtod(), `none` where it sets errno
  pub strtod : Bytes → Option double.Value

abbrev pub int_max : ℤ
int_max = pos 2147483647

module _ (L : Libc) where
  open L use {double, Regex, regexec}

  -- t->type & SPECIAL_MASK, with the member of the union that goes with it.
  pub data SpecialKind : Type 0 where
    direct : SpecialKind
    regex : Regex → SpecialKind
    gt : double.Value → SpecialKind
    lt : double.Value → SpecialKind

  -- `struct specialTag`, its two flag bits apart.
  pub record SpecialTag : Type 0 where
    pub kind : SpecialKind
    pub special_invert : Bool
    pub special_not : Bool

  -- `struct stag`
  pub record Stag : Type 0 where
    pub stk : SpecialTag
    pub stv : SpecialTag

  -- `r == 0` behind the ladder of tests.
  unfoldable pub kind_matches : SpecialKind → Bytes → Bytes → Bool
  kind_matches direct dst pat = not (nonzero (bs_cmp2 dst pat))
  kind_matches (regex re) dst pat = regexec re dst
  kind_matches (gt val) dst pat = double.less val (bs_tod double dst)
  kind_matches (lt val) dst pat = double.less (bs_tod double dst) val

  -- bs_match, for a `st` that is not NULL.
  unfoldable pub bs_match : Bytes → Bytes → SpecialTag → Bool
  unfolding kind_matches
  bs_match dst pat st =
      if st.special_invert then not (kind_matches st.kind dst pat) else kind_matches st.kind dst pat

  -- ot->k.len ? bs_match(...) : 1
  unfoldable pub part_matches : Bytes → Bytes → SpecialTag → Bool
  unfolding bs_match
  part_matches dst [] st = true
  part_matches dst (c ∷ pat) st = bs_match dst (c ∷ pat) st

  -- The loop over the tags of the object from index `i` on, and what follows it.
  unfoldable pub match_loop : Tag → Stag → ℕ → List Tag → ℤ
  match_loop ot st i [] = if st.stk.special_not || st.stv.special_not then int_max else minus_one
  match_loop ot st i (t ∷ otag) =
      let kmatch = part_matches t.k ot.k st.stk in
      let vmatch = part_matches t.v ot.v st.stv in
      let rest = match_loop ot st (i + 1) otag in
      if kmatch && st.stk.special_not
      then minus_one
      else if vmatch && st.stv.special_not
      then minus_one
      else if kmatch && vmatch
      then pos i
      else rest

  unfoldable pub bs_match_attr : List Tag → Tag → Stag → ℤ
  unfolding match_loop
  bs_match_attr otag ot st = match_loop ot st 0 otag

  -- memset(&st, 0, sizeof(st))
  abbrev pub no_special : SpecialTag
  no_special = record { kind = direct; special_invert = false; special_not = false }

  -- NULL for `k` or `v` is the empty string here: both leave a length of 0.
  unfoldable pub match_attr : List Tag → Bytes → Bytes → ℤ
  unfolding bs_match_attr
  match_attr otag k v =
      bs_match_attr otag (record { k = k; v = v }) (record { stk = no_special; stv = no_special })
