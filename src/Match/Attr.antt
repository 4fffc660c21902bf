-- ===== src/Match/Attr.antt =====
-- What bs_match_attr finds.
use smrender.Base.{
  ℕ, ◌+◌, ◌≡◌, Bool, true, false, ◌&&◌, ◌||◌, Option, none, some, List, [], ◌∷◌, arith,
  if◌then◌else◌, ℤ, pos, minus_one,
}
use smrender.Match.{Libc, Tag, Stag, part_matches, match_loop, bs_match_attr, int_max}

-- The first index from `i` on whose tag passes the test.
abbrev pub first : (Tag → Bool) → ℕ → List Tag → Option ℕ
first p i [] = none
first p i (t ∷ ts) = if p t then some i else first p (i + 1) ts

abbrev pub any : (Tag → Bool) → List Tag → Bool
any p [] = false
any p (t ∷ ts) = p t || any p ts

abbrev pub index_of : Option ℕ → ℤ
index_of none = minus_one
index_of (some i) = pos i

module _ (L : Libc) (ot : Tag) (st : Stag L) where
  abbrev pub key_hit : Tag → Bool
  key_hit t = part_matches L t.k ot.k st.stk

  abbrev pub value_hit : Tag → Bool
  value_hit t = part_matches L t.v ot.v st.stv

  -- A tag that a negated condition forbids.
  abbrev pub forbidden : Tag → Bool
  forbidden t = (st.stk.special_not && key_hit t) || (st.stv.special_not && value_hit t)

  plain_loop :
      (i : ℕ) (ts : List Tag)
      → st.stk.special_not ≡ false
      → st.stv.special_not ≡ false
      → match_loop L ot st i ts ≡ index_of (first (λ t. key_hit t && value_hit t) i ts)
  unfolding match_loop
  plain_loop i [] e f = rw (e, f)
  plain_loop i (t ∷ ts) e f = ground (arith, plain_loop (i + 1) ts)

  -- Without a negated condition the result is the index of the first tag whose key and value
  -- both match, and -1 if there is none.
  pub bs_match_attr_plain :
      (ts : List Tag)
      → st.stk.special_not ≡ false
      → st.stv.special_not ≡ false
      → bs_match_attr L ts ot st ≡ index_of (first (λ t. key_hit t && value_hit t) 0 ts)
  unfolding bs_match_attr
  bs_match_attr_plain ts = plain_loop 0 ts

  negated_loop :
      (i : ℕ) (ts : List Tag)
      → (st.stk.special_not || st.stv.special_not) ≡ true
      → match_loop L ot st i ts ≡ (if any forbidden ts then minus_one else int_max)
  unfolding match_loop
  negated_loop i [] e = rw e
  negated_loop i (t ∷ ts) e = ground (arith, negated_loop (i + 1) ts)

  -- With a negated condition it never is an index: -1 if some tag is forbidden, and INT_MAX if
  -- none is. A tag is forbidden if it matches a negated key, whatever its value is, or a negated
  -- value, whatever its key is.
  pub bs_match_attr_negated :
      (ts : List Tag)
      → (st.stk.special_not || st.stv.special_not) ≡ true
      → bs_match_attr L ts ot st ≡ (if any forbidden ts then minus_one else int_max)
  unfolding bs_match_attr
  bs_match_attr_negated ts = negated_loop 0 ts
