-- ===== src/Match/Syntax.antt =====
-- The written form of the conditions that parse_matchtype reads.
use smrender.Base.{
  ℕ, suc, ◌-◌, ◌<◌, ◌≡◌, refl, ap, ◌∙◌, ◌≢◌, Bool, true, false, Option, none, some, [], ◌∷◌, ◌++◌,
  arith, ◌==◌, lt→ltb, ==_refl, length, get_or, take, length-append, pos,
}
use smrender.Bstring.{Bytes}
use smrender.Match.{Libc, SpecialKind, SpecialTag, direct, regex, gt, lt}
use smrender.Match.Parse.{strip, flags_from, kind_from, parse_flags, parse_kind, parse_matchtype}

-- How a condition is negated: not at all, by ! or by ~.
pub data Mark : Type 0 where
  bare inverted negated : Mark

abbrev enclose : ℕ → ℕ → Bytes → Bytes
enclose c d body = c ∷ (body ++ d ∷ [])

abbrev pub mark : Mark → Bytes → Bytes
mark bare b = b
mark inverted b = enclose b'!' b'!' b
mark negated b = enclose b'~' b'~' b

abbrev pub is_inverted : Mark → Bool
is_inverted inverted = true
is_inverted _ = false

abbrev pub is_negated : Mark → Bool
is_negated negated = true
is_negated _ = false

get_or_end : (b : Bytes) (d : ℕ) → get_or (b ++ d ∷ []) (length b) 0 ≡ d
get_or_end [] d = refl
get_or_end (x ∷ b) d = get_or_end b d

take_end : (b : Bytes) (d : ℕ) → take (length b) (b ++ d ∷ []) ≡ b
take_end [] d = refl
take_end (x ∷ b) d = ap (λ r. x ∷ r) (take_end b d)

strip_lem :
    (c d n : ℕ) (b : Bytes)
    → length b - 1 ≡ n
    → 2 < suc (length b)
    → get_or b n 0 ≡ d
    → strip c d (c ∷ b) ≡ some (take n b)
unfolding strip
strip_lem c d n b e l g = rw (lt→ltb 2 _ l, ==_refl, e, g, ==_refl)

strip-enclose : (c d x : ℕ) (b : Bytes) → strip c d (enclose c d (x ∷ b)) ≡ some (x ∷ b)
strip-enclose c d x b =
    let len = length-append (x ∷ b) (d ∷ []) in
    strip_lem c d (length (x ∷ b)) ((x ∷ b) ++ d ∷ []) (omega (arith, len)) (omega (arith, len))
      (get_or_end (x ∷ b) d)
    ∙ ap some (take_end (x ∷ b) d)

strip_other : (c d x : ℕ) (b : Bytes) → (x == c) ≡ false → strip c d (x ∷ b) ≡ none
unfolding strip
strip_other c d x b e = ground arith

module _ (L : Libc) where
  open L use {regcomp, strtod}

  -- A condition that is not a plain text.
  pub data Condition : Type 0 where
    matches : Bytes → Condition
    above : Bytes → Condition
    below : Bytes → Condition

  abbrev pub body : Condition → Bytes
  body (matches b) = b
  body (above b) = b
  body (below b) = b

  abbrev pub written : Condition → Bytes
  written (matches b) = enclose b'/' b'/' b
  written (above b) = enclose b']' b'[' b
  written (below b) = enclose b'[' b']' b

  -- What the C library makes of the body: the parsed condition, or none.
  abbrev pub meaning : Condition → Option (SpecialKind L)
  meaning (matches b) = elim (regcomp b) [ none ↦ none | some re ↦ some (regex re) ]
  meaning (above b) = elim (strtod b) [ none ↦ none | some x ↦ some (gt x) ]
  meaning (below b) = elim (strtod b) [ none ↦ none | some x ↦ some (lt x) ]

  abbrev pub flags : Mark → SpecialTag L
  flags m = record { kind = direct; special_invert = is_inverted m; special_not = is_negated m }

  parse_flags-cons :
      (m : Mark) (x : ℕ) (b : Bytes)
      → (x == b'!') ≡ false
      → (x == b'~') ≡ false
      → parse_flags L (mark m (x ∷ b)) ≡ (x ∷ b, flags m)
  unfolding parse_flags
  parse_flags-cons bare x b p q = rw (strip_other b'!' b'!' x b p, strip_other b'~' b'~' x b q)
  parse_flags-cons inverted x b p q =
      ap
        (λ o.
          flags_from L o (strip b'~' b'~' (enclose b'!' b'!' (x ∷ b))) (enclose b'!' b'!' (x ∷ b)))
        (strip-enclose b'!' b'!' x b)
  parse_flags-cons negated x b p q =
      ap
        (λ o.
          flags_from L (strip b'!' b'!' (enclose b'~' b'~' (x ∷ b))) o (enclose b'~' b'~' (x ∷ b)))
        (strip-enclose b'~' b'~' x b)
      ∙ ap (λ o. flags_from L o (some (x ∷ b)) (enclose b'~' b'~' (x ∷ b)))
          (strip_other b'!' b'!' b'~' ((x ∷ b) ++ b'~' ∷ []) refl)

  parse_flags-mark :
      (m : Mark) (c : Condition) → parse_flags L (mark m (written c)) ≡ (written c, flags m)
  parse_flags-mark m (matches b) = parse_flags-cons m b'/' (b ++ b'/' ∷ []) refl refl
  parse_flags-mark m (above b) = parse_flags-cons m b']' (b ++ b'[' ∷ []) refl refl
  parse_flags-mark m (below b) = parse_flags-cons m b'[' (b ++ b']' ∷ []) refl refl

  parse_kind-written :
      (c : Condition) (t : SpecialTag L) (k : SpecialKind L)
      → body c ≢ []
      → meaning c ≡ some k
      → parse_kind L (written c, t)
        ≡ record { result = pos 0; b = body c; t = record t { kind = k } }
  unfolding parse_kind
  parse_kind-written (matches []) t k ne e = absurd (ne refl)
  parse_kind-written (matches (x ∷ b)) t k ne e =
      let s : Bytes = enclose b'/' b'/' (x ∷ b) in
      ap (λ o. kind_from L o (strip b']' b'[' s) (strip b'[' b']' s) s t)
        (strip-enclose b'/' b'/' x b)
      ∙ ground arith
  parse_kind-written (above []) t k ne e = absurd (ne refl)
  parse_kind-written (above (x ∷ b)) t k ne e =
      let s : Bytes = enclose b']' b'[' (x ∷ b) in
      ap (λ o. kind_from L o (strip b']' b'[' s) (strip b'[' b']' s) s t)
        (strip_other b'/' b'/' b']' ((x ∷ b) ++ b'[' ∷ []) refl)
      ∙ ap (λ o. kind_from L none o (strip b'[' b']' s) s t) (strip-enclose b']' b'[' x b)
      ∙ ground arith
  parse_kind-written (below []) t k ne e = absurd (ne refl)
  parse_kind-written (below (x ∷ b)) t k ne e =
      let s : Bytes = enclose b'[' b']' (x ∷ b) in
      ap (λ o. kind_from L o (strip b']' b'[' s) (strip b'[' b']' s) s t)
        (strip_other b'/' b'/' b'[' ((x ∷ b) ++ b']' ∷ []) refl)
      ∙ ap (λ o. kind_from L none o (strip b'[' b']' s) s t)
          (strip_other b']' b'[' b'[' ((x ∷ b) ++ b']' ∷ []) refl)
      ∙ ap (λ o. kind_from L none none o s t) (strip-enclose b'[' b']' x b)
      ∙ ground arith

  -- Every written condition with a body that the C library accepts is read back: the flags of its
  -- mark, its kind, and its body as the string that is left.
  pub parse_matchtype-mark :
      (m : Mark) (c : Condition) (k : SpecialKind L)
      → body c ≢ []
      → meaning c ≡ some k
      → parse_matchtype L (mark m (written c))
        ≡ record { result = pos 0; b = body c; t = record (flags m) { kind = k } }
  unfolding parse_matchtype
  parse_matchtype-mark m c k ne e =
      rw (parse_flags-mark m c) (parse_kind-written c (flags m) k ne e)
