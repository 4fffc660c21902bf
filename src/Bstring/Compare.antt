-- ===== src/Bstring/Compare.antt =====
-- The comparisons of strings are 0 exactly on equal strings.
use smrender.Base.{
  ℕ, ◌<◌, ◌≡◌, refl, ◌↔◌, inl, inr, false, [], ◌∷◌, arith, ==_refl, Bool-cases, length, pos,
  nonzero,
}
use smrender.Bstring.{Bytes, char_int, to_char, sub_ℤ, memcmp, bs_cmp2, bs_cmp}

memcmp_equal : (s t : Bytes) → length s ≡ length t → nonzero (memcmp s t) ≡ false → s ≡ t
unfolding memcmp
memcmp_equal [] [] l e = refl
memcmp_equal [] (y ∷ t) l e = absurd (omega arith)
memcmp_equal (x ∷ s) [] l e = absurd (omega arith)
memcmp_equal (x ∷ s) (y ∷ t) l e = ground (arith, memcmp_equal s t)

pub memcmp_refl : (s : Bytes) → memcmp s s ≡ pos 0
unfolding memcmp
memcmp_refl [] = refl
memcmp_refl (x ∷ s) = rw ==_refl (memcmp_refl s)

-- `bs_cmp2` is 0 exactly on equal strings.
bs_cmp2_zero : (s t : Bytes) → (nonzero (bs_cmp2 s t) ≡ false) ↔ (s ≡ t)
unfolding bs_cmp2
bs_cmp2_zero s t = (forth, λ e. rw (e, ==_refl, memcmp_refl))
  where
    forth : nonzero (bs_cmp2 s t) ≡ false → s ≡ t
    forth e = ground (arith, memcmp_equal s t)

-- Bytes of a C string: 8 bits wide, and none of them 0.
abbrev pub IsText : Bytes → Type 0
IsText [] = Unit
IsText (c ∷ s) = (0 < c) × (c < 256) × IsText s

char_difference :
    (x y : ℕ)
    → x < 256
    → y < 256
    → nonzero (to_char (sub_ℤ (char_int x) (char_int y))) ≡ false
    → x ≡ y
char_difference x y p q e = ground arith

char_same : (x : ℕ) → x < 256 → to_char (sub_ℤ (char_int x) (char_int x)) ≡ pos 0
char_same x p = ground arith

bs_cmp_equal : (s t : Bytes) → IsText s → IsText t → nonzero (bs_cmp s t) ≡ false → s ≡ t
unfolding bs_cmp
bs_cmp_equal [] [] u v e = refl
bs_cmp_equal [] (y ∷ t) u v e = ground arith
bs_cmp_equal (x ∷ s) [] u v e = ground arith
bs_cmp_equal (x ∷ s) (y ∷ t) u v e =
    elim (Bool-cases (nonzero (to_char (sub_ℤ (char_int x) (char_int y))))) [
      | inl d ↦ cc (rw d at e)
      | inr d ↦
          let same : x ≡ y = char_difference x y (omega arith) (omega arith) d in
          let rest = bs_cmp_equal s t u.2 v.2 (rw d at e) in cc
    ]

bs_cmp_refl : (s : Bytes) → IsText s → bs_cmp s s ≡ pos 0
unfolding bs_cmp
bs_cmp_refl [] u = refl
bs_cmp_refl (x ∷ s) u = rw (char_same x (omega arith)) (bs_cmp_refl s u.2)

-- On texts `bs_cmp` is 0 exactly if the bstring and the C string are equal, although the
-- difference of two characters is cut down to a `char`.
pub bs_cmp_zero : (s t : Bytes) → IsText s → IsText t → (nonzero (bs_cmp s t) ≡ false) ↔ (s ≡ t)
bs_cmp_zero s t u v = (bs_cmp_equal s t u v, λ e. rw (← e, bs_cmp_refl s u))
