-- ===== src/Base/Members.antt =====
-- Membership in a list, and lists that are joined over a range of indices.
use Prim.Native.Nat.{ℕ, zero, suc, ◌+◌, ◌≤◌, ◌<◌}
use mathlib.Core.Path.{◌≡◌, subst}
use mathlib.Core.Logic.{◌⊎◌, inl, inr}
use mathlib.Core.List.{List, [], ◌∷◌, ◌++◌}
use native.Mathlib.Omega.{arith}
use smrender.Base.Tests.{◌==◌, ==_iff, Bool-cases}

-- f i ++ ... ++ f (i + k - 1)
unfoldable pub flat_range {ℓ} : {B : Type ℓ} → ℕ → ℕ → (ℕ → List B) → List B
flat_range zero i f = []
flat_range (suc k) i f = f i ++ flat_range k (i + 1) f

module _ {A : Type 0} where
  abbrev pub In : A → List A → Type 0
  In a [] = ⊥
  In a (x ∷ xs) = (a ≡ x) ⊎ In a xs

  pub In-append_left : (a : A) (xs ys : List A) → In a xs → In a (xs ++ ys)
  In-append_left a [] ys h = absurd h
  In-append_left a (x ∷ xs) ys (inl e) = inl e
  In-append_left a (x ∷ xs) ys (inr h) = inr (In-append_left a xs ys h)

  pub In-append_right : (a : A) (xs ys : List A) → In a ys → In a (xs ++ ys)
  In-append_right a [] ys h = h
  In-append_right a (x ∷ xs) ys h = inr (In-append_right a xs ys h)

  pub In-append : (a : A) (xs ys : List A) → In a (xs ++ ys) → In a xs ⊎ In a ys
  In-append a [] ys h = inr h
  In-append a (x ∷ xs) ys (inl e) = inl (inl e)
  In-append a (x ∷ xs) ys (inr h) = elim (In-append a xs ys h) [
    | inl l ↦ inl (inr l)
    | inr r ↦ inr r
  ]

  -- Membership in some part of a joined list.
  pub In-flat_range :
      (a : A) (k i : ℕ) (f : ℕ → List A)
      → In a (flat_range k i f)
      → (j : ℕ) × (i ≤ j) × (j < i + k) × In a (f j)
  unfolding flat_range
  In-flat_range a zero i f h = absurd h
  In-flat_range a (suc k) i f h = elim (In-append a (f i) (flat_range k (i + 1) f) h) [
    | inl l ↦ (i, omega arith, omega arith, l)
    | inr r ↦ let (j, lo, hi, m) = In-flat_range a k (i + 1) f r in (j, omega arith, omega arith, m)
  ]

  pub flat_range-In :
      (a : A) (k i j : ℕ) (f : ℕ → List A)
      → i ≤ j
      → j < i + k
      → In a (f j)
      → In a (flat_range k i f)
  unfolding flat_range
  flat_range-In a zero i j f lo hi m = absurd (omega arith)
  flat_range-In a (suc k) i j f lo hi m = elim (Bool-cases (j == i)) [
    | inl e ↦ In-append_left a (f i) _ (subst (λ x. In a (f x)) ((==_iff j i).0 e) m)
    | inr e ↦
        In-append_right a (f i) _ (flat_range-In a k (i + 1) j f (ground arith) (omega arith) m)
  ]
