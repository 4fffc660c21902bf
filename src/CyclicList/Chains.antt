-- ===== src/CyclicList/Chains.antt =====
-- Elements that are linked forwards and backwards.
use smrender.Base.{
  update-other, ℕ, ◌+◌, ◌≡◌, refl, ◌∙◌, ◌≢◌, List, [], ◌∷◌, ◌++◌, arith, ◌==◌, if◌then◌else◌,
  ==_refl, update,
}

unfoldable pub count : ℕ → List ℕ → ℕ
count a [] = 0
count a (x ∷ xs) = (if a == x then 1 else 0) + count a xs

-- From `a` over `xs` to `z`.
abbrev pub IsChain : (ℕ → ℕ) → (ℕ → ℕ) → ℕ → List ℕ → ℕ → Type 0
IsChain next prev a [] z = (next a ≡ z) × (prev z ≡ a)
IsChain next prev a (x ∷ xs) z = ((next a ≡ x) × (prev x ≡ a)) × IsChain next prev x xs z

-- The last one before the end.
abbrev pub last_of : ℕ → List ℕ → ℕ
last_of a [] = a
last_of a (x ∷ xs) = last_of x xs

pub count-append : (a : ℕ) (xs ys : List ℕ) → count a (xs ++ ys) ≡ count a xs + count a ys
unfolding count
count-append a [] ys = omega arith
count-append a (x ∷ xs) ys = omega (arith, count-append a xs ys)

pub count-cons : (a x : ℕ) (xs : List ℕ) → count a (x ∷ xs) ≡ (if a == x then 1 else 0) + count a xs
unfolding count
count-cons a x xs = refl

pub count-nil : (a : ℕ) → count a [] ≡ 0
unfolding count
count-nil a = refl

pub count-here : (x : ℕ) (xs : List ℕ) → count x (x ∷ xs) ≡ 1 + count x xs
count-here x xs = rw (count-cons x x xs, ==_refl x) (omega arith)

pub split-IsChain :
    (next prev : ℕ → ℕ) (a x z : ℕ) (xs ys : List ℕ)
    → IsChain next prev a (xs ++ x ∷ ys) z
    → IsChain next prev a xs x × IsChain next prev x ys z
split-IsChain next prev a x z [] ys c = c
split-IsChain next prev a x z (y ∷ xs) ys c =
    let rest : IsChain next prev y xs x × IsChain next prev x ys z =
      split-IsChain next prev y x z xs ys c.1 in
    ((c.0, rest.0), rest.1)

pub join-IsChain :
    (next prev : ℕ → ℕ) (a x z : ℕ) (xs ys : List ℕ)
    → IsChain next prev a xs x
    → IsChain next prev x ys z
    → IsChain next prev a (xs ++ x ∷ ys) z
join-IsChain next prev a x z [] ys c d = (c, d)
join-IsChain next prev a x z (y ∷ xs) ys c d = (c.0, join-IsChain next prev y x z xs ys c.1 d)

pub IsChain-prev :
    (next prev : ℕ → ℕ) (a z : ℕ) (xs : List ℕ) → IsChain next prev a xs z → prev z ≡ last_of a xs
IsChain-prev next prev a z [] c = c.1
IsChain-prev next prev a z (x ∷ xs) c = IsChain-prev next prev x z xs c.1

-- An element that is not among others.
pub count-none : (b a : ℕ) (xs : List ℕ) → count b (a ∷ xs) ≡ 0 → (a ≢ b) × (count b xs ≡ 0)
count-none b a xs e =
    (λ eq. absurd (ground (arith, eq, e, count-here b xs)), omega (arith, count-cons b a xs, e))

-- Changes outside of the chain.
pub update_next-IsChain :
    (next prev : ℕ → ℕ) (a z b p : ℕ) (xs : List ℕ)
    → count b (a ∷ xs) ≡ 0
    → IsChain next prev a xs z
    → IsChain (update next b p) prev a xs z
update_next-IsChain next prev a z b p [] none_of c =
    (update-other next b a p (count-none b a [] none_of).0 ∙ c.0, c.1)
update_next-IsChain next prev a z b p (x ∷ xs) none_of c =
    let out : (a ≢ b) × (count b (x ∷ xs) ≡ 0) = count-none b a (x ∷ xs) none_of in
    (
      (update-other next b a p out.0 ∙ c.0.0, c.0.1),
      update_next-IsChain next prev x z b p xs out.1 c.1,
    )

pub update_prev-IsChain :
    (next prev : ℕ → ℕ) (a z b p : ℕ) (xs : List ℕ)
    → count b xs ≡ 0
    → z ≢ b
    → IsChain next prev a xs z
    → IsChain next (update prev b p) a xs z
update_prev-IsChain next prev a z b p [] none_of ne c = (c.0, update-other prev b z p ne ∙ c.1)
update_prev-IsChain next prev a z b p (x ∷ xs) none_of ne c =
    let out : (x ≢ b) × (count b xs ≡ 0) = count-none b x xs none_of in
    (
      (c.0.0, update-other prev b x p out.0 ∙ c.0.1),
      update_prev-IsChain next prev x z b p xs out.1 ne c.1,
    )
