-- ===== src/Traverse/Order.antt =====
-- The entries of a tree come in strictly ascending order of their ids.
use smrender.Base.{
  ℕ, zero, suc, ◌+◌, ◌*◌, ◌≤◌, ◌≡◌, refl, Option, none, some, List, [], ◌∷◌, ◌++◌, arith,
  flat_range,
}
use smrender.Bxtree.{Tree, depth, fan_out, word}
use smrender.Bxtree.Keys.{weight, weight-suc}
use smrender.Traverse.Entries.{entry, entries}

-- All keys lie in [lo, hi), each above the one before it.
abbrev pub Ascending {ℓ} : {A : Type ℓ} → ℕ → ℕ → List (ℕ × A) → Type 0
Ascending lo hi [] = lo ≤ hi
Ascending lo hi ((key, o) ∷ es) = (lo ≤ key) × Ascending (key + 1) hi es

module _ {ℓ} {A : Type ℓ} where
  Ascending-mono :
      (lo lo' hi : ℕ) (es : List (ℕ × A)) → lo' ≤ lo → Ascending lo hi es → Ascending lo' hi es
  Ascending-mono lo lo' hi [] h a = omega arith
  Ascending-mono lo lo' hi ((key, o) ∷ es) h a = (omega arith, a.1)

  Ascending-append :
      (lo mid hi : ℕ) (xs ys : List (ℕ × A))
      → Ascending lo mid xs
      → Ascending mid hi ys
      → Ascending lo hi (xs ++ ys)
  Ascending-append lo mid hi [] ys a b = Ascending-mono mid lo hi ys a b
  Ascending-append lo mid hi ((key, o) ∷ xs) ys a b =
      (a.0, Ascending-append (key + 1) mid hi xs ys a.1 b)

  Ascending-flat_range :
      (k i : ℕ) (f : ℕ → List (ℕ × A)) (at : ℕ → ℕ) (end : ℕ)
      → ((j : ℕ) → Ascending (at j) (at (j + 1)) (f j))
      → i + k ≡ end
      → Ascending (at i) (at end) (flat_range k i f)
  unfolding flat_range
  Ascending-flat_range zero i f at end parts e =
      let e' : i ≡ end = omega arith in rw e' (omega arith)
  Ascending-flat_range (suc k) i f at end parts e =
      Ascending-append (at i) (at (i + 1)) (at end) (f i) _ (parts i)
        (Ascending-flat_range k (i + 1) f at end parts (omega arith))

module _ {ℓ} (A : Type ℓ) where
  entry-Ascending : (key : ℕ) (o : Option A) → Ascending key (key + 1) (entry A key o ++ [])
  entry-Ascending key none = omega arith
  entry-Ascending key (some o) = omega arith

  scale : (a b w w' : ℕ) → w' ≡ w * 16 → a ≡ b * 16 → a * w ≡ b * w'
  scale a b w w' e f = rw (e, f) (grind arith)

  -- The ids below a node share the digits above it.
  entries-Ascending_below :
      (left : ℕ) (t : Tree A left) (i key : ℕ)
      → Ascending (key * weight left) ((key + 1) * weight left) (entries A left t (i, 1) key)
  unfolding entries
  entries-Ascending_below zero none i key = omega arith
  entries-Ascending_below zero (some n) i key =
      let low : key ≡ key * weight 0 = omega arith in
      let high : key + 1 ≡ (key + 1) * weight 0 = omega arith in
      rw (← low, ← high) (unfold flat_range in entry-Ascending key (n i))
  entries-Ascending_below (suc left) none i key = omega (arith, weight-suc left)
  entries-Ascending_below (suc left) (some n) i key =
      let at : ℕ → ℕ = λ j. (key * 16 + j) * weight left in
      let first : at 0 ≡ key * weight (suc left) =
        scale (key * 16 + 0) key (weight left) _ (weight-suc left) (omega arith) in
      let last : at fan_out ≡ (key + 1) * weight (suc left) =
        scale (key * 16 + 16) (key + 1) (weight left) _ (weight-suc left) (omega arith) in
      rw (← first, ← last)
        (Ascending-flat_range fan_out 0 _ at fan_out
          (λ j. rw (shift j) (entries-Ascending_below left (n j) i (key * 16 + j))) refl)
    where
      shift : (j : ℕ) → key * 16 + (j + 1) ≡ key * 16 + j + 1
      shift j = omega arith

  -- The objects at one slot of the leaves are listed in strictly ascending order of their ids,
  -- taken as unsigned numbers, so each id occurs once.
  pub entries-Ascending : (t : Tree A depth) (i : ℕ) → Ascending 0 word (entries A depth t (i, 1) 0)
  entries-Ascending t i = entries-Ascending_below depth t i 0
