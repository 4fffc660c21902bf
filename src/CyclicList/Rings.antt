-- ===== src/CyclicList/Rings.antt =====
-- A cyclic list: its root and the other elements in their order.
use smrender.Base.{ℕ, ◌≤◌, ◌≡◌, ◌≢◌, true, List, ◌∷◌, ◌++◌, arith}
use smrender.CyclicList.{Memory}
use smrender.CyclicList.Chains.{
  count, IsChain, count-append, count-cons, split-IsChain, join-IsChain,
}

-- The elements are linked to a ring, are different, and are allocated.
pub record IsRing (m : Memory) (root : ℕ) (xs : List ℕ) : Type 0 where
  pub chain : IsChain m.next m.prev root xs root
  pub distinct : (a : ℕ) → count a (root ∷ xs) ≤ 1
  pub allocated : (a : ℕ) → 1 ≤ count a (root ∷ xs) → (m.live a ≡ true) × (a ≢ 0)

count-rotate :
    (a x y : ℕ) (xs ys : List ℕ) → count a (x ∷ ys ++ y ∷ xs) ≡ count a (y ∷ xs ++ x ∷ ys)
count-rotate a x y xs ys = omega (
  arith,
  count-cons a x (ys ++ y ∷ xs),
  count-append a ys (y ∷ xs),
  count-cons a y xs,
  count-cons a y (xs ++ x ∷ ys),
  count-append a xs (x ∷ ys),
  count-cons a x ys,
)

-- The same list, seen from another element.
pub rotate-IsRing :
    (m : Memory) (root x : ℕ) (xs ys : List ℕ)
    → IsRing m root (xs ++ x ∷ ys)
    → IsRing m x (ys ++ root ∷ xs)
rotate-IsRing m root x xs ys r =
    let parts : IsChain m.next m.prev root xs x × IsChain m.next m.prev x ys root =
      split-IsChain m.next m.prev root x root xs ys r.chain in
    record {
      chain = join-IsChain m.next m.prev x root x ys xs parts.1 parts.0;
      distinct = λ a. omega (arith, count-rotate a x root xs ys, r.distinct a);
      allocated = λ a h. r.allocated a (omega (arith, count-rotate a x root xs ys, h));
    }
