-- ===== src/Roles/Search.antt =====
-- The loop over the roles is a search in the list of their strings.
use smrender.Base.{
  ℕ, zero, suc, ◌+◌, ◌≤◌, ◌<◌, ◌≡◌, refl, ap, ◌≢◌, inl, inr, Bool, true, false, Option, none, some,
  List, [], ◌∷◌, arith, ◌==◌, if◌then◌else◌, ==_refl, Bool-cases, length,
}
use smrender.CyclicList.{Memory, li_next}
use smrender.CyclicList.Chains.{count, count-cons, count-here, IsChain}
use smrender.CyclicList.Rings.{IsRing}
use smrender.Roles.{role_loop, find_role}

-- The first element of the list that passes the test, with its number
unfoldable pub search : (ℕ → ℕ → Bool) → (ℕ → ℕ) → ℕ → List ℕ → ℕ × Option ℕ
search test data_of i [] = (i, none)
search test data_of i (x ∷ xs) =
    let rest = search test data_of (i + 1) xs in if test i (data_of x) then (i, some x) else rest

role_loop-search :
    (fuel : ℕ) (test : ℕ → ℕ → Bool) (root i p : ℕ) (m : Memory) (xs : List ℕ)
    → IsChain m.next m.prev p xs root
    → ((a : ℕ) → 1 ≤ count a xs → (m.live a ≡ true) × (a ≢ root))
    → length xs < fuel
    → role_loop fuel test root i (m.next p) m ≡ some (search test m.data_of i xs)
unfolding role_loop search
role_loop-search zero test root i p m xs chain ok enough = absurd (omega arith)
role_loop-search (suc fuel) test root i p m [] chain ok enough = rw (chain.0, ==_refl root) refl
role_loop-search (suc fuel) test root i p m (x ∷ xs) chain ok enough =
    let here : (m.live x ≡ true) × (x ≢ root) = ok x (omega (arith, count-here x xs)) in
    let not_root : (x == root) ≡ false = let ne = here.1 in ground (arith, ne) in
    let ih =
      role_loop-search fuel test root (i + 1) x m xs chain.1
        (λ a h. ok a (omega (arith, h, count-cons a x xs))) (omega arith) in
    rw (chain.0.0, not_root, here.0)
      (elim (Bool-cases (test i (m.data_of x))) [ inl e ↦ rw e refl | inr e ↦ rw e ih ])

-- A search of the whole list
pub find_role-search :
    (fuel : ℕ) (test : ℕ → ℕ → Bool) (root : ℕ) (m : Memory) (xs : List ℕ)
    → IsRing m root xs
    → length xs < fuel
    → find_role fuel test root m ≡ some (search test m.data_of 2 xs)
unfolding find_role li_next
find_role-search fuel test root m xs r enough =
    let own : (m.live root ≡ true) × (root ≢ 0) =
      r.allocated root (omega (arith, count-here root xs)) in
    let once = r.distinct root in
    rw (own.0) (
      role_loop-search fuel test root 2 root m xs r.chain
        (λ a h. (
          (r.allocated a (omega (arith, h, count-cons a root xs))).0,
          λ e.
              let twice = ap (λ x. count x xs) e in
              omega (arith, h, twice, once, count-here root xs),
        ))
        enough)
