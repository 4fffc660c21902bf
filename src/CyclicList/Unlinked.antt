-- ===== src/CyclicList/Unlinked.antt =====
-- li_unlink() takes an element out of a list.
use smrender.Base.{
  ℕ, ◌+◌, ◌≤◌, ◌≡◌, refl, sym, ap, ◌∙◌, ◌≢◌, true, some, List, [], ◌∷◌, ◌++◌, arith, ◌==◌,
  if◌then◌else◌, update, subst, update-same, update-other,
}
use smrender.CyclicList.{Memory, set_next, set_prev, li_unlink}
use smrender.CyclicList.Chains.{
  count, IsChain, last_of, IsChain-prev, count-cons, count-here, count-none,
}
use smrender.CyclicList.Rings.{IsRing, rotate-IsRing}

last_of-count : (a : ℕ) (xs : List ℕ) → 1 ≤ count (last_of a xs) (a ∷ xs)
last_of-count a [] = omega (arith, count-here a [])
last_of-count a (x ∷ xs) = omega (arith, last_of-count x xs, count-cons (last_of x xs) a (x ∷ xs))

-- The last element gets another successor.
close-IsChain :
    (next prev : ℕ → ℕ) (b x z : ℕ) (ws : List ℕ)
    → ((c : ℕ) → count c (b ∷ ws) ≤ 1)
    → count z ws ≡ 0
    → IsChain next prev b ws x
    → IsChain (update next (last_of b ws) z) (update prev z (last_of b ws)) b ws z
close-IsChain next prev b x z [] distinct no_z c = (update-same next b z, update-same prev z b)
close-IsChain next prev b x z (w ∷ ws) distinct no_z c =
    let last : ℕ = last_of w ws in
    let no_b : count b (w ∷ ws) ≡ 0 = omega (arith, distinct b, count-here b (w ∷ ws)) in
    let b_last : b ≢ last_of w ws =
      λ e. absurd (counted_none b (last_of w ws) (w ∷ ws) e no_b (last_of-count w ws)) in
    let out : (w ≢ z) × (count z ws ≡ 0) = count-none z w ws no_z in
    (
      (
        update-other next (last_of w ws) b z b_last ∙ c.0.0,
        update-other prev z w (last_of w ws) out.0 ∙ c.0.1,
      ),
      close-IsChain next prev w x z ws (λ c. omega (arith, distinct c, count-cons c b (w ∷ ws)))
          out.1 c.1,
    )
  where
    counted_none : (b l : ℕ) (xs : List ℕ) → b ≡ l → count b xs ≡ 0 → 1 ≤ count l xs → ⊥
    counted_none b l xs e none_of some_of =
        absurd (omega (arith, some_of, sym (ap (λ c. count c xs) e) ∙ none_of))

abbrev unlinked : ℕ → Memory → Memory
unlinked x m = record m {
  next = update m.next (m.prev x) (m.next x);
  prev = update m.prev (m.next x) (m.prev x);
}

append-nil : (xs : List ℕ) → xs ++ [] ≡ xs
append-nil [] = refl
append-nil (x ∷ xs) = ap (λ ys. x ∷ ys) (append-nil xs)

-- Seen from the element, behind which there is another.
module _ (m : Memory) (x z : ℕ) (ws : List ℕ) (r : IsRing m x (z ∷ ws)) where
  prev_last : m.prev x ≡ last_of z ws
  prev_last = IsChain-prev m.next m.prev x x (z ∷ ws) r.chain

  rest-count : (c : ℕ) → count c (x ∷ z ∷ ws) ≡ (if c == x then 1 else 0) + count c (z ∷ ws)
  rest-count c = count-cons c x (z ∷ ws)

  unlinked-IsRing : IsRing (unlinked x m) z ws
  unlinked-IsRing = record {
    chain =
        subst (λ l. IsChain (update m.next l (m.next x)) (update m.prev (m.next x) l) z ws z)
          (sym prev_last)
          (subst
            (λ n. IsChain (update m.next (last_of z ws) n) (update m.prev n (last_of z ws)) z ws z)
            (sym r.chain.0.0)
            (close-IsChain m.next m.prev z x z ws (λ c. omega (arith, r.distinct c, rest-count c))
              (omega (arith, r.distinct z, rest-count z, count-here z ws)) r.chain.1));
    distinct = λ c. omega (arith, r.distinct c, rest-count c);
    allocated = λ c h. r.allocated c (omega (arith, rest-count c, h));
  }

  li_unlink-run : li_unlink x m ≡ some (unlinked x m)
  unfolding li_unlink set_next set_prev
  li_unlink-run =
      let live : m.live x ≡ true = (r.allocated x (omega (arith, count-here x (z ∷ ws)))).0 in
      let live_prev : m.live (m.prev x) ≡ true =
        (r.allocated (m.prev x)
          (rw prev_last (omega (arith, rest-count (last_of z ws), last_of-count z ws)))).0 in
      let live_next : m.live (m.next x) ≡ true =
        (r.allocated (m.next x)
          (rw r.chain.0.0 (omega (arith, rest-count z, count-here z ws)))).0 in
      let x_prev : x ≢ m.prev x = λ e.
        other (omega (arith, r.distinct x, count-here x (z ∷ ws)))
          (omega (arith, last_of-count z ws)) (e ∙ prev_last) in
      rw (live, live_prev)
        (rw (update-other m.next (m.prev x) x (m.next x) x_prev) (rw live_next refl))
    where
      other : count x (z ∷ ws) ≡ 0 → 1 ≤ count (last_of z ws) (z ∷ ws) → x ≢ last_of z ws
      other none_of some_of e =
          absurd (omega (arith, some_of, sym (ap (λ c. count c (z ∷ ws)) e) ∙ none_of))

-- li_unlink() on an element of a list other than its root runs without an access to an element that is
-- not allocated. The list has the other elements in their order, and nothing is freed or overwritten.
pub li_unlink-IsRing :
    (m : Memory) (root x : ℕ) (xs ys : List ℕ)
    → IsRing m root (xs ++ x ∷ ys)
    → (m' : Memory) × (li_unlink x m ≡ some m')
      × (IsRing m' root (xs ++ ys) × ((m'.data_of ≡ m.data_of) × (m'.live ≡ m.live)))
li_unlink-IsRing m root x xs [] r =
    let r' : IsRing m x (root ∷ xs) = rotate-IsRing m root x xs [] r in
    (
      unlinked x m,
      li_unlink-run m x root xs r',
      (
        subst (IsRing (unlinked x m) root) (sym (append-nil xs)) (unlinked-IsRing m x root xs r'),
        (refl, refl),
      ),
    )
li_unlink-IsRing m root x xs (y ∷ ys) r =
    let r' : IsRing m x (y ∷ ys ++ root ∷ xs) = rotate-IsRing m root x xs (y ∷ ys) r in
    (
      unlinked x m,
      li_unlink-run m x y (ys ++ root ∷ xs) r',
      (
        rotate-IsRing (unlinked x m) y root ys xs (unlinked-IsRing m x y (ys ++ root ∷ xs) r'),
        (refl, refl),
      ),
    )
