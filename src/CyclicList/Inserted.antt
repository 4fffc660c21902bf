-- ===== src/CyclicList/Inserted.antt =====
-- li_add() puts an element behind another.
use smrender.Base.{
  ℕ, ◌+◌, ◌≤◌, ◌≡◌, refl, sym, ap, ◌∙◌, ◌≢◌, inl, inr, Bool, true, false, some, List, [], ◌∷◌, ◌++◌,
  arith, ◌==◌, if◌then◌else◌, ==_iff, ==_refl, Bool-cases, update, subst, true-false, update-same,
  update-other,
}
use smrender.CyclicList.{
  Memory, Malloc, null, set_next, set_prev, new_element, add_element, li_add, new_list, li_new,
}
use smrender.CyclicList.Chains.{
  count, IsChain, count-cons, count-here, count-nil, count-none, update_next-IsChain,
  update_prev-IsChain,
}
use smrender.CyclicList.Rings.{IsRing, rotate-IsRing}

-- The pointers after li_add().
abbrev next_with : (ℕ → ℕ) → ℕ → ℕ → ℕ → ℕ
next_with next a li = update (update next li (next a)) a li

abbrev prev_with : (ℕ → ℕ) → (ℕ → ℕ) → ℕ → ℕ → ℕ → ℕ
prev_with next prev a li = update (update prev li a) (next a) li

module _ (next prev : ℕ → ℕ) (a li : ℕ) (new : a ≢ li) (next_new : next a ≢ li) where
  to_new : (next_with next a li a ≡ li) × (prev_with next prev a li li ≡ a)
  to_new = (
    update-same (update next li (next a)) a li,
    update-other (update prev li a) (next a) li li (λ e. next_new (sym e)) ∙ update-same prev li a,
  )

  from_new : (next_with next a li li ≡ next a) × (prev_with next prev a li (next a) ≡ li)
  from_new = (
    update-other (update next li (next a)) a li li (λ e. new (sym e))
        ∙ update-same next li (next a),
    update-same (update prev li a) (next a) li,
  )

insert-IsChain :
    (next prev : ℕ → ℕ) (a li : ℕ) (zs : List ℕ)
    → count a zs ≡ 0
    → ((b : ℕ) → count b (a ∷ zs) ≤ 1)
    → count li (a ∷ zs) ≡ 0
    → IsChain next prev a zs a
    → IsChain (next_with next a li) (prev_with next prev a li) a (li ∷ zs) a
insert-IsChain next prev a li [] no_a distinct no_li c =
    let ne : a ≢ li = (count-none li a [] no_li).0 in
    let next_ne : next a ≢ li = λ e. ne (sym c.0 ∙ e) in
    let new = from_new next prev a li ne next_ne in
    (
      to_new next prev a li ne next_ne,
      (new.0 ∙ c.0, sym (ap (prev_with next prev a li) c.0) ∙ new.1),
    )
insert-IsChain next prev a li (z ∷ zs) no_a distinct no_li c =
    let out : (a ≢ li) × (count li (z ∷ zs) ≡ 0) = count-none li a (z ∷ zs) no_li in
    let next_ne : next a ≢ li = λ e. (count-none li z zs out.1).0 (sym c.0.0 ∙ e) in
    let new = from_new next prev a li out.0 next_ne in
    let no_z : count z zs ≡ 0 =
      omega (arith, distinct z, count-cons z a (z ∷ zs), count-here z zs) in
    let a_z : a ≢ (next a) = λ e. (count-none a z zs no_a).0 (sym c.0.0 ∙ sym e) in
    (
      to_new next prev a li out.0 next_ne,
      (
        (new.0 ∙ c.0.0, sym (ap (prev_with next prev a li) c.0.0) ∙ new.1),
        update_next-IsChain (update next li (next a)) (prev_with next prev a li) z a a li zs no_a (
            update_next-IsChain next (prev_with next prev a li) z a li (next a) zs out.1 (
              update_prev-IsChain next (update prev li a) z a (next a) li zs (rw c.0.0 no_z) a_z (
                update_prev-IsChain next prev z a li a zs (count-none li z zs out.1).1 out.0 c.1))),
      ),
    )

-- malloc() gives elements that are not in use.
abbrev pub GivesNew : Malloc → Type 0
GivesNew malloc = (m : Memory) (li : ℕ) → malloc m ≡ some li → (m.live li ≡ false) × (li ≢ null)

-- The element `li` is new in `m'` and has the data `p`; the others keep theirs.
pub record IsInserted (li p : ℕ) (m m' : Memory) : Type 0 where
  pub fresh : m.live li ≡ false
  pub data_new : m'.data_of li ≡ p
  pub data_kept : (b : ℕ) → b ≢ li → m'.data_of b ≡ m.data_of b

abbrev inserted : ℕ → ℕ → ℕ → Memory → Memory
inserted a li p m = record {
  next = next_with m.next a li;
  prev = prev_with m.next m.prev a li;
  data_of = update m.data_of li p;
  live = update m.live li true;
}

-- The element behind `a` is one of the list, or `a`.
next-count :
    (m : Memory) (a : ℕ) (zs : List ℕ)
    → IsChain m.next m.prev a zs a
    → 1 ≤ count (m.next a) (a ∷ zs)
next-count m a [] c = rw c.0 (omega (arith, count-here a []))
next-count m a (z ∷ zs) c = rw c.0.0 (omega (arith, count-cons z a (z ∷ zs), count-here z zs))

update-true : (f : ℕ → Bool) (i j : ℕ) → f j ≡ true → update f i true j ≡ true
update-true f i j e = elim (Bool-cases (j == i)) [ inl h ↦ rw h refl | inr h ↦ rw h e ]

not-counted : (b : ℕ) (xs : List ℕ) → (1 ≤ count b xs → ⊥) → count b xs ≡ 0
not-counted b xs h = ground (arith, h)

-- A call behind malloc().
add_element-run :
    (m : Memory) (a li p : ℕ)
    → m.live a ≡ true
    → m.live (m.next a) ≡ true
    → add_element (some li) a p m ≡ some (li, inserted a li p m)
unfolding add_element new_element set_prev set_next
add_element-run m a li p live live_next =
    rw (update-true m.live li (m.next a) live_next) (rw (update-true m.live li a live) refl)

li_add-run :
    (malloc : Malloc) (m : Memory) (a li p : ℕ) (zs : List ℕ)
    → GivesNew malloc
    → malloc m ≡ some li
    → IsRing m a zs
    → li_add malloc a p m ≡ some (li, inserted a li p m)
unfolding li_add
li_add-run malloc m a li p zs gives e r =
    let own : (m.live a ≡ true) × (a ≢ 0) = r.allocated a (omega (arith, count-here a zs)) in
    let nxt : (m.live (m.next a) ≡ true) × (m.next a ≢ 0) =
      r.allocated (m.next a) (next-count m a zs r.chain) in
    let a0 : (a == 0) ≡ false = ground (arith, own.1) in
    let n0 : (m.next a == 0) ≡ false = ground (arith, nxt.1) in
    rw (a0, own.0, n0, e) (add_element-run m a li p own.0 nxt.0)

inserted-IsRing :
    (m : Memory) (a li p : ℕ) (zs : List ℕ)
    → (m.live li ≡ false) × (li ≢ null)
    → IsRing m a zs
    → IsRing (inserted a li p m) a (li ∷ zs)
inserted-IsRing m a li p zs new r =
    let no_li : count li (a ∷ zs) ≡ 0 =
      not-counted li (a ∷ zs) (λ h. true-false (sym (r.allocated li h).0 ∙ new.0)) in
    let counted : (b : ℕ) → count b (a ∷ li ∷ zs) ≡ (if b == li then 1 else 0) + count b (a ∷ zs) =
      λ b. omega (arith, count-cons b a (li ∷ zs), count-cons b li zs, count-cons b a zs) in
    record {
      chain =
          insert-IsChain m.next m.prev a li zs (omega (arith, r.distinct a, count-here a zs))
            r.distinct no_li r.chain;
      distinct = λ b. elim (Bool-cases (b == li)) [
        | inl e ↦
            let eq : b ≡ li = (==_iff b li).0 e in
            subst (λ c. count c (a ∷ li ∷ zs) ≤ 1) (sym eq)
              (omega (arith, counted li, no_li, ap {B = ℕ} (λ t. if t then 1 else 0) (==_refl li)))
        | inr e ↦ omega (arith, counted b, r.distinct b, ap {B = ℕ} (λ t. if t then 1 else 0) e)
      ];
      allocated = λ b h. elim (Bool-cases (b == li)) [
        | inl e ↦ rw e (refl, λ z. new.1 (sym ((==_iff b li).0 e) ∙ z))
        | inr e ↦
            rw e
              (r.allocated b (omega (arith, counted b, h, ap {B = ℕ} (λ t. if t then 1 else 0) e)))
      ];
    }

inserted-IsInserted :
    (m : Memory) (a li p : ℕ) → m.live li ≡ false → IsInserted li p m (inserted a li p m)
inserted-IsInserted m a li p new = record {
  fresh = new;
  data_new = update-same m.data_of li p;
  data_kept = λ b ne. update-other m.data_of li b p ne;
}

-- li_add() on the root puts the new element at the front of the list.
pub li_add-root :
    (malloc : Malloc) (m : Memory) (root li p : ℕ) (xs : List ℕ)
    → GivesNew malloc
    → malloc m ≡ some li
    → IsRing m root xs
    → (m' : Memory) × (li_add malloc root p m ≡ some (li, m'))
      × (IsRing m' root (li ∷ xs) × IsInserted li p m m')
li_add-root malloc m root li p xs gives e r = (
  inserted root li p m,
  li_add-run malloc m root li p xs gives e r,
  (
    inserted-IsRing m root li p xs (gives m li e) r,
    inserted-IsInserted m root li p (gives m li e).0,
  ),
)

-- li_add() on an element of a list, with an allocated element from malloc(), runs without an access to
-- an element that is not allocated, and the list has the new element with the data `p` right behind
-- that element. The other elements keep their order and their data.
pub li_add-IsRing :
    (malloc : Malloc) (m : Memory) (root x li p : ℕ) (xs ys : List ℕ)
    → GivesNew malloc
    → malloc m ≡ some li
    → IsRing m root (xs ++ x ∷ ys)
    → (m' : Memory) × (li_add malloc x p m ≡ some (li, m'))
      × (IsRing m' root (xs ++ x ∷ li ∷ ys) × IsInserted li p m m')
li_add-IsRing malloc m root x li p xs ys gives e r =
    let (m', run, (ring, ins)) =
      li_add-root malloc m x li p (ys ++ root ∷ xs) gives e (rotate-IsRing m root x xs ys r) in
    (m', run, (rotate-IsRing m' x root (li ∷ ys) xs ring, ins))

new_list-IsRing : (m : Memory) (li : ℕ) → li ≢ null → IsRing (new_list (some li) m).1 li []
unfolding new_list new_element
new_list-IsRing m li new =
    let one : (a : ℕ) → count a (li ∷ []) ≡ (if a == li then 1 else 0) + count a [] =
      λ a. count-cons a li [] in
    record {
      chain = (update-same m.next li li, update-same m.prev li li);
      distinct = λ a. elim (Bool-cases (a == li)) [
        | inl h ↦ omega (arith, one a, count-nil a, ap {B = ℕ} (λ t. if t then 1 else 0) h)
        | inr h ↦ omega (arith, one a, count-nil a, ap {B = ℕ} (λ t. if t then 1 else 0) h)
      ];
      allocated = λ a h. elim (Bool-cases (a == li)) [
        | inl same ↦ rw same (refl, λ z. new (sym ((==_iff a li).0 same) ∙ z))
        | inr other ↦
            absurd
              (omega (arith, h, one a, count-nil a, ap {B = ℕ} (λ t. if t then 1 else 0) other))
      ];
    }

-- li_new() gives a list with no element but its root.
pub li_new-IsRing :
    (malloc : Malloc) (m : Memory) (li : ℕ)
    → GivesNew malloc
    → malloc m ≡ some li
    → IsRing (li_new malloc m).1 li []
unfolding li_new
li_new-IsRing malloc m li gives e =
    subst (λ o. IsRing (new_list o m).1 li []) (sym e) (new_list-IsRing m li (gives m li e).1)
