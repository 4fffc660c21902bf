-- ===== src/RevIndex/Members.antt =====
-- Which objects the reverse index lists.
use smrender.Base.{
  ℕ, ◌+◌, ◌*◌, ◌<◌, ◌≡◌, refl, sym, ap, ◌∙◌, ◌↔◌, ◌⊎◌, inl, inr, Bool, true, false, ◌&&◌, Option,
  none, some, List, [], ◌∷◌, ◌++◌, arith, ◌==◌, if◌then◌else◌, ==_iff, Bool-cases, is_some, length,
  get_elem?, pos, ltb_ℤ, In, In-append_left, In-append_right, In-append, subst,
}
use smrender.Bxtree.{Tree, Stats, depth, word, fan_out}
use smrender.ObjTree.{get_object0}
use smrender.ObjTree.Laws.{get_object0-put_object0}
use smrender.RevIndex.{get_rev_index, append_ptr, add_to, add_rev_ptr}

-- The list of an object, empty where there is none.
abbrev pub listed : Option (List ℕ) → List ℕ
listed none = []
listed (some optr) = optr

abbrev pub parents : Tree (List ℕ) depth → ℕ → ℕ → List ℕ
parents tree id idx = listed (get_object0 (List ℕ) tree id (pos idx))

not_first : (o x : ℕ) (optr : List ℕ) → (o == x) ≡ false → In o (x ∷ optr) → In o optr
not_first o x optr e (inl h) = absurd (ground arith)
not_first o x optr e (inr h) = h

-- get_rev_index() points at the object if it is in the list, and behind the list if not.
get_rev_index-In :
    (optr : List ℕ) (o : ℕ) → (is_some (get_elem? optr (get_rev_index optr o)) ≡ true) ↔ In o optr
unfolding get_rev_index
get_rev_index-In [] o = ground arith
get_rev_index-In (x ∷ optr) o = elim (Bool-cases (o == x)) [
  | inl e ↦ rw e (λ h. inl ((==_iff o x).0 e), λ h. refl)
  | inr e ↦ rw e (
    λ h. inr ((get_rev_index-In optr o).0 h),
    λ h. (get_rev_index-In optr o).1 (not_first o x optr e h),
  )
]

listed_if :
    (b : Bool) (x y : Option (List ℕ))
    → listed (if b then x else y) ≡ (if b then listed x else listed y)
listed_if true x y = refl
listed_if false x y = refl

append_ptr-parents :
    (granted : ℕ → Bool) (tree : Tree (List ℕ) depth) (stats : Stats) (id idx k j o : ℕ)
    (optr : List ℕ)
    → id < word
    → k < word
    → idx < fan_out
    → granted (8 * (length optr + 2)) ≡ true
    → let r = append_ptr granted tree stats id idx optr o in
      (r.result ≡ pos 0)
      × (parents r.tree k j ≡ (if k == id && j == idx then optr ++ o ∷ [] else parents tree k j))
unfolding append_ptr
append_ptr-parents granted tree stats id idx k j o optr hid hk hi ok = rw ok (
  refl,
  ap listed
        (get_object0-put_object0 (List ℕ) false tree stats id k idx j (some (optr ++ o ∷ [])) hid hk
          hi).1
      ∙ listed_if (k == id && j == idx) (some (optr ++ o ∷ []))
          (get_object0 (List ℕ) tree k (pos j)),
)

-- Who is listed for the object `k` of kind `j` after `o` has been added for `id` of kind `idx`.
abbrev pub Added : ℕ → ℕ → ℕ → ℕ → ℕ → ℕ → List ℕ → Type 0
Added id idx o k j o' before = In o' before ⊎ ((k ≡ id) × ((j ≡ idx) × (o' ≡ o)))

In-snoc : (o o' : ℕ) (optr : List ℕ) → In o' (optr ++ o ∷ []) ↔ (In o' optr ⊎ (o' ≡ o))
In-snoc o o' optr = (λ h. forth (In-append o' optr (o ∷ []) h), back)
  where
    forth : In o' optr ⊎ In o' (o ∷ []) → In o' optr ⊎ (o' ≡ o)
    forth (inl h) = inl h
    forth (inr (inl h)) = inr h
    forth (inr (inr h)) = absurd h

    back : In o' optr ⊎ (o' ≡ o) → In o' (optr ++ o ∷ [])
    back (inl h) = In-append_left o' optr (o ∷ []) h
    back (inr h) = In-append_right o' optr (o ∷ []) (inl h)

both : (a b c d : ℕ) → (a == b && c == d) ≡ true → (a ≡ b) × (c ≡ d)
both a b c d e = ground arith

-- What an updated list holds, at the place of the update and at any other.
update-Added :
    (id idx o k j o' : ℕ) (before : ℕ → ℕ → List ℕ) (b : Bool)
    → (k == id && j == idx) ≡ b
    → In o' (if b then before id idx ++ o ∷ [] else before k j) ↔ Added id idx o k j o' (before k j)
update-Added id idx o k j o' before true e =
    let (p, q) = both k id j idx e in
    let same : before id idx ≡ before k j = rw (p, q) refl in
    (
      λ h. there p q (subst (λ l. In o' l ⊎ (o' ≡ o)) same ((In-snoc o o' (before id idx)).0 h)),
      λ h. (In-snoc o o' (before id idx)).1 (subst (λ l. In o' l ⊎ (o' ≡ o)) (sym same) (back h)),
    )
  where
    there : k ≡ id → j ≡ idx → In o' (before k j) ⊎ (o' ≡ o) → Added id idx o k j o' (before k j)
    there p q (inl h) = inl h
    there p q (inr h) = inr (p, (q, h))

    back : Added id idx o k j o' (before k j) → In o' (before k j) ⊎ (o' ≡ o)
    back (inl h) = inl h
    back (inr (p, (q, h))) = inr h
update-Added id idx o k j o' before false e = (λ h. inl h, only)
  where
    only : Added id idx o k j o' (before k j) → In o' (before k j)
    only (inl h) = h
    only (inr (p, (q, h))) = absurd (ground arith)

append_ptr-In :
    (granted : ℕ → Bool) (tree : Tree (List ℕ) depth) (stats : Stats) (id idx o k j o' : ℕ)
    (optr : List ℕ)
    → ((n : ℕ) → granted n ≡ true)
    → id < word
    → k < word
    → idx < fan_out
    → optr ≡ parents tree id idx
    → let r = append_ptr granted tree stats id idx optr o in
      (ltb_ℤ r.result (pos 0) ≡ false)
      × (In o' (parents r.tree k j) ↔ Added id idx o k j o' (parents tree k j))
append_ptr-In granted tree stats id idx o k j o' optr ok hid hk hi e =
    let (res, after) =
      append_ptr-parents granted tree stats id idx k j o optr hid hk hi
        (ok (8 * (length optr + 2))) in
    (
      ap (λ z. ltb_ℤ z (pos 0)) res,
      subst (λ l. In o' l ↔ Added id idx o k j o' (parents tree k j))
          (sym (after ∙ ap (λ l. if k == id && j == idx then l ++ o ∷ [] else parents tree k j) e))
          (update-Added id idx o k j o' (parents tree) (k == id && j == idx) refl),
    )

add_to-In :
    (granted : ℕ → Bool) (tree : Tree (List ℕ) depth) (stats : Stats) (id idx o k j o' : ℕ)
    (found : Option (List ℕ))
    → ((n : ℕ) → granted n ≡ true)
    → id < word
    → k < word
    → idx < fan_out
    → found ≡ get_object0 (List ℕ) tree id (pos idx)
    → let r = add_to granted tree stats id idx found o in
      (ltb_ℤ r.result (pos 0) ≡ false)
      × (In o' (parents r.tree k j) ↔ Added id idx o k j o' (parents tree k j))
unfolding add_to
add_to-In granted tree stats id idx o k j o' none ok hid hk hi e =
    append_ptr-In granted tree stats id idx o k j o' [] ok hid hk hi (ap listed e)
add_to-In granted tree stats id idx o k j o' (some optr) ok hid hk hi e =
    elim (Bool-cases (is_some (get_elem? optr (get_rev_index optr o)))) [
      | inl there ↦ rw there (refl, (λ h. inl h, already ((get_rev_index-In optr o).0 there)))
      | inr new ↦
          rw new (append_ptr-In granted tree stats id idx o k j o' optr ok hid hk hi (ap listed e))
    ]
  where
    already : In o optr → Added id idx o k j o' (parents tree k j) → In o' (parents tree k j)
    already h (inl h') = h'
    already h (inr (p, (q, r))) = rw (p, q, r) (subst (λ l. In o l) (ap listed e) h)

-- With memory enough, add_rev_ptr() does not fail and adds the object `o` to the list of the object
-- `id` of the kind `idx`: an object is in some list afterwards if it was there or is `o`, in this list.
pub add_rev_ptr-In :
    (granted : ℕ → Bool) (tree : Tree (List ℕ) depth) (stats : Stats) (id idx o k j o' : ℕ)
    → ((n : ℕ) → granted n ≡ true)
    → id < word
    → k < word
    → idx < fan_out
    → let r = add_rev_ptr granted tree stats id idx o in
      (ltb_ℤ r.result (pos 0) ≡ false)
      × (In o' (parents r.tree k j) ↔ Added id idx o k j o' (parents tree k j))
unfolding add_rev_ptr
add_rev_ptr-In granted tree stats id idx o k j o' ok hid hk hi =
    add_to-In granted tree stats id idx o k j o' _ ok hid hk hi refl
