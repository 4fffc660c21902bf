-- ===== src/Traverse/Lookup.antt =====
-- The entries of a tree are what `get_object0` finds.
use smrender.Base.{
  ℕ, zero, suc, ◌+◌, ◌*◌, ◌/◌, ◌<◌, ◌≡◌, refl, sym, ap, ◌∙◌, ◌↔◌, inl, inr, Option, none, some,
  arith, In, In-flat_range, flat_range-In, subst,
}
use smrender.Bxtree.{Tree, depth, fan_out, word, bt_mask, bx_get_node1, bx_get_node0}
use smrender.Bxtree.Keys.{weight, weight-suc, bt_mask-weight, bt_mask-lt}
use smrender.ObjTree.{slot}
use smrender.Traverse.Entries.{entry, entries}
use native.Mathlib.Nat.{div-div-eq-div-mul}

module _ (A : Type 0) where
  entry-In :
      (key h : ℕ) (o : A) (c : Option A) → In (h, o) (entry A key c) → (h ≡ key) × (c ≡ some o)
  entry-In key h o none m = absurd m
  entry-In key h o (some x) (inl e) =
      (ap (λ (p : ℕ × A). p.0) e, ap (λ (p : ℕ × A). some p.1) (sym e))
  entry-In key h o (some x) (inr m) = absurd m

  -- a prefix of an id, and the digit behind it
  split_prefix : (left h : ℕ) → (h / weight left) / 16 ≡ h / weight (suc left)
  split_prefix left h =
      div-div-eq-div-mul h (weight left) 16 ∙ ap (λ w. h / w) (sym (weight-suc left))

  below_sound :
      (left : ℕ) (t : Tree A left) (i key d h : ℕ) (o : A)
      → d + left ≡ depth
      → In (h, o) (entries A left t (i, 1) key)
      → (h / weight left ≡ key) × (slot A (bx_get_node1 A left t h d) i ≡ some o)
  unfolding entries bx_get_node1
  below_sound zero none i key d h o e m = absurd m
  below_sound zero (some n) i key d h o e m =
      let (j, lo, hi, at) = In-flat_range _ 1 i (λ j. entry A key (n j)) m in
      let (this, found) = entry-In key h o (n j) at in
      let eq : j ≡ i = omega arith in (omega arith, rw (← eq) found)
  below_sound (suc left) none i key d h o e m = absurd m
  below_sound (suc left) (some n) i key d h o e m =
      let (j, lo, hi, at) =
        In-flat_range _ fan_out 0 (λ j. entries A left (n j) (i, 1) (key * fan_out + j)) m in
      let (this, found) =
        below_sound left (n j) i (key * fan_out + j) (d + 1) h o (omega arith) at in
      let digit : bt_mask h d ≡ j = omega (arith, bt_mask-weight left h d e) in
      (omega (arith, split_prefix left h), rw digit found)

  below_complete :
      (left : ℕ) (t : Tree A left) (i d h : ℕ) (o : A)
      → d + left ≡ depth
      → slot A (bx_get_node1 A left t h d) i ≡ some o
      → In (h, o) (entries A left t (i, 1) (h / weight left))
  unfolding entries bx_get_node1
  below_complete zero none i d h o e m = cc
  below_complete zero (some n) i d h o e m =
      flat_range-In _ 1 i i _ (omega arith) (omega arith) here
    where
      whole : h / 1 ≡ h
      whole = omega arith

      here : In (h, o) (entry A (h / 1) (n i))
      here = rw (m, whole) (inl refl)
  below_complete (suc left) none i d h o e m = cc
  below_complete (suc left) (some n) i d h o e m =
      flat_range-In _ fan_out 0 (bt_mask h d) _ (omega arith) (omega (arith, bt_mask-lt h d)) (
        subst (λ key. In (h, o) (entries A left (n (bt_mask h d)) (i, 1) key))
          (omega (arith, bt_mask-weight left h d e, split_prefix left h))
          (below_complete left (n (bt_mask h d)) i (d + 1) h o (omega arith) m))

  -- The list holds an id with an object exactly if a lookup of that id finds the object.
  pub entries-get :
      (t : Tree A depth) (i h : ℕ) (o : A)
      → h < word
      → In (h, o) (entries A depth t (i, 1) 0) ↔ (slot A (bx_get_node0 A t h) i ≡ some o)
  unfolding bx_get_node0
  entries-get t i h o w = (
    λ m. (below_sound depth t i 0 0 h o refl m).1,
    λ e.
        subst (λ key. In (h, o) (entries A depth t (i, 1) key)) top
          (below_complete depth t i 0 h o refl e),
  )
    where
      top : h / weight depth ≡ 0
      top = omega arith
