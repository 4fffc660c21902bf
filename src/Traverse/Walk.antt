-- ===== src/Traverse/Walk.antt =====
-- `traverse` is a walk along the list of entries that stops at the first return value that is
-- not 0.
use smrender.Base.{
  ℕ, zero, suc, ◌+◌, ◌*◌, ◌≡◌, refl, ◌∙◌, inl, inr, Bool, false, Option, none, some, List, [], ◌∷◌,
  ◌++◌, if◌then◌else◌, Bool-cases, ℤ, pos, negsuc, nonzero, flat_range,
}
use smrender.Bxtree.{Node, depth, fan_out}
use smrender.Traverse.{
  Handler, leaf_slots, break_on, leaf_slot, leaf_loop, inner_slot, inner_loop, traverse_node,
  traverse_checked, traverse,
}
use smrender.Traverse.Entries.{entry, entries}

module _ {ℓ κ} {A : Type ℓ} {S : Type κ} (dhandler : Handler A S) where
  -- The handler along a list of objects, up to the first error.
  unfoldable pub walk : List (ℕ × A) → S → S × ℤ
  walk [] s = (s, pos 0)
  walk ((key, o) ∷ es) s =
      let r = dhandler o s in let rest = walk es r.0 in if nonzero r.1 then r else rest

  walk-append :
      (xs ys : List (ℕ × A)) (s : S) → walk (xs ++ ys) s ≡ break_on (walk xs s) (λ s' e. walk ys s')
  unfolding walk break_on
  walk-append [] ys s = refl
  walk-append ((key, o) ∷ xs) ys s = elim (Bool-cases (nonzero (dhandler o s).1)) [
    | inl e ↦ rw (e, e)
    | inr e ↦ rw e (walk-append xs ys (dhandler o s).0)
  ]

  break-congr :
      (r : S × ℤ) (f g : S → ℤ → S × ℤ)
      → ((s : S) → f s (pos 0) ≡ g s (pos 0))
      → break_on r f ≡ break_on r g
  unfolding break_on
  break-congr (s, pos zero) f g same = same s
  break-congr (s, pos (suc n)) f g same = refl
  break-congr (s, negsuc n) f g same = refl

  break-walk :
      (r : S × ℤ) (rest : S → ℤ → S × ℤ) (es : List (ℕ × A))
      → ((s : S) → rest s (pos 0) ≡ walk es s)
      → break_on r rest ≡ (if nonzero r.1 then r else walk es r.0)
  unfolding break_on
  break-walk (s, pos zero) rest es same = same s
  break-walk (s, pos (suc n)) rest es same = refl
  break-walk (s, negsuc n) rest es same = refl

  break_walk-append :
      (r : S × ℤ) (xs es : List (ℕ × A)) (s : S) (rest : S → ℤ → S × ℤ)
      → r ≡ walk xs s
      → ((s : S) → rest s (pos 0) ≡ walk es s)
      → break_on r rest ≡ walk (xs ++ es) s
  break_walk-append r xs es s rest e same =
      rw (e, walk-append) (break-congr (walk xs s) rest (λ s' e. walk es s') same)

  module _ (int_ : S → Bool) (never : (s : S) → int_ s ≡ false) where
    leaf_slot-walk :
        (o : Option A) (key : ℕ) (rest : S → ℤ → S × ℤ) (es : List (ℕ × A)) (s : S)
        → ((s : S) → rest s (pos 0) ≡ walk es s)
        → leaf_slot int_ dhandler o rest s (pos 0) ≡ walk (entry A key o ++ es) s
    unfolding leaf_slot
    leaf_slot-walk none key rest es s same = same s
    leaf_slot-walk (some o) key rest es s same =
        break-walk (dhandler o s) rest es same ∙ unfold walk in refl

    leaf_loop-walk :
        (next : ℕ → Option A) (k i key : ℕ) (s : S)
        → leaf_loop int_ dhandler next k i s (pos 0)
          ≡ walk (flat_range k i (λ j. entry A key (next j))) s
    unfolding leaf_loop flat_range
    leaf_loop-walk next zero i key s = unfold walk in refl
    leaf_loop-walk next (suc k) i key s =
        leaf_slot-walk (next i) key _ _ s (λ s'. leaf_loop-walk next k (i + 1) key s')

    inner_slot-walk {μ} :
        {B : Type μ} (o : Option B) (visit : B → S → S × ℤ) (xs : Option B → List (ℕ × A))
        (rest : S → ℤ → S × ℤ) (es : List (ℕ × A)) (s : S)
        → xs none ≡ []
        → ((n : B) (s : S) → visit n s ≡ walk (xs (some n)) s)
        → ((s : S) → rest s (pos 0) ≡ walk es s)
        → inner_slot int_ dhandler o visit rest s ≡ walk (xs o ++ es) s
    unfolding inner_slot
    inner_slot-walk none visit xs rest es s nil here same = rw nil (same s)
    inner_slot-walk (some n) visit xs rest es s nil here same =
        break_walk-append (visit n s) (xs (some n)) es s rest (here n s) same

    inner_loop-walk {μ} :
        {B : Type μ} (next : ℕ → Option B) (visit : B → S → S × ℤ)
        (xs : ℕ → Option B → List (ℕ × A)) (k i : ℕ) (s : S)
        → ((j : ℕ) → xs j none ≡ [])
        → ((j : ℕ) (n : B) (s : S) → visit n s ≡ walk (xs j (some n)) s)
        → inner_loop int_ dhandler next visit k i s ≡ walk (flat_range k i (λ j. xs j (next j))) s
    unfolding inner_loop flat_range
    inner_loop-walk next visit xs zero i s nil here = unfold walk in refl
    inner_loop-walk next visit xs (suc k) i s nil here =
        inner_slot-walk (next i) visit (xs i) _ _ s (nil i) (here i)
          (λ s'. inner_loop-walk next visit xs k (i + 1) s' nil here)

    entries-none : (left : ℕ) (slots : ℕ × ℕ) (key : ℕ) → entries A left none slots key ≡ []
    unfolding entries
    entries-none zero slots key = refl
    entries-none (suc left) slots key = refl

    traverse_node-walk :
        (left : ℕ) (nt : Node A left) (slots : ℕ × ℕ) (key : ℕ) (s : S)
        → traverse_node int_ dhandler left nt slots s ≡ walk (entries A left (some nt) slots key) s
    unfolding traverse_node entries
    traverse_node-walk zero nt (sidx, cnt) key s = leaf_loop-walk nt cnt sidx key s
    traverse_node-walk (suc left) nt slots key s =
        inner_loop-walk nt _ (λ j c. entries A left c slots (key * fan_out + j)) fan_out 0 s
          (λ j. entries-none left slots (key * fan_out + j))
          (λ j n s'. rw (never s') (traverse_node-walk left n slots (key * fan_out + j) s'))

    -- Without interruption `traverse` of a tree calls the handler for the objects at the selected
    -- slots, in the order of the unsigned ids, up to the first call that does not return 0, and
    -- returns what that one returned, or 0.
    pub traverse-walk :
        (nt : Node A depth) (idx : ℤ) (slots : ℕ × ℕ) (s : S)
        → leaf_slots idx ≡ some slots
        → traverse int_ dhandler (some nt) idx s ≡ walk (entries A depth (some nt) slots 0) s
    unfolding traverse traverse_checked
    traverse-walk nt idx slots s e = rw (never s, e) (traverse_node-walk depth nt slots 0 s)
