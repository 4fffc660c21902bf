-- ===== src/Traverse/InOrder.antt =====
-- `traverse` against the lookups in the tree.
use smrender.Base.{ℕ, ◌<◌, ◌≡◌, refl, sym, ◌↔◌, Bool, false, some, List, lt→ltb, pos, In, subst}
use smrender.Bxtree.{Node, depth, word, fan_out}
use smrender.ObjTree.{get_object0}
use smrender.ObjTree.Laws.{get_object0-lt}
use smrender.Traverse.{Handler, leaf_slots, traverse}
use smrender.Traverse.Entries.{entries}
use smrender.Traverse.Walk.{walk, traverse-walk}
use smrender.Traverse.Order.{Ascending, entries-Ascending}
use smrender.Traverse.Lookup.{entries-get}

in_range : (i : ℕ) → i < fan_out → leaf_slots (pos i) ≡ some (i, 1)
unfolding leaf_slots
in_range i h = rw (lt→ltb i fan_out h) refl

module _ {κ} {A : Type 0} {S : Type κ} (dhandler : Handler A S) (int_ : S → Bool) where
  -- Without interruption `traverse` at an index in range is a walk of the handler along a list of
  -- objects, up to the first return value that is not 0: the ids of the list ascend strictly as
  -- unsigned numbers, and it holds an id with an object exactly if get_object0() finds this object.
  pub traverse-get_object0 :
      (nt : Node A depth) (i : ℕ) (s : S)
      → ((s' : S) → int_ s' ≡ false)
      → i < fan_out
      → (es : List (ℕ × A)) × ((traverse int_ dhandler (some nt) (pos i) s ≡ walk dhandler es s)
          × (Ascending 0 word es
              × ((h : ℕ) (o : A)
                  → h < word
                  → In (h, o) es ↔ (get_object0 A (some nt) h (pos i) ≡ some o))))
  traverse-get_object0 nt i s never hi = (
    entries A depth (some nt) (i, 1) 0,
    (
      traverse-walk dhandler int_ never nt (pos i) (i, 1) s (in_range i hi),
      (
        entries-Ascending A (some nt) i,
        λ h o hh.
            subst (λ r. In (h, o) (entries A depth (some nt) (i, 1) 0) ↔ (r ≡ some o))
              (sym (get_object0-lt A (some nt) h i hi)) (entries-get A (some nt) i h o hh),
      ),
    ),
  )
