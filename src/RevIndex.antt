-- ===== src/RevIndex.antt =====
-- The reverse index of src/smcore.c: for each object the list of the ways and relations that it is a
-- part of, in a tree like that of the objects. A list of pointers up to a NULL is a `List` of the
-- addresses, none of which is NULL.
pub mod Members
pub mod Ways
pub mod Insert
use smrender.Base.{
  take, drop, set, ℕ, suc, ◌+◌, ◌*◌, Bool, false, Option, none, some, List, [], ◌∷◌, ◌++◌, ◌==◌,
  if◌then◌else◌, is_some, length, get_elem?, ℤ, pos, ltb_ℤ, minus_one,
}
use smrender.Bxtree.{Tree, Stats, depth}
use smrender.ObjTree.{put_object0, get_object0}

-- get_rev_index of a list that is not NULL: the index of `o`, or of the NULL behind the list.
unfoldable pub get_rev_index : List ℕ → ℕ → ℕ
get_rev_index [] o = 0
get_rev_index (x ∷ optr) o = let rest = get_rev_index optr o in if o == x then 0 else suc rest

-- The int returned, and the tree.
pub record Indexed : Type 0 where
  pub result : ℤ
  pub tree : Tree (List ℕ) depth
  pub stats : Stats

-- `granted` says whether realloc() of a number of bytes does not fail.
module _ (granted : ℕ → Bool) where
  -- realloc() of a list, and the pointer at its end.
  unfoldable pub append_ptr : Tree (List ℕ) depth → Stats → ℕ → ℕ → List ℕ → ℕ → Indexed
  append_ptr tree stats id idx optr o =
      if granted (8 * (length optr + 2))
      then (let r = put_object0 (List ℕ) false tree stats id (some (optr ++ o ∷ [])) (pos idx) in
          record { result = pos 0; tree = r.tree; stats = r.stats })
      else record { result = minus_one; tree = tree; stats = stats }

  -- add_rev_ptr, on the list that get_object0() found.
  unfoldable pub add_to : Tree (List ℕ) depth → Stats → ℕ → ℕ → Option (List ℕ) → ℕ → Indexed
  unfolding append_ptr get_rev_index
  add_to tree stats id idx none o = append_ptr tree stats id idx [] o
  add_to tree stats id idx (some optr) o =
      if is_some (get_elem? optr (get_rev_index optr o))
      then record { result = pos 1; tree = tree; stats = stats }
      else append_ptr tree stats id idx optr o

  unfoldable pub add_rev_ptr : Tree (List ℕ) depth → Stats → ℕ → ℕ → ℕ → Indexed
  add_rev_ptr tree stats id idx o =
      add_to tree stats id idx (get_object0 (List ℕ) tree id (pos idx)) o

  -- if (add_rev_ptr(...) == -1) return -1; otherwise the loop goes on.
  unfoldable pub go_on : Indexed → (Tree (List ℕ) depth → Stats → Indexed) → Indexed
  go_on r rest = let next = rest r.tree r.stats in if ltb_ℤ r.result (pos 0) then r else next

  -- for (i = 0; i < w->ref_cnt; i++); `node` tells whether a node is in memory.
  unfoldable pub rev_index_way_nodes :
      (ℕ → Bool) → ℕ → List ℕ → Tree (List ℕ) depth → Stats → Indexed
  rev_index_way_nodes node w [] tree stats = record { result = pos 0; tree = tree; stats = stats }
  rev_index_way_nodes node w (id ∷ ref) tree stats =
      let skipped = rev_index_way_nodes node w ref tree stats in
      let indexed = go_on (add_rev_ptr tree stats id 0 w) (rev_index_way_nodes node w ref) in
      if node id then indexed else skipped

  -- The same for the members of a relation, as their types less 1 and their ids.
  unfoldable pub rev_index_rel_nodes :
      (ℕ → ℕ → Bool) → ℕ → List (ℕ × ℕ) → Tree (List ℕ) depth → Stats → Indexed
  rev_index_rel_nodes present r [] tree stats = record {
    result = pos 0;
    tree = tree;
    stats = stats;
  }
  rev_index_rel_nodes present r ((idx, id) ∷ mem) tree stats =
      let skipped = rev_index_rel_nodes present r mem tree stats in
      let indexed = go_on (add_rev_ptr tree stats id idx r) (rev_index_rel_nodes present r mem) in
      if present idx id then indexed else skipped

  -- What insert_refs returns, and the references of the way behind it.
  pub record Inserted : Type 0 where
    pub result : ℤ
    pub ref : List ℕ
    pub tree : Tree (List ℕ) depth
    pub stats : Stats

  -- The test of what add_rev_ptr() returned, in the loop of insert_refs.
  unfoldable pub insert_next :
      Indexed → List ℕ → (Tree (List ℕ) depth → Stats → Inserted) → Inserted
  insert_next r ref rest =
      let next = rest r.tree r.stats in
      if ltb_ℤ r.result (pos 0)
      then record { result = minus_one; ref = ref; tree = r.tree; stats = r.stats }
      else next

  -- for (int i = 0; i < n_cnt; i++) w->ref[i + pos] = n[i]->obj.id, with the index i + pos
  unfoldable pub insert_loop : ℕ → List ℕ → ℕ → List ℕ → Tree (List ℕ) depth → Stats → Inserted
  insert_loop w [] at ref tree stats = record {
    result = pos 0;
    ref = ref;
    tree = tree;
    stats = stats;
  }
  insert_loop w (id ∷ ids) at ref tree stats =
      insert_next (add_rev_ptr tree stats id 0 w) (set ref at id)
        (insert_loop w ids (at + 1) (set ref at id))

  -- memmove() of the references from `at` on to the end of the array, which realloc_refs() has made
  -- longer by `grown`, the contents of which are not known.
  unfoldable pub make_room : List ℕ → List ℕ → ℕ → List ℕ
  make_room ref grown at =
      take at ref ++ (take (length grown) (drop at (ref ++ grown)) ++ drop at ref)

  -- insert_refs of the ids of nodes `ids` at the index `at`
  unfoldable pub insert_refs :
      ℕ → List ℕ → List ℕ → List ℕ → ℕ → Tree (List ℕ) depth → Stats → Inserted
  insert_refs w ref grown ids at tree stats =
      if granted (8 * (length ref + length ids))
      then insert_loop w ids at (make_room ref grown at) tree stats
      else record { result = minus_one; ref = ref; tree = tree; stats = stats }
