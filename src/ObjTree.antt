-- ===== src/ObjTree.antt =====
-- libsmrender/smutil.c: the object tree over bxtree.c, and the unique ids.
pub mod Laws
use smrender.Base.{
  ℕ, zero, suc, Bool, true, false, ◌&&◌, Option, none, some, ltb, if◌then◌else◌, is_some, ℤ, pos,
  negsuc, minus_one,
}
use smrender.Bxtree.{Tree, Stats, depth, fan_out, bx_add_node0, bx_get_node0, store_leaf}

-- What `put_object0_ctrl` leaves: its return value, the tree, the counters, and the variable that
-- `ctrl` points to (`none` where `ctrl` itself is NULL).
pub record Put {ℓ} (A : Type ℓ) : Type ℓ where
  pub result : ℤ
  pub tree : Tree A depth
  pub stats : Stats
  pub ctrl : Option (Option A)

-- if ((idx < 0) || (idx >= (1 << BX_RES))): the index, where it is in range.
abbrev pub slot_index : ℤ → Option ℕ
slot_index (pos i) = if ltb i fan_out then some i else none
slot_index (negsuc i) = none

module _ {ℓ} (A : Type ℓ) where
  -- bn->next[idx], through a pointer to a leaf that may be NULL.
  abbrev pub slot : Tree A zero → ℕ → Option A
  slot none idx = none
  slot (some n) idx = n idx

  -- *ctrl = v, where there is such a variable
  abbrev pub assign : Option (Option A) → Option A → Option (Option A)
  assign none v = none
  assign (some c) v = some v

  -- ctrl != NULL && *ctrl != NULL
  abbrev pub ctrl_set : Option (Option A) → Bool
  ctrl_set none = false
  ctrl_set (some c) = is_some c

  -- The flag is `tree == &obj_tree_`. `bx_add_node` never returns NULL.
  unfoldable pub put_at : Bool → Tree A depth × Stats → ℕ → Option A → ℕ → Option (Option A) → Put A
  put_at is_obj_tree (tree, stats) id p idx ctrl =
      let old = slot (bx_get_node0 A tree id) idx in
      if is_some old && is_some p && is_obj_tree && ctrl_set ctrl
      then record { result = minus_one; tree = tree; stats = stats; ctrl = assign ctrl old }
      else record {
        result = pos 0;
        tree = store_leaf A depth tree id 0 idx p;
        stats = stats;
        ctrl = assign ctrl old;
      }

  -- The body of `put_object0_ctrl` after the test of the index.
  unfoldable pub put_index :
      Option ℕ → Bool → Tree A depth → Stats → ℕ → Option A → Option (Option A) → Put A
  unfolding put_at
  put_index none is_obj_tree tree stats id p ctrl = record {
    result = minus_one;
    tree = tree;
    stats = stats;
    ctrl = ctrl;
  }
  put_index (some i) is_obj_tree tree stats id p ctrl =
      put_at is_obj_tree (bx_add_node0 A tree id stats) id p i ctrl

  unfoldable pub put_object0_ctrl :
      Bool → Tree A depth → Stats → ℕ → Option A → ℤ → Option (Option A) → Put A
  put_object0_ctrl is_obj_tree tree stats id p idx ctrl =
      put_index (slot_index idx) is_obj_tree tree stats id p ctrl

  unfoldable pub put_object0 : Bool → Tree A depth → Stats → ℕ → Option A → ℤ → Put A
  put_object0 is_obj_tree tree stats id p idx =
      put_object0_ctrl is_obj_tree tree stats id p idx none

  unfoldable pub get_index : Option ℕ → Tree A depth → ℕ → Option A
  get_index none tree id = none
  get_index (some i) tree id = slot (bx_get_node0 A tree id) i

  unfoldable pub get_object0 : Tree A depth → ℕ → ℤ → Option A
  get_object0 tree id idx = get_index (slot_index idx) tree id

-- type - 1, on an `int`
abbrev pub type_index : ℕ → ℤ
type_index zero = minus_one
type_index (suc t) = pos t

-- The operations on the static `obj_tree_`, whose objects tell their `id` and `type`.
module _ {ℓ} (A : Type ℓ) (obj_id obj_type : A → ℕ) where
  unfoldable pub put_object : Tree A depth → Stats → A → Put A
  put_object obj_tree stats o =
      put_object0 A true obj_tree stats (obj_id o) (some o) (type_index (obj_type o))

module _ {ℓ} (A : Type ℓ) where
  unfoldable pub get_object : Tree A depth → ℕ → ℕ → Option A
  get_object obj_tree type id = get_object0 A obj_tree id (type_index type)

  -- The body of `rem_object` on what `get_object` returned.
  unfoldable pub rem_found :
      Option A → Tree A depth → Stats → ℕ → ℕ → Option A × Tree A depth × Stats
  rem_found none obj_tree stats type id = (none, obj_tree, stats)
  rem_found (some o) obj_tree stats type id =
      let r = put_object0 A true obj_tree stats id none (type_index type) in
      (some o, r.tree, r.stats)

  unfoldable pub rem_object : Tree A depth → Stats → ℕ → ℕ → Option A × Tree A depth × Stats
  rem_object obj_tree stats type id = rem_found (get_object obj_tree type id) obj_tree stats type id
