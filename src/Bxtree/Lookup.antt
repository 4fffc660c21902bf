-- ===== src/Bxtree/Lookup.antt =====
-- What a lookup finds after `bx_add_node` and after a store into a leaf.
use smrender.Base.{
  ℕ, zero, suc, ◌+◌, ◌≡◌, refl, inl, inr, Option, none, some, arith, ◌==◌, if◌then◌else◌, ==_iff,
  ==_refl, Bool-cases, update,
}
use smrender.Bxtree.{
  count_malloc, Tree, Stats, empty_node, bt_mask, bx_add_node1, bx_get_node1, store_leaf,
}
use smrender.Bxtree.Keys.{same_path}

module _ {ℓ} (A : Type ℓ) where
  -- What `bx_add_node` makes of the leaf that it returns.
  abbrev pub ensured : Tree A zero → Tree A zero
  ensured none = some (empty_node A zero)
  ensured (some n) = some n

  abbrev pub assigned : ℕ → Option A → Tree A zero → Tree A zero
  assigned idx p none = none
  assigned idx p (some n) = some (update n idx p)

  get_none : (left h d : ℕ) → bx_get_node1 A left none h d ≡ none
  unfolding bx_get_node1
  get_none zero h d = refl
  get_none (suc left) h d = refl

  pub get-add :
      (left : ℕ) (t : Tree A left) (h k d : ℕ) (st : Stats)
      → bx_get_node1 A left (bx_add_node1 A left t h d st).0 k d ≡ (
          if same_path left h k d
          then ensured (bx_get_node1 A left t k d)
          else bx_get_node1 A left t k d)
  unfolding bx_get_node1 bx_add_node1 same_path
  get-add zero none h k d st = refl
  get-add zero (some n) h k d st = refl
  get-add (suc left) none h k d st = elim (Bool-cases (bt_mask k d == bt_mask h d)) [
    | inl e ↦
        rw ((==_iff _ _).0 e, ==_refl, get-add left none h k (d + 1) (count_malloc st), get_none)
    | inr e ↦ rw e (get_none left k (d + 1))
  ]
  get-add (suc left) (some n) h k d st = elim (Bool-cases (bt_mask k d == bt_mask h d)) [
    | inl e ↦ rw ((==_iff _ _).0 e, ==_refl) (get-add left (n (bt_mask h d)) h k (d + 1) st)
    | inr e ↦ rw e
  ]

  pub get-store :
      (left : ℕ) (t : Tree A left) (h k d idx : ℕ) (p : Option A)
      → bx_get_node1 A left (store_leaf A left t h d idx p) k d ≡ (
          if same_path left h k d
          then assigned idx p (bx_get_node1 A left t k d)
          else bx_get_node1 A left t k d)
  unfolding bx_get_node1 store_leaf same_path
  get-store zero none h k d idx p = refl
  get-store zero (some n) h k d idx p = refl
  get-store (suc left) none h k d idx p = ground arith
  get-store (suc left) (some n) h k d idx p = elim (Bool-cases (bt_mask k d == bt_mask h d)) [
    | inl e ↦ rw ((==_iff _ _).0 e, ==_refl) (get-store left (n (bt_mask h d)) h k (d + 1) idx p)
    | inr e ↦ rw e
  ]
