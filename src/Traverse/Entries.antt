-- ===== src/Traverse/Entries.antt =====
-- The objects of a tree with their ids, in the order of the slots.
use smrender.Base.{ℕ, zero, suc, ◌+◌, ◌*◌, Option, none, some, List, [], ◌∷◌, flat_range}
use smrender.Bxtree.{Tree, fan_out}

module _ {ℓ} (A : Type ℓ) where
  abbrev pub entry : ℕ → Option A → List (ℕ × A)
  entry key none = []
  entry key (some o) = (key, o) ∷ []

  -- `key` holds the digits above the node, so a leaf is reached with the whole id.
  unfoldable pub entries : (left : ℕ) → Tree A left → ℕ × ℕ → ℕ → List (ℕ × A)
  entries zero none slots key = []
  entries zero (some n) (sidx, cnt) key = flat_range cnt sidx (λ i. entry key (n i))
  entries (suc left) none slots key = []
  entries (suc left) (some n) slots key =
      flat_range fan_out 0 (λ i. entries left (n i) slots (key * fan_out + i))
