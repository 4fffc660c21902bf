-- ===== src/Traverse.antt =====
-- src/smcore.c: `traverse`, which calls a function for each object of a tree, and
-- `execute_treefunc`, which does so for the three kinds of objects.
pub mod Walk
pub mod Entries
pub mod Order
pub mod Lookup
pub mod InOrder
use smrender.Base.{
  ℕ, zero, suc, ◌+◌, ◌-◌, Bool, Option, none, some, ltb, if◌then◌else◌, ℤ, pos, negsuc, nonzero,
  minus_one,
}
use smrender.Bxtree.{Node, Tree, depth, fan_out}

-- A handler, `dhandler(o, p)`, changes the state of the program and returns an int.
abbrev pub Handler {ℓ κ} : Type ℓ → Type κ → Type (ℓ ⊔ κ)
Handler A S = A → S → S × ℤ

-- The slots [sidx, eidx) of a leaf that `idx` selects, as their first and their number; none where
-- `idx` is out of range: (idx < -1) || (idx >= (1 << BX_RES)).
unfoldable pub leaf_slots : ℤ → Option (ℕ × ℕ)
leaf_slots (pos i) = if ltb i fan_out then some (i, 1) else none
leaf_slots (negsuc zero) = some (0, fan_out)
leaf_slots (negsuc (suc n)) = none

-- if (e) return e; otherwise the loop goes on with `rest`.
unfoldable pub break_on {ℓ} : {S : Type ℓ} → S × ℤ → (S → ℤ → S × ℤ) → S × ℤ
break_on (s, e) rest = let go = rest s e in if nonzero e then (s, e) else go

-- The flag `int_` is part of the state, and may be set by a handler (by a signal while it runs).
-- Timer, log lines and counters of traverse leave no trace in the result, and are left out.
module _ {ℓ κ} {A : Type ℓ} {S : Type κ} (int_ : S → Bool) (dhandler : Handler A S) where
  -- The body of the loop over the slots of a leaf.
  unfoldable pub leaf_slot : Option A → (S → ℤ → S × ℤ) → S → ℤ → S × ℤ
  unfolding break_on
  leaf_slot none rest s e = rest s e
  leaf_slot (some o) rest s e = break_on (dhandler o s) rest

  -- for (i = sidx, e = 0; i < eidx; i++), with the rounds left.
  unfoldable pub leaf_loop : (ℕ → Option A) → ℕ → ℕ → S → ℤ → S × ℤ
  unfolding leaf_slot
  leaf_loop next zero i s e = (s, e)
  leaf_loop next (suc k) i s e = leaf_slot (next i) (leaf_loop next k (i + 1)) s e

  -- if (nt->next[i]), on the slots of an inner node; `visit` is the recursive call.
  unfoldable pub inner_slot {μ} :
      {B : Type μ} → Option B → (B → S → S × ℤ) → (S → ℤ → S × ℤ) → S → S × ℤ
  unfolding break_on
  inner_slot none visit rest s = rest s (pos 0)
  inner_slot (some n) visit rest s = break_on (visit n s) rest

  -- for (i = 0; i < 1 << BX_RES; i++), and the return 0 behind it.
  unfoldable pub inner_loop {μ} :
      {B : Type μ} → (ℕ → Option B) → (B → S → S × ℤ) → ℕ → ℕ → S → S × ℤ
  unfolding inner_slot
  inner_loop next visit zero i s = (s, pos 0)
  inner_loop next visit (suc k) i s =
      inner_slot (next i) visit (λ s' e. inner_loop next visit k (i + 1) s') s

  -- The call behind the tests of `int_`, of NULL and of `idx`.
  unfoldable pub traverse_node : (left : ℕ) → Node A left → ℕ × ℕ → S → S × ℤ
  unfolding leaf_loop inner_loop
  traverse_node zero nt (sidx, cnt) s = leaf_loop nt cnt sidx s (pos 0)
  traverse_node (suc left) nt slots s =
      inner_loop nt
        (λ sub s'.
          let call = traverse_node left sub slots s' in if int_ s' then (s', pos 0) else call)
        fan_out 0 s

  unfoldable pub traverse_checked : Tree A depth → Option (ℕ × ℕ) → S → S × ℤ
  traverse_checked none slots s = (s, minus_one)
  traverse_checked (some nt) none s = (s, minus_one)
  traverse_checked (some nt) (some slots) s = traverse_node depth nt slots s

  unfoldable pub traverse : Tree A depth → ℤ → S → S × ℤ
  traverse nt idx s = if int_ s then (s, pos 0) else traverse_checked nt (leaf_slots idx) s

  -- for (i = 0, e = 0; i < NUM_OBJ_INDEX && !e; i++); the flag is dir == NODES_FIRST.
  unfoldable pub treefunc_loop : Bool → Tree A depth → ℕ → ℕ → S → ℤ → S × ℤ
  unfolding break_on
  treefunc_loop nodes_first nt zero i s e = (s, e)
  treefunc_loop nodes_first nt (suc k) i s e =
      break_on (traverse nt (if nodes_first then pos i else pos (2 - i)) s)
        (treefunc_loop nodes_first nt k (i + 1))

  unfoldable pub execute_treefunc : Bool → Tree A depth → S → S × ℤ
  unfolding treefunc_loop
  execute_treefunc nodes_first nt s = treefunc_loop nodes_first nt 3 0 s (pos 0)
