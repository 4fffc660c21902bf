-- ===== src/Bxtree/Memory.antt =====
-- The memory counters of the tree agree with the number of its nodes.
use smrender.Base.{
  sum_range-update, ℕ, zero, suc, ◌+◌, ◌-◌, ◌*◌, ◌%◌, ◌<◌, ◌≡◌, refl, ap, ◌∙◌, ◌≢◌, none, some,
  arith, ==_refl, update, for_range, sum_range, subst,
}
use smrender.Bxtree.{
  Tree, Stats, word, node_size, fan_out, bx_sizeof, count_malloc, bx_free, bt_mask, bx_add_node1,
  bx_free_tree0,
}
use smrender.Bxtree.Keys.{bt_mask-lt}

-- The counters stand for `n` nodes in use and for `k` calls of bx_malloc and bx_free together: both
-- make the difference of the byte counters larger.
pub record Accounts (st : Stats) (n k : ℕ) : Type 0 where
  pub balance : st.malloc_cnt ≡ n % word
  pub bytes : st.mem_alloc ≡ (st.mem_free + k * node_size) % word
  pub freed : st.mem_free < word

recount : {st : Stats} {n n' k k' : ℕ} → n ≡ n' → k ≡ k' → Accounts st n k → Accounts st n' k'
recount {st} {k' = k'} e f a = subst (λ x. Accounts st x k') e (subst (Accounts st _) f a)

pub bx_sizeof-Accounts :
    {st : Stats} {n k : ℕ} → Accounts st n k → bx_sizeof st ≡ k * node_size % word
unfolding bx_sizeof
bx_sizeof-Accounts a = omega arith

count_malloc-Accounts :
    {st : Stats} {n k : ℕ} → Accounts st n k → Accounts (count_malloc st) (n + 1) (k + 1)
unfolding count_malloc
count_malloc-Accounts a = omega arith

bx_free-Accounts : {st : Stats} {n k : ℕ} → Accounts st (n + 1) k → Accounts (bx_free st) n (k + 1)
unfolding bx_free
bx_free-Accounts a = omega arith

module _ {ℓ} (A : Type ℓ) where
  unfoldable pub nodes : (left : ℕ) → Tree A left → ℕ
  nodes zero none = 0
  nodes zero (some n) = 1
  nodes (suc left) none = 0
  nodes (suc left) (some n) = 1 + sum_range fan_out 0 (λ i. nodes left (n i))

  free_slots-Accounts :
      (left c i m k : ℕ) (n : ℕ → Tree A left) {st : Stats}
      → ((t : Tree A left) (st' : Stats) (m' k' : ℕ)
          → Accounts st' (m' + nodes left t) k'
          → Accounts (bx_free_tree0 A left t st') m' (k' + nodes left t))
      → Accounts st (m + sum_range c i (λ j. nodes left (n j))) k
      → Accounts
          (for_range c i (λ j. bx_free_tree0 A left (n j)) st)
          m
          (k + sum_range c i (λ j. nodes left (n j)))
  unfolding for_range sum_range
  free_slots-Accounts left zero i m k n ih a = recount (omega arith) (omega arith) a
  free_slots-Accounts left (suc c) i m k n {st} ih a =
      let rest = sum_range c (i + 1) (λ j. nodes left (n j)) in
      recount refl (omega arith) (
        free_slots-Accounts left c (i + 1) m (k + nodes left (n i)) n ih
          (ih (n i) st (m + rest) k (recount (omega arith) refl a)))

  free_tree-Accounts :
      (left : ℕ) (t : Tree A left) (st : Stats) (m k : ℕ)
      → Accounts st (m + nodes left t) k
      → Accounts (bx_free_tree0 A left t st) m (k + nodes left t)
  unfolding nodes bx_free_tree0
  free_tree-Accounts zero none st m k a = recount (omega arith) (omega arith) a
  free_tree-Accounts zero (some n) st m k a = bx_free-Accounts a
  free_tree-Accounts (suc left) none st m k a = recount (omega arith) (omega arith) a
  free_tree-Accounts (suc left) (some n) st m k a = recount refl (omega arith) (
      bx_free-Accounts (
        free_slots-Accounts left fan_out 0 (m + 1) k n (free_tree-Accounts left)
          (recount (omega arith) refl a)))

  -- Freeing a tree takes exactly its nodes from the counter of the calls. But the number of bytes that
  -- bx_sizeof() gives grows by the size of these nodes: if it stood for `k` nodes before, it stands for
  -- as many more as the tree has, up to the width of size_t.
  pub bx_sizeof-free_tree :
      (left : ℕ) (t : Tree A left) (st : Stats) (m k : ℕ)
      → Accounts st (m + nodes left t) k
      → ((bx_free_tree0 A left t st).malloc_cnt ≡ m % word)
        × (bx_sizeof st ≡ k * node_size % word)
        × (bx_sizeof (bx_free_tree0 A left t st) ≡ (k + nodes left t) * node_size % word)
  bx_sizeof-free_tree left t st m k a =
      let after = free_tree-Accounts left t st m k a in
      (after.balance, bx_sizeof-Accounts a, bx_sizeof-Accounts after)

  -- The nodes below after a change of one slot.
  slots-update :
      (left x : ℕ) (n : ℕ → Tree A left) (c : Tree A left)
      → x < 16
      → sum_range fan_out 0 (λ j. nodes left (update n x c j)) + nodes left (n x)
        ≡ sum_range fan_out 0 (λ j. nodes left (n j)) + nodes left c
  slots-update left x n c h =
      sum_range-update 16 0 x (λ j. nodes left (n j)) (λ j. nodes left (update n x c j)) same
        (omega arith) (omega arith)
      ∙ ap (λ t. sum_range 16 0 (λ j. nodes left (n j)) + nodes left t) (rw ==_refl)
    where
      same : (j : ℕ) → j ≢ x → nodes left (update n x c j) ≡ nodes left (n j)
      same j ne = ap (nodes left) (ground arith)

  nodes-none : (left : ℕ) → nodes left none ≡ 0
  unfolding nodes
  nodes-none zero = refl
  nodes-none (suc left) = refl

  sum-empty : (left k i : ℕ) → sum_range k i (λ j. nodes left none) ≡ 0
  unfolding sum_range
  sum-empty left zero i = refl
  sum-empty left (suc k) i = omega (arith, nodes-none left, sum-empty left k (i + 1))

  -- The step of the recursion: a node's slot `x` is replaced by what the call on it returns.
  add_slot-Accounts :
      (left x m k : ℕ) (n : ℕ → Tree A left) {st st' : Stats} (c : Tree A left)
      → x < 16
      → ((m' k' : ℕ)
          → Accounts st (m' + nodes left (n x)) (k' + nodes left (n x))
          → Accounts st' (m' + nodes left c) (k' + nodes left c))
      → Accounts st
          (m + (1 + sum_range fan_out 0 (λ j. nodes left (n j))))
          (k + (1 + sum_range fan_out 0 (λ j. nodes left (n j))))
      → Accounts st'
          (m + (1 + sum_range fan_out 0 (λ j. nodes left (update n x c j))))
          (k + (1 + sum_range fan_out 0 (λ j. nodes left (update n x c j))))
  add_slot-Accounts left x m k n c h ih a =
      let all = sum_range fan_out 0 (λ j. nodes left (n j)) in
      let others = all - nodes left (n x) in
      let without = slots-update left x n none h in
      let with_new = slots-update left x n c h in
      recount (omega (arith, without, with_new, nodes-none left))
        (omega (arith, without, with_new, nodes-none left))
        (ih (m + 1 + others) (k + 1 + others) (
          recount (omega (arith, without, nodes-none left))
            (omega (arith, without, nodes-none left)) a))

  -- Adding a path counts exactly the nodes that it creates.
  pub add_node-Accounts :
      (left : ℕ) (t : Tree A left) (h d : ℕ) (st : Stats) (m k : ℕ)
      → Accounts st (m + nodes left t) (k + nodes left t)
      → Accounts
          (bx_add_node1 A left t h d st).1
          (m + nodes left (bx_add_node1 A left t h d st).0)
          (k + nodes left (bx_add_node1 A left t h d st).0)
  unfolding nodes bx_add_node1
  add_node-Accounts zero none h d st m k a =
      count_malloc-Accounts (recount (omega arith) (omega arith) a)
  add_node-Accounts zero (some n) h d st m k a = a
  add_node-Accounts (suc left) none h d st m k a =
      let empty = sum-empty left fan_out 0 in
      add_slot-Accounts left (bt_mask h d) m k (λ j. none) _ (bt_mask-lt h d)
        (add_node-Accounts left none h (d + 1) (count_malloc st))
        (recount (omega (arith, empty)) (omega (arith, empty)) (count_malloc-Accounts a))
  add_node-Accounts (suc left) (some n) h d st m k a =
      add_slot-Accounts left (bt_mask h d) m k n _ (bt_mask-lt h d)
        (add_node-Accounts left (n (bt_mask h d)) h (d + 1) st) a
