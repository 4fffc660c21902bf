-- ===== src/Bxtree.antt =====
-- libsmrender/bxtree.c and bxtree.h: the radix tree that holds every object.
pub mod Keys
pub mod Lookup
pub mod Memory
use smrender.Base.{
  ℕ, zero, suc, ◌+◌, ◌-◌, ◌*◌, ◌/◌, ◌%◌, ◌^◌, Option, none, some, update, for_range,
}

-- configure.ac defines `BX_RES` as 4 and `bx_hash_t` as `int64_t`.
abbrev pub bx_res : ℕ
bx_res = 4

abbrev pub hash_bits : ℕ
hash_bits = 64

-- 1 << BX_RES, the slots of a node.
abbrev pub fan_out : ℕ
fan_out = 16

-- sizeof(bx_hash_t) * 8 / BX_RES, the levels below the root.
abbrev pub depth : ℕ
depth = 16

-- A hash is the bit pattern of the `int64_t`, so the shift brings in zeros; the mask drops them.
pub bt_mask : ℕ → ℕ → ℕ
bt_mask x y = x / 2 ^ (hash_bits - (y + 1) * bx_res) % 2 ^ bx_res

-- `bx_node_t`: its slots lead to nodes, or to objects where `left`, the number of levels below,
-- is 0. The array is calloc'ed, and is read and written at `bt_mask` or a tested index only.
abbrev pub Node {ℓ} : Type ℓ → ℕ → Type ℓ
Node A zero = ℕ → Option A
Node A (suc left) = ℕ → Option (Node A left)

-- `bx_node_t *`, NULL being `none`. Each node is reached by one pointer only.
abbrev pub Tree {ℓ} : Type ℓ → ℕ → Type ℓ
Tree A left = Option (Node A left)

-- The memory counters, all 64 bits wide: bytes by `size_t`, and a `long` for the balance of calls.
pub record Stats : Type 0 where
  pub mem_alloc : ℕ
  pub mem_free : ℕ
  pub malloc_cnt : ℕ

abbrev pub word : ℕ
word = 2 ^ 64

-- sizeof(bx_node_t)
abbrev pub node_size : ℕ
node_size = 128

unfoldable pub bx_sizeof : Stats → ℕ
bx_sizeof st = (st.mem_alloc + word - st.mem_free) % word

-- What `bx_malloc` and `bx_free` do to the counters. A failing calloc ends the program.
unfoldable pub count_malloc : Stats → Stats
count_malloc st = record st {
  mem_alloc = (st.mem_alloc + node_size) % word;
  malloc_cnt = (st.malloc_cnt + 1) % word;
}

-- bx_free takes the size of the node from `mem_free_`, a size_t.
unfoldable pub bx_free : Stats → Stats
bx_free st = record st {
  mem_free = (st.mem_free + word - node_size) % word;
  malloc_cnt = (st.malloc_cnt + word - 1) % word;
}

module _ {ℓ} (A : Type ℓ) where
  -- calloc'ed: every slot is NULL.
  abbrev pub empty_node : (left : ℕ) → Node A left
  empty_node zero = λ i. none
  empty_node (suc left) = λ i. none

  unfoldable pub bx_malloc : (left : ℕ) → Stats → Node A left × Stats
  bx_malloc left st = (empty_node left, count_malloc st)

  -- create new empty node if 'this' doesn't exist
  unfoldable pub ensure : (left : ℕ) → Tree A left → Stats → Node A left × Stats
  ensure left none st = bx_malloc left st
  ensure left (some n) st = (n, st)

  -- `left` is `depth - d`: the test `d >= depth` is `left = 0`. The tree is returned; the pointer
  -- to the leaf node that C returns is the path of `h` in it.
  unfoldable pub bx_add_node1 : (left : ℕ) → Tree A left → ℕ → ℕ → Stats → Tree A left × Stats
  unfolding ensure bx_malloc
  bx_add_node1 zero node h d st = let (n, st') = ensure zero node st in (some n, st')
  bx_add_node1 (suc left) node h d st =
      let (n, st') = ensure (suc left) node st in
      let (c, st'') = bx_add_node1 left (n (bt_mask h d)) h (d + 1) st' in
      (some (update n (bt_mask h d) c), st'')

  -- The locks leave no step of another thread between the calls below.
  unfoldable pub bx_add_node0 : Tree A depth → ℕ → Stats → Tree A depth × Stats
  bx_add_node0 node h st = bx_add_node1 depth node h 0 st

  unfoldable pub bx_get_node1 : (left : ℕ) → Tree A left → ℕ → ℕ → Tree A zero
  bx_get_node1 zero node h d = node
  bx_get_node1 (suc left) none h d = none
  bx_get_node1 (suc left) (some n) h d = bx_get_node1 left (n (bt_mask h d)) h (d + 1)

  unfoldable pub bx_get_node0 : Tree A depth → ℕ → Tree A zero
  bx_get_node0 node h = bx_get_node1 depth node h 0

  -- `bn->next[idx] = p`, for the leaf node `bn` on the path of `h`.
  unfoldable pub store_leaf : (left : ℕ) → Tree A left → ℕ → ℕ → ℕ → Option A → Tree A left
  store_leaf zero none h d idx p = none
  store_leaf zero (some n) h d idx p = some (update n idx p)
  store_leaf (suc left) none h d idx p = none
  store_leaf (suc left) (some n) h d idx p =
      some (update n (bt_mask h d) (store_leaf left (n (bt_mask h d)) h (d + 1) idx p))

  unfoldable pub bx_free_tree0 : (left : ℕ) → Tree A left → Stats → Stats
  unfolding for_range bx_free
  bx_free_tree0 left none st = st
  bx_free_tree0 zero (some n) st = bx_free st
  bx_free_tree0 (suc left) (some n) st =
      bx_free (for_range fan_out 0 (λ i. bx_free_tree0 left (n i)) st)
