-- ===== src/Smem.antt =====
-- The memory pool, src/smem.c. A list of control blocks is the list of what they describe.
pub mod Cover
pub mod Alloc
pub mod Passes
pub mod Pages
use smrender.Base.{
  ◌>>=◌, ℕ, zero, suc, ◌+◌, ◌-◌, ◌*◌, ◌/◌, Bool, ◌&&◌, Option, none, some, List, [], ◌∷◌, ltb, leb,
  ◌==◌, if◌then◌else◌, ℤ, sub_ℕ, nonzero,
}

-- struct sm_memblock
pub record Block : Type 0 where
  pub addr : ℕ
  pub size : ℕ

-- struct sm_mem
pub record SmMem : Type 0 where
  pub alloc_list : List Block
  pub free_list : List Block

-- SM_PAGES(x)
unfoldable pub sm_pages : ℕ → ℕ → ℕ
sm_pages page_size x = x / (page_size + 1) + 1

-- The block that block_alloc takes from the front of `mb`, and what is left of `mb`.
unfoldable pub front : Block → ℕ → Block
front mb size = record { addr = mb.addr; size = size }

unfoldable pub behind : Block → ℕ → Block
behind mb size = record { addr = mb.addr + size; size = mb.size - size }

unfoldable pub put_front : Block → Option (Block × List Block) → Option (Block × List Block)
put_front b none = none
put_front b (some (new, free_list)) = some (new, b ∷ free_list)

-- The loop of sm_alloc and its block_alloc: the block, and the free list behind it.
unfoldable pub first_fit : ℕ → List Block → Option (Block × List Block)
first_fit size [] = none
first_fit size (b ∷ free_list) =
    let rest = put_front b (first_fit size free_list) in
    if leb size b.size then some (front b size, behind b size ∷ free_list) else rest

unfoldable pub allocated : SmMem → Block × List Block → ℕ × SmMem
allocated mem (new, free_list) =
    (new.addr, record { alloc_list = new ∷ mem.alloc_list; free_list = free_list })

-- What sm_alloc does without a free block of the size: a block of new pages is put in front of the free
-- list. block_alloc calls exit(), which is none, if it is too small all the same.
unfoldable pub alloc_new : ℕ → SmMem → Block → Option (ℕ × SmMem)
alloc_new size mem new_free =
    if ltb new_free.size size
    then none
    else some (allocated mem (front new_free size, behind new_free size ∷ mem.free_list))

unfoldable pub alloc_from : ℕ → SmMem → Block → Option (Block × List Block) → Option (ℕ × SmMem)
alloc_from size mem new_free (some found) = some (allocated mem found)
alloc_from size mem new_free none = alloc_new size mem new_free

-- sm_alloc, where `addr` is what malloc() returns for new pages
unfoldable pub sm_alloc : ℕ → ℕ → ℕ → SmMem → Option (ℕ × SmMem)
sm_alloc page_size addr size mem =
    alloc_from size mem (record { addr = addr; size = sm_pages page_size size * page_size })
      (first_fit size mem.free_list)

-- block_free: the free list, or none where the block is lost ("cannot block_free()")
unfoldable pub block_free : Block → List Block → Option (List Block)
block_free mb [] = none
block_free mb (fb ∷ free_list) =
    let rest = block_free mb free_list in
    if fb.addr + fb.size == mb.addr
    then some (record { addr = fb.addr; size = fb.size + mb.size } ∷ free_list)
    else if mb.addr + mb.size == fb.addr
    then some (record { addr = fb.addr - mb.size; size = fb.size + mb.size } ∷ free_list)
    else if ltb mb.addr fb.addr
    then some (mb ∷ fb ∷ free_list)
    else (rest >>= λ l. some (fb ∷ l))

-- The free list behind consolidate_free_list, and how often frag_cnt is counted up and down.
pub record Consolidated : Type 0 where
  pub list : List Block
  pub up : ℕ
  pub down : ℕ

unfoldable pub is_fragment : ℕ → Block → ℕ
is_fragment page_size b = if ltb b.size page_size then 1 else 0

unfoldable pub joins : ℕ → Block → Block → Bool
joins page_size b next = (b.addr + b.size == next.addr) && leb (b.size + next.size) page_size

unfoldable pub join_blocks : Block → Block → Block
join_blocks b next = record { addr = b.addr; size = b.size + next.size }

unfoldable pub counted : ℕ → ℕ → Consolidated → Consolidated
counted up down c = record { list = c.list; up = up + c.up; down = down + c.down }

unfoldable pub stays : Block → Consolidated → Consolidated
stays b c = record { list = b ∷ c.list; up = c.up; down = c.down }

-- The loop of consolidate_free_list, at the block `b` with the others behind it.
unfoldable pub consolidate_from : ℕ → Block → List Block → Consolidated
consolidate_from page_size b [] = record { list = b ∷ []; up = is_fragment page_size b; down = 0 }
consolidate_from page_size b (next ∷ free_list) =
    let joined =
      counted (is_fragment page_size b) 1
        (consolidate_from page_size (join_blocks b next) free_list) in
    let goes_on =
      counted (is_fragment page_size b) 0 (stays b (consolidate_from page_size next free_list)) in
    if joins page_size b next then joined else goes_on

unfoldable pub consolidate_free_list : ℕ → List Block → Consolidated
consolidate_free_list page_size [] = record { list = []; up = 0; down = 0 }
consolidate_free_list page_size (b ∷ free_list) = consolidate_from page_size b free_list

-- The value of consolidate_free_list
unfoldable pub frag_cnt : Consolidated → ℤ
frag_cnt c = sub_ℕ c.up c.down

-- while (consolidate_free_list()); with the number of its rounds bounded by the fuel: none is no end.
unfoldable pub consolidate_while : ℕ → ℕ → List Block → Option (List Block)
consolidate_while zero page_size free_list = none
consolidate_while (suc fuel) page_size free_list =
    let c = consolidate_free_list page_size free_list in
    let more = consolidate_while fuel page_size c.list in
    if nonzero (frag_cnt c) then more else some c.list

-- The allocated block at the address, and the other ones
unfoldable pub take_block : ℕ → List Block → Option (Block × List Block)
take_block p [] = none
take_block p (b ∷ alloc_list) =
    let rest = put_front b (take_block p alloc_list) in
    if p == b.addr then some (b, alloc_list) else rest

-- The free list where a block is lost is the one that there was.
unfoldable pub or_lost : List Block → Option (List Block) → List Block
or_lost free_list none = free_list
or_lost free_list (some l) = l

-- sm_free behind its search; an illegal address changes nothing.
unfoldable pub free_taken : ℕ → SmMem → Option (Block × List Block) → SmMem
free_taken page_size mem none = mem
free_taken page_size mem (some (mb, alloc_list)) = record {
  alloc_list = alloc_list;
  free_list =
      (consolidate_free_list page_size (or_lost mem.free_list (block_free mb mem.free_list))).list;
}

unfoldable pub sm_free : ℕ → ℕ → SmMem → SmMem
sm_free page_size p mem = free_taken page_size mem (take_block p mem.alloc_list)
