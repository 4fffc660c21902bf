-- ===== src/Tests/Memory.antt =====
-- The memory pool with pages of 10 bytes.
use smrender.Base.{◌*◌, ◌≡◌, refl, true, none, some, List, [], ◌∷◌, arith}
use smrender.Smem.{
  Block, SmMem, sm_pages, front, behind, first_fit, allocated, sm_alloc, alloc_from, alloc_new,
  sm_free, consolidate_free_list, consolidate_from, consolidate_while, is_fragment, joins,
  join_blocks, counted, stays, frag_cnt,
}
use smrender.Smem.Cover.{cover}
use smrender.Smem.Alloc.{IsDisjoint, IsFresh, sm_alloc-IsAllocated, sm_free-IsDisjoint}
use smrender.Smem.Passes.{consolidate_while_two_rounds}
use smrender.Smem.Pages.{are_smaller, sm_alloc_exit}

abbrev empty_pool : SmMem
empty_pool = record { alloc_list = []; free_list = [] }

-- The pool behind sm_alloc(4), with new pages at 100
abbrev one_block : SmMem
one_block = record {
  alloc_list = record { addr = 100; size = 4 } ∷ [];
  free_list = record { addr = 104; size = 6 } ∷ [];
}

sm_alloc-one_block : sm_alloc 10 100 4 empty_pool ≡ some (100, one_block)
unfolding sm_alloc alloc_from alloc_new first_fit allocated front behind sm_pages
sm_alloc-one_block = refl

empty_pool-IsDisjoint : IsDisjoint empty_pool
unfolding IsDisjoint cover
empty_pool-IsDisjoint a = omega arith

empty_pool-IsFresh : IsFresh 100 (sm_pages 10 4 * 10) empty_pool
unfolding IsFresh cover
empty_pool-IsFresh a h = omega arith

sm_alloc-IsAllocated_example :
    IsDisjoint one_block × (one_block.alloc_list ≡ record { addr = 100; size = 4 } ∷ [])
sm_alloc-IsAllocated_example =
    sm_alloc-IsAllocated 10 100 4 100 empty_pool one_block empty_pool-IsDisjoint empty_pool-IsFresh
      sm_alloc-one_block

one_block-IsDisjoint : IsDisjoint one_block
one_block-IsDisjoint =
    (sm_alloc-IsAllocated 10 100 4 100 empty_pool one_block empty_pool-IsDisjoint empty_pool-IsFresh
      sm_alloc-one_block).0

sm_free-IsDisjoint_example : IsDisjoint (sm_free 10 100 one_block)
sm_free-IsDisjoint_example = sm_free-IsDisjoint 10 100 one_block one_block-IsDisjoint

-- What sm_free leaves of two pages of which 12 and 5 bytes were in use: 20 bytes do not fit in a page,
-- so the 3 bytes at the end stay a fragment, and the loop has no end.
abbrev two_pages : List Block
two_pages = record { addr = 0; size = 17 } ∷ record { addr = 17; size = 3 } ∷ []

two_pages-rounds : consolidate_while 2 10 two_pages ≡ none
unfolding consolidate_while consolidate_free_list consolidate_from is_fragment joins join_blocks
    counted stays frag_cnt
two_pages-rounds = refl

consolidate_while_two_rounds_example :
    consolidate_while 1000 10 two_pages ≡ consolidate_while 2 10 two_pages
consolidate_while_two_rounds_example = consolidate_while_two_rounds 998 10 two_pages

none_smaller : are_smaller 21 [] ≡ true
unfolding are_smaller
none_smaller = refl

sm_alloc_exit_example : sm_alloc 10 100 21 empty_pool ≡ none
sm_alloc_exit_example = sm_alloc_exit 10 100 empty_pool (omega arith) none_smaller
