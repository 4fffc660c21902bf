-- ===== src/Smem/Pages.antt =====
-- The number of pages that sm_alloc takes.
use smrender.Base.{
  ℕ, ◌+◌, ◌*◌, ◌/◌, ◌<◌, ◌≡◌, refl, inl, inr, Bool, true, not, ◌&&◌, none, List, [], ◌∷◌, arith,
  ltb, leb, Bool-cases, false-true,
}
use native.Mathlib.Nat.{div-eq_of_lt-le}
use smrender.Smem.{Block, SmMem, sm_pages, put_front, first_fit, sm_alloc, alloc_from, alloc_new}

-- The loop of sm_alloc finds no block if all free blocks are smaller.
unfoldable pub are_smaller : ℕ → List Block → Bool
are_smaller size [] = true
are_smaller size (b ∷ l) = not (leb size b.size) && are_smaller size l

first_fit-none : (size : ℕ) (l : List Block) → are_smaller size l ≡ true → first_fit size l ≡ none
unfolding are_smaller first_fit put_front
first_fit-none size [] h = refl
first_fit-none size (b ∷ l) h = elim (Bool-cases (leb size b.size)) [
  | inl e ↦ absurd (false-true (rw e at h))
  | inr e ↦ rw (e, first_fit-none size l (rw e at h)) refl
]

-- SM_PAGES is a page short from two pages and one byte on.
sm_pages_short :
    (page_size : ℕ)
    → 0 < page_size
    → sm_pages page_size (2 * page_size + 1) * page_size ≡ 2 * page_size
unfolding sm_pages
sm_pages_short page_size h =
    let one : (2 * page_size + 1) / (page_size + 1) ≡ 1 =
      div-eq_of_lt-le {k = 1} (page_size + 1) {m = 2 * page_size + 1} (omega arith) (omega arith) in
    rw one refl

-- sm_alloc of two pages and one byte, if no free block has as much, gets two pages and calls exit().
pub sm_alloc_exit :
    (page_size addr : ℕ) (mem : SmMem)
    → 0 < page_size
    → are_smaller (2 * page_size + 1) mem.free_list ≡ true
    → sm_alloc page_size addr (2 * page_size + 1) mem ≡ none
unfolding sm_alloc
sm_alloc_exit page_size addr mem h smaller =
    rw (first_fit-none (2 * page_size + 1) mem.free_list smaller, sm_pages_short page_size h)
      (unfold alloc_from in
        unfold alloc_new in
        let e : ltb (2 * page_size) (2 * page_size + 1) ≡ true = ground arith in rw e refl)
