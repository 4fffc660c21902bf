-- ===== src/Smem/Passes.antt =====
-- A second consolidation of the free list changes nothing.
use smrender.Base.{
  ℕ, zero, suc, ◌+◌, ◌≤◌, ◌≡◌, refl, ap, inl, inr, Bool, true, false, not, ◌&&◌, none, List, [],
  ◌∷◌, arith, leb, ◌==◌, Bool-cases, nonzero, false-true, true-false,
}
use smrender.Smem.{
  Block, joins, join_blocks, counted, stays, consolidate_from, consolidate_free_list, frag_cnt,
  consolidate_while,
}

-- What consolidate_free_list leaves starts where the list started, and its first block is not smaller.
consolidate_from_head :
    (page_size : ℕ) (b : Block) (l : List Block)
    → (h : Block) × (t : List Block) × ((consolidate_from page_size b l).list ≡ h ∷ t)
      × (h.addr ≡ b.addr)
      × (b.size ≤ h.size)
unfolding consolidate_from counted stays join_blocks
consolidate_from_head page_size b [] = (b, [], refl, refl, omega arith)
consolidate_from_head page_size b (next ∷ l) = elim (Bool-cases (joins page_size b next)) [
  | inl e ↦
      let (h, t, eq, start, size) = consolidate_from_head page_size (join_blocks b next) l in
      (h, t, rw e eq, start, omega arith)
  | inr e ↦ (b, (consolidate_from page_size next l).list, rw e refl, refl, omega arith)
]

-- A block that does not join_blocks the next one does not join_blocks one that starts there and is not smaller.
joins_bigger :
    (page_size : ℕ) (b next h : Block)
    → joins page_size b next ≡ false
    → h.addr ≡ next.addr
    → next.size ≤ h.size
    → joins page_size b h ≡ false
unfolding joins
joins_bigger page_size b next h e start size = elim (Bool-cases (b.addr + b.size == next.addr)) [
  | inl eq ↦ elim (Bool-cases (leb (b.size + next.size) page_size)) [
    | inl fits ↦ absurd (true-false (rw (eq, fits) at e))
    | inr big ↦
        let bigger : leb (b.size + h.size) page_size ≡ false = ground arith in
        rw (start, eq, bigger) refl
  ]
  | inr ne ↦ rw (start, ne) refl
]

-- No block of the list joins the one behind it.
unfoldable pub is_consolidated : ℕ → Block → List Block → Bool
is_consolidated page_size b [] = true
is_consolidated page_size b (next ∷ l) =
    not (joins page_size b next) && is_consolidated page_size next l

unfoldable pub is_consolidated_list : ℕ → List Block → Bool
is_consolidated_list page_size [] = true
is_consolidated_list page_size (b ∷ l) = is_consolidated page_size b l

pub consolidated_list :
    (page_size : ℕ) (b : Block) (l : List Block)
    → is_consolidated_list page_size ((consolidate_from page_size b l).list) ≡ true
unfolding consolidate_from counted stays is_consolidated_list is_consolidated
consolidated_list page_size b [] = refl
consolidated_list page_size b (next ∷ l) = elim (Bool-cases (joins page_size b next)) [
  | inl e ↦ rw e (consolidated_list page_size (join_blocks b next) l)
  | inr e ↦
      let (h, t, eq, start, size) = consolidate_from_head page_size next l in
      let ih = consolidated_list page_size next l in
      let apart = joins_bigger page_size b next h e start size in rw (e, eq, apart) (rw eq at ih)
]

consolidate_from_same :
    (page_size : ℕ) (b : Block) (l : List Block)
    → is_consolidated page_size b l ≡ true
    → (consolidate_from page_size b l).list ≡ b ∷ l
unfolding consolidate_from counted stays is_consolidated
consolidate_from_same page_size b [] h = refl
consolidate_from_same page_size b (next ∷ l) h = elim (Bool-cases (joins page_size b next)) [
  | inl e ↦ absurd (false-true (rw e at h))
  | inr e ↦ rw e (ap (λ t. b ∷ t) (consolidate_from_same page_size next l (rw e at h)))
]

consolidate-consolidated :
    (page_size : ℕ) (l : List Block)
    → is_consolidated_list page_size l ≡ true
    → (consolidate_free_list page_size l).list ≡ l
unfolding consolidate_free_list is_consolidated_list
consolidate-consolidated page_size [] h = refl
consolidate-consolidated page_size (b ∷ l) h = consolidate_from_same page_size b l h

-- A second consolidation keeps the list.
pub consolidate-consolidate :
    (page_size : ℕ) (l : List Block)
    → (consolidate_free_list page_size ((consolidate_free_list page_size l).list)).list
      ≡ (consolidate_free_list page_size l).list
consolidate-consolidate page_size [] = unfold consolidate_free_list in refl
consolidate-consolidate page_size (b ∷ l) =
    consolidate-consolidated page_size ((consolidate_free_list page_size (b ∷ l)).list)
      (unfold consolidate_free_list in consolidated_list page_size b l)

-- From a list that stays the same the loop goes on if it goes on at all.
stuck :
    (fuel page_size : ℕ) (l : List Block)
    → (consolidate_free_list page_size l).list ≡ l
    → nonzero (frag_cnt (consolidate_free_list page_size l)) ≡ true
    → consolidate_while fuel page_size l ≡ none
unfolding consolidate_while
stuck zero page_size l same more = refl
stuck (suc fuel) page_size l same more = rw (more, same) (stuck fuel page_size l same more)

-- The loop while (consolidate_free_list()); of sm_mem_free ends in its first two rounds or never.
pub consolidate_while_two_rounds :
    (fuel page_size : ℕ) (l : List Block)
    → consolidate_while (suc (suc fuel)) page_size l ≡ consolidate_while 2 page_size l
unfolding consolidate_while
consolidate_while_two_rounds fuel page_size l =
    let c = consolidate_free_list page_size l in
    let again = consolidate_free_list page_size c.list in
    let same = consolidate-consolidate page_size l in
    elim (Bool-cases (nonzero (frag_cnt c))) [
      | inl e ↦ elim (Bool-cases (nonzero (frag_cnt again))) [
        | inl e2 ↦ rw (e, e2, same) (stuck fuel page_size c.list same e2)
        | inr e2 ↦ rw (e, e2) refl
      ]
      | inr e ↦ rw e refl
    ]
