-- ===== src/Smem/Alloc.antt =====
-- The blocks of the pool do not overlap.
use smrender.Base.{
  ℕ, ◌+◌, ◌-◌, ◌*◌, ◌≤◌, ◌<◌, ◌≡◌, refl, sym, ap, ◌∙◌, inl, inr, false, Option, none, some, List,
  [], ◌∷◌, arith, ltb, leb, ltb→lt, Bool-cases, subst, none-some, some_inj,
}
use smrender.Smem.{
  Block, SmMem, sm_pages, front, behind, put_front, first_fit, allocated, sm_alloc, alloc_from,
  alloc_new, free_taken, block_free, take_block, or_lost, sm_free,
}
use smrender.Smem.Cover.{
  inside, cover, total, inside-append, first_fit-cover, take_block-cover, consolidate-cover,
  block_free-cover,
}

-- Each address is in at most one block, allocated or free.
unfoldable pub IsDisjoint : SmMem → Type 0
IsDisjoint mem = (a : ℕ) → cover mem.alloc_list a + cover mem.free_list a ≤ 1

-- malloc() returns memory that is not in use: the pages at `addr` are in no block.
unfoldable pub IsFresh : ℕ → ℕ → SmMem → Type 0
IsFresh addr n mem =
    (a : ℕ) → 0 < inside addr n a → cover mem.alloc_list a + cover mem.free_list a ≡ 0

inside_bound : (lo n a : ℕ) → inside lo n a ≤ 1
unfolding inside
inside_bound lo n a = elim (Bool-cases (ltb a lo)) [
  | inl e ↦ rw e (omega arith)
  | inr e ↦ elim (Bool-cases (ltb a (lo + n))) [
    | inl f ↦ rw (e, f) (omega arith)
    | inr f ↦ rw (e, f) (omega arith)
  ]
]

put_front-size :
    (size : ℕ) (b : Block) (o : Option (Block × List Block)) (r : Block × List Block)
    → ((q : Block × List Block) → o ≡ some q → q.0.size ≡ size)
    → put_front b o ≡ some r
    → r.0.size ≡ size
unfolding put_front
put_front-size size b none r ih e = absurd (none-some e)
put_front-size size b (some q) r ih e = sym (ap (λ q. q.0.size) (some_inj e)) ∙ ih q refl

-- The free list behind block_free, where a block may be lost
or_lost-cover :
    (mb : Block) (l : List Block) (o : Option (List Block)) (a : ℕ)
    → ((k : List Block) → o ≡ some k → cover k a ≡ inside mb.addr mb.size a + cover l a)
    → cover (or_lost l o) a ≤ inside mb.addr mb.size a + cover l a
unfolding or_lost
or_lost-cover mb l none a h = omega arith
or_lost-cover mb l (some k) a h = omega (arith, h k refl)

-- What first_fit finds has the size.
first_fit-size :
    (size : ℕ) (l : List Block) (r : Block × List Block)
    → first_fit size l ≡ some r
    → r.0.size ≡ size
unfolding first_fit front
first_fit-size size [] r e = absurd (none-some e)
first_fit-size size (b ∷ l) r e = elim (Bool-cases (leb size b.size)) [
  | inl fits ↦ sym (ap (λ q. q.0.size) (some_inj (rw fits at e)))
  | inr small ↦
      put_front-size size b (first_fit size l) r (λ q f. first_fit-size size l q f) (rw small at e)
]

-- What sm_alloc promises of the address and the pool that it returns.
unfoldable pub IsAllocated : ℕ → SmMem → ℕ × SmMem → Type 0
IsAllocated size mem (p, mem') =
    IsDisjoint mem' × (mem'.alloc_list ≡ record { addr = p; size = size } ∷ mem.alloc_list)

allocated-IsAllocated :
    (size : ℕ) (mem : SmMem) (r : Block × List Block)
    → r.0.size ≡ size
    → ((a : ℕ) → total r a + cover mem.alloc_list a ≤ 1)
    → IsAllocated size mem (allocated mem r)
unfolding IsAllocated IsDisjoint allocated cover total
allocated-IsAllocated size mem (new, l) has_size bound = (
  λ a. omega (arith, bound a),
  ap (λ n. record { addr = new.addr; size = n } ∷ mem.alloc_list) has_size,
)

-- The blocks of new pages
new_bound :
    (size : ℕ) (mem : SmMem) (new_free : Block)
    → IsDisjoint mem
    → IsFresh new_free.addr new_free.size mem
    → ltb new_free.size size ≡ false
    → (a : ℕ)
    → total (front new_free size, behind new_free size ∷ mem.free_list) a + cover mem.alloc_list a
      ≤ 1
unfolding IsDisjoint IsFresh total cover front behind
new_bound size mem new_free disjoint fresh fits a =
    let whole : size + (new_free.size - size) ≡ new_free.size = ground arith in
    let parts = inside-append new_free.addr size (new_free.size - size) a in
    let block = ap (λ n. inside new_free.addr n a) whole in
    let bound = inside_bound new_free.addr new_free.size a in
    let before = disjoint a in
    elim (Bool-cases (ltb 0 (inside new_free.addr new_free.size a))) [
      | inl e ↦ omega (arith, fresh a (ltb→lt _ _ e))
      | inr e ↦ let outside : inside new_free.addr new_free.size a ≡ 0 = ground arith in omega arith
    ]

alloc_from-IsAllocated :
    (size : ℕ) (mem : SmMem) (new_free : Block) (o : Option (Block × List Block)) (q : ℕ × SmMem)
    → IsDisjoint mem
    → IsFresh new_free.addr new_free.size mem
    → first_fit size mem.free_list ≡ o
    → alloc_from size mem new_free o ≡ some q
    → IsAllocated size mem q
unfolding alloc_from alloc_new IsDisjoint IsFresh
alloc_from-IsAllocated size mem new_free (some r) q disjoint fresh found e =
    subst (IsAllocated size mem) (some_inj e) (
      allocated-IsAllocated size mem r (first_fit-size size mem.free_list r found)
        (λ a. omega (arith, disjoint a, first_fit-cover size mem.free_list r a found)))
alloc_from-IsAllocated size mem new_free none q disjoint fresh found e =
    elim (Bool-cases (ltb new_free.size size)) [
      | inl small ↦ absurd (none-some (rw small at e))
      | inr fits ↦ subst (IsAllocated size mem) (some_inj (rw fits at e)) (
          allocated-IsAllocated size mem (front new_free size, behind new_free size ∷ mem.free_list)
            (unfold front in refl) (new_bound size mem new_free disjoint fresh fits))
    ]

-- sm_alloc returns the address of a new block of the size, which overlaps with no other block that is
-- allocated or free, if no two blocks overlapped before and new pages overlap with none of them.
pub sm_alloc-IsAllocated :
    (page_size addr size p : ℕ) (mem mem' : SmMem)
    → IsDisjoint mem
    → IsFresh addr (sm_pages page_size size * page_size) mem
    → sm_alloc page_size addr size mem ≡ some (p, mem')
    → IsDisjoint mem' × (mem'.alloc_list ≡ record { addr = p; size = size } ∷ mem.alloc_list)
unfolding sm_alloc
sm_alloc-IsAllocated page_size addr size p mem mem' disjoint fresh e =
    unfold IsAllocated in
    alloc_from-IsAllocated size mem
      (record { addr = addr; size = sm_pages page_size size * page_size })
      (first_fit size mem.free_list) (p, mem') disjoint fresh refl e

free_taken-IsDisjoint :
    (page_size p : ℕ) (mem : SmMem) (o : Option (Block × List Block))
    → IsDisjoint mem
    → take_block p mem.alloc_list ≡ o
    → IsDisjoint (free_taken page_size mem o)
unfolding free_taken IsDisjoint total
free_taken-IsDisjoint page_size p mem none disjoint found a = disjoint a
free_taken-IsDisjoint page_size p mem (some (mb, alloc_list)) disjoint found a = omega (
  arith,
  disjoint a,
  take_block-cover p mem.alloc_list (mb, alloc_list) a found,
  or_lost-cover mb mem.free_list (block_free mb mem.free_list) a
      (λ l f. block_free-cover mb mem.free_list l a f),
  consolidate-cover page_size (or_lost mem.free_list (block_free mb mem.free_list)) a,
)

-- sm_free leaves blocks that do not overlap, whatever address it is called with.
pub sm_free-IsDisjoint :
    (page_size p : ℕ) (mem : SmMem) → IsDisjoint mem → IsDisjoint (sm_free page_size p mem)
unfolding sm_free
sm_free-IsDisjoint page_size p mem disjoint =
    free_taken-IsDisjoint page_size p mem (take_block p mem.alloc_list) disjoint refl
