-- ===== src/Smem/Cover.antt =====
-- How many blocks of a list have an address.
use smrender.Base.{
  ◌>>=◌, ℕ, ◌+◌, ◌-◌, ◌≡◌, refl, sym, ap, inl, inr, true, Option, none, some, List, [], ◌∷◌, arith,
  ltb, leb, ◌==◌, if◌then◌else◌, ==_iff, Bool-cases, false-true, none-some, some_inj,
}
use smrender.Smem.{
  Block, front, behind, put_front, first_fit, block_free, joins, join_blocks, counted, stays,
  consolidate_from, consolidate_free_list, take_block,
}

unfoldable pub inside : ℕ → ℕ → ℕ → ℕ
inside lo n a = if ltb a lo then 0 else if ltb a (lo + n) then 1 else 0

unfoldable pub cover : List Block → ℕ → ℕ
cover [] a = 0
cover (b ∷ l) a = inside b.addr b.size a + cover l a

-- A block and the one behind it have the addresses of both.
pub inside-append : (lo n m a : ℕ) → inside lo (n + m) a ≡ inside lo n a + inside (lo + n) m a
unfolding inside
inside-append lo n m a = elim (Bool-cases (ltb a lo)) [
  | inl e ↦ let f : ltb a (lo + n) ≡ true = ground arith in rw (e, f) (omega arith)
  | inr e ↦ elim (Bool-cases (ltb a (lo + n))) [
    | inl f ↦ let g : ltb a (lo + (n + m)) ≡ true = ground arith in rw (e, f, g) (omega arith)
    | inr f ↦ let assoc : lo + n + m ≡ lo + (n + m) = omega arith in rw (e, f, assoc) (omega arith)
  ]
]

-- A block and the list that it is taken from
unfoldable pub total : Block × List Block → ℕ → ℕ
total (b, l) a = inside b.addr b.size a + cover l a

put_front-total :
    (b : Block) (o : Option (Block × List Block)) (r : Block × List Block) (l : List Block) (a : ℕ)
    → ((q : Block × List Block) → o ≡ some q → total q a ≡ cover l a)
    → put_front b o ≡ some r
    → total r a ≡ cover (b ∷ l) a
unfolding put_front total cover
put_front-total b none r l a ih e = absurd (none-some e)
put_front-total b (some (new, l')) r l a ih e =
    let back = ap (λ q. total q a) (some_inj e) in let here = ih (new, l') refl in omega arith

-- The block that is taken from the free list and what is left have the addresses of the list before.
pub first_fit-cover :
    (size : ℕ) (l : List Block) (r : Block × List Block) (a : ℕ)
    → first_fit size l ≡ some r
    → total r a ≡ cover l a
unfolding first_fit total cover front behind
first_fit-cover size [] r a e = absurd (none-some e)
first_fit-cover size (b ∷ l) r a e = elim (Bool-cases (leb size b.size)) [
  | inl fits ↦
      let back = ap (λ q. total q a) (some_inj (rw fits at e)) in
      let whole : size + (b.size - size) ≡ b.size = ground arith in
      let parts = inside-append b.addr size (b.size - size) a in
      let block = ap (λ n. inside b.addr n a) whole in omega arith
  | inr small ↦
      put_front-total b (first_fit size l) r l a (λ q f. first_fit-cover size l q a f)
        (rw small at e)
]

pub take_block-cover :
    (p : ℕ) (l : List Block) (r : Block × List Block) (a : ℕ)
    → take_block p l ≡ some r
    → total r a ≡ cover l a
unfolding take_block cover total
take_block-cover p [] r a e = absurd (none-some e)
take_block-cover p (b ∷ l) r a e = elim (Bool-cases (p == b.addr)) [
  | inl here ↦ sym (ap (λ q. total q a) (some_inj (rw here at e)))
  | inr other ↦
      put_front-total b (take_block p l) r l a (λ q f. take_block-cover p l q a f) (rw other at e)
]

joins_adjacent :
    (page_size : ℕ) (b next : Block) → joins page_size b next ≡ true → b.addr + b.size ≡ next.addr
unfolding joins
joins_adjacent page_size b next e = elim (Bool-cases (b.addr + b.size == next.addr)) [
  | inl eq ↦ (==_iff _ _).0 eq
  | inr ne ↦ absurd (false-true (rw ne at e))
]

-- consolidate_free_list keeps the addresses.
consolidate_from-cover :
    (page_size : ℕ) (b : Block) (l : List Block) (a : ℕ)
    → cover ((consolidate_from page_size b l).list) a ≡ inside b.addr b.size a + cover l a
unfolding consolidate_from counted stays cover join_blocks
consolidate_from-cover page_size b [] a = refl
consolidate_from-cover page_size b (next ∷ l) a = elim (Bool-cases (joins page_size b next)) [
  | inl e ↦
      let ih = consolidate_from-cover page_size (join_blocks b next) l a in
      let parts = inside-append b.addr b.size next.size a in
      let adjacent : b.addr + b.size ≡ next.addr = joins_adjacent page_size b next e in
      let second = ap (λ x. inside x next.size a) adjacent in rw e (omega arith)
  | inr e ↦ let ih = consolidate_from-cover page_size next l a in rw e (omega arith)
]

pub consolidate-cover :
    (page_size : ℕ) (l : List Block) (a : ℕ)
    → cover ((consolidate_free_list page_size l).list) a ≡ cover l a
unfolding consolidate_free_list cover
consolidate-cover page_size [] a = refl
consolidate-cover page_size (b ∷ l) a = consolidate_from-cover page_size b l a

-- A block that is added to a list behind another one
kept-cover :
    (mb fb : Block) (l : List Block) (o : Option (List Block)) (l' : List Block) (a : ℕ)
    → ((k : List Block) → o ≡ some k → cover k a ≡ inside mb.addr mb.size a + cover l a)
    → (o >>= λ k. some (fb ∷ k)) ≡ some l'
    → cover l' a ≡ inside mb.addr mb.size a + cover (fb ∷ l) a
unfolding cover
kept-cover mb fb l none l' a ih e = absurd (none-some e)
kept-cover mb fb l (some k) l' a ih e =
    let back = ap (λ q. cover q a) (some_inj e) in let here = ih k refl in omega arith

-- block_free leaves the addresses of the free list and the block.
pub block_free-cover :
    (mb : Block) (l l' : List Block) (a : ℕ)
    → block_free mb l ≡ some l'
    → cover l' a ≡ inside mb.addr mb.size a + cover l a
unfolding block_free
block_free-cover mb [] l' a e = absurd (none-some e)
block_free-cover mb (fb ∷ l) l' a e = elim (Bool-cases (fb.addr + fb.size == mb.addr)) [
  | inl after ↦
      let back = ap (λ q. cover q a) (some_inj (rw after at e)) in
      let parts = inside-append fb.addr fb.size mb.size a in
      let second = ap (λ x. inside x mb.size a) ((==_iff _ _).0 after) in
      unfold cover in omega arith
  | inr not_after ↦ elim (Bool-cases (mb.addr + mb.size == fb.addr)) [
    | inl before ↦
        let back = ap (λ q. cover q a) (some_inj (rw (not_after, before) at e)) in
        let eq : mb.addr + mb.size ≡ fb.addr = (==_iff _ _).0 before in
        let start : fb.addr - mb.size ≡ mb.addr = omega arith in
        let parts = inside-append mb.addr mb.size fb.size a in
        let first = ap (λ x. inside x (mb.size + fb.size) a) start in
        let sum : mb.size + fb.size ≡ fb.size + mb.size = omega arith in
        let whole = ap (λ x. inside (fb.addr - mb.size) x a) sum in
        let second = ap (λ x. inside x fb.size a) eq in unfold cover in omega arith
    | inr not_before ↦ elim (Bool-cases (ltb mb.addr fb.addr)) [
      | inl less ↦
          let back = ap (λ q. cover q a) (some_inj (rw (not_after, not_before, less) at e)) in
          unfold cover in omega arith
      | inr more ↦
          kept-cover mb fb l (block_free mb l) l' a (λ k f. block_free-cover mb l k a f)
            (rw (not_after, not_before, more) at e)
    ]
  ]
]
