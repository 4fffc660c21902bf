-- ===== src/CyclicList/Destroyed.antt =====
-- li_destroy() frees the elements of a list.
use smrender.Base.{
  ℕ, zero, suc, ◌≤◌, ◌≡◌, refl, ap, ◌∙◌, inl, inr, Bool, true, false, Option, some, List, [], ◌∷◌,
  arith, ltb, ◌==◌, if◌then◌else◌, ==_iff, ==_refl, Bool-cases, update, length,
}
use smrender.CyclicList.{Memory, free_one, li_del, destroy_loop, li_destroy}
use smrender.CyclicList.Chains.{count, IsChain, count-cons, count-here, count-none}
use smrender.CyclicList.Rings.{IsRing}

-- The calls of free_data, in their order.
unfoldable pub free_all : {W : Type 0} → Option (ℕ → W → W) → (ℕ → ℕ) → List ℕ → W → W
free_all free_data data_of [] w = w
free_all free_data data_of (x ∷ xs) w =
    free_all free_data data_of xs (free_one free_data (data_of x) w)

-- Of the elements that are allocated, `xs` have been freed.
abbrev pub IsFreed : List ℕ → (ℕ → Bool) → (ℕ → Bool) → Type 0
IsFreed xs live live' = (b : ℕ) → live' b ≡ (if ltb 0 (count b xs) then false else live b)

if-same : (c : Bool) → (if c then false else false) ≡ false
if-same true = refl
if-same false = refl

differs : (b x : ℕ) (xs : List ℕ) → count x xs ≡ 0 → 1 ≤ count b xs → (b == x) ≡ false
differs b x xs none_of some_of = elim (Bool-cases (b == x)) [
  | inl e ↦ absurd (omega (arith, some_of, ap (λ c. count c xs) ((==_iff b x).0 e), none_of))
  | inr e ↦ e
]

-- The root is freed at last.
IsFreed-last :
    (x : ℕ) (xs : List ℕ) (live live' : ℕ → Bool)
    → IsFreed xs live live'
    → IsFreed (x ∷ xs) live (update live' x false)
IsFreed-last x xs live live' f b = elim (Bool-cases (b == x)) [
  | inl e ↦
      let more : ltb 0 (count b (x ∷ xs)) ≡ true =
        ground (arith, count-cons b x xs, ap {B = ℕ} (λ t. if t then 1 else 0) e) in
      rw (more, e) refl
  | inr e ↦
      let same : count b (x ∷ xs) ≡ count b xs =
        omega (arith, count-cons b x xs, ap {B = ℕ} (λ t. if t then 1 else 0) e) in
      rw (same, e) (f b)
]

IsFreed-more :
    (x : ℕ) (xs : List ℕ) (live live' : ℕ → Bool)
    → IsFreed xs (update live x false) live'
    → IsFreed (x ∷ xs) live live'
IsFreed-more x xs live live' f b = elim (Bool-cases (b == x)) [
  | inl e ↦
      let more : ltb 0 (count b (x ∷ xs)) ≡ true =
        ground (arith, count-cons b x xs, ap {B = ℕ} (λ t. if t then 1 else 0) e) in
      rw more (f b ∙ rw e (if-same (ltb 0 (count b xs))))
  | inr e ↦
      let same : count b (x ∷ xs) ≡ count b xs =
        omega (arith, count-cons b x xs, ap {B = ℕ} (λ t. if t then 1 else 0) e) in
      rw same (f b ∙ rw e refl)
]

-- The loop, from the element behind `a`.
destroy_loop-run :
    {W : Type 0} (fuel first a : ℕ) (xs : List ℕ) (free_data : Option (ℕ → W → W)) (m : Memory)
    (w : W)
    → length xs ≤ fuel
    → IsChain m.next m.prev a xs first
    → ((b : ℕ) → 1 ≤ count b xs → m.live b ≡ true)
    → ((b : ℕ) → count b xs ≤ 1)
    → count first xs ≡ 0
    → (m' : Memory) × (destroy_loop fuel first (m.next a) free_data m w
        ≡ some (m', free_all free_data m.data_of xs w))
      × IsFreed xs m.live m'.live
unfolding destroy_loop free_all li_del count
destroy_loop-run zero first a [] free_data m w enough c live distinct no_first =
    (m, rw (c.0, ==_refl first) refl, λ b. refl)
destroy_loop-run (suc fuel) first a [] free_data m w enough c live distinct no_first =
    (m, rw (c.0, ==_refl first) refl, λ b. refl)
destroy_loop-run zero first a (x ∷ xs) free_data m w enough c live distinct no_first =
    absurd (omega (arith, enough))
destroy_loop-run (suc fuel) first a (x ∷ xs) free_data m w enough c live distinct no_first =
    let x_first : (x == first) ≡ false = ground (arith, (count-none first x xs no_first).0) in
    let x_live : m.live x ≡ true = live x (omega (arith, count-here x xs)) in
    let no_x : count x xs ≡ 0 = omega (arith, distinct x, count-here x xs) in
    let m1 : Memory = record m { live = update m.live x false } in
    let (m', run, freed) =
      destroy_loop-run fuel first x xs free_data m1 (free_one free_data (m.data_of x) w)
        (omega (arith, enough)) c.1
        (λ b h. rw (differs b x xs no_x h) (live b (omega (arith, count-cons b x xs, h))))
        (λ b. omega (arith, distinct b, count-cons b x xs)) (count-none first x xs no_first).1 in
    (m', rw (c.0.0, x_first, x_live) run, IsFreed-more x xs m.live m'.live freed)

-- li_destroy() on a list, with a unit of fuel for each element or more, comes to its end without an
-- access to an element that is not allocated, so none is freed twice or used after it has been freed.
-- It frees the elements and the root, and nothing else, and passes the data of the elements that is
-- not NULL to free_data, in the order of the list.
pub li_destroy-IsFreed :
    {W : Type 0} (fuel first : ℕ) (xs : List ℕ) (free_data : Option (ℕ → W → W)) (m : Memory)
    (w : W)
    → length xs ≤ fuel
    → IsRing m first xs
    → (m' : Memory) × (li_destroy fuel first free_data m w
        ≡ some (m', free_all free_data m.data_of xs w))
      × IsFreed (first ∷ xs) m.live m'.live
unfolding li_destroy li_del
li_destroy-IsFreed fuel first xs free_data m w enough r =
    let no_first : count first xs ≡ 0 = omega (arith, r.distinct first, count-here first xs) in
    let first_live : m.live first ≡ true =
      (r.allocated first (omega (arith, count-here first xs))).0 in
    let (m', run, freed) =
      destroy_loop-run fuel first first xs free_data m w enough r.chain
        (λ b h. (r.allocated b (omega (arith, count-cons b first xs, h))).0)
        (λ b. omega (arith, r.distinct b, count-cons b first xs)) no_first in
    let still : m'.live first ≡ true = freed first ∙ rw no_first first_live in
    (
      record m' { live = update m'.live first false },
      rw (first_live, run) (rw still refl),
      IsFreed-last first xs m.live m'.live freed,
    )
