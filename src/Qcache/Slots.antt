-- ===== src/Qcache/Slots.antt =====
-- Which slots of the cache are chosen.
use smrender.Base.{
  false-true, some_inj, none-some, ℕ, zero, suc, ◌+◌, ◌≤◌, ◌<◌, ◌≡◌, refl, sym, ap, ◌∙◌, ◌⊎◌, inl,
  inr, Bool, true, false, ◌&&◌, Option, none, some, List, [], ◌∷◌, arith, ltb, ◌==◌, if◌then◌else◌,
  ltb→lt, ==_iff, Bool-cases, get_elem?, In, subst,
}
use smrender.Qcache.{Qcache, oldest_loop, qc_oldest, clear_age, cleaned, qc_cleanup}

-- A slot from `i` on that nobody uses and that is older than `t`.
abbrev pub IsUnused : ℕ → ℕ → List Qcache → ℕ → Type 0
IsUnused t i qs k =
    (j : ℕ) × ((q : Qcache) × ((k ≡ i + j)
        × ((get_elem? qs j ≡ some q) × ((q.ctr ≡ 0) × (q.age < t)))))

IsUnused-behind :
    (t t' i k : ℕ) (q : Qcache) (qs : List Qcache)
    → t ≤ t'
    → IsUnused t (i + 1) qs k
    → IsUnused t' i (q ∷ qs) k
IsUnused-behind t t' i k q qs le (j, (r, (at, (e, (free, old))))) =
    (suc j, (r, (omega arith, (e, (free, omega arith)))))

both_true : (a b : Bool) → (a && b) ≡ true → (a ≡ true) × (b ≡ true)
both_true true b e = (refl, e)
both_true false b e = absurd (false-true e)

oldest_loop-IsUnused :
    (t : ℕ) (n : Option ℕ) (i k : ℕ) (qs : List Qcache)
    → oldest_loop t n i qs ≡ some k
    → (n ≡ some k) ⊎ IsUnused t i qs k
unfolding oldest_loop
oldest_loop-IsUnused t n i k [] e = inl e
oldest_loop-IsUnused t n i k (q ∷ qs) e = elim (Bool-cases (q.ctr == 0 && ltb q.age t)) [
  | inl b ↦
      let (free, old) = both_true (q.ctr == 0) (ltb q.age t) b in
      let this : IsUnused t i (q ∷ qs) i =
        (0, (q, (omega arith, (refl, ((==_iff q.ctr 0).0 free, ltb→lt q.age t old))))) in
      older this (ltb→lt q.age t old) (
        oldest_loop-IsUnused q.age (some i) (i + 1) k qs (
          ap (λ c. if c then oldest_loop q.age (some i) (i + 1) qs else oldest_loop t n (i + 1) qs)
            (sym b)
          ∙ e))
  | inr b ↦ rest (
      oldest_loop-IsUnused t n (i + 1) k qs (
        ap (λ c. if c then oldest_loop q.age (some i) (i + 1) qs else oldest_loop t n (i + 1) qs)
          (sym b)
        ∙ e))
]
  where
    older :
        IsUnused t i (q ∷ qs) i
        → q.age < t
        → (some i ≡ some k) ⊎ IsUnused q.age (i + 1) qs k
        → (n ≡ some k) ⊎ IsUnused t i (q ∷ qs) k
    older this h (inl s) = inr (subst (λ x. IsUnused t i (q ∷ qs) x) (some_inj s) this)
    older this h (inr u) = inr (IsUnused-behind q.age t i k q qs (omega arith) u)

    rest : (n ≡ some k) ⊎ IsUnused t (i + 1) qs k → (n ≡ some k) ⊎ IsUnused t i (q ∷ qs) k
    rest (inl s) = inl s
    rest (inr u) = inr (IsUnused-behind t t i k q qs (omega arith) u)

-- No slot is older than one of the age 0.
oldest_loop-zero : (n : Option ℕ) (i : ℕ) (qs : List Qcache) → oldest_loop 0 n i qs ≡ n
unfolding oldest_loop
oldest_loop-zero n i [] = refl
oldest_loop-zero n i (q ∷ qs) = rw (never q.age (q.ctr == 0)) (oldest_loop-zero n (i + 1) qs)
  where
    never : (a : ℕ) (b : Bool) → (b && ltb a 0) ≡ false
    never a b = ground arith

-- Every slot is taken.
abbrev pub IsFull : List Qcache → Type 0
IsFull [] = Unit
IsFull (q ∷ qs) = (0 < q.age) × IsFull qs

-- The slot that has just been freed is the oldest one, as long as no other one is free.
oldest_loop-clear_age :
    (t : ℕ) (n : Option ℕ) (i j : ℕ) (q : Qcache) (qs : List Qcache)
    → 0 < t
    → IsFull qs
    → get_elem? qs j ≡ some q
    → q.ctr ≡ 0
    → oldest_loop t n i (clear_age j qs) ≡ some (i + j)
unfolding oldest_loop clear_age
oldest_loop-clear_age t n i j q [] pt full e free = absurd (none-some e)
oldest_loop-clear_age t n i zero q (r ∷ qs) pt full e free =
    rw (chosen (ap (λ (x : Qcache). x.ctr) (some_inj e) ∙ free))
      (oldest_loop-zero (some i) (i + 1) qs ∙ ap some (omega arith))
  where
    chosen : r.ctr ≡ 0 → (r.ctr == 0 && ltb 0 t) ≡ true
    chosen c = ground arith
oldest_loop-clear_age t n i (suc j) q (r ∷ qs) pt full e free =
    elim (Bool-cases (r.ctr == 0 && ltb r.age t)) [
      | inl b ↦ rw b (
          oldest_loop-clear_age r.age (some i) (i + 1) j q qs full.0 full.1 e free
          ∙ ap some (omega arith))
      | inr b ↦
          rw b (oldest_loop-clear_age t n (i + 1) j q qs pt full.1 e free ∙ ap some (omega arith))
    ]

cleaned-some :
    (n : Option ℕ) (qs qs' : List Qcache) (found : Option Qcache)
    → cleaned n qs ≡ some (found, qs')
    → (k : ℕ) × ((n ≡ some k) × ((found ≡ get_elem? qs k) × (qs' ≡ clear_age k qs)))
unfolding cleaned
cleaned-some none qs qs' found e = absurd (none-some e)
cleaned-some (some k) qs qs' found e = (
  k,
  (
    refl,
    (
      sym (ap (λ (p : Option Qcache × List Qcache). p.0) (some_inj e)),
      sym (ap (λ (p : Option Qcache × List Qcache). p.1) (some_inj e)),
    ),
  ),
)

cleaned_pair :
    (k : ℕ) (qs qs' : List Qcache) (found : Option Qcache)
    → get_elem? qs k ≡ found
    → clear_age k qs ≡ qs'
    → cleaned (some k) qs ≡ some (found, qs')
unfolding cleaned
cleaned_pair k qs qs' found e f = rw (e, f) refl

abbrev pub tree_of : Option Qcache → Option ℕ
tree_of none = none
tree_of (some q) = some q.tree

get_elem?-In : (k : ℕ) (qs : List Qcache) (q : Qcache) → get_elem? qs k ≡ some q → In q qs
get_elem?-In k [] q e = absurd (none-some e)
get_elem?-In zero (r ∷ qs) q e = inl (sym (some_inj e))
get_elem?-In (suc k) (r ∷ qs) q e = inr (get_elem?-In k qs q e)

get_elem?-clear_age :
    (k : ℕ) (qs : List Qcache) (q : Qcache)
    → get_elem? qs k ≡ some q
    → get_elem? (clear_age k qs) k ≡ some (record q { age = 0 })
unfolding clear_age
get_elem?-clear_age k [] q e = absurd (none-some e)
get_elem?-clear_age zero (r ∷ qs) q e =
    ap (λ (x : Qcache). some (record x { age = 0 })) (some_inj e)
get_elem?-clear_age (suc k) (r ∷ qs) q e = get_elem?-clear_age k qs q e

clear_age-clear_age : (k : ℕ) (qs : List Qcache) → clear_age k (clear_age k qs) ≡ clear_age k qs
unfolding clear_age
clear_age-clear_age k [] = refl
clear_age-clear_age zero (r ∷ qs) = refl
clear_age-clear_age (suc k) (r ∷ qs) = ap (λ l. r ∷ l) (clear_age-clear_age k qs)

-- The slot that qc_oldest() gives.
qc_oldest-IsUnused :
    (now k : ℕ) (qs : List Qcache)
    → qc_oldest now qs ≡ some k
    → (q : Qcache) × ((get_elem? qs k ≡ some q) × ((q.ctr ≡ 0) × (q.age < now)))
unfolding qc_oldest
qc_oldest-IsUnused now k qs e = at_index (oldest_loop-IsUnused now none 0 k qs e)
  where
    at_index :
        (none ≡ some k) ⊎ IsUnused now 0 qs k
        → (q : Qcache) × ((get_elem? qs k ≡ some q) × ((q.ctr ≡ 0) × (q.age < now)))
    at_index (inl z) = absurd (none-some z)
    at_index (inr (j, (q, (at, (g, (free, old)))))) =
        let same : j ≡ k = omega arith in (q, (ap (get_elem? qs) (sym same) ∙ g, (free, old)))

-- The tree that qc_cleanup() frees is that of a slot of the array that nobody uses, and that was put
-- or used last before now.
pub qc_cleanup-IsUnused :
    (now : ℕ) (qs qs' : List Qcache) (found : Option Qcache)
    → qc_cleanup now qs ≡ some (found, qs')
    → (q : Qcache) × ((found ≡ some q) × (In q qs × ((q.ctr ≡ 0) × (q.age < now))))
unfolding qc_cleanup
qc_cleanup-IsUnused now qs qs' found e =
    let (k, (at, (f, cleared))) = cleaned-some (qc_oldest now qs) qs qs' found e in
    let (q, (g, (free, old))) = qc_oldest-IsUnused now k qs at in
    (q, (f ∙ g, (get_elem?-In k qs q g, (free, old))))

-- Where all slots are taken, a second call of qc_cleanup(), with no qc_put() behind the first one,
-- does not wait but frees the tree of the same slot once more.
pub qc_cleanup-qc_cleanup :
    (now now' : ℕ) (qs qs' : List Qcache) (found : Option Qcache)
    → IsFull qs
    → 0 < now'
    → qc_cleanup now qs ≡ some (found, qs')
    → (again : Qcache) × ((qc_cleanup now' qs' ≡ some (some again, qs'))
        × (tree_of found ≡ some again.tree))
unfolding qc_cleanup
qc_cleanup-qc_cleanup now now' qs qs' found full pt e =
    let (k, (at, (f, cleared))) = cleaned-some (qc_oldest now qs) qs qs' found e in
    let (q, (g, (free, old))) = qc_oldest-IsUnused now k qs at in
    let oldest : qc_oldest now' (clear_age k qs) ≡ some k =
      unfold qc_oldest in
      oldest_loop-clear_age now' none 0 k q qs pt full g free ∙ ap some (omega arith) in
    (
      record q { age = 0 },
      (
        subst (λ l. cleaned (qc_oldest now' l) l ≡ some (some (record q { age = 0 }), l))
            (sym cleared)
            (ap (λ o. cleaned o (clear_age k qs)) oldest
              ∙ cleaned_pair k (clear_age k qs) (clear_age k qs) _ (get_elem?-clear_age k qs q g)
                  (clear_age-clear_age k qs)),
        ap tree_of (f ∙ g),
      ),
    )
