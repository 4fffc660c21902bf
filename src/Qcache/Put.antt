-- ===== src/Qcache/Put.antt =====
-- What is found in the cache behind qc_put().
use smrender.Base.{
  none-some, ℕ, ◌+◌, ◌<◌, ◌≡◌, refl, sym, ap, ◌∙◌, inl, inr, true, false, Option, none, some, List,
  [], ◌∷◌, arith, ◌==◌, Bool-cases,
}
use smrender.Bstring.{Bytes}
use smrender.Bstring.Compare.{memcmp_refl}
use smrender.Qcache.{Qcache, is_hit, qc_lookup, qc_put}

hit_new :
    (bb : Bytes) (tree now : ℕ)
    → 0 < now
    → is_hit bb (record { bb = bb; tree = tree; age = now; ctr = 1 }) ≡ true
hit_new bb tree now h = rw (memcmp_refl bb) (ground arith)

put_free :
    (bb : Bytes) (tree now i : ℕ) (q : Qcache) (qs : List Qcache)
    → (q.age == 0) ≡ true
    → qc_put bb tree now i (q ∷ qs)
      ≡ (some i, record { bb = bb; tree = tree; age = now; ctr = 1 } ∷ qs)
unfolding qc_put
put_free bb tree now i q qs e = rw e refl

put_taken :
    (bb : Bytes) (tree now i : ℕ) (q : Qcache) (qs : List Qcache)
    → (q.age == 0) ≡ false
    → qc_put bb tree now i (q ∷ qs)
      ≡ ((qc_put bb tree now (i + 1) qs).0, q ∷ (qc_put bb tree now (i + 1) qs).1)
unfolding qc_put
put_taken bb tree now i q qs e = rw e refl

none_put : (bb : Bytes) (tree now i n : ℕ) → ¬ ((qc_put bb tree now i []).0 ≡ some n)
unfolding qc_put
none_put bb tree now i n e = none-some e

lookup_hit :
    (bb : Bytes) (now i : ℕ) (q : Qcache) (qs : List Qcache)
    → is_hit bb q ≡ true
    → (qc_lookup bb now i (q ∷ qs)).0 ≡ some i
unfolding qc_lookup
lookup_hit bb now i q qs e = rw e refl

lookup_miss :
    (bb : Bytes) (now i : ℕ) (q : Qcache) (qs : List Qcache)
    → is_hit bb q ≡ false
    → (qc_lookup bb now i (q ∷ qs)).0 ≡ (qc_lookup bb now (i + 1) qs).0
unfolding qc_lookup
lookup_miss bb now i q qs e = rw e refl

-- A query that qc_lookup() does not find in the cache, and for which qc_put() takes a slot, is found in
-- that slot by the next qc_lookup(), at whatever time.
pub qc_lookup-qc_put :
    (bb : Bytes) (tree now now' i n : ℕ) (qs : List Qcache)
    → 0 < now
    → (qc_lookup bb now i qs).0 ≡ none
    → (qc_put bb tree now i qs).0 ≡ some n
    → (qc_lookup bb now' i (qc_put bb tree now i qs).1).0 ≡ some n
qc_lookup-qc_put bb tree now now' i n [] h miss put = absurd (none_put bb tree now i n put)
qc_lookup-qc_put bb tree now now' i n (q ∷ qs) h miss put = elim (Bool-cases (q.age == 0)) [
  | inl free ↦
      let placed = put_free bb tree now i q qs free in
      ap (λ (r : Option ℕ × List Qcache). (qc_lookup bb now' i r.1).0) placed
      ∙ lookup_hit bb now' i (record { bb = bb; tree = tree; age = now; ctr = 1 }) qs
          (hit_new bb tree now h)
      ∙ sym (ap (λ (r : Option ℕ × List Qcache). r.0) placed)
      ∙ put
  | inr taken ↦
      let placed = put_taken bb tree now i q qs taken in
      elim (Bool-cases (is_hit bb q)) [
        | inl hit ↦ absurd (none-some (sym miss ∙ lookup_hit bb now i q qs hit))
        | inr other ↦
            ap (λ (r : Option ℕ × List Qcache). (qc_lookup bb now' i r.1).0) placed
            ∙ lookup_miss bb now' i q (qc_put bb tree now (i + 1) qs).1 other
            ∙ qc_lookup-qc_put bb tree now now' (i + 1) n qs h
                (sym (lookup_miss bb now i q qs other) ∙ miss)
                (sym (ap (λ (r : Option ℕ × List Qcache). r.0) placed) ∙ put)
      ]
]
