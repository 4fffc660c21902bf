-- ===== src/RevIndex/Insert.antt =====
-- The references of a way behind insert_refs().
use smrender.Base.{
  ℕ, ◌+◌, ◌*◌, ◌≤◌, ◌<◌, ◌≡◌, refl, sym, ap, ◌∙◌, inl, inr, Bool, true, List, [], ◌∷◌, ◌++◌, arith,
  length, set, take, drop, length-append, pos, In, length-take, length-drop,
}
use smrender.Bxtree.{Tree, Stats, depth, word}
use smrender.RevIndex.{add_rev_ptr, insert_next, insert_loop, make_room, insert_refs}
use smrender.RevIndex.Members.{add_rev_ptr-In}

set-append : (pre post : List ℕ) (x v : ℕ) → set (pre ++ x ∷ post) (length pre) v ≡ pre ++ v ∷ post
set-append [] post x v = refl
set-append (y ∷ pre) post x v = ap (λ l. y ∷ l) (set-append pre post x v)

append-assoc_one : (pre post : List ℕ) (v : ℕ) → pre ++ v ∷ post ≡ (pre ++ v ∷ []) ++ post
append-assoc_one [] post v = refl
append-assoc_one (y ∷ pre) post v = ap (λ l. y ∷ l) (append-assoc_one pre post v)

insert_loop-ref :
    (granted : ℕ → Bool) (w : ℕ) (ids pre mid post : List ℕ) (at : ℕ) (tree : Tree (List ℕ) depth)
    (stats : Stats)
    → ((n : ℕ) → granted n ≡ true)
    → ((id : ℕ) → In id ids → id < word)
    → length mid ≡ length ids
    → at ≡ length pre
    → let r = insert_loop granted w ids at (pre ++ (mid ++ post)) tree stats in
      (r.result ≡ pos 0) × (r.ref ≡ pre ++ (ids ++ post))
unfolding insert_loop insert_next
insert_loop-ref granted w [] pre [] post at tree stats ok ids-lt e f = (refl, refl)
insert_loop-ref granted w [] pre (x ∷ mid) post at tree stats ok ids-lt e f = absurd (omega arith)
insert_loop-ref granted w (id ∷ ids) pre [] post at tree stats ok ids-lt e f = absurd (omega arith)
insert_loop-ref granted w (id ∷ ids) pre (x ∷ mid) post at tree stats ok ids-lt e f =
    let added = add_rev_ptr granted tree stats id 0 w in
    let good =
      (add_rev_ptr-In granted tree stats id 0 w id 0 w ok (ids-lt id (inl refl))
        (ids-lt id (inl refl)) (omega arith)).0 in
    let ref : List ℕ = set (pre ++ x ∷ (mid ++ post)) at id in
    let placed : ref ≡ (pre ++ id ∷ []) ++ (mid ++ post) =
      ap (λ k. set (pre ++ x ∷ (mid ++ post)) k id) f
      ∙ set-append pre (mid ++ post) x id
      ∙ append-assoc_one pre (mid ++ post) id in
    let (res, done) =
      insert_loop-ref granted w ids (pre ++ id ∷ []) mid post (at + 1) added.tree added.stats ok
        (λ i h. ids-lt i (inr h)) (omega arith) (omega (arith, length-append pre (id ∷ []))) in
    rw (good, placed) (res, done ∙ sym (append-assoc_one pre (ids ++ post) id))

-- With memory enough and an index within the list, insert_refs() returns 0 and puts the ids of the
-- nodes into the references of the way, in their order, at the index: those before it stay where they
-- are, those from it on follow, and what the grown memory holds does not matter.
pub insert_refs-ref :
    (granted : ℕ → Bool) (w : ℕ) (ref grown ids : List ℕ) (at : ℕ) (tree : Tree (List ℕ) depth)
    (stats : Stats)
    → ((n : ℕ) → granted n ≡ true)
    → ((id : ℕ) → In id ids → id < word)
    → length grown ≡ length ids
    → at ≤ length ref
    → let r = insert_refs granted w ref grown ids at tree stats in
      (r.result ≡ pos 0) × (r.ref ≡ take at ref ++ (ids ++ drop at ref))
unfolding insert_refs make_room
insert_refs-ref granted w ref grown ids at tree stats ok ids-lt e h =
    rw (ok (8 * (length ref + length ids))) (
      insert_loop-ref granted w ids (take at ref) (take (length grown) (drop at (ref ++ grown)))
        (drop at ref) at tree stats ok ids-lt room (omega (arith, length-take at ref)))
  where
    room : length (take (length grown) (drop at (ref ++ grown))) ≡ length ids
    room = omega (
      arith,
      e,
      h,
      length-take (length grown) (drop at (ref ++ grown)),
      length-drop at (ref ++ grown),
      length-append ref grown,
    )
