-- ===== src/RevIndex/Ways.antt =====
-- The reverse index after all nodes of a way have been added.
use smrender.Base.{
  false-true, ℕ, ◌<◌, ◌≡◌, refl, sym, ap, ◌∙◌, ◌↔◌, ◌⊎◌, inl, inr, Bool, true, false, List, [], ◌∷◌,
  arith, Bool-cases, pos, In,
}
use smrender.Bxtree.{Tree, Stats, depth, word}
use smrender.RevIndex.{add_rev_ptr, go_on, rev_index_way_nodes}
use smrender.RevIndex.Members.{parents, add_rev_ptr-In}

chain {ℓ} : {P Q R : Type ℓ} → P ↔ Q → Q ↔ R → P ↔ R
chain (a, b) (c, d) = (λ p. c (a p), λ r. b (d r))

-- Who is listed for a node `k` after the nodes `ref` of the way `w` have been added.
abbrev pub AddedWay : (ℕ → Bool) → ℕ → List ℕ → ℕ → ℕ → List ℕ → Type 0
AddedWay node w ref k o' before = In o' before ⊎ (In k ref × ((node k ≡ true) × (o' ≡ w)))

AddedWay-skip :
    (node : ℕ → Bool) (w id : ℕ) (ref : List ℕ) (k o' : ℕ) (before : List ℕ)
    → node id ≡ false
    → AddedWay node w ref k o' before ↔ AddedWay node w (id ∷ ref) k o' before
AddedWay-skip node w id ref k o' before e = (forth, back)
  where
    forth : AddedWay node w ref k o' before → AddedWay node w (id ∷ ref) k o' before
    forth (inl h) = inl h
    forth (inr (h, (n, q))) = inr (inr h, (n, q))

    back : AddedWay node w (id ∷ ref) k o' before → AddedWay node w ref k o' before
    back (inl h) = inl h
    back (inr (inl p, (n, q))) = absurd (false-true (sym e ∙ ap node (sym p) ∙ n))
    back (inr (inr h, (n, q))) = inr (h, (n, q))

AddedWay-step :
    (node : ℕ → Bool) (w id : ℕ) (ref : List ℕ) (k o' : ℕ) (before between : List ℕ)
    → node id ≡ true
    → In o' between ↔ (In o' before ⊎ ((k ≡ id) × (◌≡◌ {A = ℕ} 0 0 × (o' ≡ w))))
    → AddedWay node w ref k o' between ↔ AddedWay node w (id ∷ ref) k o' before
AddedWay-step node w id ref k o' before between e (to, from) = (forth, back)
  where
    first :
        In o' before ⊎ ((k ≡ id) × (◌≡◌ {A = ℕ} 0 0 × (o' ≡ w)))
        → AddedWay node w (id ∷ ref) k o' before
    first (inl h) = inl h
    first (inr (p, (z, q))) = inr (inl p, (ap node p ∙ e, q))

    forth : AddedWay node w ref k o' between → AddedWay node w (id ∷ ref) k o' before
    forth (inl h) = first (to h)
    forth (inr (h, (n, q))) = inr (inr h, (n, q))

    back : AddedWay node w (id ∷ ref) k o' before → AddedWay node w ref k o' between
    back (inl h) = inl (from (inl h))
    back (inr (inl p, (n, q))) = inl (from (inr (p, (refl, q))))
    back (inr (inr h, (n, q))) = inr (h, (n, q))

-- With memory enough, rev_index_way_nodes() returns 0, and afterwards an object is listed for a node
-- exactly if it was before or is the way itself, and the node is one of the way that exists.
pub rev_index_way_nodes-In :
    (granted node : ℕ → Bool) (w : ℕ) (ref : List ℕ) (tree : Tree (List ℕ) depth) (stats : Stats)
    (k o' : ℕ)
    → ((n : ℕ) → granted n ≡ true)
    → ((id : ℕ) → In id ref → id < word)
    → k < word
    → let r = rev_index_way_nodes granted node w ref tree stats in
      (r.result ≡ pos 0)
      × (In o' (parents r.tree k 0) ↔ AddedWay node w ref k o' (parents tree k 0))
unfolding rev_index_way_nodes go_on
rev_index_way_nodes-In granted node w [] tree stats k o' ok ids hk = (refl, (λ h. inl h, none_))
  where
    none_ : AddedWay node w [] k o' (parents tree k 0) → In o' (parents tree k 0)
    none_ (inl h) = h
    none_ (inr (h, q)) = absurd h
rev_index_way_nodes-In granted node w (id ∷ ref) tree stats k o' ok ids hk =
    elim (Bool-cases (node id)) [
      | inr e ↦
          let (res, iff) =
            rev_index_way_nodes-In granted node w ref tree stats k o' ok (λ i h. ids i (inr h))
              hk in
          rw e (res, chain iff (AddedWay-skip node w id ref k o' (parents tree k 0) e))
      | inl e ↦
          let added = add_rev_ptr granted tree stats id 0 w in
          let (good, here) =
            add_rev_ptr-In granted tree stats id 0 w k 0 o' ok (ids id (inl refl)) hk
              (omega arith) in
          let (res, iff) =
            rev_index_way_nodes-In granted node w ref added.tree added.stats k o' ok
              (λ i h. ids i (inr h)) hk in
          rw (e, good)
            (
              res,
              chain iff (
                  AddedWay-step node w id ref k o' (parents tree k 0) (parents added.tree k 0) e
                    here),
            )
    ]
