-- ===== src/UniqueIds/Fresh.antt =====
-- No id is returned twice.
use smrender.Base.{
  ℕ, ◌+◌, ◌≤◌, ◌≡◌, refl, inl, inr, List, [], ◌∷◌, arith, ltb, Bool-cases, ℤ, neg_part, subst,
}
use smrender.UniqueIds.{
  Ids, unique_node_id, unique_way_id, set_unique_node_id, set_unique_way_id, Call, node_ids,
}

-- Each id is further below 0 than the one before it, and not above `low`.
abbrev pub Falling : ℕ → List ℕ → Type 0
Falling low [] = Unit
Falling low (id ∷ ids) = (low ≤ id) × Falling (id + 1) ids

Falling-mono : (low m : ℕ) (ids : List ℕ) → low ≤ m → Falling m ids → Falling low ids
Falling-mono low m [] h f = tt
Falling-mono low m (id ∷ ids) h (p, f) = (omega arith, f)

set_way_keeps : (id : ℤ) (s : Ids) → (set_unique_way_id id s).unid ≡ s.unid
unfolding set_unique_way_id
set_way_keeps id s = elim (Bool-cases (ltb s.uwid (neg_part id))) [
  | inl e ↦ rw e refl
  | inr e ↦ rw e refl
]

set_node_below :
    (id : ℤ) (s : Ids)
    → (s.unid ≤ (set_unique_node_id id s).unid) × (neg_part id ≤ (set_unique_node_id id s).unid)
unfolding set_unique_node_id
set_node_below id s = elim (Bool-cases (ltb s.unid (neg_part id))) [
  | inl e ↦ rw e (ground arith, ground arith)
  | inr e ↦ rw e (ground arith, ground arith)
]

-- Whatever the sequence of calls, the ids of nodes that it returns fall strictly, from the counter on,
-- so that none is returned twice.
node_ids-Falling : (cs : List Call) (s : Ids) → Falling s.unid (node_ids cs s).0
unfolding node_ids
node_ids-Falling [] s = tt
node_ids-Falling (Call.new_node ∷ cs) s =
    unfold unique_node_id in (omega arith, node_ids-Falling cs (unique_node_id s).1)
node_ids-Falling (Call.new_way ∷ cs) s =
    unfold unique_way_id in node_ids-Falling cs (unique_way_id s).1
node_ids-Falling (Call.set_way id ∷ cs) s =
    subst (λ n. Falling n (node_ids cs (set_unique_way_id id s)).0) (set_way_keeps id s)
      (node_ids-Falling cs (set_unique_way_id id s))
node_ids-Falling (Call.set_node id ∷ cs) s =
    Falling-mono s.unid _ (node_ids cs (set_unique_node_id id s)).0 (set_node_below id s).0
      (node_ids-Falling cs (set_unique_node_id id s))

-- After set_unique_node_id(id) all ids that are returned lie at `id` or below, and fall strictly,
-- whatever calls follow.
node_ids-set_unique_node_id :
    (id : ℤ) (cs : List Call) (s : Ids)
    → Falling (neg_part id) (node_ids cs (set_unique_node_id id s)).0
node_ids-set_unique_node_id id cs s =
    Falling-mono (neg_part id) _ (node_ids cs (set_unique_node_id id s)).0 (set_node_below id s).1
      (node_ids-Falling cs (set_unique_node_id id s))
