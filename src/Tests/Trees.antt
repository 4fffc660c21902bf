-- ===== src/Tests/Trees.antt =====
-- Runs on a small object tree.
use smrender.Base.{
  ℕ, ◌+◌, ◌*◌, ◌%◌, ◌<◌, ◌≡◌, refl, ◌↔◌, inl, inr, true, false, ◌&&◌, none, some, List, [], ◌∷◌,
  arith, ◌==◌, if◌then◌else◌, pos, In,
}
use smrender.Bxtree.{
  Node, Tree, Stats, depth, word, node_size, bx_sizeof, bx_add_node1, bx_free_tree0,
}
use smrender.Bxtree.Memory.{add_node-Accounts, Accounts, nodes, bx_sizeof-free_tree}
use smrender.ObjTree.{put_object0, get_object0, get_object, rem_object}
use smrender.ObjTree.Laws.{get_object0-put_object0, rem_object-get_object}
use smrender.Traverse.{Handler, traverse}
use smrender.Traverse.Walk.{walk}
use smrender.Traverse.Order.{Ascending}
use smrender.Traverse.InOrder.{traverse-get_object0}
use smrender.RevIndex.Insert.{insert_refs-ref}
use smrender.RevIndex.{insert_refs, rev_index_way_nodes}
use smrender.RevIndex.Members.{parents}
use smrender.RevIndex.Ways.{AddedWay, rev_index_way_nodes-In}

abbrev no_stats : Stats
no_stats = record { mem_alloc = 0; mem_free = 0; malloc_cnt = 0 }

-- The object 7 as the node of id 5.
abbrev one_node : Tree ℕ depth
one_node = (put_object0 ℕ true none no_stats 5 (some 7) (pos 0)).tree

get_object0-put_object0_example :
    let r = put_object0 ℕ true none no_stats 5 (some 7) (pos 0) in
    (r.result ≡ pos 0)
    × (get_object0 ℕ r.tree 5 (pos 0)
        ≡ (if 5 == 5 && 0 == 0 then some 7 else get_object0 ℕ none 5 (pos 0)))
get_object0-put_object0_example =
    get_object0-put_object0 ℕ true none no_stats 5 5 0 0 (some 7) (omega arith) (omega arith)
      (omega arith)

one_node_there : get_object0 ℕ one_node 5 (pos 0) ≡ some 7
one_node_there = get_object0-put_object0_example.1

rem_object-get_object_example :
    let r = rem_object ℕ one_node no_stats 1 5 in
    (r.0 ≡ get_object ℕ one_node 1 5)
    × (get_object ℕ r.1 1 5 ≡ (if 5 == 5 && 0 == 0 then none else get_object ℕ one_node 1 5))
rem_object-get_object_example =
    rem_object-get_object ℕ one_node no_stats 0 5 0 5 (omega arith) (omega arith) (omega arith)

no_stats-Accounts : Accounts no_stats (0 + nodes ℕ depth none) (0 + nodes ℕ depth none)
unfolding nodes
no_stats-Accounts = record { balance = refl; bytes = refl; freed = omega arith }

-- The tree with the path of the id 5, and the counters behind it
abbrev one_path : Tree ℕ depth × Stats
one_path = bx_add_node1 ℕ depth none 5 0 no_stats

one_path-Accounts :
    Accounts one_path.1 (0 + nodes ℕ depth one_path.0) (0 + nodes ℕ depth one_path.0)
one_path-Accounts = add_node-Accounts ℕ depth none 5 0 no_stats 0 0 no_stats-Accounts

bx_sizeof-free_tree_example :
    ((bx_free_tree0 ℕ depth one_path.0 one_path.1).malloc_cnt ≡ 0)
    × (bx_sizeof one_path.1 ≡ (0 + nodes ℕ depth one_path.0) * node_size % word)
    × (bx_sizeof (bx_free_tree0 ℕ depth one_path.0 one_path.1)
        ≡ (0 + nodes ℕ depth one_path.0 + nodes ℕ depth one_path.0) * node_size % word)
bx_sizeof-free_tree_example =
    bx_sizeof-free_tree ℕ depth one_path.0 one_path.1 0 (0 + nodes ℕ depth one_path.0)
      one_path-Accounts

-- A handler that sums the objects up.
abbrev sum_up : Handler ℕ ℕ
sum_up o s = (s + o, pos 0)

abbrev root : Node ℕ depth
root = λ x. elim one_node [ none ↦ none | some n ↦ n x ]

traverse-get_object0_example :
    (es : List (ℕ × ℕ)) × ((traverse (λ s. false) sum_up (some root) (pos 0) 0 ≡ walk sum_up es 0)
      × (Ascending 0 word es
          × ((h : ℕ) (o : ℕ)
              → h < word
              → In (h, o) es ↔ (get_object0 ℕ (some root) h (pos 0) ≡ some o))))
traverse-get_object0_example =
    traverse-get_object0 sum_up (λ s. false) root 0 0 (λ s. refl) (omega arith)

abbrev small : (id : ℕ) → In id (5 ∷ 6 ∷ []) → id < word
small id (inl e) = omega arith
small id (inr (inl e)) = omega arith
small id (inr (inr e)) = absurd e

rev_index_way_nodes-In_example :
    let r = rev_index_way_nodes (λ n. true) (λ id. id == 5) 77 (5 ∷ 6 ∷ []) none no_stats in
    (r.result ≡ pos 0)
    × (In 77 (parents r.tree 5 0)
        ↔ AddedWay (λ id. id == 5) 77 (5 ∷ 6 ∷ []) 5 77 (parents none 5 0))
rev_index_way_nodes-In_example =
    rev_index_way_nodes-In (λ n. true) (λ id. id == 5) 77 (5 ∷ 6 ∷ []) none no_stats 5 77
      (λ n. refl) small (omega arith)

insert_refs-ref_example :
    let r = insert_refs (λ n. true) 77 (1 ∷ 2 ∷ []) (0 ∷ 0 ∷ []) (5 ∷ 6 ∷ []) 1 none no_stats in
    (r.result ≡ pos 0) × (r.ref ≡ 1 ∷ 5 ∷ 6 ∷ 2 ∷ [])
insert_refs-ref_example =
    insert_refs-ref (λ n. true) 77 (1 ∷ 2 ∷ []) (0 ∷ 0 ∷ []) (5 ∷ 6 ∷ []) 1 none no_stats
      (λ n. refl) small refl (omega arith)
