-- ===== src/Tests/Cache.antt =====
-- Runs on the cache of queries.
use smrender.Base.{ℕ, ◌<◌, ◌≡◌, refl, some, List, [], ◌∷◌, arith, In}
use smrender.Bstring.{memcmp}
use smrender.Qcache.{
  Qcache, qc_lookup, qc_put, qc_cleanup, qc_oldest, oldest_loop, clear_age, cleaned,
}
use smrender.Qcache.Slots.{tree_of, qc_cleanup-IsUnused, qc_cleanup-qc_cleanup}
use smrender.Qcache.Put.{qc_lookup-qc_put}

abbrev entry : ℕ → ℕ → ℕ → Qcache
entry id age ctr = record { bb = id ∷ []; tree = id; age = age; ctr = ctr }

abbrev slots : List Qcache
slots = entry 1 5 1 ∷ entry 2 4 0 ∷ entry 3 6 0 ∷ []

abbrev after : List Qcache
after = entry 1 5 1 ∷ entry 2 0 0 ∷ entry 3 6 0 ∷ []

freed_slot : qc_cleanup 9 slots ≡ some (some (entry 2 4 0), after)
unfolding qc_cleanup qc_oldest oldest_loop clear_age cleaned
freed_slot = refl

qc_cleanup-IsUnused_example :
    (q : Qcache) × ((some (entry 2 4 0) ≡ some q) × (In q slots × ((q.ctr ≡ 0) × (q.age < 9))))
qc_cleanup-IsUnused_example = qc_cleanup-IsUnused 9 slots after (some (entry 2 4 0)) freed_slot

qc_cleanup-qc_cleanup_example :
    (again : Qcache) × ((qc_cleanup 9 after ≡ some (some again, after))
      × (tree_of (some (entry 2 4 0)) ≡ some again.tree))
qc_cleanup-qc_cleanup_example =
    qc_cleanup-qc_cleanup 9 9 slots after (some (entry 2 4 0))
      (omega arith, (omega arith, (omega arith, tt))) (omega arith) freed_slot

qc_lookup-qc_put_example : (qc_lookup (7 ∷ []) 10 0 (qc_put (7 ∷ []) 7 9 0 after).1).0 ≡ some 1
unfolding qc_lookup qc_put memcmp
qc_lookup-qc_put_example = qc_lookup-qc_put (7 ∷ []) 7 9 10 0 1 after (omega arith) refl refl
