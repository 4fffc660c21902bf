-- ===== src/Qcache.antt =====
-- smrenderd/smcache.c: the cache of the daemon's queries, an array of MAX_CACHE slots. Each function
-- is one step, since it holds the lock; `now` is what time() returns in it.
pub mod Slots
pub mod Put
use smrender.Base.{
  ℕ, zero, suc, ◌+◌, ◌-◌, Bool, false, not, ◌&&◌, Option, none, some, List, [], ◌∷◌, ltb, ◌==◌,
  if◌then◌else◌, get_elem?, nonzero,
}
use smrender.Bstring.{Bytes, memcmp}

-- qcache_t: the bytes of the bounding box, the address of the tree, the age, of which 0 means that
-- the slot is free, and the number of users.
pub record Qcache : Type 0 where
  pub bb : Bytes
  pub tree : ℕ
  pub age : ℕ
  pub ctr : ℕ

-- qc_[i].age && !memcmp(...)
abbrev pub is_hit : Bytes → Qcache → Bool
is_hit bb q = not (q.age == 0) && not (nonzero (memcmp q.bb bb))

-- qc_lookup, from the slot `i` on: the index of the slot that is returned, and the array.
unfoldable pub qc_lookup : Bytes → ℕ → ℕ → List Qcache → Option ℕ × List Qcache
qc_lookup bb now i [] = (none, [])
qc_lookup bb now i (q ∷ qs) =
    let (found, rest) = qc_lookup bb now (i + 1) qs in
    if is_hit bb q
    then (some i, record q { age = now; ctr = q.ctr + 1 } ∷ qs)
    else (found, q ∷ rest)

-- qc_release of a slot that is in use, by its index, and whether waiting threads are signalled.
unfoldable pub qc_release : ℕ → ℕ → List Qcache → List Qcache × Bool
qc_release n now [] = ([], false)
qc_release zero now (q ∷ qs) = (record q { age = now; ctr = q.ctr - 1 } ∷ qs, q.ctr - 1 == 0)
qc_release (suc n) now (q ∷ qs) = let (rest, signal) = qc_release n now qs in (q ∷ rest, signal)

-- The loop of qc_oldest from the slot `i` on, with `t` and `n`.
unfoldable pub oldest_loop : ℕ → Option ℕ → ℕ → List Qcache → Option ℕ
oldest_loop t n i [] = n
oldest_loop t n i (q ∷ qs) =
    let older = oldest_loop q.age (some i) (i + 1) qs in
    let rest = oldest_loop t n (i + 1) qs in if q.ctr == 0 && ltb q.age t then older else rest

-- qc_oldest; -1 is none.
unfoldable pub qc_oldest : ℕ → List Qcache → Option ℕ
unfolding oldest_loop
qc_oldest now qs = oldest_loop now none 0 qs

-- qc_[n].age = 0
unfoldable pub clear_age : ℕ → List Qcache → List Qcache
clear_age n [] = []
clear_age zero (q ∷ qs) = record q { age = 0 } ∷ qs
clear_age (suc n) (q ∷ qs) = q ∷ clear_age n qs

-- What qc_cleanup does once it has found a slot: the tree that is freed, and the array.
unfoldable pub cleaned : Option ℕ → List Qcache → Option (Option Qcache × List Qcache)
cleaned none qs = none
cleaned (some n) qs = some (get_elem? qs n, clear_age n qs)

-- qc_cleanup: the slot whose tree is freed, and the array; none where the thread goes on waiting.
unfoldable pub qc_cleanup : ℕ → List Qcache → Option (Option Qcache × List Qcache)
unfolding cleaned
qc_cleanup now qs = cleaned (qc_oldest now qs) qs

-- qc_put, from the slot `i` on.
unfoldable pub qc_put : Bytes → ℕ → ℕ → ℕ → List Qcache → Option ℕ × List Qcache
qc_put bb tree now i [] = (none, [])
qc_put bb tree now i (q ∷ qs) =
    let (found, rest) = qc_put bb tree now (i + 1) qs in
    if q.age == 0
    then (some i, record { bb = bb; tree = tree; age = now; ctr = 1 } ∷ qs)
    else (found, q ∷ rest)
