-- ===== src/ThreadQueue/Free.antt =====
-- get_free_thread() gives a worker that waits.
use smrender.Base.{
  ℕ, zero, suc, ◌+◌, ◌%◌, ◌<◌, ◌≡◌, ◌≢◌, inl, inr, true, some, arith, Bool-cases, subst, none-some,
  some_inj,
}
use smrender.ThreadQueue.{is_wait, Threads, free_from, get_free_thread}
use native.Mathlib.Nat.{mod-lt}

free_from-some :
    (n k i x : ℕ) (q : Threads)
    → 0 < n
    → free_from n k i q ≡ some x
    → (x < n) × (is_wait (q.smth x).status ≡ true)
unfolding free_from
free_from-some n zero i x q h e = absurd (none-some e)
free_from-some n (suc k) i x q h e =
    elim (Bool-cases (is_wait (q.smth ((i + q.last) % n)).status)) [
      | inl w ↦
          let eq : (i + q.last) % n ≡ x = some_inj (rw w at e) in
          subst (λ y. (y < n) × (is_wait (q.smth y).status ≡ true)) eq (mod-lt (i + q.last) h, w)
      | inr w ↦ free_from-some n k (i + 1) x q h (rw w at e)
    ]

free_from-zero : (n i x : ℕ) (q : Threads) → free_from n 0 i q ≢ some x
unfolding free_from
free_from-zero n i x q = none-some

pub get_free_thread-some :
    (n x : ℕ) (q : Threads)
    → get_free_thread n q ≡ some x
    → (x < n) × (is_wait (q.smth x).status ≡ true)
unfolding get_free_thread
get_free_thread-some zero x q e = absurd (free_from-zero 0 0 x q e)
get_free_thread-some (suc n) x q e = free_from-some (suc n) (suc n) 0 x q (omega arith) e
