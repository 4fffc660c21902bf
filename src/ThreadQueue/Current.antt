-- ===== src/ThreadQueue/Current.antt =====
-- The list that obj_queue() fills next is one of a worker.
use smrender.Base.{
  ℕ, ◌+◌, ◌<◌, ◌≡◌, refl, sym, inl, inr, Option, none, some, arith, leb, Bool-cases, length,
  nonzero, subst, none-some, some_inj,
}
use smrender.ThreadQueue.{
  Threads, obj_max, Queued, get_free_thread, add_obj, queue_to, queue_at, queue_cur, obj_queue,
}
use smrender.ThreadQueue.Free.{get_free_thread-some}

add_obj-cur : (k o i : ℕ) (q : Threads) → (add_obj k o q).cur_id ≡ some i → k ≡ i
unfolding add_obj
add_obj-cur k o i q e = elim (Bool-cases (leb obj_max (length (q.smth k).obj + 1))) [
  | inl full ↦ absurd (none-some (rw full at e))
  | inr space ↦ some_inj (rw space at e)
]

queue_to-cur : (k o i : ℕ) (q : Threads) → (queue_to k o q).threads.cur_id ≡ some i → k ≡ i
unfolding queue_to
queue_to-cur k o i q e = elim (Bool-cases (nonzero (q.smth k).result)) [
  | inl b ↦ some_inj (rw b at e)
  | inr b ↦ add_obj-cur k o i (record q { cur_id = some k; last = k + 1 }) (rw b at e)
]

queue_at-cur :
    (n o i : ℕ) (free : Option ℕ) (q : Threads) (r : Queued)
    → ((k : ℕ) → free ≡ some k → k < n)
    → queue_at free o q ≡ some r
    → r.threads.cur_id ≡ some i
    → i < n
unfolding queue_at
queue_at-cur n o i none q r got e c = absurd (none-some e)
queue_at-cur n o i (some k) q r got e c =
    let eq : k ≡ i =
      queue_to-cur k o i q (subst (λ r. r.threads.cur_id ≡ some i) (sym (some_inj e)) c) in
    omega (arith, eq, got k refl)

queue_cur-cur :
    (n o i : ℕ) (cur : Option ℕ) (q : Threads) (r : Queued)
    → ((k : ℕ) → cur ≡ some k → k < n)
    → queue_cur n cur o q ≡ some r
    → r.threads.cur_id ≡ some i
    → i < n
unfolding queue_cur
queue_cur-cur n o i none q r range e c =
    queue_at-cur n o i (get_free_thread n q) q r (λ k g. (get_free_thread-some n k q g).0) e c
queue_cur-cur n o i (some k) q r range e c =
    let eq : k ≡ i =
      add_obj-cur k o i q (subst (λ r. r.threads.cur_id ≡ some i) (sym (some_inj e)) c) in
    omega (arith, eq, range k refl)

pub obj_queue-cur :
    (n o i : ℕ) (q : Threads) (r : Queued)
    → ((k : ℕ) → q.cur_id ≡ some k → k < n)
    → obj_queue n o q ≡ some r
    → r.threads.cur_id ≡ some i
    → i < n
unfolding obj_queue
obj_queue-cur n o i q r range e c = queue_cur-cur n o i q.cur_id q r range e c
