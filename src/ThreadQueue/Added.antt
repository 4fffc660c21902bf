-- ===== src/ThreadQueue/Added.antt =====
-- What obj_queue() does to the lists, when no run has failed.
use smrender.Base.{
  update-same, update-other, ℕ, ◌+◌, ◌<◌, ◌≡◌, refl, ap, ◌≢◌, inl, inr, Option, none, some, ◌∷◌,
  leb, Bool-cases, update, length, pos, subst, none-some, some_inj,
}
use smrender.ThreadQueue.{
  Status, SmThread, Threads, obj_max, Queued, get_free_thread, add_obj, queue_to, queue_at,
  queue_cur, obj_queue,
}
use smrender.ThreadQueue.Free.{get_free_thread-some}

-- obj_queue() has put the object `o` onto the list of the worker `k`, and on no other.
pub record IsAddedTo (k o : ℕ) (q q' : Threads) : Type 0 where
  pub others : (j : ℕ) → j ≢ k → q'.smth j ≡ q.smth j
  pub added : (q'.smth k).obj ≡ o ∷ (q.smth k).obj
  pub main : (q'.smth k).main ≡ (q.smth k).main
  pub result : (q'.smth k).result ≡ (q.smth k).result

updated-IsAddedTo :
    (k o : ℕ) (st : Status) (cur : Option ℕ) (q : Threads)
    → IsAddedTo k o q (record q {
      smth = update q.smth k (record (q.smth k) { obj = o ∷ (q.smth k).obj; status = st });
      cur_id = cur;
    })
updated-IsAddedTo k o st cur q =
    let th : SmThread = record (q.smth k) { obj = o ∷ (q.smth k).obj; status = st } in
    record {
      others = λ j ne. update-other q.smth k j th ne;
      added = ap (λ t. t.obj) (update-same q.smth k th);
      main = ap (λ t. t.main) (update-same q.smth k th);
      result = ap (λ t. t.result) (update-same q.smth k th);
    }

pub add_obj-IsAddedTo : (k o : ℕ) (q : Threads) → IsAddedTo k o q (add_obj k o q)
unfolding add_obj
add_obj-IsAddedTo k o q = elim (Bool-cases (leb obj_max (length (q.smth k).obj + 1))) [
  | inl full ↦ rw full (updated-IsAddedTo k o Status.exec none q)
  | inr space ↦ rw space (updated-IsAddedTo k o (q.smth k).status (some k) q)
]

-- The object has been queued to a worker.
pub record IsAdded (n o : ℕ) (q : Threads) (r : Queued) : Type 0 where
  pub to : ℕ
  pub in_range : to < n
  pub res_zero : r.res ≡ pos 0
  pub is_added : IsAddedTo to o q r.threads

queue_to-IsAdded :
    (n k o : ℕ) (q : Threads) → k < n → (q.smth k).result ≡ pos 0 → IsAdded n o q (queue_to k o q)
unfolding queue_to
queue_to-IsAdded n k o q h e =
    let a : IsAddedTo k o q (add_obj k o (record q { cur_id = some k; last = k + 1 })) =
      let a' : IsAddedTo k o (record q { cur_id = some k; last = k + 1 })
          (add_obj k o (record q { cur_id = some k; last = k + 1 })) =
        add_obj-IsAddedTo k o (record q { cur_id = some k; last = k + 1 }) in
      record { others = a'.others; added = a'.added; main = a'.main; result = a'.result } in
    rw e (record { to = k; in_range = h; res_zero = refl; is_added = a })

queue_at-IsAdded :
    (n o : ℕ) (free : Option ℕ) (q : Threads) (r : Queued)
    → ((k : ℕ) → free ≡ some k → k < n)
    → ((i : ℕ) → i < n → (q.smth i).result ≡ pos 0)
    → queue_at free o q ≡ some r
    → IsAdded n o q r
unfolding queue_at
queue_at-IsAdded n o none q r got zeros e = absurd (none-some e)
queue_at-IsAdded n o (some k) q r got zeros e =
    subst (λ r. IsAdded n o q r) (some_inj e)
      (queue_to-IsAdded n k o q (got k refl) (zeros k (got k refl)))

queue_cur-IsAdded :
    (n o : ℕ) (cur : Option ℕ) (q : Threads) (r : Queued)
    → ((k : ℕ) → cur ≡ some k → k < n)
    → ((i : ℕ) → i < n → (q.smth i).result ≡ pos 0)
    → queue_cur n cur o q ≡ some r
    → IsAdded n o q r
unfolding queue_cur
queue_cur-IsAdded n o none q r range zeros e =
    queue_at-IsAdded n o (get_free_thread n q) q r (λ k g. (get_free_thread-some n k q g).0) zeros e
queue_cur-IsAdded n o (some k) q r range zeros e =
    subst (λ r. IsAdded n o q r) (some_inj e)
      (record {
        to = k;
        in_range = range k refl;
        res_zero = refl;
        is_added = add_obj-IsAddedTo k o q;
      })

pub obj_queue-IsAdded :
    (n o : ℕ) (q : Threads) (r : Queued)
    → ((k : ℕ) → q.cur_id ≡ some k → k < n)
    → ((i : ℕ) → i < n → (q.smth i).result ≡ pos 0)
    → obj_queue n o q ≡ some r
    → IsAdded n o q r
unfolding obj_queue
obj_queue-IsAdded n o q r range zeros e = queue_cur-IsAdded n o q.cur_id q r range zeros e
