-- ===== src/ThreadQueue/Moves.antt =====
-- What the functions of the main thread do to the invariant.
use smrender.Base.{
  ℕ, zero, suc, ◌+◌, ◌<◌, ◌≡◌, refl, sym, ap, ◌∙◌, ◌≢◌, inl, inr, true, false, Option, none, some,
  List, [], ◌∷◌, arith, leb, ◌==◌, ==_iff, Bool-cases, update, length, ℤ, pos, negsuc, nonzero,
  subst, false-true, true-false, none-some, some_inj,
}
use smrender.ThreadQueue.{
  Status, is_wait, is_exec, SmThread, Threads, obj_max, Queued, get_free_thread, add_obj, queue_to,
  queue_at, queue_cur, obj_queue, has_obj,
}
use smrender.ThreadQueue.System.{Pc, Phase}
use smrender.ThreadQueue.Invariant.{IsSound, IsSound-cur}
use smrender.ThreadQueue.Free.{get_free_thread-some}

is_wait-eq : (st : Status) → is_wait st ≡ true → st ≡ Status.wait
is_wait-eq Status.wait e = refl
is_wait-eq Status.exec e = absurd (false-true e)
is_wait-eq Status.exit e = absurd (false-true e)

-- The worker whose list is filled.
abbrev pub IsReady : SmThread → Type 0
IsReady th = (th.status ≡ Status.wait) × ((th.result ≡ pos 0) × (length th.obj < obj_max))

-- All workers, while the main thread fills the lists.
abbrev pub AllSound : ℕ → Threads → (ℕ → Pc) → Type 0
AllSound n q pc = (i : ℕ) → i < n → IsSound Phase.queueing q.cur_id i (q.smth i) (pc i)

pub wait-exit : Status.wait ≢ Status.exit
wait-exit e = true-false (ap is_wait e)

-- A worker that is started, with its full list.
started-IsSound :
    (cur : Option ℕ) (k o : ℕ) (th : SmThread) (p : Pc)
    → IsReady th
    → (p ≡ Pc.gone → th.status ≡ Status.exit)
    → IsSound Phase.queueing none k (record th { obj = o ∷ th.obj; status = Status.exec }) p
started-IsSound cur k o th p ready left = record {
  bounded = omega (arith, ready.1.1);
  filled = λ a b d. absurd (true-false a);
  room = λ c. absurd (none-some c);
  runs = λ r e. refl;
  left = λ e. absurd (wait-exit (sym ready.0 ∙ left e));
  seen = λ c. absurd c;
}

-- A worker that waits for more objects.
waiting-IsSound :
    (k o : ℕ) (th : SmThread) (p : Pc)
    → IsReady th
    → ((r : ℤ) → p ≡ Pc.running r → th.status ≡ Status.exec)
    → (p ≡ Pc.gone → th.status ≡ Status.exit)
    → leb obj_max (length th.obj + 1) ≡ false
    → IsSound Phase.queueing (some k) k (record th { obj = o ∷ th.obj }) p
waiting-IsSound k o th p ready runs left space = record {
  bounded = omega (arith, ready.1.1);
  filled = λ a b d. refl;
  room = λ c. (ready.0, (ready.1.0, ground arith));
  runs = runs;
  left = left;
  seen = λ c. absurd c;
}

-- All workers but the worker `k`, whose list is not the one that is filled.
abbrev pub RestSound : ℕ → ℕ → (ℕ → SmThread) → (ℕ → Pc) → Type 0
RestSound n k smth pc = (i : ℕ) → i < n → i ≢ k → IsSound Phase.queueing none i (smth i) (pc i)

-- A change of the worker `k`.
update-AllSound :
    (n k : ℕ) (cur : Option ℕ) (smth : ℕ → SmThread) (pc : ℕ → Pc) (th : SmThread)
    → RestSound n k smth pc
    → ((i : ℕ) → i ≢ k → cur ≢ some i)
    → IsSound Phase.queueing cur k th (pc k)
    → (i : ℕ) → i < n
    → IsSound Phase.queueing cur i (update smth k th i) (pc i)
update-AllSound n k cur smth pc th rest others this i h = elim (Bool-cases (i == k)) [
  | inl e ↦ rw e (subst (λ j. IsSound Phase.queueing cur j th (pc j)) (sym ((==_iff i k).0 e)) this)
  | inr e ↦
      let ne : i ≢ k = λ eq. ground arith in
      rw e (
        IsSound-cur Phase.queueing none cur i (smth i) (pc i) (rest i h ne) none-some (others i ne))
]

-- The worker whose list is filled is another.
some-other : (k i : ℕ) → i ≢ k → some k ≢ some i
some-other k i ne e = ne (sym (some_inj e))

pub add_obj-IsSound :
    (n k o : ℕ) (q : Threads) (pc : ℕ → Pc)
    → RestSound n k q.smth pc
    → IsReady (q.smth k)
    → ((r : ℤ) → pc k ≡ Pc.running r → (q.smth k).status ≡ Status.exec)
    → (pc k ≡ Pc.gone → (q.smth k).status ≡ Status.exit)
    → AllSound n (add_obj k o q) pc
unfolding add_obj
add_obj-IsSound n k o q pc rest ready runs left =
    elim (Bool-cases (leb obj_max (length (q.smth k).obj + 1))) [
      | inl full ↦ rw full (
          update-AllSound n k none q.smth pc
            (record (q.smth k) { obj = o ∷ (q.smth k).obj; status = Status.exec }) rest
            (λ i ne. none-some) (started-IsSound none k o (q.smth k) (pc k) ready left))
      | inr space ↦ rw space (
          update-AllSound n k (some k) q.smth pc (record (q.smth k) { obj = o ∷ (q.smth k).obj })
            rest (some-other k) (waiting-IsSound k o (q.smth k) (pc k) ready runs left space))
    ]

pub nonzero-false : (x : ℤ) → nonzero x ≡ false → x ≡ pos 0
nonzero-false (pos zero) e = refl
nonzero-false (pos (suc n)) e = absurd (true-false e)
nonzero-false (negsuc n) e = absurd (true-false e)

-- A free worker's list is empty.
free-length : (xs : List ℕ) → (xs ≢ [] → ⊥) → length xs < obj_max
free-length [] h = omega arith
free-length (x ∷ xs) h = absurd (h (λ e. true-false (ap has_obj e)))

-- A worker whose failure has been reported.
reset-IsSound :
    (k : ℕ) (th : SmThread) (p : Pc)
    → th.status ≡ Status.wait
    → ((r : ℤ) → p ≡ Pc.running r → th.status ≡ Status.exec)
    → (p ≡ Pc.gone → th.status ≡ Status.exit)
    → IsSound Phase.queueing
        (some k)
        k
        (record th { obj = []; result = pos 0; status = Status.wait })
        p
reset-IsSound k th p w runs left = record {
  bounded = omega arith;
  filled = λ a b d. refl;
  room = λ c. (refl, (refl, omega arith));
  runs = λ r e. sym w ∙ runs r e;
  left = λ e. sym w ∙ left e;
  seen = λ c. absurd c;
}

pub queue_to-IsSound :
    (n k o : ℕ) (q : Threads) (pc : ℕ → Pc)
    → k < n
    → q.cur_id ≡ none
    → (q.smth k).status ≡ Status.wait
    → AllSound n q pc
    → AllSound n (queue_to k o q).threads pc
unfolding queue_to
queue_to-IsSound n k o q pc h c w all =
    let all' : (i : ℕ) → i < n → IsSound Phase.queueing none i (q.smth i) (pc i) =
      λ i h'. subst (λ cur. IsSound Phase.queueing cur i (q.smth i) (pc i)) c (all i h') in
    elim (Bool-cases (nonzero (q.smth k).result)) [
      | inl e ↦ rw e (
          update-AllSound n k (some k) q.smth pc
            (record (q.smth k) { obj = []; result = pos 0; status = Status.wait })
            (λ i h' ne. all' i h') (some-other k)
            (reset-IsSound k (q.smth k) (pc k) w (all' k h).runs (all' k h).left))
      | inr e ↦
          let zero_result : (q.smth k).result ≡ pos 0 = nonzero-false (q.smth k).result e in
          rw e (
            add_obj-IsSound n k o (record q { cur_id = some k; last = k + 1 }) pc
              (λ i h' ne. all' i h')
              (
                w,
                (
                  zero_result,
                  free-length (q.smth k).obj
                      (λ ne. none-some ((all' k h).filled (ap is_exec w) zero_result ne)),
                ),
              )
              (all' k h).runs (all' k h).left)
    ]

queue_at-AllSound :
    (n o : ℕ) (free : Option ℕ) (q : Threads) (pc : ℕ → Pc) (r : Queued)
    → ((k : ℕ) → free ≡ some k → (k < n) × (is_wait (q.smth k).status ≡ true))
    → q.cur_id ≡ none
    → AllSound n q pc
    → queue_at free o q ≡ some r
    → AllSound n r.threads pc
unfolding queue_at
queue_at-AllSound n o none q pc r got c all e = absurd (none-some e)
queue_at-AllSound n o (some k) q pc r got c all e =
    subst (λ r. AllSound n r.threads pc) (some_inj e)
      (queue_to-IsSound n k o q pc (got k refl).0 c (is_wait-eq (q.smth k).status (got k refl).1)
        all)

queue_cur-AllSound :
    (n o : ℕ) (cur : Option ℕ) (q : Threads) (pc : ℕ → Pc) (r : Queued)
    → q.cur_id ≡ cur
    → ((i : ℕ) → cur ≡ some i → i < n)
    → AllSound n q pc
    → queue_cur n cur o q ≡ some r
    → AllSound n r.threads pc
unfolding queue_cur
queue_cur-AllSound n o none q pc r c range all e =
    queue_at-AllSound n o (get_free_thread n q) q pc r (λ k. get_free_thread-some n k q) c all e
queue_cur-AllSound n o (some k) q pc r c range all e =
    let s : IsSound Phase.queueing q.cur_id k (q.smth k) (pc k) = all k (range k refl) in
    subst (λ r. AllSound n r.threads pc) (some_inj e)
      (add_obj-IsSound n k o q pc
        (λ i h ne.
          IsSound-cur Phase.queueing (some k) none i (q.smth i) (pc i)
            (subst (λ cur. IsSound Phase.queueing cur i (q.smth i) (pc i)) c (all i h))
            (some-other k i ne) none-some)
        (s.room c) s.runs s.left)

-- What the steps of the main thread that queue an object do to the workers.
pub obj_queue-AllSound :
    (n o : ℕ) (q : Threads) (pc : ℕ → Pc) (r : Queued)
    → AllSound n q pc
    → ((i : ℕ) → q.cur_id ≡ some i → i < n)
    → obj_queue n o q ≡ some r
    → AllSound n r.threads pc
unfolding obj_queue
obj_queue-AllSound n o q pc r all range e = queue_cur-AllSound n o q.cur_id q pc r refl range all e
