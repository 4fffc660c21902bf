-- ===== src/ThreadQueue/Changes.antt =====
-- What the steps that change a list, or the rule, do to the count of the objects.
use smrender.Base.{
  update-same, update-other, ℕ, ◌+◌, ◌%◌, ◌^◌, ◌<◌, ◌≡◌, refl, sym, ap, ◌∙◌, ◌≢◌, inl, inr, true,
  false, some, List, [], ◌∷◌, arith, leb, ◌==◌, if◌then◌else◌, ==_iff, ==_refl, Bool-cases, ℤ, pos,
  nonzero, subst, true-false, sum_range-update, sum_range-zero,
}
use smrender.ThreadQueue.{SmThread, Queued, obj_queue_ini, obj_queue, has_obj}
use smrender.ThreadQueue.System.{Pc, Phase, System, with_thread, with_call, with_queue}
use smrender.ThreadQueue.Invariant.{IsCur, IsSound, Inv}
use smrender.ThreadQueue.Bounds.{Inv-phase}
use smrender.ThreadQueue.Added.{IsAdded, obj_queue-IsAdded}
use smrender.ThreadQueue.Kept.{
  times, waiting, waiting_of, waiting_all, times-added, waiting-added, Balance,
}

no_obj : (xs : List ℕ) → (xs ≢ [] → ⊥) → xs ≡ []
no_obj [] h = refl
no_obj (x ∷ xs) h = absurd (h (λ e. true-false (ap has_obj e)))

-- Between two rules no list has an object.
pub idle-waiting :
    (n r o : ℕ) (s : System) (smth : ℕ → SmThread)
    → Inv n s
    → Balance n s
    → s.phase ≡ Phase.idle
    → ((i : ℕ) → i < n → (smth i).obj ≡ (s.threads.smth i).obj)
    → waiting_all n r o smth ≡ 0
unfolding waiting
idle-waiting n r o s smth inv b e same =
    sum_range-zero n 0 (λ i. waiting_of r o (smth i))
      (λ i p h.
        let h' : i < n = omega (arith, h) in
        let t : IsSound Phase.idle s.threads.cur_id i (s.threads.smth i) (s.pc i) =
          Inv-phase n s Phase.idle inv e i h' in
        let empty : (smth i).obj ≡ [] =
          same i h' ∙ no_obj (s.threads.smth i).obj (t.filled (t.seen tt) (b.results i h')) in
        rw empty refl)

pub begun-Balance :
    (n r : ℕ) (s : System)
    → Inv n s
    → Balance n s
    → s.phase ≡ Phase.idle
    → Balance n
        (record s { threads = obj_queue_ini n r s.threads; phase = Phase.queueing; rule = r })
unfolding obj_queue_ini
begun-Balance n r s inv b e =
    let le : (i : ℕ) → i < n → leb i n ≡ true = λ i h. ground arith in
    record {
      mains = λ i h. rw (le i h) refl;
      results = λ i h. rw (le i h) (b.results i h);
      running_zero = b.running_zero;
      count = λ r' o. omega (
        arith,
        b.count r' o,
        idle-waiting n r' o s s.threads.smth inv b e (λ i h. refl),
        idle-waiting n r' o s (obj_queue_ini n r s.threads).smth inv b e (λ i h. rw (le i h) refl),
      );
    }

-- A step changes the worker `i` and no other, and the count stays right.
record IsChange (n i : ℕ) (s t : System) : Type 0 where
  in_range : i < n
  others : (j : ℕ) → j ≢ i → t.threads.smth j ≡ s.threads.smth j
  others_pc : (j : ℕ) → j ≢ i → t.pc j ≡ s.pc j
  rule : t.rule ≡ s.rule
  main : (t.threads.smth i).main ≡ (s.threads.smth i).main
  result : (t.threads.smth i).result ≡ pos 0
  running_zero : (r : ℤ) → t.pc i ≡ Pc.running r → r ≡ pos 0
  count :
      (r o : ℕ)
      → times r o t.queued + times r o s.calls + waiting_of r o (s.threads.smth i)
        ≡ times r o s.queued + times r o t.calls + waiting_of r o (t.threads.smth i)

changed-Balance : (n i : ℕ) (s t : System) → Balance n s → IsChange n i s t → Balance n t
changed-Balance n i s t b c = record {
  mains = λ j h. elim (Bool-cases (j == i)) [
    | inl e ↦
        subst (λ k. (t.threads.smth k).main ≡ t.rule) (sym ((==_iff j i).0 e))
          (c.main ∙ b.mains i c.in_range ∙ sym c.rule)
    | inr e ↦ ap (λ th. th.main) (c.others j (other j e)) ∙ b.mains j h ∙ sym c.rule
  ];
  results = λ j h. elim (Bool-cases (j == i)) [
    | inl e ↦ subst (λ k. (t.threads.smth k).result ≡ pos 0) (sym ((==_iff j i).0 e)) c.result
    | inr e ↦ ap (λ th. th.result) (c.others j (other j e)) ∙ b.results j h
  ];
  running_zero = λ j r h p. elim (Bool-cases (j == i)) [
    | inl e ↦ c.running_zero r (sym (ap t.pc ((==_iff j i).0 e)) ∙ p)
    | inr e ↦ b.running_zero j r h (sym (c.others_pc j (other j e)) ∙ p)
  ];
  count = λ r o. omega (
    arith,
    b.count r o,
    c.count r o,
    sum_range-update n 0 i (λ j. waiting_of r o (s.threads.smth j))
        (λ j. waiting_of r o (t.threads.smth j)) (λ j ne. ap (waiting_of r o) (c.others j ne))
        (omega arith) (omega (arith, c.in_range)),
  );
}
  where
    other : (j : ℕ) → (j == i) ≡ false → j ≢ i
    other j e eq = ground arith

-- obj_queue
pub queued-Balance :
    (n o : ℕ) (s : System) (r : Queued)
    → Inv n s
    → Balance n s
    → s.phase ≡ Phase.queueing
    → obj_queue n o s.threads ≡ some r
    → Balance n (with_queue s o r)
queued-Balance n o s r inv b e q =
    let a : IsAdded n o s.threads r =
      obj_queue-IsAdded n o s.threads r
        (λ i c. inv.in_range i (subst (λ p. IsCur p s.threads.cur_id i) (sym e) c)) b.results q in
    let main : (r.threads.smth a.to).main ≡ s.rule = a.is_added.main ∙ b.mains a.to a.in_range in
    changed-Balance n a.to s (with_queue s o r) b (record {
      in_range = a.in_range;
      others = a.is_added.others;
      others_pc = λ j ne. refl;
      rule = refl;
      main = a.is_added.main;
      result = a.is_added.result ∙ b.results a.to a.in_range;
      running_zero = λ r p. b.running_zero a.to r a.in_range p;
      count = λ r' o'. omega (
        arith,
        times-added r' o' o s.rule s.queued (with_queue s o r).queued
            (ap (λ x. if nonzero x then s.queued else (s.rule, o) ∷ s.queued) a.res_zero),
        waiting-added r' o' o s.rule (s.threads.smth a.to) (r.threads.smth a.to) main
            (b.mains a.to a.in_range) a.is_added.added,
      );
    })

-- A step of a worker that keeps its list.
pub moved-Balance :
    (n i : ℕ) (s : System) (th : SmThread) (p : Pc)
    → i < n
    → Balance n s
    → th.main ≡ (s.threads.smth i).main
    → th.obj ≡ (s.threads.smth i).obj
    → th.result ≡ pos 0
    → ((r : ℤ) → p ≡ Pc.running r → r ≡ pos 0)
    → Balance n (with_thread s i th p)
moved-Balance n i s th p h b main obj result zeros =
    changed-Balance n i s (with_thread s i th p) b (record {
      in_range = h;
      others = λ j ne. update-other s.threads.smth i j th ne;
      others_pc = λ j ne. update-other s.pc i j p ne;
      rule = refl;
      main = rw (==_refl i) main;
      result = rw (==_refl i) result;
      running_zero = λ r e. zeros r (sym (update-same s.pc i p) ∙ e);
      count = λ r o. rw (==_refl i, main, obj) refl;
    })

pub running_inj : (r r' : ℤ) → Pc.running r ≡ Pc.running r' → r ≡ r'
running_inj r r' e = ap result_of e
  where
    result_of : Pc → ℤ
    result_of Pc.parked = pos 0
    result_of Pc.gone = pos 0
    result_of (Pc.running r) = r

-- The call of the function, which returns 0.
pub called-Balance :
    (n i o : ℕ) (os : List ℕ) (res : ℤ) (s : System)
    → i < n
    → Balance n s
    → (s.threads.smth i).obj ≡ o ∷ os
    → res ≡ pos 0
    → Balance n (with_call s i o os res)
unfolding times waiting
called-Balance n i o os res s h b e z =
    let th : SmThread = record (s.threads.smth i) {
      obj = os;
      call_cnt = ((s.threads.smth i).call_cnt + 1) % 2 ^ 32;
    } in
    changed-Balance n i s (with_call s i o os res) b (record {
      in_range = h;
      others = λ j ne. update-other s.threads.smth i j th ne;
      others_pc = λ j ne. update-other s.pc i j (Pc.running res) ne;
      rule = refl;
      main = rw (==_refl i) refl;
      result = rw (==_refl i) (b.results i h);
      running_zero =
          λ r p. sym (running_inj res r (sym (update-same s.pc i (Pc.running res)) ∙ p)) ∙ z;
      count = λ r' o'. rw (==_refl i, e) (omega arith);
    })
