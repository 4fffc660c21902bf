-- ===== src/ThreadQueue/Bounds.antt =====
-- The lists of the workers are never written past their end.
use smrender.Base.{
  ℕ, ◌+◌, ◌%◌, ◌^◌, ◌≤◌, ◌<◌, ◌≡◌, refl, sym, ap, inl, inr, Bool, true, false, some, arith, ltb,
  leb, ◌==◌, ==_iff, Bool-cases, length, pos, subst, false-true, none-some,
}
use smrender.ThreadQueue.Workers.{
  is_running, has_left, signal-IsSound, begun-IsSound, stopped-IsSound, called-IsSound,
  finished-IsSound, moved-IsSound, passed-IsSound,
}
use smrender.ThreadQueue.{
  Status, is_exec, SmThread, obj_max, Queued, obj_queue_ini, obj_queue, obj_queue_signal,
  exit_threads,
}
use smrender.ThreadQueue.System.{
  Pc, Phase, System, Step, init, Reach, new_thread, with_thread, with_queue,
}
use smrender.ThreadQueue.Invariant.{IsCur, IsSound, Inv, update-IsSound}
use smrender.ThreadQueue.Moves.{obj_queue-AllSound}
use smrender.ThreadQueue.Current.{obj_queue-cur}

pub Inv-phase :
    (n : ℕ) (s : System) (phase : Phase)
    → Inv n s
    → s.phase ≡ phase
    → (i : ℕ) → i < n
    → IsSound phase s.threads.cur_id i (s.threads.smth i) (s.pc i)
Inv-phase n s phase inv e i h =
    subst (λ p. IsSound p s.threads.cur_id i (s.threads.smth i) (s.pc i)) e (inv.sound i h)

begun-Inv :
    (n r : ℕ) (s : System)
    → Inv n s
    → s.phase ≡ Phase.idle
    → Inv n (record s { threads = obj_queue_ini n r s.threads; phase = Phase.queueing; rule = r })
unfolding obj_queue_ini
begun-Inv n r s inv e = record {
  sound = λ i h.
      let le : leb i n ≡ true = ground arith in
      rw le (
        begun-IsSound r i s.threads.cur_id (s.threads.smth i) (s.pc i)
          (Inv-phase n s Phase.idle inv e i h));
  in_range = λ i c. absurd (none-some c);
}

queued-Inv :
    (n o : ℕ) (s : System) (r : Queued)
    → Inv n s
    → s.phase ≡ Phase.queueing
    → obj_queue n o s.threads ≡ some r
    → Inv n (with_queue s o r)
queued-Inv n o s r inv e q =
    let range : (i : ℕ) → s.threads.cur_id ≡ some i → i < n =
      λ i c. inv.in_range i (subst (λ p. IsCur p s.threads.cur_id i) (sym e) c) in
    record {
      sound = λ i h.
          subst (λ p. IsSound p r.threads.cur_id i (r.threads.smth i) (s.pc i)) (sym e)
            (obj_queue-AllSound n o s.threads s.pc r (Inv-phase n s Phase.queueing inv e) range q i
              h);
      in_range = λ i c.
          obj_queue-cur n o i s.threads r range q (subst (λ p. IsCur p r.threads.cur_id i) e c);
    }

signalled-Inv :
    (n : ℕ) (s : System)
    → Inv n s
    → s.phase ≡ Phase.queueing
    → Inv n (record s { threads = obj_queue_signal n s.threads; phase = Phase.blocked 0 })
unfolding obj_queue_signal
signalled-Inv n s inv e = record {
  sound = λ i h.
      let lt : ltb i n ≡ true = ground arith in
      rw lt (
        signal-IsSound s.threads.cur_id i (s.threads.smth i) (s.pc i)
          (Inv-phase n s Phase.queueing inv e i h));
  in_range = λ i c. absurd c;
}

stopped-Inv :
    (n : ℕ) (s : System)
    → Inv n s
    → s.phase ≡ Phase.idle
    → Inv n (record s { threads = exit_threads n s.threads; phase = Phase.ended })
unfolding exit_threads
stopped-Inv n s inv e = record {
  sound = λ i h.
      let lt : ltb i n ≡ true = ground arith in
      rw lt (
        stopped-IsSound i s.threads.cur_id (s.threads.smth i) (s.pc i)
          (Inv-phase n s Phase.idle inv e i h));
  in_range = λ i c. absurd c;
}

-- A step of the worker `i`.
with_thread-Inv :
    (n i : ℕ) (s : System) (th : SmThread) (p : Pc)
    → Inv n s
    → IsSound s.phase s.threads.cur_id i th p
    → Inv n (with_thread s i th p)
with_thread-Inv n i s th p inv t = record {
  sound = update-IsSound n i s.phase s.threads.cur_id s.threads.smth s.pc th p inv.sound t;
  in_range = inv.in_range;
}

passed-Inv :
    (n k : ℕ) (s : System)
    → Inv n s
    → s.phase ≡ Phase.blocked k
    → is_exec (s.threads.smth k).status ≡ false
    → Inv n (record s { phase = Phase.blocked (k + 1) })
passed-Inv n k s inv e x = record {
  sound = λ i h.
      let t : IsSound (Phase.blocked k) s.threads.cur_id i (s.threads.smth i) (s.pc i) =
        Inv-phase n s (Phase.blocked k) inv e i h in
      passed-IsSound k i (Phase.blocked (k + 1)) s.threads.cur_id (s.threads.smth i) (s.pc i) t
        (λ c. c)
        (λ seen. elim (Bool-cases (i == k)) [
          | inl eq ↦
              subst (λ j. is_exec (s.threads.smth j).status ≡ false) (sym ((==_iff i k).0 eq)) x
          | inr ne ↦ t.seen (ground (arith, seen))
        ]);
  in_range = λ i c. absurd c;
}

unblocked-Inv :
    (n k : ℕ) (s : System)
    → Inv n s
    → s.phase ≡ Phase.blocked k
    → n ≤ k
    → Inv n (record s { phase = Phase.idle })
unblocked-Inv n k s inv e le = record {
  sound = λ i h.
      let t : IsSound (Phase.blocked k) s.threads.cur_id i (s.threads.smth i) (s.pc i) =
        Inv-phase n s (Phase.blocked k) inv e i h in
      passed-IsSound k i Phase.idle s.threads.cur_id (s.threads.smth i) (s.pc i) t (λ c. c)
        (λ seen. t.seen (omega (arith, h, le)));
  in_range = λ i c. absurd c;
}

pub Step-Inv : (n : ℕ) (s t : System) → Inv n s → Step n s t → Inv n t
Step-Inv n s t inv (Step.begin_rule r e) = begun-Inv n r s inv e
Step-Inv n s t inv (Step.queue o r e q) = queued-Inv n o s r inv e q
Step-Inv n s t inv (Step.signal_all e) = signalled-Inv n s inv e
Step-Inv n s t inv (Step.pass k e h x) = passed-Inv n k s inv e x
Step-Inv n s t inv (Step.unblock k e h) = unblocked-Inv n k s inv e h
Step-Inv n s t inv (Step.stop e) = stopped-Inv n s inv e
Step-Inv n s t inv (Step.start i h p x) =
    with_thread-Inv n i s (s.threads.smth i) (Pc.running (pos 0)) inv (
      moved-IsSound s.phase i s.threads.cur_id (s.threads.smth i) (s.pc i) (Pc.running (pos 0))
        (inv.sound i h) (λ r e. x) (λ g. absurd (false-true (ap has_left g))))
Step-Inv n s t inv (Step.leave i h p x) = with_thread-Inv n i s (s.threads.smth i) Pc.gone inv (
    moved-IsSound s.phase i s.threads.cur_id (s.threads.smth i) (s.pc i) Pc.gone (inv.sound i h)
      (λ r e. absurd (false-true (ap is_running e))) (λ g. x))
Step-Inv n s t inv (Step.call i o os res h p e) =
    let old : Inv n (
        with_thread s i
          (record (s.threads.smth i) {
            obj = os;
            call_cnt = ((s.threads.smth i).call_cnt + 1) % 2 ^ 32;
          })
          (Pc.running res)) =
      with_thread-Inv n i s
        (record (s.threads.smth i) {
          obj = os;
          call_cnt = ((s.threads.smth i).call_cnt + 1) % 2 ^ 32;
        })
        (Pc.running res) inv
        (called-IsSound s.phase i o (((s.threads.smth i).call_cnt + 1) % 2 ^ 32) os s.threads.cur_id
          (s.threads.smth i) (s.pc i) res (inv.sound i h) ((inv.sound i h).runs (pos 0) p) e) in
    record { sound = old.sound; in_range = old.in_range }
Step-Inv n s t inv (Step.finish i res h p done) =
    with_thread-Inv n i s (record (s.threads.smth i) { result = res; status = Status.wait })
      Pc.parked inv
      (finished-IsSound s.phase i s.threads.cur_id (s.threads.smth i) (s.pc i) res (inv.sound i h)
        ((inv.sound i h).runs res p) done)

new_thread-idle : (created : Bool) → is_exec (new_thread created).status ≡ false
new_thread-idle true = refl
new_thread-idle false = refl

init-Inv : (n : ℕ) (created : ℕ → Bool) → Inv n (init created)
init-Inv n created = record {
  sound = λ i h. record {
    bounded = omega arith;
    filled = λ a b d. d refl;
    room = λ c. absurd c;
    runs = λ r e. absurd (false-true (ap is_running e));
    left = λ g. absurd (false-true (ap has_left g));
    seen = λ c. new_thread-idle (created i);
  };
  in_range = λ i c. absurd c;
}

pub Reach-Inv : (n : ℕ) (created : ℕ → Bool) (s : System) → Reach n created s → Inv n s
Reach-Inv n created s Reach.here = init-Inv n created
Reach-Inv n created s (Reach.later reach step) = Step-Inv n _ s (Reach-Inv n created _ reach) step

-- In every state that the main thread and the workers reach, in any order of their steps, the list of
-- each worker has at most `obj_max` objects: obj_queue() never writes past the end of one.
pub Reach-bounded :
    (n i : ℕ) (created : ℕ → Bool) (s : System)
    → Reach n created s
    → i < n
    → length (s.threads.smth i).obj ≤ obj_max
Reach-bounded n i created s reach h = ((Reach-Inv n created s reach).sound i h).bounded
