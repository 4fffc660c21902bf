-- ===== src/ThreadQueue/Deals.antt =====
-- Between two rules, every object that was queued has been passed to its function.
use smrender.Base.{
  ℕ, ◌+◌, ◌≡◌, refl, sym, ap, Bool, true, false, ◌||◌, arith, pos, nonzero, false-true, true-false,
  sum_range-zero,
}
use smrender.ThreadQueue.{Status}
use smrender.ThreadQueue.System.{Pc, Phase, System, Step, init, Reach}
use smrender.ThreadQueue.Invariant.{Inv}
use smrender.ThreadQueue.Bounds.{Reach-Inv}
use smrender.ThreadQueue.Moves.{nonzero-false}
use smrender.ThreadQueue.Kept.{
  times, waiting, waiting_all, Balance, kept-Balance, signalled-Balance, stopped-Balance,
}
use smrender.ThreadQueue.Changes.{
  idle-waiting, begun-Balance, queued-Balance, moved-Balance, called-Balance, running_inj,
}
use smrender.ThreadQueue.Workers.{is_running}

or-false : (a b : Bool) → (a || b) ≡ false → a ≡ false
or-false true b e = absurd (true-false e)
or-false false b e = refl

or-false_right : (a b : Bool) → (a || b) ≡ false → b ≡ false
or-false_right true b e = absurd (true-false e)
or-false_right false b e = e

Step-failed : (n : ℕ) (s t : System) → Step n s t → t.failed ≡ false → s.failed ≡ false
Step-failed n s t (Step.begin_rule r e) f = f
Step-failed n s t (Step.queue o r e q) f = f
Step-failed n s t (Step.signal_all e) f = f
Step-failed n s t (Step.pass k e h x) f = f
Step-failed n s t (Step.unblock k e h) f = f
Step-failed n s t (Step.stop e) f = f
Step-failed n s t (Step.start i h p x) f = f
Step-failed n s t (Step.leave i h p x) f = f
Step-failed n s t (Step.call i o os res h p e) f = or-false s.failed (nonzero res) f
Step-failed n s t (Step.finish i res h p done) f = f

Step-Balance :
    (n : ℕ) (s t : System) → Inv n s → Balance n s → Step n s t → t.failed ≡ false → Balance n t
Step-Balance n s t inv b (Step.begin_rule r e) f = begun-Balance n r s inv b e
Step-Balance n s t inv b (Step.queue o r e q) f = queued-Balance n o s r inv b e q
Step-Balance n s t inv b (Step.signal_all e) f = signalled-Balance n s b
Step-Balance n s t inv b (Step.pass k e h x) f =
    kept-Balance n s (Phase.blocked (k + 1)) s.threads b
      (λ i. record { main = refl; obj = refl; result = refl })
Step-Balance n s t inv b (Step.unblock k e h) f =
    kept-Balance n s Phase.idle s.threads b (λ i. record { main = refl; obj = refl; result = refl })
Step-Balance n s t inv b (Step.stop e) f = stopped-Balance n s b
Step-Balance n s t inv b (Step.start i h p x) f =
    moved-Balance n i s (s.threads.smth i) (Pc.running (pos 0)) h b refl refl (b.results i h)
      (λ r e. sym (running_inj (pos 0) r e))
Step-Balance n s t inv b (Step.leave i h p x) f =
    moved-Balance n i s (s.threads.smth i) Pc.gone h b refl refl (b.results i h)
      (λ r e. absurd (false-true (ap is_running e)))
Step-Balance n s t inv b (Step.call i o os res h p e) f =
    called-Balance n i o os res s h b e
      (nonzero-false res (or-false_right s.failed (nonzero res) f))
Step-Balance n s t inv b (Step.finish i res h p done) f =
    moved-Balance n i s (record (s.threads.smth i) { result = res; status = Status.wait }) Pc.parked
      h b refl refl (b.running_zero i res h p) (λ r e. absurd (false-true (ap is_running e)))

init-Balance : (n : ℕ) (created : ℕ → Bool) → Balance n (init created)
unfolding times waiting
init-Balance n created = record {
  mains = λ i h. refl;
  results = λ i h. refl;
  running_zero = λ i r h e. absurd (false-true (ap is_running e));
  count = λ r o. omega (arith, sum_range-zero n 0 (λ i. 0) (λ i p h. refl));
}

pub Reach-Balance :
    (n : ℕ) (created : ℕ → Bool) (s : System) → Reach n created s → s.failed ≡ false → Balance n s
Reach-Balance n created s Reach.here f = init-Balance n created
Reach-Balance n created t (Reach.later {s} reach step) f =
    Step-Balance n s t (Reach-Inv n created s reach)
      (Reach-Balance n created s reach (Step-failed n s t step f)) step f

-- In every state that the main thread and the workers reach, in any order of their steps and while no
-- call has returned a result but 0: an object was put into the lists with a rule exactly as often as
-- that rule's function has been called with it, plus as often as it waits in a list of that rule.
pub Reach-kept :
    (n r o : ℕ) (created : ℕ → Bool) (s : System)
    → Reach n created s
    → s.failed ≡ false
    → times r o s.queued ≡ times r o s.calls + waiting_all n r o s.threads.smth
Reach-kept n r o created s reach f = (Reach-Balance n created s reach f).count r o

-- When block_while_exec() has returned and no call has returned a result but 0, every object that was
-- queued with a rule has been passed to that rule's function exactly as often as it was queued.
pub Reach-dealt :
    (n r o : ℕ) (created : ℕ → Bool) (s : System)
    → Reach n created s
    → s.failed ≡ false
    → s.phase ≡ Phase.idle
    → times r o s.calls ≡ times r o s.queued
Reach-dealt n r o created s reach f e =
    let b : Balance n s = Reach-Balance n created s reach f in
    omega (
      arith,
      b.count r o,
      idle-waiting n r o s s.threads.smth (Reach-Inv n created s reach) b e (λ i h. refl),
    )
