-- ===== src/ThreadQueue/Waiting.antt =====
-- block_while_exec() returns.
use smrender.Base.{
  update-same, update-other, ℕ, zero, suc, ◌+◌, ◌-◌, ◌%◌, ◌^◌, ◌<◌, ◌≡◌, refl, sym, ap, ◌∙◌, ◌≢◌,
  ◌⊎◌, inl, inr, Bool, true, false, List, [], ◌∷◌, arith, ltb, Bool-cases, length, pos, nonzero,
  sum_range, false-true, true-false, sum_range-update_lt,
}
use smrender.ThreadQueue.{Status, is_exec, SmThread}
use smrender.ThreadQueue.System.{Pc, Phase, System, Step, Reach, with_thread}
use smrender.ThreadQueue.Invariant.{IsSound, Inv}
use smrender.ThreadQueue.Bounds.{Step-Inv, Reach-Inv}
use smrender.ThreadQueue.Moves.{nonzero-false}

-- The steps that a worker can still take.
abbrev weight_parked : Status → ℕ → ℕ
weight_parked Status.wait k = 0
weight_parked Status.exec k = k + 2
weight_parked Status.exit k = 1

abbrev weight : SmThread → Pc → ℕ
weight th Pc.parked = weight_parked th.status (length th.obj)
weight th (Pc.running r) = length th.obj + 1
weight th Pc.gone = 0

abbrev position : Phase → ℕ
position (Phase.blocked k) = k
position Phase.idle = 0
position Phase.queueing = 0
position Phase.ended = 0

abbrev is_blocked : Phase → Bool
is_blocked (Phase.blocked k) = true
is_blocked Phase.idle = false
is_blocked Phase.queueing = false
is_blocked Phase.ended = false

abbrev weight_at : System → ℕ → ℕ
weight_at s i = weight (s.threads.smth i) (s.pc i)

-- A bound on the steps before block_while_exec() returns.
abbrev work : ℕ → System → ℕ
work n s = sum_range n 0 (weight_at s) + (n - position s.phase)

-- In every order of the steps the main thread comes to the state between two rules, and the system
-- does not stop before.
pub data Returns (n : ℕ) : System → Type 0 where
  returned : {s : System} → s.phase ≡ Phase.idle → Returns n s
  goes_on :
      {s : System} (t : System)
      → Step n s t
      → ((t' : System) → Step n s t' → Returns n t')
      → Returns n s

-- A step of the worker `i` lowers the bound.
worker-less :
    (n i : ℕ) (s : System) (th : SmThread) (p : Pc)
    → i < n
    → weight th p < weight (s.threads.smth i) (s.pc i)
    → work n (with_thread s i th p) < work n s
worker-less n i s th p h less = omega (
  arith,
  sum_range-update_lt n i (weight_at s) (weight_at (with_thread s i th p))
      (λ j ne. rw (update-other s.threads.smth i j th ne, update-other s.pc i j p ne) refl) h
      (rw (update-same s.threads.smth i th, update-same s.pc i p) less),
)

-- The main thread waits, with a lower bound.
abbrev IsCloser : ℕ → System → System → Type 0
IsCloser n s t = (t.phase ≡ Phase.idle) ⊎ ((is_blocked t.phase ≡ true) × (work n t < work n s))

not_blocked :
    {A : Type 0} (phase other : Phase)
    → is_blocked phase ≡ true
    → is_blocked other ≡ false
    → phase ≡ other
    → A
not_blocked phase other b c e = absurd (true-false (sym b ∙ ap is_blocked e ∙ c))

Step-IsCloser :
    (n : ℕ) (s t : System) → Inv n s → is_blocked s.phase ≡ true → Step n s t → IsCloser n s t
Step-IsCloser n s t inv b (Step.begin_rule r e) = not_blocked s.phase Phase.idle b refl e
Step-IsCloser n s t inv b (Step.queue o r e q) = not_blocked s.phase Phase.queueing b refl e
Step-IsCloser n s t inv b (Step.signal_all e) = not_blocked s.phase Phase.queueing b refl e
Step-IsCloser n s t inv b (Step.pass k e h x) = inr (refl, rw e (omega (arith, h)))
Step-IsCloser n s t inv b (Step.unblock k e h) = inl refl
Step-IsCloser n s t inv b (Step.stop e) = not_blocked s.phase Phase.idle b refl e
Step-IsCloser n s t inv b (Step.start i h p x) =
    inr (b, worker-less n i s (s.threads.smth i) (Pc.running (pos 0)) h (rw (p, x) (omega arith)))
Step-IsCloser n s t inv b (Step.leave i h p x) =
    inr (b, worker-less n i s (s.threads.smth i) Pc.gone h (rw (p, x) (omega arith)))
Step-IsCloser n s t inv b (Step.call i o os res h p e) = inr (
  b,
  worker-less n i s
      (record (s.threads.smth i) {
        obj = os;
        call_cnt = ((s.threads.smth i).call_cnt + 1) % 2 ^ 32;
      })
      (Pc.running res) h (rw (p, e) (omega arith)),
)
Step-IsCloser n s t inv b (Step.finish i res h p done) = inr (
  b,
  worker-less n i s (record (s.threads.smth i) { result = res; status = Status.wait }) Pc.parked h
      (rw p (omega arith)),
)

exec-exit : Status.exec ≢ Status.exit
exec-exit e = true-false (ap is_exec e)

is_exec-eq : (st : Status) → is_exec st ≡ true → st ≡ Status.exec
is_exec-eq Status.exec e = refl
is_exec-eq Status.wait e = absurd (false-true e)
is_exec-eq Status.exit e = absurd (false-true e)

list-cases : (xs : List ℕ) → (xs ≡ []) ⊎ ((o : ℕ) × ((os : List ℕ) × (xs ≡ o ∷ os)))
list-cases [] = inl refl
list-cases (o ∷ os) = inr (o, (os, refl))

-- A worker that executes can take a step.
exec-Step :
    (n i : ℕ) (s : System)
    → i < n
    → (p : Pc) → s.pc i ≡ p
    → IsSound s.phase s.threads.cur_id i (s.threads.smth i) p
    → (s.threads.smth i).status ≡ Status.exec
    → (t : System) × Step n s t
exec-Step n i s h Pc.parked e sound x = (_, Step.start i h e x)
exec-Step n i s h Pc.gone e sound x = absurd (exec-exit (sym x ∙ sound.left refl))
exec-Step n i s h (Pc.running r) e sound x = elim (Bool-cases (nonzero r)) [
  | inl f ↦ (_, Step.finish i r h e (inl f))
  | inr f ↦ elim (list-cases (s.threads.smth i).obj) [
    | inl empty ↦ (_, Step.finish i r h e (inr empty))
    | inr (o, (os, eq)) ↦ (_, Step.call i o os (pos 0) h (e ∙ ap Pc.running (nonzero-false r f)) eq)
  ]
]

blocked-Step :
    (n k : ℕ) (s : System) → Inv n s → s.phase ≡ Phase.blocked k → (t : System) × Step n s t
blocked-Step n k s inv e = elim (Bool-cases (ltb k n)) [
  | inr ge ↦ (_, Step.unblock k e (ground arith))
  | inl lt ↦ elim (Bool-cases (is_exec (s.threads.smth k).status)) [
    | inr f ↦ (_, Step.pass k e (ground arith) f)
    | inl x ↦
        let h : k < n = ground arith in
        exec-Step n k s h (s.pc k) refl (inv.sound k h) (is_exec-eq (s.threads.smth k).status x)
  ]
]

is_blocked-eq : (phase : Phase) → is_blocked phase ≡ true → (k : ℕ) × (phase ≡ Phase.blocked k)
is_blocked-eq (Phase.blocked k) e = (k, refl)
is_blocked-eq Phase.idle e = absurd (false-true e)
is_blocked-eq Phase.queueing e = absurd (false-true e)
is_blocked-eq Phase.ended e = absurd (false-true e)

-- By induction on a bound of the work.
work-Returns :
    (n m : ℕ) (s : System) → Inv n s → is_blocked s.phase ≡ true → work n s < m → Returns n s
work-Returns n zero s inv b less = absurd (omega (arith, less))
work-Returns n (suc m) s inv b less =
    let (k, e) : (k : ℕ) × (s.phase ≡ Phase.blocked k) = is_blocked-eq s.phase b in
    let (t, step) : (t : System) × Step n s t = blocked-Step n k s inv e in
    Returns.goes_on t step (λ t' step'. elim (Step-IsCloser n s t' inv b step') [
      | inl idle ↦ Returns.returned idle
      | inr closer ↦
          work-Returns n m t' (Step-Inv n s t' inv step') closer.0 (omega (arith, closer.1, less))
    ])

-- From every reachable state in which the main thread waits in block_while_exec(), some step is
-- possible, and whatever steps are taken and whatever the calls return, it comes back to the state
-- between two rules: the wait ends, with no assumption on the order of the steps.
pub Reach-Returns :
    (n k : ℕ) (created : ℕ → Bool) (s : System)
    → Reach n created s
    → s.phase ≡ Phase.blocked k
    → Returns n s
Reach-Returns n k created s reach e =
    work-Returns n (work n s + 1) s (Reach-Inv n created s reach) (ap is_blocked e) (omega arith)
