-- ===== src/ThreadQueue/Kept.antt =====
-- The objects that were queued, the calls and the objects that are still in a list, counted, and the
-- steps that change none of them.
use smrender.Base.{
  ℕ, ◌+◌, ◌<◌, ◌≡◌, refl, ap, ◌∙◌, inl, inr, Bool, true, false, ◌&&◌, List, [], ◌∷◌, ltb, ◌==◌,
  if◌then◌else◌, Bool-cases, ℤ, pos, sum_range, sum_range-congr,
}
use smrender.ThreadQueue.{
  Status, SmThread, Threads, obj_queue_signal, exit_threads, is_wait, has_obj, signal,
}
use smrender.ThreadQueue.System.{Pc, Phase, System}

abbrev pub one : ℕ → ℕ → ℕ → ℕ → ℕ
one r o r' o' = if (r == r') && (o == o') then 1 else 0

-- How often the object `o` stands in the list with the rule `r`.
unfoldable pub times : ℕ → ℕ → List (ℕ × ℕ) → ℕ
times r o [] = 0
times r o (x ∷ xs) = one r o x.0 x.1 + times r o xs

-- How often it waits in the list of a worker, with that rule.
unfoldable pub waiting : ℕ → ℕ → ℕ → List ℕ → ℕ
waiting r o main [] = 0
waiting r o main (x ∷ xs) = one r o main x + waiting r o main xs

abbrev pub waiting_of : ℕ → ℕ → SmThread → ℕ
waiting_of r o th = waiting r o th.main th.obj

abbrev pub waiting_all : ℕ → ℕ → ℕ → (ℕ → SmThread) → ℕ
waiting_all n r o smth = sum_range n 0 (λ i. waiting_of r o (smth i))

waiting-congr :
    (r o : ℕ) (th th' : SmThread)
    → th'.main ≡ th.main
    → th'.obj ≡ th.obj
    → waiting_of r o th ≡ waiting_of r o th'
waiting-congr r o th th' m e = rw (m, e) refl

waiting-cons :
    (r o x main : ℕ) (xs : List ℕ)
    → waiting r o main (x ∷ xs) ≡ one r o main x + waiting r o main xs
unfolding waiting
waiting-cons r o x main xs = refl

pub waiting-added :
    (r o x main : ℕ) (th th' : SmThread)
    → th'.main ≡ main
    → th.main ≡ main
    → th'.obj ≡ x ∷ th.obj
    → waiting_of r o th' ≡ one r o main x + waiting_of r o th
waiting-added r o x main th th' m m' e = rw (e, m, m') (waiting-cons r o x main th.obj)

pub times-added :
    (r o x main : ℕ) (xs ys : List (ℕ × ℕ))
    → ys ≡ (main, x) ∷ xs
    → times r o ys ≡ one r o main x + times r o xs
unfolding times
times-added r o x main xs ys e = rw e refl

-- While no call has failed: every worker has the rule that is applied, and no result but 0, and the
-- count is right.
pub record Balance (n : ℕ) (s : System) : Type 0 where
  pub mains : (i : ℕ) → i < n → (s.threads.smth i).main ≡ s.rule
  pub results : (i : ℕ) → i < n → (s.threads.smth i).result ≡ pos 0
  pub running_zero : (i : ℕ) (r : ℤ) → i < n → s.pc i ≡ Pc.running r → r ≡ pos 0
  pub count : (r o : ℕ) → times r o s.queued ≡ times r o s.calls + waiting_all n r o s.threads.smth

-- A step that keeps the list and the rule of every worker.
pub record IsKept (th th' : SmThread) : Type 0 where
  pub main : th'.main ≡ th.main
  pub obj : th'.obj ≡ th.obj
  pub result : th'.result ≡ th.result

pub kept-Balance :
    (n : ℕ) (s : System) (phase : Phase) (q : Threads)
    → Balance n s
    → ((i : ℕ) → IsKept (s.threads.smth i) (q.smth i))
    → Balance n (record s { threads = q; phase = phase })
kept-Balance n s phase q b kept = record {
  mains = λ i h. (kept i).main ∙ b.mains i h;
  results = λ i h. (kept i).result ∙ b.results i h;
  running_zero = b.running_zero;
  count = λ r o.
      b.count r o
      ∙ ap (λ w. times r o s.calls + w)
          (sum_range-congr n 0 (λ i. waiting_of r o (s.threads.smth i))
            (λ i. waiting_of r o (q.smth i))
            (λ i p h. waiting-congr r o (s.threads.smth i) (q.smth i) (kept i).main (kept i).obj));
}

signal-IsKept : (b : Bool) (th : SmThread) → IsKept th (if b then signal th else th)
signal-IsKept false th = record { main = refl; obj = refl; result = refl }
signal-IsKept true th = elim (Bool-cases (has_obj th.obj && is_wait th.status)) [
  | inl e ↦ rw e (record { main = refl; obj = refl; result = refl })
  | inr e ↦ rw e (record { main = refl; obj = refl; result = refl })
]

exit-IsKept :
    (b : Bool) (th : SmThread) → IsKept th (if b then record th { status = Status.exit } else th)
exit-IsKept false th = record { main = refl; obj = refl; result = refl }
exit-IsKept true th = record { main = refl; obj = refl; result = refl }

pub signalled-Balance :
    (n : ℕ) (s : System)
    → Balance n s
    → Balance n (record s { threads = obj_queue_signal n s.threads; phase = Phase.blocked 0 })
unfolding obj_queue_signal
signalled-Balance n s b =
    kept-Balance n s (Phase.blocked 0) (obj_queue_signal n s.threads) b
      (λ i. signal-IsKept (ltb i n) (s.threads.smth i))

pub stopped-Balance :
    (n : ℕ) (s : System)
    → Balance n s
    → Balance n (record s { threads = exit_threads n s.threads; phase = Phase.ended })
unfolding exit_threads
stopped-Balance n s b =
    kept-Balance n s Phase.ended (exit_threads n s.threads) b
      (λ i. exit-IsKept (ltb i n) (s.threads.smth i))
