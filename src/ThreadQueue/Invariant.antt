-- ===== src/ThreadQueue/Invariant.antt =====
-- What holds of the threads in every reachable state.
use smrender.Base.{
  ℕ, ◌≤◌, ◌<◌, ◌≡◌, sym, ◌≢◌, inl, inr, false, Option, some, [], ◌==◌, ==_iff, Bool-cases, update,
  length, ℤ, pos, subst,
}
use smrender.ThreadQueue.{Status, is_exec, SmThread, obj_max}
use smrender.ThreadQueue.System.{Pc, Phase, System}

-- The worker `i` is the one whose list the main thread fills.
abbrev pub IsCur : Phase → Option ℕ → ℕ → Type 0
IsCur Phase.queueing cur i = cur ≡ some i
IsCur Phase.idle cur i = ⊥
IsCur Phase.ended cur i = ⊥
IsCur (Phase.blocked k) cur i = ⊥

-- The main thread has seen that the worker `i` does not execute.
abbrev pub IsSeen : Phase → ℕ → Type 0
IsSeen Phase.queueing i = ⊥
IsSeen Phase.idle i = Unit
IsSeen Phase.ended i = Unit
IsSeen (Phase.blocked k) i = i < k

-- One worker. One that has returned is SM_THREAD_EXIT. A worker that does not execute, and whose last run has not failed, has no objects, but
-- for the one whose list is filled; that one has room.
pub record IsSound (phase : Phase) (cur : Option ℕ) (i : ℕ) (th : SmThread) (p : Pc) : Type 0 where
  pub bounded : length th.obj ≤ obj_max
  pub filled : is_exec th.status ≡ false → th.result ≡ pos 0 → th.obj ≢ [] → IsCur phase cur i
  pub room :
      IsCur phase cur i
      → (th.status ≡ Status.wait) × ((th.result ≡ pos 0) × (length th.obj < obj_max))
  pub runs : (r : ℤ) → p ≡ Pc.running r → th.status ≡ Status.exec
  pub left : p ≡ Pc.gone → th.status ≡ Status.exit
  pub seen : IsSeen phase i → is_exec th.status ≡ false

pub record Inv (n : ℕ) (s : System) : Type 0 where
  pub sound : (i : ℕ) → i < n → IsSound s.phase s.threads.cur_id i (s.threads.smth i) (s.pc i)
  pub in_range : (i : ℕ) → IsCur s.phase s.threads.cur_id i → i < n

-- A change of one worker.
pub update-IsSound :
    (n x : ℕ) (phase : Phase) (cur : Option ℕ) (smth : ℕ → SmThread) (pc : ℕ → Pc) (th : SmThread)
    (p : Pc)
    → ((i : ℕ) → i < n → IsSound phase cur i (smth i) (pc i))
    → IsSound phase cur x th p
    → (i : ℕ) → i < n
    → IsSound phase cur i (update smth x th i) (update pc x p i)
update-IsSound n x phase cur smth pc th p all this i h = elim (Bool-cases (i == x)) [
  | inl e ↦ rw e (subst (λ k. IsSound phase cur k th p) (sym ((==_iff i x).0 e)) this)
  | inr e ↦ rw e (all i h)
]

-- Another worker's list is filled, or none.
pub IsSound-cur :
    (phase : Phase) (cur cur' : Option ℕ) (i : ℕ) (th : SmThread) (p : Pc)
    → IsSound phase cur i th p
    → ¬ IsCur phase cur i
    → ¬ IsCur phase cur' i
    → IsSound phase cur' i th p
IsSound-cur phase cur cur' i th p t old new = record {
  bounded = t.bounded;
  filled = λ a b d. absurd (old (t.filled a b d));
  room = λ c. absurd (new c);
  runs = t.runs;
  left = t.left;
  seen = t.seen;
}
