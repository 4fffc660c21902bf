-- ===== src/ThreadQueue/Workers.antt =====
-- What the steps of sm_thread_loop() and of the main thread do to the invariant of one worker.
use smrender.Base.{
  ℕ, ◌≡◌, refl, sym, ap, ◌∙◌, ◌≢◌, ◌⊎◌, inl, inr, Bool, true, false, ◌&&◌, Option, none, List, [],
  ◌∷◌, arith, Bool-cases, length, ℤ, nonzero, false-true, true-false, none-some,
}
use smrender.ThreadQueue.{Status, is_wait, is_exec, SmThread, has_obj, signal}
use smrender.ThreadQueue.System.{Pc, Phase}
use smrender.ThreadQueue.Invariant.{IsCur, IsSeen, IsSound}

abbrev pub is_running : Pc → Bool
is_running Pc.parked = false
is_running Pc.gone = false
is_running (Pc.running r) = true

abbrev pub has_left : Pc → Bool
has_left Pc.parked = false
has_left Pc.gone = true
has_left (Pc.running r) = false

and-false : (b : Bool) → (b && false) ≡ false
and-false true = refl
and-false false = refl

has_obj-exit :
    (th : SmThread) → th.status ≡ Status.exit → (has_obj th.obj && is_wait th.status) ≡ false
has_obj-exit th e = rw e (and-false (has_obj th.obj))

has_obj-cons : (xs : List ℕ) → xs ≢ [] → has_obj xs ≡ true
has_obj-cons [] ne = absurd (ne refl)
has_obj-cons (x ∷ xs) ne = refl

-- obj_queue_signal, for one worker.
pub signal-IsSound :
    (cur : Option ℕ) (i : ℕ) (th : SmThread) (p : Pc)
    → IsSound Phase.queueing cur i th p
    → IsSound (Phase.blocked 0) cur i (signal th) p
signal-IsSound cur i th p t = elim (Bool-cases (has_obj th.obj && is_wait th.status)) [
  | inl e ↦ rw e (record {
    bounded = t.bounded;
    filled = λ a b d. absurd (true-false a);
    room = λ c. absurd c;
    runs = λ r e. refl;
    left = λ g. absurd (true-false (sym e ∙ has_obj-exit th (t.left g)));
    seen = λ c. absurd (omega (arith, c));
  })
  | inr e ↦ rw e (record {
    bounded = t.bounded;
    filled = λ a b d.
        let w : th.status ≡ Status.wait = (t.room (t.filled a b d)).0 in
        absurd (true-false (sym (rw (has_obj-cons th.obj d, w) refl) ∙ e));
    room = λ c. absurd c;
    runs = t.runs;
    left = t.left;
    seen = λ c. absurd (omega (arith, c));
  })
]

-- Between two rules and at the start of one.
pub begun-IsSound :
    (r i : ℕ) (cur : Option ℕ) (th : SmThread) (p : Pc)
    → IsSound Phase.idle cur i th p
    → IsSound Phase.queueing none i (record th { main = r; call_cnt = 0 }) p
begun-IsSound r i cur th p t = record {
  bounded = t.bounded;
  filled = λ a b d. absurd (t.filled a b d);
  room = λ c. absurd (none-some c);
  runs = t.runs;
  left = t.left;
  seen = λ c. absurd c;
}

pub stopped-IsSound :
    (i : ℕ) (cur : Option ℕ) (th : SmThread) (p : Pc)
    → IsSound Phase.idle cur i th p
    → IsSound Phase.ended cur i (record th { status = Status.exit }) p
stopped-IsSound i cur th p t = record {
  bounded = t.bounded;
  filled = λ a b d. t.filled (t.seen tt) b d;
  room = λ c. absurd c;
  runs = λ r e. absurd (false-true (sym (t.seen tt) ∙ ap is_exec (t.runs r e)));
  left = λ e. refl;
  seen = λ c. refl;
}

pub called-IsSound :
    (phase : Phase) (i o c : ℕ) (os : List ℕ) (cur : Option ℕ) (th : SmThread) (p : Pc) (res : ℤ)
    → IsSound phase cur i th p
    → th.status ≡ Status.exec
    → th.obj ≡ o ∷ os
    → IsSound phase cur i (record th { obj = os; call_cnt = c }) (Pc.running res)
called-IsSound phase i o c os cur th p res t x e = record {
  bounded = omega (arith, t.bounded, ap length e);
  filled = λ a b d. absurd (false-true (sym a ∙ ap is_exec x));
  room = λ c. absurd (false-true (sym (ap is_exec (t.room c).0) ∙ ap is_exec x));
  runs = λ r e. x;
  left = λ g. absurd (false-true (ap has_left g));
  seen = t.seen;
}

pub finished-IsSound :
    (phase : Phase) (i : ℕ) (cur : Option ℕ) (th : SmThread) (p : Pc) (res : ℤ)
    → IsSound phase cur i th p
    → th.status ≡ Status.exec
    → (nonzero res ≡ true) ⊎ (th.obj ≡ [])
    → IsSound phase cur i (record th { result = res; status = Status.wait }) Pc.parked
finished-IsSound phase i cur th p res t x done = record {
  bounded = t.bounded;
  filled = λ a b d. elim done [
    | inl f ↦ absurd (false-true (sym (ap nonzero b) ∙ f))
    | inr f ↦ absurd (d f)
  ];
  room = λ c. absurd (false-true (sym (ap is_exec (t.room c).0) ∙ ap is_exec x));
  runs = λ r e. absurd (false-true (ap is_running e));
  left = λ g. absurd (false-true (ap has_left g));
  seen = λ c. refl;
}

-- A worker that moves on and keeps its data.
pub moved-IsSound :
    (phase : Phase) (i : ℕ) (cur : Option ℕ) (th : SmThread) (p p' : Pc)
    → IsSound phase cur i th p
    → ((r : ℤ) → p' ≡ Pc.running r → th.status ≡ Status.exec)
    → (p' ≡ Pc.gone → th.status ≡ Status.exit)
    → IsSound phase cur i th p'
moved-IsSound phase i cur th p p' t runs left = record {
  bounded = t.bounded;
  filled = t.filled;
  room = t.room;
  runs = runs;
  left = left;
  seen = t.seen;
}

-- The main thread goes on in block_while_exec().
pub passed-IsSound :
    (k i : ℕ) (phase : Phase) (cur : Option ℕ) (th : SmThread) (p : Pc)
    → IsSound (Phase.blocked k) cur i th p
    → ((c : IsCur phase cur i) → ⊥)
    → (IsSeen phase i → is_exec th.status ≡ false)
    → IsSound phase cur i th p
passed-IsSound k i phase cur th p t none_cur seen = record {
  bounded = t.bounded;
  filled = λ a b d. absurd (t.filled a b d);
  room = λ c. absurd (none_cur c);
  runs = t.runs;
  left = t.left;
  seen = seen;
}
