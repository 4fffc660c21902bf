-- ===== src/ThreadQueue/System.antt =====
-- The main thread and the workers, whose steps are interleaved in any order.
use smrender.Base.{
  ℕ, ◌+◌, ◌%◌, ◌^◌, ◌≤◌, ◌<◌, ◌≡◌, ◌⊎◌, Bool, true, false, ◌||◌, none, some, List, [], ◌∷◌,
  if◌then◌else◌, update, ℤ, pos, nonzero,
}
use smrender.ThreadQueue.{
  Status, is_exec, SmThread, Threads, Queued, obj_queue_ini, obj_queue, obj_queue_signal,
  exit_threads,
}

-- Where a worker stands in sm_thread_loop(), with its variable `res` while it executes.
pub data Pc : Type 0 where
  parked gone : Pc
  running : ℤ → Pc

-- Where the main thread stands: between two rules; between obj_queue_ini() and obj_queue_signal(); in
-- the loop of block_while_exec() at the index `i`; behind delete_threads().
pub data Phase : Type 0 where
  idle queueing ended : Phase
  blocked : ℕ → Phase

-- `rule` is the rule that is applied. The last three fields tell the history: the objects that were
-- put into a list, with their rules; the calls, with the rules whose functions were called; and
-- whether some call has not returned 0.
pub record System : Type 0 where
  pub threads : Threads
  pub pc : ℕ → Pc
  pub phase : Phase
  pub rule : ℕ
  pub queued : List (ℕ × ℕ)
  pub calls : List (ℕ × ℕ)
  pub failed : Bool

abbrev pub with_thread : System → ℕ → SmThread → Pc → System
with_thread s i th p = record s {
  threads = record s.threads { smth = update s.threads.smth i th };
  pc = update s.pc i p;
}

abbrev pub with_queue : System → ℕ → Queued → System
with_queue s o r = record s {
  threads = r.threads;
  queued = if nonzero r.res then s.queued else (s.rule, o) ∷ s.queued;
}

-- The call of the function, for the last object `o` of the list; it returns `res`.
abbrev pub with_call : System → ℕ → ℕ → List ℕ → ℤ → System
with_call s i o os res =
    let th = s.threads.smth i in
    record (with_thread s i (record th { obj = os; call_cnt = (th.call_cnt + 1) % 2 ^ 32 })
      (Pc.running res)) { calls = (th.main, o) ∷ s.calls; failed = s.failed || nonzero res }

-- A step of the main thread, or of the worker `i`, with `n` workers.
pub data Step (n : ℕ) (s : System) : System → Type 0 where
  begin_rule :
      (r : ℕ)
      → s.phase ≡ Phase.idle
      → Step n s
          (record s { threads = obj_queue_ini n r s.threads; phase = Phase.queueing; rule = r })
  queue :
      (o : ℕ) (r : Queued)
      → s.phase ≡ Phase.queueing
      → obj_queue n o s.threads ≡ some r
      → Step n s (with_queue s o r)
  signal_all :
      s.phase ≡ Phase.queueing
      → Step n s (record s { threads = obj_queue_signal n s.threads; phase = Phase.blocked 0 })
  pass :
      (i : ℕ)
      → s.phase ≡ Phase.blocked i
      → i < n
      → is_exec (s.threads.smth i).status ≡ false
      → Step n s (record s { phase = Phase.blocked (i + 1) })
  unblock : (i : ℕ) → s.phase ≡ Phase.blocked i → n ≤ i → Step n s (record s { phase = Phase.idle })
  stop :
      s.phase ≡ Phase.idle
      → Step n s (record s { threads = exit_threads n s.threads; phase = Phase.ended })
  start :
      (i : ℕ)
      → i < n
      → s.pc i ≡ Pc.parked
      → (s.threads.smth i).status ≡ Status.exec
      → Step n s (with_thread s i (s.threads.smth i) (Pc.running (pos 0)))
  leave :
      (i : ℕ)
      → i < n
      → s.pc i ≡ Pc.parked
      → (s.threads.smth i).status ≡ Status.exit
      → Step n s (with_thread s i (s.threads.smth i) Pc.gone)
  call :
      (i o : ℕ) (os : List ℕ) (res : ℤ)
      → i < n
      → s.pc i ≡ Pc.running (pos 0)
      → (s.threads.smth i).obj ≡ o ∷ os
      → Step n s (with_call s i o os res)
  finish :
      (i : ℕ) (res : ℤ)
      → i < n
      → s.pc i ≡ Pc.running res
      → (nonzero res ≡ true) ⊎ ((s.threads.smth i).obj ≡ [])
      → Step n s (
          with_thread s i
            (record (s.threads.smth i) { result = res; status = Status.wait })
            Pc.parked)

-- init_threads(): the workers with `created` wait; those that could not be created are SM_THREAD_EXIT.
abbrev pub new_thread : Bool → SmThread
new_thread created = record {
  status = if created then Status.wait else Status.exit;
  result = pos 0;
  obj = [];
  main = 0;
  call_cnt = 0;
}

abbrev pub init : (ℕ → Bool) → System
init created = record {
  threads = record { smth = λ i. new_thread (created i); cur_id = none; last = 0 };
  pc = λ i. Pc.parked;
  phase = Phase.idle;
  rule = 0;
  queued = [];
  calls = [];
  failed = false;
}

pub data Reach (n : ℕ) (created : ℕ → Bool) : System → Type 0 where
  here : Reach n created (init created)
  later : {s t : System} → Reach n created s → Step n s t → Reach n created t
