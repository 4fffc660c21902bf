-- ===== src/ThreadQueue.antt =====
-- The threads of src/smthread.c: the main thread deals the objects of a rule out to the workers, each
-- of which has a list of them. Between two waits the main thread holds the mutex or touches only the
-- list of a worker that does not run, so each of its functions is one step.
pub mod System
pub mod Invariant
pub mod Free
pub mod Moves
pub mod Current
pub mod Workers
pub mod Bounds
pub mod Added
pub mod Kept
pub mod Changes
pub mod Deals
pub mod Waiting
use smrender.Base.{
  ℕ, zero, suc, ◌+◌, ◌%◌, Bool, true, false, ◌&&◌, Option, none, some, List, [], ◌∷◌, ltb, leb,
  if◌then◌else◌, update, length, ℤ, pos, nonzero,
}

-- SM_THREAD_WAIT, SM_THREAD_EXEC and SM_THREAD_EXIT
pub data Status : Type 0 where
  wait exec exit : Status

abbrev pub is_wait : Status → Bool
is_wait Status.wait = true
is_wait Status.exec = false
is_wait Status.exit = false

abbrev pub is_exec : Status → Bool
is_exec Status.wait = false
is_exec Status.exec = true
is_exec Status.exit = false

-- sm_thread_t: `main` is the rule whose function and parameter are set, and `obj` holds the objects
-- obj[obj_cnt - 1], ..., obj[0].
pub record SmThread : Type 0 where
  pub status : Status
  pub result : ℤ
  pub obj : List ℕ
  pub main : ℕ
  pub call_cnt : ℕ

abbrev pub obj_max : ℕ
obj_max = 8

-- smth_, cur_id_ (none is -1) and _last of get_free_thread().
pub record Threads : Type 0 where
  pub smth : ℕ → SmThread
  pub cur_id : Option ℕ
  pub last : ℕ

-- The loop of get_free_thread over `i`, with the rounds left.
unfoldable pub free_from : ℕ → ℕ → ℕ → Threads → Option ℕ
free_from nthreads zero i q = none
free_from nthreads (suc k) i q =
    let n = (i + q.last) % nthreads in
    let rest = free_from nthreads k (i + 1) q in if is_wait (q.smth n).status then some n else rest

-- get_free_thread; none while it waits for the condition.
unfoldable pub get_free_thread : ℕ → Threads → Option ℕ
get_free_thread nthreads q = free_from nthreads nthreads 0 q

-- obj_queue_ini: `r` is the rule, for all threads up to that of the main thread.
unfoldable pub obj_queue_ini : ℕ → ℕ → Threads → Threads
obj_queue_ini nthreads r q = record q {
  cur_id = none;
  smth = λ n. if leb n nthreads then record (q.smth n) { main = r; call_cnt = 0 } else q.smth n;
}

-- smth_[n].obj[smth_[n].obj_cnt++] = obj, and the start of the thread if its list is full.
unfoldable pub add_obj : ℕ → ℕ → Threads → Threads
add_obj n o q =
    let th = q.smth n in
    if leb obj_max (length th.obj + 1)
    then record q {
      smth = update q.smth n (record th { obj = o ∷ th.obj; status = Status.exec });
      cur_id = none;
    }
    else record q { smth = update q.smth n (record th { obj = o ∷ th.obj }); cur_id = some n }

-- The int that obj_queue returns, and the state.
pub record Queued : Type 0 where
  pub res : ℤ
  pub threads : Threads

-- obj_queue behind get_free_thread, which gave `n`: a result of the last run ends it.
unfoldable pub queue_to : ℕ → ℕ → Threads → Queued
queue_to n o q =
    let th = q.smth n in
    let q' = record q { cur_id = some n; last = n + 1 } in
    if nonzero th.result
    then record {
      res = th.result;
      threads = record q' {
        smth = update q.smth n (record th { obj = []; result = pos 0; status = Status.wait });
      };
    }
    else record { res = pos 0; threads = add_obj n o q' }

unfoldable pub queue_at : Option ℕ → ℕ → Threads → Option Queued
queue_at none o q = none
queue_at (some n) o q = some (queue_to n o q)

-- The test of cur_id_.
unfoldable pub queue_cur : ℕ → Option ℕ → ℕ → Threads → Option Queued
queue_cur nthreads none o q = queue_at (get_free_thread nthreads q) o q
queue_cur nthreads (some n) o q = some (record { res = pos 0; threads = add_obj n o q })

-- obj_queue; none while it waits for a thread.
unfoldable pub obj_queue : ℕ → ℕ → Threads → Option Queued
obj_queue nthreads o q = queue_cur nthreads q.cur_id o q

-- obj_cnt != 0
abbrev pub has_obj : List ℕ → Bool
has_obj [] = false
has_obj (o ∷ os) = true

-- The body of the loop of obj_queue_signal.
abbrev pub signal : SmThread → SmThread
signal th = if has_obj th.obj && is_wait th.status then record th { status = Status.exec } else th

-- obj_queue_signal
unfoldable pub obj_queue_signal : ℕ → Threads → Threads
obj_queue_signal nthreads q = record q {
  smth = λ n. if ltb n nthreads then signal (q.smth n) else q.smth n;
}

-- The end of delete_threads(), which has waited for the threads before.
unfoldable pub exit_threads : ℕ → Threads → Threads
exit_threads nthreads q = record q {
  smth = λ n. if ltb n nthreads then record (q.smth n) { status = Status.exit } else q.smth n;
}
