-- ===== src/Tests/Threads.antt =====
-- A run of the main thread and one worker: the rule 5, with the objects 7 and 8.
use smrender.Base.{ℕ, ◌+◌, ◌≤◌, ◌≡◌, refl, inl, inr, Bool, true, [], ◌∷◌, arith, length, ℤ, pos}
use smrender.ThreadQueue.{
  Status, obj_max, queue_to, queue_at, queue_cur, get_free_thread, free_from, add_obj, obj_queue,
  obj_queue_ini, obj_queue_signal,
}
use smrender.ThreadQueue.System.{
  Pc, Phase, System, Step, init, Reach, with_thread, with_call, with_queue,
}
use smrender.ThreadQueue.Bounds.{Reach-bounded}
use smrender.ThreadQueue.Kept.{times, waiting_all}
use smrender.ThreadQueue.Deals.{Reach-kept, Reach-dealt}
use smrender.ThreadQueue.Waiting.{Returns, Reach-Returns}

abbrev all_created : ℕ → Bool
all_created i = true

abbrev begun : ℕ → System → System
begun r s = record s { threads = obj_queue_ini 1 r s.threads; phase = Phase.queueing; rule = r }

-- The first object of a rule, for the worker 0, and one more.
abbrev queued_first : ℕ → System → System
queued_first o s = with_queue s o (queue_to 0 o s.threads)

abbrev queued_more : ℕ → System → System
queued_more o s = with_queue s o (record { res = pos 0; threads = add_obj 0 o s.threads })

abbrev signalled : System → System
signalled s = record s { threads = obj_queue_signal 1 s.threads; phase = Phase.blocked 0 }

abbrev started : System → System
started s = with_thread s 0 (s.threads.smth 0) (Pc.running (pos 0))

abbrev s_two : System
s_two = queued_more 8 (queued_first 7 (begun 5 (init all_created)))

s_two-Reach : Reach 1 all_created s_two
unfolding obj_queue queue_cur get_free_thread free_from queue_at obj_queue_ini queue_to add_obj
s_two-Reach =
    let a : Reach 1 all_created (begun 5 (init all_created)) =
      Reach.later Reach.here (Step.begin_rule 5 refl) in
    let b : Reach 1 all_created (queued_first 7 (begun 5 (init all_created))) =
      Reach.later a (Step.queue 7 (queue_to 0 7 (begun 5 (init all_created)).threads) refl refl) in
    Reach.later b (
      Step.queue 8
        (record {
          res = pos 0;
          threads = add_obj 0 8 (queued_first 7 (begun 5 (init all_created))).threads;
        })
        refl refl)

abbrev s_blocked : System
s_blocked = signalled s_two

s_blocked-Reach : Reach 1 all_created s_blocked
unfolding obj_queue_ini queue_to add_obj
s_blocked-Reach = Reach.later s_two-Reach (Step.signal_all refl)

-- The worker calls the function for both objects, the last one first, and finishes.
abbrev s_called : System
s_called = with_call (with_call (started s_blocked) 0 8 (7 ∷ []) (pos 0)) 0 7 [] (pos 0)

abbrev finished : ℤ → System → System
finished res s =
    with_thread s 0 (record (s.threads.smth 0) { result = res; status = Status.wait }) Pc.parked

abbrev unblocked : System → System
unblocked s = record s { phase = Phase.idle }

abbrev s_idle : System
s_idle = unblocked (record (finished (pos 0) s_called) { phase = Phase.blocked 1 })

s_idle-Reach : Reach 1 all_created s_idle
unfolding obj_queue_ini queue_to add_obj obj_queue_signal
s_idle-Reach =
    let a : Reach 1 all_created (started s_blocked) =
      Reach.later s_blocked-Reach (Step.start 0 (omega arith) refl refl) in
    let b : Reach 1 all_created (with_call (started s_blocked) 0 8 (7 ∷ []) (pos 0)) =
      Reach.later a (Step.call 0 8 (7 ∷ []) (pos 0) (omega arith) refl refl) in
    let c : Reach 1 all_created s_called =
      Reach.later b (Step.call 0 7 [] (pos 0) (omega arith) refl refl) in
    let d : Reach 1 all_created (finished (pos 0) s_called) =
      Reach.later c (Step.finish 0 (pos 0) (omega arith) refl (inr refl)) in
    let e : Reach 1 all_created (record (finished (pos 0) s_called) { phase = Phase.blocked 1 }) =
      Reach.later d (Step.pass 0 refl (omega arith) refl) in
    Reach.later e (Step.unblock 1 refl (omega arith))

Reach-bounded_example : length (s_two.threads.smth 0).obj ≤ obj_max
Reach-bounded_example = Reach-bounded 1 0 all_created s_two s_two-Reach (omega arith)

Reach-kept_example :
    times 5 7 s_two.queued ≡ times 5 7 s_two.calls + waiting_all 1 5 7 s_two.threads.smth
unfolding obj_queue_ini queue_to add_obj
Reach-kept_example = Reach-kept 1 5 7 all_created s_two s_two-Reach refl

Reach-dealt_example : times 5 7 s_idle.calls ≡ times 5 7 s_idle.queued
Reach-dealt_example = Reach-dealt 1 5 7 all_created s_idle s_idle-Reach refl refl

Reach-Returns_example : Returns 1 s_blocked
Reach-Returns_example = Reach-Returns 1 0 all_created s_blocked s_blocked-Reach refl

-- The same run, with a call that fails for the object 8: the object 7 stays in the list, and the next
-- rule, 6, which queues no object, is called with it.
abbrev s_failed : System
s_failed =
    unblocked (record (finished (pos 1) (with_call (started s_blocked) 0 8 (7 ∷ []) (pos 1))) {
      phase = Phase.blocked 1;
    })

abbrev s_next : System
s_next = with_call (started (signalled (begun 6 s_failed))) 0 7 [] (pos 0)

s_next-Reach : Reach 1 all_created s_next
unfolding obj_queue_ini queue_to add_obj obj_queue_signal
s_next-Reach =
    let a : Reach 1 all_created (started s_blocked) =
      Reach.later s_blocked-Reach (Step.start 0 (omega arith) refl refl) in
    let b : Reach 1 all_created (with_call (started s_blocked) 0 8 (7 ∷ []) (pos 1)) =
      Reach.later a (Step.call 0 8 (7 ∷ []) (pos 1) (omega arith) refl refl) in
    let c : Reach 1 all_created
        (finished (pos 1) (with_call (started s_blocked) 0 8 (7 ∷ []) (pos 1))) =
      Reach.later b (Step.finish 0 (pos 1) (omega arith) refl (inl refl)) in
    let d : Reach 1 all_created s_failed =
      Reach.later (Reach.later c (Step.pass 0 refl (omega arith) refl))
        (Step.unblock 1 refl (omega arith)) in
    let e : Reach 1 all_created (signalled (begun 6 s_failed)) =
      Reach.later (Reach.later d (Step.begin_rule 6 refl)) (Step.signal_all refl) in
    Reach.later (Reach.later e (Step.start 0 (omega arith) refl refl))
      (Step.call 0 7 [] (pos 0) (omega arith) refl refl)

s_next-calls : s_next.calls ≡ (6, 7) ∷ (5, 8) ∷ []
unfolding obj_queue_ini queue_to add_obj obj_queue_signal
s_next-calls = refl

s_next-queued : s_next.queued ≡ (5, 8) ∷ (5, 7) ∷ []
unfolding queue_to add_obj obj_queue_ini
s_next-queued = refl
