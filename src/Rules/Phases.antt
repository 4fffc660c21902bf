-- ===== src/Rules/Phases.antt =====
-- The phases of a rule in src/smcore.c: ini, main for the objects, fini.
use smrender.Base.{
  ℕ, zero, suc, ◌-◌, ◌≡◌, refl, ◌≢◌, ◌⊎◌, inl, inr, true, false, not, Option, none, some, List, [],
  ◌∷◌, arith, ◌==◌, if◌then◌else◌, ==_iff, ==_refl, Bool-cases, is_some, ℤ, pos, ltb_ℤ, false-true,
}
use smrender.Bxtree.{Tree, depth}
use smrender.Bstring.{Bytes}
use smrender.Match.{Libc}
use smrender.Rules.{
  Smrule, Env, Callees, sm_set_flag, sm_is_flag_set, fini_threads, fini_copies, fini_once,
  call_fini, run_main, finish_rule, named_rule, reenter, apply_smrules,
}
use smrender.Rules.Apply.{UsesThreads, uses_threads}
use smrender.Rules.Bits.{finished, put_bit, is_set}

not_equal : (a b : ℕ) → a ≢ b → (a == b) ≡ false
not_equal a b n = ground arith

not_zero : (a : ℕ) → a ≢ 0 → (a == 0) ≡ false
not_zero a n = not_equal a 0 n

either {ℓ} : {A : Type ℓ} (a b : ℕ) (x : A) → (if not (a == b) then x else x) ≡ x
either a b x = ground arith

module _ (L : Libc) {S : Type 0} (c : Callees S) (rule : ℕ → Smrule L) where
  -- There is no finalisation function, or the rule has been finished.
  abbrev pub Finished : ℕ → Env S → Type 0
  Finished r env = ((env.act r).fini ≡ none) ⊎ (sm_is_flag_set r finished env ≡ true)

  -- The function is called for the threads of the list, in its order; the return values are dropped.
  pub data CalledFor (f r : ℕ) : List ℕ → Env S → Env S → Type 0 where
    no_thread : {env : Env S} → CalledFor f r [] env env
    thread :
        {th : ℕ} {ths : List ℕ} {env env' : Env S}
        → CalledFor f r ths (c.call_struct f r th env).1 env'
        → CalledFor f r (th ∷ ths) env env'

  -- n, ..., 1
  abbrev pub down_from : ℕ → List ℕ
  down_from zero = []
  down_from (suc n) = suc n ∷ down_from n

  -- What is called of the finalisation function before its call for the main thread, whose number is
  -- that of the threads: if the rule runs in the threads, it is called for each thread but the first
  -- from the last one down, and the main thread's rule gets the call counter of the first.
  pub data CopiesFinished (f r : ℕ) (env : Env S) : Env S → Type 0 where
    no_copies : ¬ UsesThreads L c rule r env → CopiesFinished f r env env
    copies :
        {env' : Env S}
        → UsesThreads L c rule r env
        → CalledFor f r (down_from (c.nthreads - 1)) env env'
        → CopiesFinished f r env (record env' {
          call_cnt = λ th. if th == c.nthreads then env'.call_cnt 0 else env'.call_cnt th;
        })

  -- The phase `fini` of a rule, from one state to another
  pub data FiniPhase (r : ℕ) (env : Env S) : Env S → Type 0 where
    no_function : (env.act r).fini ≡ none → FiniPhase r env env
    done_before : sm_is_flag_set r finished env ≡ true → FiniPhase r env env
    called :
        {f : ℕ} {env' : Env S}
        → (env.act r).fini ≡ some f
        → sm_is_flag_set r finished env ≡ false
        → CopiesFinished f r env env'
        → FiniPhase r env (sm_set_flag r finished (c.call_struct f r c.nthreads env').1)

  fini_threads-CalledFor :
      (f r n : ℕ) (env : Env S) → CalledFor f r (down_from n) env (fini_threads L c rule f r n env)
  unfolding fini_threads
  fini_threads-CalledFor f r zero env = CalledFor.no_thread
  fini_threads-CalledFor f r (suc n) env =
      CalledFor.thread (fini_threads-CalledFor f r n (c.call_struct f r (suc n) env).1)

  fini_copies-CopiesFinished :
      (f r : ℕ) (env : Env S) → CopiesFinished f r env (fini_copies L c rule f r env)
  unfolding fini_copies
  fini_copies-CopiesFinished f r env = elim (uses_threads L c rule r env) [
    | inl (is, on) ↦
        rw on (CopiesFinished.copies is (fini_threads-CalledFor f r (c.nthreads - 1) env))
    | inr (is, off) ↦ rw off (CopiesFinished.no_copies is)
  ]

  fini_once-FiniPhase :
      (fini : Option ℕ) (r : ℕ) (env : Env S)
      → (env.act r).fini ≡ fini
      → FiniPhase r env (fini_once L c rule fini r env).1
  unfolding fini_once
  fini_once-FiniPhase none r env e = FiniPhase.no_function e
  fini_once-FiniPhase (some f) r env e = elim (Bool-cases (sm_is_flag_set r finished env)) [
    | inl done ↦ rw done (FiniPhase.done_before done)
    | inr open_ ↦ rw open_ (FiniPhase.called e open_ (fini_copies-CopiesFinished f r env))
  ]

  call_fini-FiniPhase : (r : ℕ) (env : Env S) → FiniPhase r env (call_fini L c rule (some r) env).1
  unfolding call_fini
  call_fini-FiniPhase r env = fini_once-FiniPhase (env.act r).fini r env refl

  set_finished :
      (r : ℕ) (env : Env S) → sm_is_flag_set r finished (sm_set_flag r finished env) ≡ true
  unfolding sm_is_flag_set sm_set_flag is_set put_bit
  set_finished r env = rw (==_refl r) refl

  fini_once-Finished :
      (fini : Option ℕ) (r : ℕ) (env : Env S)
      → (env.act r).fini ≡ fini
      → Finished r (fini_once L c rule fini r env).1
  unfolding fini_once
  fini_once-Finished none r env e = inl e
  fini_once-Finished (some fini) r env e = elim (Bool-cases (sm_is_flag_set r finished env)) [
    | inl done ↦ rw done (inr done)
    | inr open_ ↦
        rw open_ (
          inr
            (set_finished r (c.call_struct fini r c.nthreads (fini_copies L c rule fini r env)).1))
  ]

  fini_once_done :
      (fini : Option ℕ) (r : ℕ) (env : Env S)
      → (fini ≡ none) ⊎ (sm_is_flag_set r finished env ≡ true)
      → fini_once L c rule fini r env ≡ (pos 0, env)
  unfolding fini_once
  fini_once_done none r env done = refl
  fini_once_done (some fini) r env (inl e) = ground arith
  fini_once_done (some fini) r env (inr e) = rw e refl

  call_fini-Finished : (r : ℕ) (env : Env S) → Finished r (call_fini L c rule (some r) env).1
  unfolding call_fini
  call_fini-Finished r env = fini_once-Finished (env.act r).fini r env refl

  call_fini_done :
      (r : ℕ) (env : Env S) → Finished r env → call_fini L c rule (some r) env ≡ (pos 0, env)
  unfolding call_fini
  call_fini_done r env done = fini_once_done (env.act r).fini r env done

  -- The second of two calls of call_fini() in a row returns 0 and changes nothing, whatever the
  -- rule and its functions do.
  pub call_fini-call_fini :
      (r : Option ℕ) (env : Env S)
      → call_fini L c rule r (call_fini L c rule r env).1 ≡ (pos 0, (call_fini L c rule r env).1)
  call_fini-call_fini none env = unfold call_fini in refl
  call_fini-call_fini (some r) env =
      call_fini_done r (call_fini L c rule (some r) env).1 (call_fini-Finished r env)

  -- The result is an error of the phase `main`, or else 0 with the phase `fini` behind it, which leaves
  -- the rule finished.
  abbrev pub Outcome : ℕ → Env S × ℤ → Env S × ℤ → Type 0
  Outcome r main res =
      ((ltb_ℤ main.1 (pos 0) ≡ true) × (res ≡ main))
      ⊎ ((ltb_ℤ main.1 (pos 0) ≡ false)
          × ((res.1 ≡ pos 0) × (FiniPhase r main.0 res.0 × Finished r res.0)))

  finish_rule-Outcome : (r : ℕ) (main : Env S × ℤ) → Outcome r main (finish_rule L c rule r main)
  unfolding finish_rule
  finish_rule-Outcome r (env, e) = elim (Bool-cases (ltb_ℤ e (pos 0))) [
    | inl neg ↦ inl (neg, rw neg refl)
    | inr nat ↦ inr (nat, rw nat (refl, (call_fini-FiniPhase r env, call_fini-Finished r env)))
  ]

  named_rule-Outcome :
      (name : Option Bytes) (r : ℕ) (objtree : Tree ℕ depth) (env : Env S)
      → is_some name ≡ true
      → Outcome r
          (run_main L c rule (env.act r).main r objtree env)
          (named_rule L c rule name r objtree env)
  unfolding named_rule
  named_rule-Outcome none r objtree env e = elim (false-true e) [ ]
  named_rule-Outcome (some name) r objtree env e =
      finish_rule-Outcome r (run_main L c rule (env.act r).main r objtree env)

  -- apply_smrules() of a visible rule of the version, whose function has a name once the rule is
  -- reentered: it returns the error and the state of the main phase where that one fails, with no
  -- finalisation, and otherwise 0. In that case, if the rule has a finalisation function and is not
  -- finished, this function is called behind the main phase: for the copies of the rule in the threads
  -- but the first, from the last one down, if the rule runs in threads, and then for the rule itself,
  -- and the flag FINISHED is set in the state of this last call. If not, the state is that of the main
  -- phase.
  pub apply_smrules-Outcome :
      (r ver : ℕ) (objtree : Tree ℕ depth) (env : Env S)
      → (c.object (rule r).oo env.st).ver ≡ ver
      → (c.object (rule r).oo env.st).vis ≢ 0
      → is_some ((reenter L c rule r env).act r).func_name ≡ true
      → Outcome r
          (run_main L c rule
            ((reenter L c rule r env).act r).main
            r
            objtree
            (reenter L c rule r env))
          (apply_smrules L c rule (some r) ver objtree env)
  unfolding apply_smrules
  apply_smrules-Outcome r ver objtree env same vis named =
      rw ((==_iff _ _).1 same, not_zero _ vis) (named_rule-Outcome _ r objtree _ named)

  -- apply_smrules() of a rule of another version, or of an invisible one, returns 0 and leaves the
  -- state alone.
  apply_smrules-ignored :
      (r ver : ℕ) (objtree : Tree ℕ depth) (env : Env S)
      → ((c.object (rule r).oo env.st).ver ≢ ver) ⊎ ((c.object (rule r).oo env.st).vis ≡ 0)
      → apply_smrules L c rule (some r) ver objtree env ≡ (env, pos 0)
  unfolding apply_smrules
  apply_smrules-ignored r ver objtree env (inl other) = rw (not_equal _ _ other) refl
  apply_smrules-ignored r ver objtree env (inr none_) =
      rw (none_) (either (c.object (rule r).oo env.st).ver ver _)
