-- ===== src/Rules/Once.antt =====
-- A rule that is executed once, under the walk of `traverse`.
use smrender.Base.{
  true-false, ℕ, zero, suc, ◌≡◌, refl, sym, ap, ◌∙◌, inl, inr, true, false, Option, none, some,
  List, [], ◌∷◌, if◌then◌else◌, ==_refl, Option-cases, ℤ, pos, negsuc, nonzero, subst,
}
use smrender.Bxtree.{Node, depth}
use smrender.Match.{Libc}
use smrender.Traverse.{traverse, leaf_slots}
use smrender.Traverse.Entries.{entries}
use smrender.Traverse.Walk.{walk, traverse-walk}
use smrender.Rules.{
  Smrule, Env, Callees, sm_set_flag, sm_is_flag_set, refusal, call, apply_unless, apply_rule,
  apply_rule0,
}
use smrender.Rules.Apply.{Applies, refusal-Applies}
use smrender.Rules.Bits.{exec_once, exec, put_bit, is_set}

abbrev unless_refused {ℓ} : {A : Type ℓ} → Option ℕ → A → A → A
unless_refused (some code) rest here = rest
unless_refused none rest here = here

module _ (L : Libc) {S : Type 0} (c : Callees S) (rule : ℕ → Smrule L) where
  -- A rule that is executed once and has been.
  abbrev pub Spent : ℕ → Env S → Type 0
  Spent r env = (sm_is_flag_set r exec_once env ≡ true) × (sm_is_flag_set r exec env ≡ true)

  refusal-Spent :
      (o r : ℕ) (env : Env S) → Spent r env → (code : ℕ) × (refusal L c rule o r env ≡ some code)
  refusal-Spent o r env (once, done) = elim (Option-cases (refusal L c rule o r env)) [
    | inl e ↦
        elim (true-false
          (sym done ∙ Applies.not_executed ((refusal-Applies L c rule o r env).0 e) once)) [ ]
    | inr found ↦ found
  ]

  -- The first object for which nothing keeps the rule's function from being called gets the call,
  -- and there it ends, whatever the call returns.
  unfoldable pub first_call : ℕ → ℕ → List (ℕ × ℕ) → Env S → Env S × ℤ
  first_call main r [] env = (env, pos 0)
  first_call main r ((key, o) ∷ os) env =
      unless_refused (refusal L c rule o r env) (first_call main r os env)
        (apply_rule0 L c rule main r o env)

  apply_rule0_refused :
      (main o r code : ℕ) (env : Env S)
      → refusal L c rule o r env ≡ some code
      → apply_rule0 L c rule main r o env ≡ (env, pos 0)
  unfolding apply_rule0 apply_rule apply_unless
  apply_rule0_refused main o r code env e =
      ap (λ why. let a = apply_unless L c rule why main o r (pos 0) env in (a.env, a.ret)) e

  apply_rule0_called :
      (main o r : ℕ) (env : Env S)
      → refusal L c rule o r env ≡ none
      → apply_rule0 L c rule main r o env
        ≡ (sm_set_flag r exec (call L c rule main o r env).1, (call L c rule main o r env).0)
  unfolding apply_rule0 apply_rule apply_unless
  apply_rule0_called main o r env e =
      ap (λ why. let a = apply_unless L c rule why main o r (pos 0) env in (a.env, a.ret)) e

  -- The walk of a rule that is executed once, and has been, changes nothing.
  walk-Spent :
      (main r : ℕ) (os : List (ℕ × ℕ)) (env : Env S)
      → Spent r env
      → walk (apply_rule0 L c rule main r) os env ≡ (env, pos 0)
  unfolding walk
  walk-Spent main r [] env spent = refl
  walk-Spent main r ((key, o) ∷ os) env spent =
      let (code, e) = refusal-Spent o r env spent in
      rw (apply_rule0_refused main o r code env e) (walk-Spent main r os env spent)

  -- The calls of the rule's function leave its flag EXEC_ONCE set.
  abbrev pub KeepsOnce : ℕ → ℕ → Type 0
  KeepsOnce main r =
      (o : ℕ) (env : Env S)
      → sm_is_flag_set r exec_once env ≡ true
      → sm_is_flag_set r exec_once (call L c rule main o r env).1 ≡ true

  set_exec-Spent :
      (r : ℕ) (env : Env S)
      → sm_is_flag_set r exec_once env ≡ true
      → Spent r (sm_set_flag r exec env)
  unfolding sm_is_flag_set sm_set_flag is_set put_bit
  set_exec-Spent r env once = rw (==_refl r) (once, refl)

  walk_after :
      (main r : ℕ) (os : List (ℕ × ℕ)) (res : Env S × ℤ)
      → Spent r res.0
      → (if nonzero res.1 then res else walk (apply_rule0 L c rule main r) os res.0) ≡ res
  walk_after main r os (env, pos zero) spent = walk-Spent main r os env spent
  walk_after main r os (env, pos (suc n)) spent = refl
  walk_after main r os (env, negsuc n) spent = refl

  walk-first_call :
      (main r : ℕ) (os : List (ℕ × ℕ)) (env : Env S)
      → sm_is_flag_set r exec_once env ≡ true
      → KeepsOnce main r
      → walk (apply_rule0 L c rule main r) os env ≡ first_call main r os env
  unfolding walk first_call
  walk-first_call main r [] env once keeps = refl
  walk-first_call main r ((key, o) ∷ os) env once keeps =
      elim (Option-cases (refusal L c rule o r env)) [
        | inl e ↦
            walk_after main r os (apply_rule0 L c rule main r o env) (
              subst (λ res. Spent r res.0) (sym (apply_rule0_called main o r env e))
                (set_exec-Spent r (call L c rule main o r env).1 (keeps o env once)))
            ∙ ap
                (λ why.
                  unless_refused why (first_call main r os env) (apply_rule0 L c rule main r o env))
                (sym e)
        | inr (code, e) ↦
            rw (apply_rule0_refused main o r code env e) (walk-first_call main r os env once keeps)
            ∙ ap
                (λ why.
                  unless_refused why (first_call main r os env) (apply_rule0 L c rule main r o env))
                (sym e)
      ]

  -- While no signal interrupts it, `traverse` of a tree for a rule that is executed once calls the
  -- rule's function for the first object only that the rule applies to, provided that the function
  -- leaves the rule's flag EXEC_ONCE set: the state and the return value are those of that call.
  pub traverse-first_call :
      (main r : ℕ) (nt : Node ℕ depth) (idx : ℤ) (slots : ℕ × ℕ) (env : Env S)
      → ((v : Env S) → c.interrupted v.st ≡ false)
      → leaf_slots idx ≡ some slots
      → sm_is_flag_set r exec_once env ≡ true
      → KeepsOnce main r
      → traverse (λ v. c.interrupted v.st) (apply_rule0 L c rule main r) (some nt) idx env
        ≡ first_call main r (entries ℕ depth (some nt) slots 0) env
  traverse-first_call main r nt idx slots env never e once keeps =
      traverse-walk (apply_rule0 L c rule main r) (λ v. c.interrupted v.st) never nt idx slots env e
      ∙ walk-first_call main r (entries ℕ depth (some nt) slots 0) env once keeps
