-- ===== src/Rules.antt =====
-- The rule engine of src/smcore.c: `apply_rule`, `call_ini`, `call_fini`, `apply_smrules` and
-- `execute_rules`, with the flags of libsmrender/smutil.c.
pub mod Bits
pub mod State
pub mod WayType
pub mod Apply
pub mod Once
pub mod Phases
use smrender.Base.{
  ℕ, zero, suc, ◌+◌, ◌-◌, ◌%◌, ◌^◌, Bool, true, false, not, ◌&&◌, Option, none, some, List, [], ◌∷◌,
  ltb, ◌==◌, if◌then◌else◌, update, ℤ, pos, negsuc, sub_ℕ, ltb_ℤ, nonzero,
}
use smrender.Bstring.{Bytes}
use smrender.Bxtree.{Tree, depth}
use smrender.Match.{Libc, Tag, Stag, bs_match_attr}
use smrender.Rules.Bits.{exec_once, exec, finished, open_way, closed_way, threaded}
use smrender.Traverse.{traverse, execute_treefunc}
pub use State.{
  Object, osm_node, osm_way, Action, Smrule, Env, Callees, erule_outofbbox, erule_wayopen,
  erule_wayclosed, erule_nomatch, erule_invisible, erule_executed, set_act,
}
unfoldable pub use State.{sm_set_flag, sm_clear_flag, sm_is_flag_set, way_is_open, way_is_closed}

module _ (L : Libc) {S : Type 0} (c : Callees S) (rule : ℕ → Smrule L) where
  open c use {object, is_on_page, render_all_nodes, interrupted, call_main, call_struct, nthreads}
  open c use {obj_queue_ini, obj_queue, obj_queue_signal, sm_wait_threads}

  -- for (i = 0; i < r->oo->tag_cnt; i++): does any condition fail?
  unfoldable pub tag_fails : List Tag → List Tag → (ℕ → Stag L) → ℕ → Bool
  tag_fails otag [] stag i = false
  tag_fails otag (t ∷ ts) stag i =
      let rest = tag_fails otag ts stag (i + 1) in
      elim (bs_match_attr L otag t (stag i)) [ negsuc zero ↦ true | _ ↦ rest ]

  -- The reasons not to call the rule's function, in their order; none if it is called.
  unfoldable pub refusal : ℕ → ℕ → Env S → Option ℕ
  unfolding tag_fails way_is_open way_is_closed sm_is_flag_set
  refusal o r env =
      let obj = object o env.st in
      let oo = object (rule r).oo env.st in
      if not render_all_nodes && obj.type == osm_node && not (is_on_page o env.st)
      then some erule_outofbbox
      else if oo.type == osm_way && sm_is_flag_set r closed_way env && way_is_open obj.ref
      then some erule_wayopen
      else if oo.type == osm_way
          && not (sm_is_flag_set r closed_way env)
          && sm_is_flag_set r open_way env
          && way_is_closed obj.ref
      then some erule_wayclosed
      else if tag_fails obj.otag oo.otag (rule r).stag 0
      then some erule_nomatch
      else if obj.vis == 0
      then some erule_invisible
      else if sm_is_flag_set r exec_once env && sm_is_flag_set r exec env
      then some erule_executed
      else none

  -- The call of the rule's function, directly or through the queue of the threads.
  unfoldable pub call : ℕ → ℕ → ℕ → Env S → ℤ × Env S
  unfolding sm_is_flag_set
  call main o r env =
      if ltb 0 nthreads && sm_is_flag_set r threaded env
      then obj_queue o env
      else call_main main r o (record env {
        call_cnt = update env.call_cnt nthreads ((env.call_cnt nthreads + 1) % 2 ^ 32);
      })

  -- The code returned, `*ret`, and the state.
  pub record Applied : Type 0 where
    pub code : ℕ
    pub ret : ℤ
    pub env : Env S

  -- apply_rule; `main` is r->act->main.func, and `ret` what `*ret` holds before.
  unfoldable pub apply_unless : Option ℕ → ℕ → ℕ → ℕ → ℤ → Env S → Applied
  unfolding call sm_set_flag
  apply_unless (some code) main o r ret env = record { code = code; ret = ret; env = env }
  apply_unless none main o r ret env =
      let (i, env') = call main o r env in
      record { code = 0; ret = i; env = sm_set_flag r exec env' }

  unfoldable pub apply_rule : ℕ → ℕ → ℕ → ℤ → Env S → Applied
  unfolding apply_unless refusal
  apply_rule main o r ret env = apply_unless (refusal o r env) main o r ret env

  unfoldable pub apply_rule0 : ℕ → ℕ → ℕ → Env S → Env S × ℤ
  unfolding apply_rule
  apply_rule0 main r o env = let a = apply_rule main o r (pos 0) env in (a.env, a.ret)

  -- for (int i = nth - 1; i > 0; i--): e = fini(&rth[i].r), with the rounds left
  unfoldable pub fini_threads : ℕ → ℕ → ℕ → Env S → Env S
  fini_threads fini r zero env = env
  fini_threads fini r (suc i) env = fini_threads fini r i (call_struct fini r (suc i) env).1

  -- The finalisation of the other threads' copies of the rule, where there are any.
  unfoldable pub fini_copies : ℕ → ℕ → Env S → Env S
  unfolding fini_threads sm_is_flag_set
  fini_copies fini r env =
      if ltb 0 nthreads && sm_is_flag_set r threaded env
      then (let env' = fini_threads fini r (nthreads - 1) env in
          record env' { call_cnt = update env'.call_cnt nthreads (env'.call_cnt 0) })
      else env

  unfoldable pub fini_once : Option ℕ → ℕ → Env S → ℤ × Env S
  unfolding fini_copies sm_set_flag sm_is_flag_set
  fini_once none r env = (pos 0, env)
  fini_once (some fini) r env =
      if sm_is_flag_set r finished env
      then (pos 0, env)
      else (let (e, env') = call_struct fini r nthreads (fini_copies fini r env) in
          (e, sm_set_flag r finished env'))

  -- A rule that is NULL is `none`; r->act never is.
  unfoldable pub call_fini : Option ℕ → Env S → ℤ × Env S
  unfolding fini_once
  call_fini none env = (pos 0, env)
  call_fini (some r) env = fini_once (env.act r).fini r env

  -- for (int i = 1; i < nth; i++): e = ini(&rth[i].r), with the rounds left
  unfoldable pub ini_threads : ℕ → ℕ → ℕ → ℕ → ℤ → Env S → ℤ × Env S
  ini_threads ini r zero i e env = (e, env)
  ini_threads ini r (suc k) i e env =
      let (e', env') = call_struct ini r i env in ini_threads ini r k (i + 1) e' env'

  -- What follows the first call of the ini function, which returned `e`. The copies of the rule
  -- share its object.
  unfoldable pub after_ini : ℕ → ℕ → ℤ → Env S → ℤ × Env S
  unfolding ini_threads sm_is_flag_set
  after_ini ini r e env =
      if not (nonzero e) && ltb 0 nthreads && sm_is_flag_set r threaded env
      then (let shared = update (env.data_ptr r) 0 (env.data_ptr r nthreads) in
          ini_threads ini r (nthreads - 1) 1 e
            (record env { data_ptr = update env.data_ptr r shared }))
      else if ltb_ℤ e (pos 0)
      then (e, env)
      else if nonzero e
      then (pos 0, set_act r (λ a. record a { main = none; fini = none }) env)
      else (e, env)

  unfoldable pub ini_call : Option ℕ → ℕ → Env S → ℤ × Env S
  unfolding after_ini
  ini_call none r env = (pos 0, env)
  ini_call (some ini) r env =
      let (e, env') = call_struct ini r nthreads env in after_ini ini r e env'

  unfoldable pub call_ini : ℕ → Env S → ℤ × Env S
  unfolding ini_call
  call_ini r env = ini_call (env.act r).ini r env

  -- The traverse of the objects, with the queue before and behind it.
  unfoldable pub run_main : Option ℕ → ℕ → Tree ℕ depth → Env S → Env S × ℤ
  unfolding apply_rule0
  run_main none r objtree env = (env, pos 0)
  run_main (some main) r objtree env =
      let idx = sub_ℕ (object (rule r).oo env.st).type 1 in
      let (env', e) =
        traverse (λ v. interrupted v.st) (apply_rule0 main r) objtree idx (obj_queue_ini r env) in
      (sm_wait_threads (obj_queue_signal env'), e)

  -- if (e >= 0) { e = 0; call_fini(r); }
  unfoldable pub finish_rule : ℕ → Env S × ℤ → Env S × ℤ
  unfolding call_fini
  finish_rule r (env, e) = if ltb_ℤ e (pos 0) then (env, e) else ((call_fini (some r) env).1, pos 0)

  -- The tests of func_name and main, and what follows them.
  unfoldable pub named_rule : Option Bytes → ℕ → Tree ℕ depth → Env S → Env S × ℤ
  unfolding run_main finish_rule
  named_rule none r objtree env = (env, pos 0)
  named_rule (some name) r objtree env = finish_rule r (run_main (env.act r).main r objtree env)

  -- "action is reentered"
  unfoldable pub reenter : ℕ → Env S → Env S
  unfolding call_ini sm_clear_flag sm_is_flag_set
  reenter r env =
      if sm_is_flag_set r finished env && not (sm_is_flag_set r exec_once env)
      then sm_clear_flag r finished (call_ini r env).1
      else env

  -- apply_smrules of the rule `r`, which is NULL where it is `none`; `ver` is ti->ver.
  unfoldable pub apply_smrules : Option ℕ → ℕ → Tree ℕ depth → Env S → Env S × ℤ
  unfolding named_rule reenter
  apply_smrules none ver objtree env = (env, pos 1)
  apply_smrules (some r) ver objtree env =
      let oo = object (rule r).oo env.st in
      if not (oo.ver == ver)
      then (env, pos 0)
      else if oo.vis == 0
      then (env, pos 0)
      else (let env' = reenter r env in named_rule (env'.act r).func_name r objtree env')

  -- All rules of a version: relations first, then ways, then nodes.
  unfoldable pub execute_rules : Tree ℕ depth → Tree ℕ depth → ℕ → Env S → Env S × ℤ
  unfolding apply_smrules
  execute_rules rules objtree version env =
      execute_treefunc (λ v. interrupted v.st) (λ r v. apply_smrules (some r) version objtree v)
        false rules env
