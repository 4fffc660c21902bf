-- ===== src/Tests/Engine.antt =====
-- Runs of the rule engine: one rule, at the address 100, and the objects 7 and 8.
use smrender.Base.{
  true-false, ℕ, ◌+◌, ◌*◌, ◌/◌, ◌≤◌, ◌≡◌, refl, Bool, true, false, none, some, [], ◌∷◌, arith, ltb,
  pos,
}
use smrender.Bxtree.{Tree, Node, Stats, depth}
use smrender.Bstring.{Bytes}
use smrender.Bstring.Number.{Double}
use smrender.Match.{Libc, Stag, no_special}
use smrender.ObjTree.{put_object0}
use smrender.Traverse.{leaf_slots, traverse}
use smrender.Traverse.Entries.{entries}
use smrender.Rules.{
  Object, Smrule, Env, Callees, sm_is_flag_set, way_is_open, way_is_closed, call, apply_rule,
  apply_rule0, run_main, reenter, apply_smrules,
}
use smrender.Rules.Bits.{Flags, is_set}
use smrender.Rules.Apply.{Applies, Called, apply_rule-Applies, apply_rule-not_Applies}
use smrender.Rules.Once.{KeepsOnce, first_call, traverse-first_call}
use smrender.Rules.Phases.{Outcome, apply_smrules-Outcome}

abbrev double : Double
double = record {
  Value = ℕ;
  zero_value = 0;
  mul_ten = λ x. x * 10;
  add_digit = λ x d. x + d;
  div_ten = λ x. x / 10;
  negate = λ x. 0;
  less = ltb;
}

abbrev libc : Libc
libc = record {
  double = double;
  Regex = Bytes;
  regcomp = λ b. some b;
  regexec = λ re b. true;
  strtod = λ b. some 0;
}

-- A visible node without tags; the rule's object has the address 100, and no tags, either.
abbrev node : ℕ → ℕ → Object
node vis ver = record { type = 1; vis = vis; ver = ver; otag = []; ref = [] }

-- The function of the rule adds the address of the object to the state; the finalisation function
-- sets the state to 0. There are no threads.
abbrev callees : Callees ℕ
callees = record {
  object = λ o s. node 1 3;
  is_on_page = λ o s. true;
  render_all_nodes = false;
  interrupted = λ s. false;
  call_main = λ main r o env. (pos 0, record env { st = env.st + o });
  call_struct = λ f r th env. (pos 0, record env { st = 0 });
  nthreads = 0;
  obj_queue_ini = λ main env. env;
  obj_queue = λ o env. (pos 0, env);
  obj_queue_signal = λ env. env;
  sm_wait_threads = λ env. env;
}

abbrev stag : ℕ → Stag libc
stag i = record { stk = no_special libc; stv = no_special libc }

abbrev rule : ℕ → Smrule libc
rule r = record { oo = 100; stag = stag }

abbrev flags : Bool → Flags
flags done = record {
  threaded_bit = false;
  exec_once_bit = true;
  exec_bit = done;
  init_bit = false;
  finished_bit = false;
  open_way_bit = false;
  closed_way_bit = false;
}

abbrev env : Bool → Env ℕ
env done = record {
  act = λ r. record {
    ini = none;
    main = some 1;
    fini = some 2;
    func_name = some (65 ∷ []);
    flags = flags done;
  };
  data_ptr = λ r th. 0;
  call_cnt = λ th. 0;
  st = 0;
}

applies : Applies libc callees rule 7 100 (env false)
unfolding sm_is_flag_set is_set
applies = record {
  on_page = λ a b. refl;
  not_open = λ a b. unfold way_is_open in refl;
  not_closed = λ a b d. unfold way_is_closed in refl;
  tags = λ k t e. absurd (ground arith);
  visible = omega arith;
  not_executed = λ e. refl;
}

apply_rule-Applies_example :
    Called libc callees rule 1 7 100
      (env false)
      (apply_rule libc callees rule 1 7 100 (pos 0) (env false))
apply_rule-Applies_example =
    apply_rule-Applies libc callees rule 1 7 100 (pos 0) (env false) applies

executed : ¬ Applies libc callees rule 7 100 (env true)
unfolding sm_is_flag_set is_set
executed a = true-false (a.not_executed refl)

apply_rule-not_Applies_example :
    (code : ℕ) × ((code ≤ 5)
      × (apply_rule libc callees rule 1 7 100 (pos 0) (env true)
          ≡ record { code = code; ret = pos 0; env = env true }))
apply_rule-not_Applies_example =
    apply_rule-not_Applies libc callees rule 1 7 100 (pos 0) (env true) executed

abbrev no_stats : Stats
no_stats = record { mem_alloc = 0; mem_free = 0; malloc_cnt = 0 }

-- The objects 7 and 8 as the nodes of the ids 5 and 6.
abbrev one_node : Tree ℕ depth
one_node = (put_object0 ℕ true none no_stats 5 (some 7) (pos 0)).tree

abbrev two_nodes : Tree ℕ depth
two_nodes = (put_object0 ℕ true one_node no_stats 6 (some 8) (pos 0)).tree

abbrev root : Node ℕ depth
root = λ x. elim two_nodes [ none ↦ none | some n ↦ n x ]

once : KeepsOnce libc callees rule 1 100
unfolding sm_is_flag_set is_set call
once o v e = e

traverse-first_call_example :
    traverse
      (λ v. callees.interrupted v.st)
      (apply_rule0 libc callees rule 1 100)
      (some root)
      (pos 0)
      (env false)
    ≡ first_call libc callees rule 1 100 (entries ℕ depth (some root) (0, 1) 0) (env false)
unfolding sm_is_flag_set is_set leaf_slots
traverse-first_call_example =
    traverse-first_call libc callees rule 1 100 root (pos 0) (0, 1) (env false) (λ v. refl) refl
      refl once

apply_smrules-Outcome_example :
    Outcome libc callees rule 100
      (run_main libc callees rule
        ((reenter libc callees rule 100 (env false)).act 100).main
        100
        two_nodes
        (reenter libc callees rule 100 (env false)))
      (apply_smrules libc callees rule (some 100) 3 two_nodes (env false))
unfolding reenter sm_is_flag_set is_set
apply_smrules-Outcome_example =
    apply_smrules-Outcome libc callees rule 100 3 two_nodes (env false) refl (omega arith) refl

-- The rule's own object is the closed way of the nodes 4, 5 and 4.
abbrev ways : Callees ℕ
ways = record callees {
  object = λ o s. record { type = 2; vis = 1; ver = 3; otag = []; ref = 4 ∷ 5 ∷ 4 ∷ [] };
}
