-- ===== src/Rules/State.antt =====
-- The state of the rule engine: objects, rules and their actions, and what the engine calls.
use smrender.Base.{ℕ, Bool, false, not, Option, List, [], ◌∷◌, ◌==◌, update, length, get_or, ℤ}
use smrender.Bstring.{Bytes}
use smrender.Match.{Libc, Tag, Stag}
use smrender.Rules.Bits.{Flag, Flags, set_bit, clear_bit, is_set}

-- What the engine reads of an `osm_obj_t`; `ref` is empty but for ways.
pub record Object : Type 0 where
  pub type : ℕ
  pub vis : ℕ
  pub ver : ℕ
  pub otag : List Tag
  pub ref : List ℕ

abbrev pub osm_node : ℕ
osm_node = 1

abbrev pub osm_way : ℕ
osm_way = 2

-- The part of `action_t` that changes. A function is known by its address.
pub record Action : Type 0 where
  pub ini : Option ℕ
  pub main : Option ℕ
  pub fini : Option ℕ
  pub func_name : Option Bytes
  pub flags : Flags

-- A rule: the address of its object, and its array of match conditions.
pub record Smrule (L : Libc) : Type 0 where
  pub oo : ℕ
  pub stag : ℕ → Stag L

-- The state of the program: the action of each rule, the `data` pointer of each rule for each
-- thread (that of the main thread has the number `nthreads`), the call counter of each thread,
-- and all the rest.
pub record Env (S : Type 0) : Type 0 where
  pub act : ℕ → Action
  pub data_ptr : ℕ → ℕ → ℕ
  pub call_cnt : ℕ → ℕ
  pub st : S

-- What the engine calls: the objects in memory, the page of rdata.c, the functions of the rules
-- (of which a rule's address, a thread and the state are the arguments), the flag that SIGINT
-- sets, and the threads' queue of smthread.c.
pub record Callees (S : Type 0) : Type 0 where
  pub object : ℕ → S → Object
  pub is_on_page : ℕ → S → Bool
  pub render_all_nodes : Bool
  pub interrupted : S → Bool
  pub call_main : ℕ → ℕ → ℕ → Env S → ℤ × Env S
  pub call_struct : ℕ → ℕ → ℕ → Env S → ℤ × Env S
  pub nthreads : ℕ
  pub obj_queue_ini : ℕ → Env S → Env S
  pub obj_queue : ℕ → Env S → ℤ × Env S
  pub obj_queue_signal : Env S → Env S
  pub sm_wait_threads : Env S → Env S

-- The return values of apply_rule(). The first one is 0, as in the enum.
abbrev pub erule_outofbbox : ℕ
erule_outofbbox = 0

abbrev pub erule_wayopen : ℕ
erule_wayopen = 1

abbrev pub erule_wayclosed : ℕ
erule_wayclosed = 2

abbrev pub erule_nomatch : ℕ
erule_nomatch = 3

abbrev pub erule_invisible : ℕ
erule_invisible = 4

abbrev pub erule_executed : ℕ
erule_executed = 5

module _ {S : Type 0} where
  -- r->act = f(r->act), for the rule `r`
  abbrev pub set_act : ℕ → (Action → Action) → Env S → Env S
  set_act r f env = record env { act = update env.act r (f (env.act r)) }

  unfoldable pub sm_set_flag : ℕ → Flag → Env S → Env S
  sm_set_flag r flag = set_act r (λ a. record a { flags = set_bit flag a.flags })

  unfoldable pub sm_clear_flag : ℕ → Flag → Env S → Env S
  sm_clear_flag r flag = set_act r (λ a. record a { flags = clear_bit flag a.flags })

  unfoldable pub sm_is_flag_set : ℕ → Flag → Env S → Bool
  sm_is_flag_set r flag env = is_set flag (env.act r).flags

-- ref_cnt && ref[0] != ref[ref_cnt - 1], and the same with ==
unfoldable pub way_is_open : List ℕ → Bool
way_is_open [] = false
way_is_open (x ∷ ref) = not (x == get_or (x ∷ ref) (length ref) 0)

unfoldable pub way_is_closed : List ℕ → Bool
way_is_closed [] = false
way_is_closed (x ∷ ref) = x == get_or (x ∷ ref) (length ref) 0
