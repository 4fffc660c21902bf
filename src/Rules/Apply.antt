-- ===== src/Rules/Apply.antt =====
-- When apply_rule() of src/smcore.c calls the rule's function.
use smrender.Base.{
  ℕ, zero, suc, ◌+◌, ◌%◌, ◌^◌, ◌≤◌, ◌<◌, ◌≡◌, refl, sym, ap, ◌∙◌, ◌≢◌, ◌↔◌, ◌⊎◌, inl, inr, Bool,
  true, false, not, ◌&&◌, Option, none, some, List, [], ◌∷◌, arith, ltb, ◌==◌, if◌then◌else◌,
  ltb→lt, lt→ltb, ==_refl, Bool-cases, Option-cases, get_elem?, ℤ, pos, negsuc, minus_one, subst,
  true-false, none-some, some_inj,
}
use smrender.Base.{and_split}
use smrender.Match.{Libc, Tag, Stag, bs_match_attr}
use smrender.Rules.{
  Smrule, Env, Callees, osm_node, osm_way, sm_set_flag, sm_is_flag_set, way_is_open, way_is_closed,
  tag_fails, refusal, call, Applied, apply_unless, apply_rule,
}
use smrender.Rules.Bits.{exec_once, exec, open_way, closed_way, threaded, put_bit, is_set}

missed :
    (z : ℤ) (rest : Bool)
    → ((elim z [ negsuc zero ↦ true | _ ↦ rest ]) ≡ false) ↔ ((z ≢ minus_one) × (rest ≡ false))
missed (pos n) rest = (λ e. ((λ m. (ground arith)), e), λ (n, e). e)
missed (negsuc zero) rest = (λ e. (ground arith), λ (n, e). (ground arith))
missed (negsuc (suc n)) rest = (λ e. ((λ m. (ground arith)), e), λ (n, e). e)

none_left :
    (p : Bool) (a : ℕ) (rest : Option ℕ)
    → ((if p then some a else rest) ≡ none) ↔ ((p ≡ false) × (rest ≡ none))
none_left true a rest = (λ e. (ground arith), λ (e, f). (ground arith))
none_left false a rest = (λ e. (refl, e), λ (e, f). f)

abbrev Bounded : Option ℕ → Type 0
Bounded o = (code : ℕ) → o ≡ some code → code ≤ 5

none-Bounded : Bounded none
none-Bounded code e = elim (none-some e) [ ]

bounded :
    (p : Bool) (a : ℕ) (rest : Option ℕ)
    → a ≤ 5
    → Bounded rest
    → Bounded (if p then some a else rest)
bounded true a rest h b code e = subst (λ k. k ≤ 5) (some_inj e) h
bounded false a rest h b code e = b code e

two : (a b : Bool) → ((a && b) ≡ false) ↔ (a ≡ true → b ≡ false)
two a b = ground arith

three :
    (a : Bool) (m k : ℕ) (b : Bool)
    → ((not a && m == k && not b) ≡ false) ↔ (m ≡ k → a ≡ false → b ≡ true)
three a m k b = ground arith

four : (m k : ℕ) (a b : Bool) → ((m == k && a && b) ≡ false) ↔ (m ≡ k → a ≡ true → b ≡ false)
four m k a b = ground arith

five :
    (m k : ℕ) (a b d : Bool)
    → ((m == k && not a && b && d) ≡ false) ↔ (m ≡ k → a ≡ false → b ≡ true → d ≡ false)
five m k a b d = ground arith

and_both : (a b : Bool) → a ≡ true → b ≡ true → (a && b) ≡ true
and_both a b p q = rw (p, q) refl

zero_test : (m : ℕ) → ((m == 0) ≡ false) ↔ (m ≢ 0)
zero_test m = ground arith

module _ (L : Libc) {S : Type 0} (c : Callees S) (rule : ℕ → Smrule L) where
  open c use {object, is_on_page, render_all_nodes}

  -- Every condition of the rule holds of the object's tags, the one at `k` with its match flags.
  abbrev pub TagsMatch : List Tag → List Tag → (ℕ → Stag L) → ℕ → Type 0
  TagsMatch otag ts stag i =
      (k : ℕ) (t : Tag)
      → get_elem? ts k ≡ some t
      → bs_match_attr L otag t (stag (i + k)) ≢ minus_one

  -- What must hold of an object for a rule to apply to it, as separate conditions without order.
  pub record Applies (o r : ℕ) (env : Env S) : Type 0 where
    pub on_page :
        (object o env.st).type ≡ osm_node → render_all_nodes ≡ false → is_on_page o env.st ≡ true
    pub not_open :
        (object (rule r).oo env.st).type ≡ osm_way
        → sm_is_flag_set r closed_way env ≡ true
        → way_is_open (object o env.st).ref ≡ false
    pub not_closed :
        (object (rule r).oo env.st).type ≡ osm_way
        → sm_is_flag_set r closed_way env ≡ false
        → sm_is_flag_set r open_way env ≡ true
        → way_is_closed (object o env.st).ref ≡ false
    pub tags : TagsMatch (object o env.st).otag (object (rule r).oo env.st).otag (rule r).stag 0
    pub visible : (object o env.st).vis ≢ 0
    pub not_executed : sm_is_flag_set r exec_once env ≡ true → sm_is_flag_set r exec env ≡ false

  TagsMatch_cons :
      (otag ts : List Tag) (t : Tag) (stag : ℕ → Stag L) (i : ℕ)
      → bs_match_attr L otag t (stag i) ≢ minus_one
      → TagsMatch otag ts stag (i + 1)
      → TagsMatch otag (t ∷ ts) stag i
  TagsMatch_cons otag ts t stag i first rest zero u e =
      subst (λ v. bs_match_attr L otag v (stag (i + 0)) ≢ minus_one) (some_inj e)
        (subst (λ j. bs_match_attr L otag t (stag j) ≢ minus_one) (omega arith) first)
  TagsMatch_cons otag ts t stag i first rest (suc k) u e =
      subst (λ j. bs_match_attr L otag u (stag j) ≢ minus_one) (omega arith) (rest k u e)

  TagsMatch_tail :
      (otag ts : List Tag) (t : Tag) (stag : ℕ → Stag L) (i : ℕ)
      → TagsMatch otag (t ∷ ts) stag i
      → TagsMatch otag ts stag (i + 1)
  TagsMatch_tail otag ts t stag i m k u e =
      subst (λ j. bs_match_attr L otag u (stag j) ≢ minus_one) (omega arith) (m (suc k) u e)

  tag_fails-TagsMatch :
      (otag ts : List Tag) (stag : ℕ → Stag L) (i : ℕ)
      → (tag_fails L c rule otag ts stag i ≡ false) ↔ TagsMatch otag ts stag i
  unfolding tag_fails
  tag_fails-TagsMatch otag [] stag i = (λ e k t ne. elim (none-some ne) [ ], λ m. refl)
  tag_fails-TagsMatch otag (t ∷ ts) stag i =
      let (to, from) =
        missed (bs_match_attr L otag t (stag i)) (tag_fails L c rule otag ts stag (i + 1)) in
      let (ih, ih') = tag_fails-TagsMatch otag ts stag (i + 1) in
      (
        λ e. TagsMatch_cons otag ts t stag i (to e).0 (ih (to e).1),
        λ m. from (
          subst (λ j. bs_match_attr L otag t (stag j) ≢ minus_one) (omega arith) (m 0 t refl),
          ih' (TagsMatch_tail otag ts t stag i m),
        ),
      )

  refusal_codes : (o r : ℕ) (env : Env S) → Bounded (refusal L c rule o r env)
  unfolding refusal
  refusal_codes o r env = bounded _ 0 _ (omega arith) (
      bounded _ 1 _ (omega arith) (
        bounded _ 2 _ (omega arith) (
          bounded _ 3 _ (omega arith)
            (bounded _ 4 _ (omega arith) (bounded _ 5 _ (omega arith) none-Bounded)))))

  pub refusal-Applies :
      (o r : ℕ) (env : Env S) → (refusal L c rule o r env ≡ none) ↔ Applies o r env
  unfolding refusal
  refusal-Applies o r env = (
    λ e0.
        let (p1, e1) = (none_left _ _ _).0 e0 in
        let (p2, e2) = (none_left _ _ _).0 e1 in
        let (p3, e3) = (none_left _ _ _).0 e2 in
        let (p4, e4) = (none_left _ _ _).0 e3 in
        let (p5, e5) = (none_left _ _ _).0 e4 in
        let (p6, e6) = (none_left _ _ _).0 e5 in
        record {
          on_page = (three _ _ _ _).0 p1;
          not_open = (four _ _ _ _).0 p2;
          not_closed = (five _ _ _ _ _).0 p3;
          tags = (tag_fails-TagsMatch _ _ _ _).0 p4;
          visible = (zero_test _).0 p5;
          not_executed = (two _ _).0 p6;
        },
    λ m. (none_left _ _ _).1 (
      (three _ _ _ _).1 m.on_page,
      (none_left _ _ _).1 (
        (four _ _ _ _).1 m.not_open,
        (none_left _ _ _).1 (
          (five _ _ _ _ _).1 m.not_closed,
          (none_left _ _ _).1 (
            (tag_fails-TagsMatch _ _ _ _).1 m.tags,
            (none_left _ _ _).1
                ((zero_test _).1 m.visible, (none_left _ _ _).1 ((two _ _).1 m.not_executed, refl)),
          ),
        ),
      ),
    ),
  )

  -- There are threads, and the rule runs in them.
  abbrev pub UsesThreads : ℕ → Env S → Type 0
  UsesThreads r env = (0 < c.nthreads) × (sm_is_flag_set r threaded env ≡ true)

  -- The main thread's call counter, an unsigned int, goes up by 1.
  abbrev pub counted_call : Env S → Env S
  counted_call env = record env {
    call_cnt =
        λ th. if th == c.nthreads then (env.call_cnt c.nthreads + 1) % 2 ^ 32 else env.call_cnt th;
  }

  -- The return value and the state of a call stand in the result of apply_rule(), which is 0, and the
  -- flag EXEC is set in that state.
  pub record IsResult (r : ℕ) (called : ℤ × Env S) (a : Applied L c rule) : Type 0 where
    pub code_0 : a.code ≡ 0
    pub ret_is : a.ret ≡ called.0
    pub env_is : a.env ≡ sm_set_flag r exec called.1
    pub exec_set : sm_is_flag_set r exec a.env ≡ true

  -- The one call of apply_rule(), of the queue or of the rule's function
  pub data Called (main o r : ℕ) (env : Env S) (a : Applied L c rule) : Type 0 where
    queued : UsesThreads r env → IsResult r (c.obj_queue o env) a → Called main o r env a
    direct :
        ¬ UsesThreads r env
        → IsResult r (c.call_main main r o (counted_call env)) a
        → Called main o r env a

  called-IsResult :
      (r : ℕ) (called : ℤ × Env S)
      → IsResult r called (record { code = 0; ret = called.0; env = sm_set_flag r exec called.1 })
  unfolding sm_is_flag_set sm_set_flag is_set put_bit
  called-IsResult r called = record {
    code_0 = refl;
    ret_is = refl;
    env_is = refl;
    exec_set = rw (==_refl r) refl;
  }

  -- Whether a rule runs in the threads, as the code tests it
  pub uses_threads :
      (r : ℕ) (env : Env S)
      → (UsesThreads r env × ((ltb 0 c.nthreads && sm_is_flag_set r threaded env) ≡ true))
        ⊎ ((¬ UsesThreads r env) × ((ltb 0 c.nthreads && sm_is_flag_set r threaded env) ≡ false))
  uses_threads r env = elim (Bool-cases (ltb 0 c.nthreads && sm_is_flag_set r threaded env)) [
    | inl on ↦
        let (some_threads, flag) =
          and_split (ltb 0 c.nthreads) (sm_is_flag_set r threaded env) on in
        inl ((ltb→lt _ _ some_threads, flag), on)
    | inr off ↦ inr (
      λ (some_threads, flag). true-false (sym (and_both _ _ (lt→ltb _ _ some_threads) flag) ∙ off),
      off,
    )
  ]

  call-queued :
      (main o r : ℕ) (env : Env S)
      → UsesThreads r env
      → call L c rule main o r env ≡ c.obj_queue o env
  unfolding call
  call-queued main o r env (some_threads, flag) = rw (lt→ltb _ _ some_threads, flag) refl

  call-direct :
      (main o r : ℕ) (env : Env S)
      → (ltb 0 c.nthreads && sm_is_flag_set r threaded env) ≡ false
      → call L c rule main o r env ≡ c.call_main main r o (counted_call env)
  unfolding call
  call-direct main o r env off = rw off refl

  unless-Called :
      (main o r : ℕ) (ret : ℤ) (env : Env S)
      → Called main o r env (apply_unless L c rule none main o r ret env)
  unfolding apply_unless
  unless-Called main o r ret env =
      let a = apply_unless L c rule none main o r ret env in
      let result = called-IsResult r (call L c rule main o r env) in
      elim (uses_threads r env) [
        | inl (is, on) ↦
            Called.queued is (subst (λ q. IsResult r q a) (call-queued main o r env is) result)
        | inr (is, off) ↦
            Called.direct is (subst (λ q. IsResult r q a) (call-direct main o r env off) result)
      ]

  -- apply_rule() of an object that the rule applies to passes the object to the threads' queue if there
  -- are threads and the rule has the flag THREADED, and calls the rule's function `main` with the
  -- object, behind the step of the call counter, otherwise. It stores what that call returns, sets the
  -- flag EXEC in the state the call leaves, and returns 0.
  pub apply_rule-Applies :
      (main o r : ℕ) (ret : ℤ) (env : Env S)
      → Applies o r env
      → Called main o r env (apply_rule L c rule main o r ret env)
  unfolding apply_rule
  apply_rule-Applies main o r ret env m =
      subst (λ why. Called main o r env (apply_unless L c rule why main o r ret env))
        (sym ((refusal-Applies o r env).1 m)) (unless-Called main o r ret env)

  -- apply_rule() of an object that the rule does not apply to returns one of the codes 0 to 5 and
  -- leaves `*ret` and the state as they are.
  pub apply_rule-not_Applies :
      (main o r : ℕ) (ret : ℤ) (env : Env S)
      → ¬ Applies o r env
      → (code : ℕ) × ((code ≤ 5)
          × (apply_rule L c rule main o r ret env ≡ record { code = code; ret = ret; env = env }))
  unfolding apply_rule apply_unless
  apply_rule-not_Applies main o r ret env m = elim (Option-cases (refusal L c rule o r env)) [
    | inl e ↦ elim (m ((refusal-Applies o r env).0 e)) [ ]
    | inr (code, e) ↦ (
      code,
      (refusal_codes o r env code e, ap (λ why. apply_unless L c rule why main o r ret env) e),
    )
  ]
