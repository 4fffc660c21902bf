-- ===== src/Rules/WayType.antt =====
-- check_way_type() of src/smrparse.c: whether a rule is for open or for closed ways.
use smrender.Base.{
  ℕ, ◌≡◌, refl, inl, inr, Bool, true, false, not, ◌||◌, Option, none, some, List, [], ◌∷◌, ◌==◌,
  if◌then◌else◌, ==_iff, ==_refl, Bool-cases, length, get_or,
}
use smrender.Match.{Libc}
use smrender.Rules.{
  Smrule, Env, Callees, osm_way, sm_set_flag, sm_is_flag_set, way_is_open, way_is_closed,
}
use smrender.Rules.Bits.{Flag, open_way, closed_way, is_set, put_bit}

or_false : (b : Bool) → b ≡ (b || false)
or_false true = refl
or_false false = refl

or_true : (b : Bool) → true ≡ (b || true)
or_true true = refl
or_true false = refl

-- The flag for the references of the rule's way; none if there are none.
unfoldable pub way_flag : List ℕ → Option Flag
way_flag [] = none
way_flag (x ∷ ref) = if x == get_or (x ∷ ref) (length ref) 0 then some closed_way else some open_way

module _ {S : Type 0} where
  unfoldable pub set_way_flag : Option Flag → ℕ → Env S → Env S
  set_way_flag none r env = env
  set_way_flag (some flag) r env = sm_set_flag r flag env

  module _ (L : Libc) (c : Callees S) (rule : ℕ → Smrule L) where
    unfoldable pub check_way_type : ℕ → Env S → Env S
    unfolding set_way_flag way_flag
    check_way_type r env =
        let oo = c.object (rule r).oo env.st in
        if not (oo.type == osm_way) then env else set_way_flag (way_flag oo.ref) r env

  set_way_flag-is_set :
      (ref : List ℕ) (r : ℕ) (env : Env S)
      → (sm_is_flag_set r closed_way (set_way_flag (way_flag ref) r env)
          ≡ (sm_is_flag_set r closed_way env || way_is_closed ref))
        × (sm_is_flag_set r open_way (set_way_flag (way_flag ref) r env)
            ≡ (sm_is_flag_set r open_way env || way_is_open ref))
  unfolding set_way_flag way_flag sm_is_flag_set sm_set_flag is_set put_bit way_is_open
      way_is_closed
  set_way_flag-is_set [] r env = (or_false _, or_false _)
  set_way_flag-is_set (x ∷ ref) r env = elim (Bool-cases (x == get_or (x ∷ ref) (length ref) 0)) [
    | inl e ↦ rw (e, ==_refl r) (or_true _, or_false _)
    | inr e ↦ rw (e, ==_refl r) (or_false _, or_true _)
  ]

  module _ (L : Libc) (c : Callees S) (rule : ℕ → Smrule L) where
    -- check_way_type() of a rule for ways sets its flag for closed ways if its own way is closed, and
    -- the flag for open ways if that one is open, in the sense in which apply_rule() tests the ways of
    -- the map; no flag is cleared, and none of the two is set if the way has no nodes.
    check_way_type-is_set :
        (r : ℕ) (env : Env S)
        → (c.object (rule r).oo env.st).type ≡ osm_way
        → (sm_is_flag_set r closed_way (check_way_type L c rule r env)
            ≡ (sm_is_flag_set r closed_way env || way_is_closed (c.object (rule r).oo env.st).ref))
          × (sm_is_flag_set r open_way (check_way_type L c rule r env)
              ≡ (sm_is_flag_set r open_way env || way_is_open (c.object (rule r).oo env.st).ref))
    unfolding check_way_type
    check_way_type-is_set r env e =
        rw ((==_iff _ _).1 e) (set_way_flag-is_set (c.object (rule r).oo env.st).ref r env)
