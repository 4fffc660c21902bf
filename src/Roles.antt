-- ===== src/Roles.antt =====
-- The roles of the members of relations, libsmrender/osm_func.c: a cyclic list of strings, which are
-- numbered in their order.
pub mod Search
pub mod Names
pub mod Appended
pub mod Numbered
use smrender.Base.{
  ℕ, zero, suc, ◌+◌, Bool, not, Option, none, some, [], ◌∷◌, ◌==◌, if◌then◌else◌, update, nonzero,
}
use smrender.Bstring.{Bytes, bs_cmp}
use smrender.CyclicList.{Memory, Malloc, and_then, li_add, li_next, li_last}

-- The list, and the C strings at their addresses
pub record RoleTable : Type 0 where
  pub list : Memory
  pub texts : ℕ → Bytes

-- The loop over the list from `elem` on, on fuel: the number and the element of the first one that
-- passes the test, or the number behind the last one. `root` is role_root_.
unfoldable pub role_loop : ℕ → (ℕ → ℕ → Bool) → ℕ → ℕ → ℕ → Memory → Option (ℕ × Option ℕ)
role_loop zero test root i elem m = none
role_loop (suc fuel) test root i elem m =
    let rest = role_loop fuel test root (i + 1) (m.next elem) m in
    if elem == root
    then some (i, none)
    else if m.live elem
    then if test i (m.data_of elem) then some (i, some elem) else rest
    else none

-- for (i = ROLE_FIRST_FREE_NUM, elem = li_first(role_root_); ...)
unfoldable pub find_role : ℕ → (ℕ → ℕ → Bool) → ℕ → Memory → Option (ℕ × Option ℕ)
find_role fuel test root m = and_then (li_next root m) (λ elem. role_loop fuel test root 2 elem m)

-- "n/a"
abbrev pub not_available : Bytes
not_available = 110 ∷ 47 ∷ 97 ∷ []

unfoldable pub found_text : RoleTable → ℕ × Option ℕ → Bytes
found_text t (i, none) = not_available
found_text t (i, some elem) = t.texts (t.list.data_of elem)

-- role_str: ROLE_NA is 0 and ROLE_EMPTY is 1.
unfoldable pub role_str : ℕ → ℕ → RoleTable → ℕ → Option Bytes
role_str fuel root t role =
    if role == 0
    then some not_available
    else if role == 1
    then some []
    else and_then (find_role fuel (λ i pointer. i == role) root t.list) (λ r. some (found_text t r))

-- strrole behind bs_strdup(), which has returned `s`
unfoldable pub add_role : Malloc → ℕ → RoleTable → Bytes → ℕ → Option ℕ → Option (ℕ × RoleTable)
add_role malloc root t b i none = some (0, t)
add_role malloc root t b i (some s) = and_then (li_last root t.list) (λ last.
    and_then (li_add malloc last s t.list)
      (λ r. some (i, record { list = r.1; texts = update t.texts s b })))

-- strrole behind its loop
unfoldable pub role_or_new :
    Malloc → Option ℕ → ℕ → RoleTable → Bytes → ℕ × Option ℕ → Option (ℕ × RoleTable)
role_or_new malloc dup root t b (i, some elem) = some (i, t)
role_or_new malloc dup root t b (i, none) = add_role malloc root t b i dup

-- strrole; `dup` is what bs_strdup() returns, and none as the string is the NULL pointer.
unfoldable pub strrole :
    ℕ → Malloc → Option ℕ → ℕ → RoleTable → Option Bytes → Option (ℕ × RoleTable)
strrole fuel malloc dup root t none = some (0, t)
strrole fuel malloc dup root t (some []) = some (1, t)
strrole fuel malloc dup root t (some (c ∷ b)) =
    and_then
      (find_role fuel (λ i pointer. not (nonzero (bs_cmp (c ∷ b) (t.texts pointer)))) root t.list)
      (role_or_new malloc dup root t (c ∷ b))
