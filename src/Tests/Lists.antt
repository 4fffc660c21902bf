-- ===== src/Tests/Lists.antt =====
-- Lists at the addresses 1 to 3, of which 1 is the root.
use smrender.Base.{
  ℕ, ◌≡◌, refl, sym, ap, ◌∙◌, ◌≢◌, inl, inr, ◌||◌, none, some, List, [], ◌∷◌, arith, ◌==◌,
  if◌then◌else◌, Bool-cases, none-some, some_inj,
}
use smrender.Roles.{RoleTable, strrole}
use smrender.Roles.Names.{IsRoles}
use smrender.Roles.Numbered.{IsNumbered, role_str-strrole}
use smrender.CyclicList.{Memory, Malloc, li_add, li_unlink, li_destroy}
use smrender.CyclicList.Chains.{count}
use smrender.CyclicList.Rings.{IsRing}
use smrender.CyclicList.Inserted.{GivesNew, IsInserted, li_add-IsRing}
use smrender.CyclicList.Unlinked.{li_unlink-IsRing}
use smrender.CyclicList.Destroyed.{free_all, IsFreed, li_destroy-IsFreed}

-- The list of 2 and 3, with the data 20 and NULL.
abbrev two_elements : Memory
two_elements = record {
  next = λ a. if a == 1 then 2 else if a == 2 then 3 else 1;
  prev = λ a. if a == 1 then 3 else if a == 2 then 1 else 2;
  data_of = λ a. if a == 2 then 20 else 0;
  live = λ a. (a == 1) || ((a == 2) || (a == 3));
}

two_elements-IsRing : IsRing two_elements 1 (2 ∷ 3 ∷ [])
unfolding count
two_elements-IsRing = record {
  chain = ((refl, refl), ((refl, refl), (refl, refl)));
  distinct = λ a. ground arith;
  allocated = λ a h. (ground arith, ground arith);
}

-- malloc() with the addresses 4 and 5.
abbrev small_malloc : Malloc
small_malloc m = if m.live 4 then (if m.live 5 then none else some 5) else some 4

small_malloc-GivesNew : GivesNew small_malloc
small_malloc-GivesNew m li e = elim (Bool-cases (m.live 4)) [
  | inl a ↦ elim (Bool-cases (m.live 5)) [
    | inl b ↦ absurd (none-some (rw (a, b) at e))
    | inr b ↦
        let eq : 5 ≡ li = some_inj (rw (a, b) at e) in
        (sym (ap m.live eq) ∙ b, λ z. absurd (omega (arith, eq, z)))
  ]
  | inr a ↦
      let eq : 4 ≡ li = some_inj (rw a at e) in
      (sym (ap m.live eq) ∙ a, λ z. absurd (omega (arith, eq, z)))
]

li_add-IsRing_example :
    (m' : Memory) × (li_add small_malloc 2 50 two_elements ≡ some (4, m'))
    × (IsRing m' 1 (2 ∷ 4 ∷ 3 ∷ []) × IsInserted 4 50 two_elements m')
li_add-IsRing_example =
    li_add-IsRing small_malloc two_elements 1 2 4 50 [] (3 ∷ []) small_malloc-GivesNew refl
      two_elements-IsRing

li_unlink-IsRing_example :
    (m' : Memory) × (li_unlink 2 two_elements ≡ some m')
    × (IsRing m' 1 (3 ∷ []) × ((m'.data_of ≡ two_elements.data_of) × (m'.live ≡ two_elements.live)))
li_unlink-IsRing_example = li_unlink-IsRing two_elements 1 2 [] (3 ∷ []) two_elements-IsRing

-- free_data that notes the data.
abbrev note : ℕ → List ℕ → List ℕ
note p w = p ∷ w

li_destroy-IsFreed_example :
    (m' : Memory) × (li_destroy 2 1 (some note) two_elements []
      ≡ some (m', free_all (some note) two_elements.data_of (2 ∷ 3 ∷ []) []))
    × IsFreed (1 ∷ 2 ∷ 3 ∷ []) two_elements.live m'.live
li_destroy-IsFreed_example =
    li_destroy-IsFreed 2 1 (2 ∷ 3 ∷ []) (some note) two_elements [] (omega arith)
      two_elements-IsRing

-- The roles "a" and "b", with the numbers 2 and 3
abbrev two_roles : RoleTable
two_roles = record { list = two_elements; texts = λ p. if p == 20 then 97 ∷ [] else 98 ∷ [] }

two_roles-IsRoles : IsRoles 1 (2 ∷ 3 ∷ []) two_roles
two_roles-IsRoles = record {
  ring = two_elements-IsRing;
  is_text = λ a h. elim (Bool-cases (a == 2)) [
    | inl e ↦ rw e (omega arith, omega arith, tt)
    | inr e ↦ rw e (omega arith, omega arith, tt)
  ];
}

two_roles-pointers : (a : ℕ) → two_elements.data_of a ≢ 30
two_roles-pointers a e = ground arith

-- The new role "c", with the pointer 30 from bs_strdup()
role_str-strrole_example :
    (q : ℕ × RoleTable) × (strrole 4 small_malloc (some 30) 1 two_roles (some (99 ∷ [])) ≡ some q)
    × IsNumbered 4 1 (2 ∷ 3 ∷ []) two_roles (99 ∷ []) q
role_str-strrole_example =
    role_str-strrole 4 1 4 30 99 small_malloc (2 ∷ 3 ∷ []) two_roles [] two_roles-IsRoles
      (omega arith, omega arith, tt) (omega arith) small_malloc-GivesNew refl
      (λ a h. two_roles-pointers a)
