-- ===== src/Roles/Names.antt =====
-- The numbers of the roles and their strings.
use smrender.Base.{
  ℕ, suc, ◌+◌, ◌-◌, ◌≤◌, ◌<◌, ◌≡◌, refl, sym, ap, ◌∙◌, ◌⊎◌, inl, inr, false, not, none, some, List,
  [], ◌∷◌, map, arith, ◌==◌, Bool-cases, length, get_or, nonzero,
}
use smrender.Bstring.{Bytes, bs_cmp}
use smrender.Bstring.Compare.{IsText, bs_cmp_zero}
use smrender.CyclicList.Chains.{count, count-cons, count-here}
use smrender.CyclicList.Rings.{IsRing}
use smrender.Roles.{RoleTable, not_available, found_text, role_str}
use smrender.Roles.Search.{search, find_role-search}

-- The strings of the list, in its order
abbrev pub names : RoleTable → List ℕ → List Bytes
names t xs = map (λ a. t.texts (t.list.data_of a)) xs

-- The list and its strings
pub record IsRoles (root : ℕ) (xs : List ℕ) (t : RoleTable) : Type 0 where
  pub ring : IsRing t.list root xs
  pub is_text : (a : ℕ) → 1 ≤ count a xs → IsText (t.texts (t.list.data_of a))

search-number :
    (t : RoleTable) (role i : ℕ) (xs : List ℕ)
    → i ≤ role
    → found_text t (search (λ j pointer. j == role) t.list.data_of i xs)
      ≡ get_or (names t xs) (role - i) not_available
unfolding search found_text
search-number t role i [] h = refl
search-number t role i (x ∷ xs) h = elim (Bool-cases (i == role)) [
  | inl e ↦ let zero_left : role - i ≡ 0 = ground arith in rw (e, zero_left) refl
  | inr e ↦
      let next : role - i ≡ suc (role - (i + 1)) = ground arith in
      rw (e, next) (search-number t role (i + 1) xs (ground arith))
]

-- role_str gives the strings of the list from the number 2 on.
pub role_str-names :
    (fuel root k : ℕ) (t : RoleTable) (xs : List ℕ)
    → IsRing t.list root xs
    → length xs < fuel
    → role_str fuel root t (k + 2) ≡ some (get_or (names t xs) k not_available)
unfolding role_str
role_str-names fuel root k t xs r enough =
    let na : (k + 2 == 0) ≡ false = ground arith in
    let empty : (k + 2 == 1) ≡ false = ground arith in
    let back : k + 2 - 2 ≡ k = omega arith in
    rw (na, empty, find_role-search fuel (λ j pointer. j == k + 2) root t.list xs r enough)
      (ap some (
        search-number t (k + 2) 2 xs (omega arith)
        ∙ ap (λ n. get_or (names t xs) n not_available) back))

-- The search for a string
pub search-text :
    (t : RoleTable) (b : Bytes) (i : ℕ) (xs : List ℕ)
    → IsText b
    → ((a : ℕ) → 1 ≤ count a xs → IsText (t.texts (t.list.data_of a)))
    → ((j x : ℕ) × (search
            (λ n pointer. not (nonzero (bs_cmp b (t.texts pointer))))
            t.list.data_of
            i
            xs
          ≡ (i + j, some x))
        × (get_or (names t xs) j not_available ≡ b)
        × (j < length xs))
      ⊎ (search (λ n pointer. not (nonzero (bs_cmp b (t.texts pointer)))) t.list.data_of i xs
          ≡ (i + length xs, none))
unfolding search
search-text t b i [] text texts = inr (let same : i + 0 ≡ i = omega arith in rw same refl)
search-text t b i (x ∷ xs) text texts =
    let here = texts x (omega (arith, count-here x xs)) in
    elim (Bool-cases (nonzero (bs_cmp b (t.texts (t.list.data_of x))))) [
      | inl e ↦
          elim (search-text t b (i + 1) xs text
            (λ a h. texts a (omega (arith, h, count-cons a x xs)))) [
              | inl (j, y, found, at, bound) ↦
                  inl
                    (suc j, y, rw e (found ∙ ap (λ n. (n, some y)) (omega arith)), at, omega arith)
              | inr ended ↦ inr (rw e (ended ∙ ap (λ n. (n, none)) (omega arith)))
            ]
      | inr e ↦
          let same : b ≡ t.texts (t.list.data_of x) = (bs_cmp_zero b _ text here).0 e in
          inl (0, x, rw e (ap (λ n. (n, some x)) (omega arith)), sym same, omega arith)
    ]
