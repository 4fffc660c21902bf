-- ===== src/Roles/Numbered.antt =====
-- strrole and role_str undo each other, and numbers keep their strings.
use smrender.Base.{
  ℕ, zero, suc, ◌+◌, ◌-◌, ◌≤◌, ◌<◌, ◌≡◌, refl, sym, ap, ◌∙◌, ◌≢◌, inl, inr, true, not, some, List,
  [], ◌∷◌, ◌++◌, arith, ltb, ◌==◌, if◌then◌else◌, ==_iff, Bool-cases, update, length, get_or,
  length-append, nonzero, length-map, true-false, update-same, update-other,
}
use smrender.Bstring.{Bytes, bs_cmp}
use smrender.Bstring.Compare.{IsText}
use smrender.CyclicList.{Memory, Malloc, li_last}
use smrender.CyclicList.Chains.{count, count-cons, count-nil, count-here, count-append}
use smrender.CyclicList.Rings.{IsRing}
use smrender.CyclicList.Inserted.{GivesNew, IsInserted}
use smrender.Roles.{RoleTable, not_available, role_str, add_role, role_or_new, strrole}
use smrender.Roles.Search.{find_role-search}
use smrender.Roles.Names.{names, IsRoles, role_str-names, search-text}
use smrender.Roles.Appended.{names-update, get_or-append, get_or-append_end, li_add-last}

-- What strrole promises of the number and the table that it returns.
pub record IsNumbered (fuel root : ℕ) (xs : List ℕ) (t : RoleTable) (b : Bytes) (q : ℕ × RoleTable)
    : Type 0 where
  pub elements : List ℕ
  pub roles : IsRoles root elements q.1
  pub reads : role_str fuel root q.1 q.0 ≡ some b
  pub keeps : (k : ℕ) → k < length xs + 2 → role_str fuel root q.1 k ≡ role_str fuel root t k

role_str-low :
    (fuel root k : ℕ) (t t' : RoleTable) → k < 2 → role_str fuel root t' k ≡ role_str fuel root t k
unfolding role_str
role_str-low fuel root zero t t' h = refl
role_str-low fuel root (suc zero) t t' h = refl
role_str-low fuel root (suc (suc k)) t t' h = absurd (omega arith)

found-IsNumbered :
    (fuel root j : ℕ) (xs : List ℕ) (t : RoleTable) (b : Bytes)
    → IsRoles root xs t
    → length xs < fuel
    → get_or (names t xs) j not_available ≡ b
    → IsNumbered fuel root xs t b (2 + j, t)
found-IsNumbered fuel root j xs t b r enough at = record {
  elements = xs;
  roles = r;
  reads =
      let swap : 2 + j ≡ j + 2 = omega arith in
      rw (swap, role_str-names fuel root j t xs r.ring enough) (ap some at);
  keeps = λ k h. refl;
}

-- The table with a new string
added-IsRoles :
    (root li s : ℕ) (xs : List ℕ) (t : RoleTable) (m' : Memory) (b : Bytes)
    → IsRoles root xs t
    → IsText b
    → IsRing m' root (xs ++ li ∷ [])
    → IsInserted li s t.list m'
    → ((a : ℕ) → 1 ≤ count a xs → (a ≢ li) × (t.list.data_of a ≢ s))
    → IsRoles root (xs ++ li ∷ []) (record { list = m'; texts = update t.texts s b })
added-IsRoles root li s xs t m' b r text ring ins other = record {
  ring = ring;
  is_text = λ a h. elim (Bool-cases (a == li)) [
    | inl e ↦
        let same : a ≡ li = (==_iff a li).0 e in
        rw (same, ins.data_new, update-same t.texts s b) text
    | inr e ↦
        let ne : a ≢ li = λ eq. ground arith in
        let inside : 1 ≤ count a xs = omega (
          arith,
          h,
          count-append a xs (li ∷ []),
          count-cons a li [],
          count-nil a,
          ap {B = ℕ} (λ t. if t then 1 else 0) e,
        ) in
        let (nl, nd) = other a inside in
        rw (ins.data_kept a ne, update-other t.texts s (t.list.data_of a) b nd) (r.is_text a inside)
  ];
}

added-IsNumbered :
    (fuel root li s : ℕ) (xs : List ℕ) (t : RoleTable) (m' : Memory) (b : Bytes)
    → IsRoles root xs t
    → IsText b
    → length xs + 1 < fuel
    → IsRing m' root (xs ++ li ∷ [])
    → IsInserted li s t.list m'
    → ((a : ℕ) → 1 ≤ count a xs → (a ≢ li) × (t.list.data_of a ≢ s))
    → IsNumbered fuel root xs t b (2 + length xs, record { list = m'; texts = update t.texts s b })
added-IsNumbered fuel root li s xs t m' b r text enough ring ins other =
    let t' : RoleTable = record { list = m'; texts = update t.texts s b } in
    let strings = names-update t.list m' t.texts li s b xs ins other in
    let longer = length-append xs (li ∷ []) in
    let size : length (names t xs) ≡ length xs = length-map xs _ in
    let swap : 2 + length xs ≡ length xs + 2 = omega arith in
    record {
      elements = xs ++ li ∷ [];
      roles = added-IsRoles root li s xs t m' b r text ring ins other;
      reads =
          rw
            (
              swap,
              role_str-names fuel root (length xs) t' (xs ++ li ∷ []) ring (omega arith),
              strings,
            )
            (rw (← size) (ap some (get_or-append_end (names t xs) b not_available)));
      keeps = λ k h. elim (Bool-cases (ltb k 2)) [
        | inl e ↦ role_str-low fuel root k t t' (ground arith)
        | inr e ↦
            let j = k - 2 in
            let up : k ≡ j + 2 = ground arith in
            rw
              (
                up,
                role_str-names fuel root j t' (xs ++ li ∷ []) ring (omega arith),
                role_str-names fuel root j t xs r.ring (omega arith),
                strings,
              )
              (ap some (get_or-append (names t xs) b not_available j (omega arith)))
      ];
    }

add_role-IsNumbered :
    (fuel root li s : ℕ) (malloc : Malloc) (xs : List ℕ) (t : RoleTable) (b : Bytes)
    → IsRoles root xs t
    → IsText b
    → length xs + 1 < fuel
    → GivesNew malloc
    → malloc t.list ≡ some li
    → ((a : ℕ) → 1 ≤ count a xs → t.list.data_of a ≢ s)
    → (q : ℕ × RoleTable) × (add_role malloc root t b (2 + length xs) (some s) ≡ some q)
      × IsNumbered fuel root xs t b q
unfolding add_role li_last
add_role-IsNumbered fuel root li s malloc xs t b r text enough gives e new =
    let own : (t.list.live root ≡ true) × (root ≢ 0) =
      r.ring.allocated root (omega (arith, count-here root xs)) in
    let (m', run, (ring, ins)) = li_add-last malloc t.list root li s xs gives e r.ring in
    let other : (a : ℕ) → 1 ≤ count a xs → (a ≢ li) × (t.list.data_of a ≢ s) = λ a h.
      let live : t.list.live a ≡ true =
        (r.ring.allocated a (omega (arith, h, count-cons a root xs))).0 in
      (λ same. true-false (sym live ∙ ap t.list.live same ∙ ins.fresh), new a h) in
    (
      (2 + length xs, record { list = m'; texts = update t.texts s b }),
      rw (own.0, run) refl,
      added-IsNumbered fuel root li s xs t m' b r text enough ring ins other,
    )

-- strrole of a text that is not empty returns a number that role_str turns back into the text, and
-- the other numbers in use keep their strings; the table is a list of texts as before. The condition
-- is that there is memory: malloc() gives a new element, and bs_strdup() a pointer that is not in the
-- list. The fuel is above the length of the list and one more.
pub role_str-strrole :
    (fuel root li s c : ℕ) (malloc : Malloc) (xs : List ℕ) (t : RoleTable) (b : Bytes)
    → IsRoles root xs t
    → IsText (c ∷ b)
    → length xs + 1 < fuel
    → GivesNew malloc
    → malloc t.list ≡ some li
    → ((a : ℕ) → 1 ≤ count a xs → t.list.data_of a ≢ s)
    → (q : ℕ × RoleTable) × (strrole fuel malloc (some s) root t (some (c ∷ b)) ≡ some q)
      × IsNumbered fuel root xs t (c ∷ b) q
unfolding strrole
role_str-strrole fuel root li s c malloc xs t b r text enough gives e new =
    let search_all =
      find_role-search fuel (λ i pointer. not (nonzero (bs_cmp (c ∷ b) (t.texts pointer)))) root
        t.list xs r.ring (omega arith) in
    elim (search-text t (c ∷ b) 2 xs text r.is_text) [
      | inl (j, x, found, at, bound) ↦ (
        (2 + j, t),
        rw (search_all, found) (unfold role_or_new in refl),
        found-IsNumbered fuel root j xs t (c ∷ b) r (omega arith) at,
      )
      | inr ended ↦
          let (q, run, is) =
            add_role-IsNumbered fuel root li s malloc xs t (c ∷ b) r text enough gives e new in
          (q, rw (search_all, ended) (unfold role_or_new in run), is)
    ]
