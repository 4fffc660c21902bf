-- ===== src/ObjTree/Laws.antt =====
-- A lookup in the object tree after each operation on it.
use smrender.Base.{
  ℕ, zero, suc, ◌<◌, ◌≡◌, refl, sym, ap, ◌∙◌, inl, inr, Bool, true, false, ◌&&◌, Option, none, some,
  arith, ltb, ◌==◌, if◌then◌else◌, ltb→lt, lt→ltb, ==_iff, ==_refl, Bool-cases, is_some, ℤ, pos,
  negsuc, minus_one,
}
use smrender.Bxtree.{
  Tree, Stats, depth, word, fan_out, bx_add_node0, bx_add_node1, bx_get_node1, bx_get_node0,
  store_leaf,
}
use smrender.Bxtree.Keys.{same_path, same_path_refl, same_path_eq}
use smrender.Bxtree.Lookup.{ensured, assigned, get-add, get-store}
use smrender.ObjTree.{
  get_object, rem_object, rem_found, slot_index, slot, put_at, put_index, get_index,
  put_object0_ctrl, put_object0, get_object0,
}

same_path-== : (h k : ℕ) → h < word → k < word → same_path depth h k 0 ≡ (k == h)
same_path-== h k p q = elim (Bool-cases (k == h)) [
  | inl e ↦ rw ((==_iff k h).0 e, ==_refl) (same_path_refl depth h 0)
  | inr e ↦ rw e (elim (Bool-cases (same_path depth h k 0)) [
    | inl s ↦ absurd (ground (arith, same_path_eq h k p q s))
    | inr s ↦ s
  ])
]

module _ {ℓ} (A : Type ℓ) where
  slot-assigned :
      (t : Tree A zero) (i j : ℕ) (p : Option A)
      → slot A (assigned A i p (ensured A t)) j ≡ (if j == i then p else slot A t j)
  slot-assigned none i j p = ground arith
  slot-assigned (some n) i j p = refl

  slot-ensured : (t : Tree A zero) (j : ℕ) → slot A (ensured A t) j ≡ slot A t j
  slot-ensured none j = refl
  slot-ensured (some n) j = refl

  -- A store into an added leaf, as a lookup sees it.
  slot-store_leaf :
      (left : ℕ) (tree : Tree A left) (stats : Stats) (id k d i j : ℕ) (p : Option A)
      → let added = (bx_add_node1 A left tree id d stats).0 in
        slot A (bx_get_node1 A left (store_leaf A left added id d i p) k d) j
        ≡ (if same_path left id k d && j == i then p else slot A (bx_get_node1 A left tree k d) j)
  slot-store_leaf left tree stats id k d i j p =
      rw (get-store A left, get-add A left)
        (elim (Bool-cases (same_path left id k d)) [
          | inl e ↦ rw e (slot-assigned _ i j p)
          | inr e ↦ rw e
        ])

  slot-add :
      (left : ℕ) (tree : Tree A left) (stats : Stats) (id k d j : ℕ)
      → slot A (bx_get_node1 A left (bx_add_node1 A left tree id d stats).0 k d) j
        ≡ slot A (bx_get_node1 A left tree k d) j
  slot-add left tree stats id k d j =
      rw (get-add A left) (elim (Bool-cases (same_path left id k d)) [
        | inl e ↦ rw e (slot-ensured (bx_get_node1 A left tree k d) j)
        | inr e ↦ rw e
      ])

  slot-put :
      (tree : Tree A depth) (stats : Stats) (id k i j : ℕ) (p : Option A)
      → id < word
      → k < word
      → slot A (bx_get_node0 A (store_leaf A depth (bx_add_node0 A tree id stats).0 id 0 i p) k) j
        ≡ (if k == id && j == i then p else slot A (bx_get_node0 A tree k) j)
  unfolding bx_get_node0 bx_add_node0
  slot-put tree stats id k i j p hid hk =
      rw (← same_path-== id k hid hk) (slot-store_leaf depth tree stats id k 0 i j p)

  slot-put_none :
      (tree : Tree A depth) (stats : Stats) (id k j : ℕ)
      → slot A (bx_get_node0 A (bx_add_node0 A tree id stats).0 k) j
        ≡ slot A (bx_get_node0 A tree k) j
  unfolding bx_get_node0 bx_add_node0
  slot-put_none tree stats id k j = slot-add depth tree stats id k 0 j

  slot_index-lt : (i : ℕ) → i < fan_out → slot_index (pos i) ≡ some i
  slot_index-lt i h = rw (lt→ltb i fan_out h)

  put_object0_ctrl-lt :
      (b : Bool) (tree : Tree A depth) (stats : Stats) (id i : ℕ) (p : Option A)
      (c : Option (Option A))
      → i < fan_out
      → put_object0_ctrl A b tree stats id p (pos i) c
        ≡ put_at A b (bx_add_node0 A tree id stats) id p i c
  unfolding put_object0_ctrl
  put_object0_ctrl-lt b tree stats id i p c h =
      ap (λ o. put_index A o b tree stats id p c) (slot_index-lt i h) ∙ unfold put_index in refl

  pub get_object0-lt :
      (tree : Tree A depth) (k j : ℕ)
      → j < fan_out
      → get_object0 A tree k (pos j) ≡ slot A (bx_get_node0 A tree k) j
  unfolding get_object0
  get_object0-lt tree k j h =
      ap (λ o. get_index A o tree k) (slot_index-lt j h) ∙ unfold get_index in refl

  get_object0-ge :
      (tree : Tree A depth) (k j : ℕ) → ltb j fan_out ≡ false → get_object0 A tree k (pos j) ≡ none
  unfolding get_object0 get_index
  get_object0-ge tree k j h = rw h

  get_object0_neg : (tree : Tree A depth) (k n : ℕ) → get_object0 A tree k (negsuc n) ≡ none
  unfolding get_object0 get_index
  get_object0_neg tree k n = refl

  -- Lookups agree where the slots do.
  get_object0-congr :
      (t u : Tree A depth) (k : ℕ)
      → ((j : ℕ) → slot A (bx_get_node0 A t k) j ≡ slot A (bx_get_node0 A u k) j)
      → (jdx : ℤ) → get_object0 A t k jdx ≡ get_object0 A u k jdx
  get_object0-congr t u k same (negsuc n) = get_object0_neg t k n ∙ sym (get_object0_neg u k n)
  get_object0-congr t u k same (pos j) = elim (Bool-cases (ltb j fan_out)) [
    | inl e ↦
        get_object0-lt t k j (ltb→lt j fan_out e)
        ∙ same j
        ∙ sym (get_object0-lt u k j (ltb→lt j fan_out e))
    | inr e ↦ get_object0-ge t k j e ∙ sym (get_object0-ge u k j e)
  ]

  put_at_null :
      (b : Bool) (r : Tree A depth × Stats) (id i : ℕ) (p : Option A)
      → put_at A b r id p i none ≡ record {
        result = pos 0;
        tree = store_leaf A depth r.0 id 0 i p;
        stats = r.1;
        ctrl = none;
      }
  unfolding put_at
  put_at_null b r id i p = rw (open_gate (is_some (slot A (bx_get_node0 A r.0 id) i)) (is_some p) b)
    where
      open_gate : (x y z : Bool) → (x && y && z && false) ≡ false
      open_gate x y z = ground arith

  stored :
      (tree : Tree A depth) (stats : Stats) (id k i j : ℕ) (p : Option A)
      → id < word
      → k < word
      → i < fan_out
      → get_object0 A (store_leaf A depth (bx_add_node0 A tree id stats).0 id 0 i p) k (pos j)
        ≡ (if k == id && j == i then p else get_object0 A tree k (pos j))
  stored tree stats id k i j p hid hk hi = elim (Bool-cases (ltb j fan_out)) [
    | inl e ↦
        let lt : j < fan_out = ltb→lt j fan_out e in
        rw (get_object0-lt tree k j lt)
          (get_object0-lt _ k j lt ∙ slot-put tree stats id k i j p hid hk)
    | inr e ↦
        let ne : (k == id && j == i) ≡ false = ground arith in
        rw (ne, get_object0-ge tree k j e) (get_object0-ge _ k j e)
  ]

  -- `put_object0` at an index in range returns 0. A lookup then finds the stored pointer under
  -- that id and index, and elsewhere what it found before. Ids are 64 bits wide.
  pub get_object0-put_object0 :
      (is_obj_tree : Bool) (tree : Tree A depth) (stats : Stats) (id k i j : ℕ) (p : Option A)
      → id < word
      → k < word
      → i < fan_out
      → let r = put_object0 A is_obj_tree tree stats id p (pos i) in
        (r.result ≡ pos 0)
        × (get_object0 A r.tree k (pos j)
            ≡ (if k == id && j == i then p else get_object0 A tree k (pos j)))
  unfolding put_object0
  get_object0-put_object0 is_obj_tree tree stats id k i j p hid hk hi =
      rw (put_object0_ctrl-lt is_obj_tree tree stats id i p none hi, put_at_null)
        (refl, stored tree stats id k i j p hid hk hi)

  -- With `*ctrl` set, `put_object0_ctrl` on the static tree does not overwrite: it returns -1,
  -- hands the old object out, and every lookup is as before.
  put_object0_ctrl_keeps :
      (tree : Tree A depth) (stats : Stats) (id i : ℕ) (p c old : A)
      → i < fan_out
      → get_object0 A tree id (pos i) ≡ some old
      → let r = put_object0_ctrl A true tree stats id (some p) (pos i) (some (some c)) in
        (r.result ≡ minus_one)
        × (r.ctrl ≡ some (some old))
        × ((k : ℕ) (jdx : ℤ) → get_object0 A r.tree k jdx ≡ get_object0 A tree k jdx)
  unfolding put_at
  put_object0_ctrl_keeps tree stats id i p c old hi e =
      let there : slot A (bx_get_node0 A (bx_add_node0 A tree id stats).0 id) i ≡ some old =
        slot-put_none tree stats id id i ∙ sym (get_object0-lt tree id i hi) ∙ e in
      rw (put_object0_ctrl-lt true tree stats id i (some p) (some (some c)) hi, there)
        (refl, refl, λ k jdx. get_object0-congr _ tree k (slot-put_none tree stats id k) jdx)

  rem_found_lem :
      (tree : Tree A depth) (stats : Stats) (type id type' k : ℕ) (o : Option A)
      → type < fan_out
      → id < word
      → k < word
      → get_object A tree (suc type) id ≡ o
      → let r = rem_found A o tree stats (suc type) id in
        (r.0 ≡ o)
        × (get_object A r.1 (suc type') k
            ≡ (if k == id && type' == type then none else get_object A tree (suc type') k))
  unfolding rem_found get_object
  rem_found_lem tree stats type id type' k none ht hid hk e = (
    refl,
    elim (Bool-cases (k == id && type' == type)) [
      | inl same ↦
          let hk' : k ≡ id = ground arith in
          let ht' : type' ≡ type = ground arith in rw same (rw (hk', ht') e)
      | inr other ↦ rw other
    ],
  )
  rem_found_lem tree stats type id type' k (some o) ht hid hk e =
      (refl, (get_object0-put_object0 true tree stats id k type type' none hid hk ht).1)

  -- `rem_object` returns what `get_object` finds; afterwards the object is gone and every other
  -- one is found as before. Types are 1 to 16, ids 64 bits wide.
  pub rem_object-get_object :
      (tree : Tree A depth) (stats : Stats) (type id type' k : ℕ)
      → type < fan_out
      → id < word
      → k < word
      → let r = rem_object A tree stats (suc type) id in
        (r.0 ≡ get_object A tree (suc type) id)
        × (get_object A r.1 (suc type') k
            ≡ (if k == id && type' == type then none else get_object A tree (suc type') k))
  unfolding rem_object
  rem_object-get_object tree stats type id type' k ht hid hk =
      rem_found_lem tree stats type id type' k (get_object A tree (suc type) id) ht hid hk refl
