-- ===== src/Roles/Appended.antt =====
-- A string at the end of the list.
use smrender.Base.{
  ℕ, zero, suc, ◌≤◌, ◌<◌, ◌≡◌, refl, sym, ap, ◌∙◌, ◌≢◌, ◌⊎◌, inl, inr, some, List, [], ◌∷◌, ◌++◌,
  arith, update, length, get_or, subst, update-same, update-other,
}
use mathlib.Core.List.{append_assoc}
use smrender.Bstring.{Bytes}
use smrender.CyclicList.{Memory, Malloc, li_add}
use smrender.CyclicList.Chains.{count, count-cons, count-here, last_of, IsChain-prev}
use smrender.CyclicList.Rings.{IsRing}
use smrender.CyclicList.Inserted.{GivesNew, IsInserted, li_add-root, li_add-IsRing}
use smrender.Roles.Names.{names}

-- A list is empty or has a last element.
last_split : (xs : List ℕ) → (xs ≡ []) ⊎ ((ys : List ℕ) × (x : ℕ) × (xs ≡ ys ++ x ∷ []))
last_split [] = inl refl
last_split (x ∷ xs) = elim (last_split xs) [
  | inl e ↦ inr ([], x, ap (λ l. x ∷ l) e)
  | inr (ys, y, e) ↦ inr (x ∷ ys, y, ap (λ l. x ∷ l) e)
]

last_of-append : (a x : ℕ) (ys : List ℕ) → last_of a (ys ++ x ∷ []) ≡ x
last_of-append a x [] = refl
last_of-append a x (y ∷ ys) = last_of-append y x ys

-- li_add(li_last(root), p) appends an element.
Appends : Malloc → Memory → ℕ → ℕ → ℕ → List ℕ → Type 0
Appends malloc m root li p xs =
    IsRing m root xs
    → (m' : Memory) × (li_add malloc (m.prev root) p m ≡ some (li, m'))
      × (IsRing m' root (xs ++ li ∷ []) × IsInserted li p m m')

li_add-Appends :
    (malloc : Malloc) (m : Memory) (root li p : ℕ) (xs : List ℕ)
    → GivesNew malloc
    → malloc m ≡ some li
    → Appends malloc m root li p xs
unfolding Appends
li_add-Appends malloc m root li p xs gives e = elim (last_split xs) [
  | inl eq ↦ subst (Appends malloc m root li p) (sym eq) (λ r.
      let (m', run, ins) = li_add-root malloc m root li p [] gives e r in
      let prev = IsChain-prev m.next m.prev root root [] r.chain in (m', rw prev run, ins))
  | inr (ys, x, eq) ↦ subst (Appends malloc m root li p) (sym eq) (λ r.
      let (m', run, (ring, ins)) = li_add-IsRing malloc m root x li p ys [] gives e r in
      let prev =
        IsChain-prev m.next m.prev root root (ys ++ x ∷ []) r.chain ∙ last_of-append root x ys in
      (m', rw prev run, (rw (append_assoc ys (x ∷ []) (li ∷ [])) ring, ins)))
]

pub li_add-last :
    (malloc : Malloc) (m : Memory) (root li p : ℕ) (xs : List ℕ)
    → GivesNew malloc
    → malloc m ≡ some li
    → IsRing m root xs
    → (m' : Memory) × (li_add malloc (m.prev root) p m ≡ some (li, m'))
      × (IsRing m' root (xs ++ li ∷ []) × IsInserted li p m m')
unfolding Appends
li_add-last malloc m root li p xs gives e = li_add-Appends malloc m root li p xs gives e

-- The strings of elements that have the same pointers, where no pointer is `s`
pub names-update :
    (m m' : Memory) (texts : ℕ → Bytes) (li s : ℕ) (b : Bytes) (xs : List ℕ)
    → IsInserted li s m m'
    → ((a : ℕ) → 1 ≤ count a xs → (a ≢ li) × (m.data_of a ≢ s))
    → names (record { list = m'; texts = update texts s b }) (xs ++ li ∷ [])
      ≡ names (record { list = m; texts = texts }) xs ++ b ∷ []
names-update m m' texts li s b [] ins other = rw (ins.data_new, update-same texts s b) refl
names-update m m' texts li s b (x ∷ xs) ins other =
    let (ne, nd) = other x (omega (arith, count-here x xs)) in
    rw (ins.data_kept x ne, update-other texts s (m.data_of x) b nd)
      (ap (λ l. texts (m.data_of x) ∷ l)
        (names-update m m' texts li s b xs ins
          (λ a h. other a (omega (arith, h, count-cons a x xs)))))

pub get_or-append :
    (l : List Bytes) (b d : Bytes) (k : ℕ) → k < length l → get_or (l ++ b ∷ []) k d ≡ get_or l k d
get_or-append [] b d k h = absurd (omega arith)
get_or-append (x ∷ l) b d zero h = refl
get_or-append (x ∷ l) b d (suc k) h = get_or-append l b d k (omega arith)

pub get_or-append_end : (l : List Bytes) (b d : Bytes) → get_or (l ++ b ∷ []) (length l) d ≡ b
get_or-append_end [] b d = refl
get_or-append_end (x ∷ l) b d = get_or-append_end l b d
