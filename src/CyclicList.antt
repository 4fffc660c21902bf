-- ===== src/CyclicList.antt =====
-- The cyclic lists of libsmrender/lists.c, on a memory of elements at addresses. Address 0 is NULL. A
-- function returns none if it reads or writes an element that is not allocated.
pub mod Chains
pub mod Rings
pub mod Inserted
pub mod Unlinked
pub mod Destroyed
use smrender.Base.{ℕ, zero, suc, Bool, true, false, Option, none, some, ◌==◌, if◌then◌else◌, update}

-- The fields of all elements, by their addresses, and the addresses that malloc() has given out and
-- free() has not taken back.
pub record Memory : Type 0 where
  pub next : ℕ → ℕ
  pub prev : ℕ → ℕ
  pub data_of : ℕ → ℕ
  pub live : ℕ → Bool

abbrev pub null : ℕ
null = 0

-- malloc(sizeof(list_t)): none if there is no memory.
abbrev pub Malloc : Type 0
Malloc = Memory → Option ℕ

-- list->next->prev = p, list->prev->next = p and the like: an element that is not allocated is an error.
unfoldable pub set_next : ℕ → ℕ → Memory → Option Memory
set_next a p m = if m.live a then some (record m { next = update m.next a p }) else none

unfoldable pub set_prev : ℕ → ℕ → Memory → Option Memory
set_prev a p m = if m.live a then some (record m { prev = update m.prev a p }) else none

abbrev pub and_then : {A B : Type 0} → Option A → (A → Option B) → Option B
and_then none f = none
and_then (some a) f = f a

-- The element that malloc() has given, with its fields.
unfoldable pub new_element : ℕ → ℕ → ℕ → ℕ → Memory → Memory
new_element li next prev p m = record {
  next = update m.next li next;
  prev = update m.prev li prev;
  data_of = update m.data_of li p;
  live = update m.live li true;
}

-- li_new behind malloc()
unfoldable pub new_list : Option ℕ → Memory → ℕ × Memory
new_list none m = (null, m)
new_list (some li) m = (li, new_element li li li null m)

-- li_new
unfoldable pub li_new : Malloc → Memory → ℕ × Memory
li_new malloc m = new_list (malloc m) m

-- li_add behind malloc()
unfoldable pub add_element : Option ℕ → ℕ → ℕ → Memory → Option (ℕ × Memory)
add_element none list p m = some (null, m)
add_element (some li) list p m =
    and_then (set_prev (m.next list) li (new_element li (m.next list) list p m))
      (λ m1. and_then (set_next list li m1) (λ m2. some (li, m2)))

-- li_add
unfoldable pub li_add : Malloc → ℕ → ℕ → Memory → Option (ℕ × Memory)
li_add malloc list p m =
    if list == null
    then some (null, m)
    else if m.live list
    then if m.next list == null then some (null, m) else add_element (malloc m) list p m
    else none

-- li_unlink
unfoldable pub li_unlink : ℕ → Memory → Option Memory
li_unlink list m =
    if m.live list
    then and_then (set_next (m.prev list) (m.next list) m)
        (λ m1. set_prev (m1.next list) (m1.prev list) m1)
    else none

-- The call of free_data in li_del().
abbrev pub free_one : {W : Type 0} → Option (ℕ → W → W) → ℕ → W → W
free_one none p w = w
free_one (some free_data) p w = if p == null then w else free_data p w

-- li_del
unfoldable pub li_del : {W : Type 0} → ℕ → Option (ℕ → W → W) → Memory → W → Option (Memory × W)
li_del li free_data m w =
    if m.live li
    then some (record m { live = update m.live li false }, free_one free_data (m.data_of li) w)
    else none

-- The loop of li_destroy(), on fuel; none, too, when the fuel is out.
unfoldable pub destroy_loop :
    {W : Type 0} → ℕ → ℕ → ℕ → Option (ℕ → W → W) → Memory → W → Option (Memory × W)
destroy_loop zero first li free_data m w = if li == first then some (m, w) else none
destroy_loop (suc fuel) first li free_data m w =
    let rest =
      and_then (li_del li free_data m w)
        (λ r. destroy_loop fuel first (m.next li) free_data r.0 r.1) in
    if li == first then some (m, w) else if m.live li then rest else none

-- li_destroy
unfoldable pub li_destroy :
    {W : Type 0} → ℕ → ℕ → Option (ℕ → W → W) → Memory → W → Option (Memory × W)
li_destroy fuel first free_data m w =
    if m.live first
    then and_then (destroy_loop fuel first (m.next first) free_data m w)
        (λ r. li_del first none r.0 r.1)
    else none

-- li_next, li_first
unfoldable pub li_next : ℕ → Memory → Option ℕ
li_next list m = if m.live list then some (m.next list) else none

-- li_last
unfoldable pub li_last : ℕ → Memory → Option ℕ
li_last list m = if m.live list then some (m.prev list) else none
