-- ===== src/Json/Escaped.antt =====
-- What bs_stresc writes.
use smrender.Base.{
  ℕ, suc, ◌-◌, ◌*◌, ◌≤◌, ◌<◌, ◌≡◌, refl, sym, ap, ◌∙◌, inl, inr, false, Option, none, some, [], ◌∷◌,
  ◌++◌, arith, ltb, ◌==◌, Bool-cases, Option-cases, length, take, length-append, none-some,
  some_inj,
}
use smrender.Bstring.{Bytes}
use smrender.Json.{strpos, esc_char, esc_loop}

-- All of the text, escaped
unfoldable pub escaped : Bytes → Bytes → Bytes → Bytes
escaped echars uchars [] = []
escaped echars uchars (c ∷ src) = esc_char uchars c (strpos echars c) ++ escaped echars uchars src

esc_char-length :
    (uchars : Bytes) (c : ℕ) (o : Option ℕ)
    → (0 < length (esc_char uchars c o)) × (length (esc_char uchars c o) ≤ 2)
unfolding esc_char
esc_char-length uchars c none = (omega arith, omega arith)
esc_char-length uchars c (some n) = (omega arith, omega arith)

-- With room for all of it the loop writes the escaped text.
pub esc_loop-escaped :
    (echars uchars src : Bytes) (room : ℕ)
    → length (escaped echars uchars src) ≤ room
    → esc_loop echars uchars room src ≡ some (escaped echars uchars src)
unfolding esc_loop escaped
esc_loop-escaped echars uchars [] room h = refl
esc_loop-escaped echars uchars (c ∷ src) room h =
    let out = esc_char uchars c (strpos echars c) in
    let (low, high) = esc_char-length uchars c (strpos echars c) in
    let size = length-append out (escaped echars uchars src) in
    let some_room : (room == 0) ≡ false = ground arith in
    let fits : ltb room (length out) ≡ false = ground arith in
    let ih = esc_loop-escaped echars uchars src (room - length out) (omega arith) in
    rw (some_room, fits, ih) refl

-- Two bytes for each character are enough.
pub escaped-length :
    (echars uchars src : Bytes)
    → (length src ≤ length (escaped echars uchars src))
      × (length (escaped echars uchars src) ≤ length src * 2)
unfolding escaped
escaped-length echars uchars [] = (omega arith, omega arith)
escaped-length echars uchars (c ∷ src) =
    let (low, high) = esc_char-length uchars c (strpos echars c) in
    let (ih_low, ih_high) = escaped-length echars uchars src in
    let size = length-append (esc_char uchars c (strpos echars c)) (escaped echars uchars src) in
    (omega arith, omega arith)

-- Whatever bs_stresc writes, a NUL behind it fits in the buffer, and it is the escaped text of a part of
-- the source from its front on.
esc_loop-take :
    (echars uchars src : Bytes) (room : ℕ) (out : Bytes)
    → esc_loop echars uchars room src ≡ some out
    → (length out ≤ room) × ((k : ℕ) × (out ≡ escaped echars uchars (take k src)))
unfolding esc_loop escaped
esc_loop-take echars uchars [] room out e =
    (let l = ap length (some_inj e) in omega arith, (0, sym (some_inj e)))
esc_loop-take echars uchars (c ∷ src) room out e =
    let first = esc_char uchars c (strpos echars c) in
    elim (Bool-cases (room == 0)) [
      | inl full ↦
          let empty = some_inj (rw full at e) in
          (let l = ap length empty in omega arith, (0, sym empty))
      | inr free ↦ elim (Bool-cases (ltb room (length first))) [
        | inl small ↦ absurd (none-some (rw (free, small) at e))
        | inr fits ↦ elim (Option-cases (esc_loop echars uchars (room - length first) src)) [
          | inl failed ↦ absurd (none-some (rw (free, fits, failed) at e))
          | inr (l, run) ↦
              let whole = some_inj (rw (free, fits, run) at e) in
              let (bound, (k, part)) =
                esc_loop-take echars uchars src (room - length first) l run in
              let size = ap length whole in
              let sum = length-append first l in
              (ground arith, (suc k, sym whole ∙ ap (λ t. first ++ t) part))
        ]
      ]
    ]
