-- ===== src/Websocket/Io/Position.antt =====
-- Where the loop of ws_read_frame() is in a frame that comes in parts.
use smrender.Base.{
  ℕ, zero, suc, ◌+◌, ◌-◌, ◌%◌, ◌^◌, ◌≤◌, ◌<◌, ◌≡◌, refl, ap, ◌∙◌, true, false, [], ◌∷◌, ◌++◌, arith,
  ltb, ◌==◌, length, take, drop, pos, length-take,
}
use smrender.Bstring.{Bytes}
use smrender.Websocket.{Decoded, ws_decode_len}
use smrender.Websocket.Io.{Reading, to_int, need_rest, decoded_int, decoded, advance}
use smrender.Websocket.Io.Partial.{Part, ws_decode_len-two, ws_decode_len-Part}

-- The loop has read `k` bytes of the frame `b`: it knows the lengths and needs the rest, or it needs
-- no more than the header.
pub data IsAt (b : Bytes) (hlen plen k : ℕ) (st : Reading) : Type 0 where
  knows :
      st.buf ≡ take k b
      → st.hlen ≡ hlen
      → st.plen ≡ plen
      → st.need ≡ hlen + plen - k
      → k ≤ hlen + plen
      → IsAt b hlen plen k st
  looks : st.buf ≡ take k b → st.hlen ≡ 0 → 1 ≤ st.need → k + st.need ≤ hlen → IsAt b hlen plen k st

to_int-pos : (p : ℕ) → p < 2 ^ 31 → to_int p ≡ pos p
unfolding to_int
to_int-pos p h =
    let small : p % 2 ^ 32 ≡ p = omega arith in
    let lt : ltb p (2 ^ 31) ≡ true = ground arith in rw (small, lt) refl

need_rest-small :
    (hlen plen len : ℕ) → hlen + plen < 2 ^ 31 → need_rest hlen plen len ≡ hlen + plen - len
unfolding need_rest
need_rest-small hlen plen len h =
    let lt : ltb (hlen + plen - len) (2 ^ 31) ≡ true = ground (arith, h) in rw lt refl

take-append_left : (c : ℕ) (b rest : Bytes) → c ≤ length b → take c (b ++ rest) ≡ take c b
take-append_left zero b rest h = refl
take-append_left (suc c) [] rest h = absurd (omega arith)
take-append_left (suc c) (x ∷ b) rest h =
    ap (λ ys. x ∷ ys) (take-append_left c b rest (omega (arith, h)))

drop-append_left : (c : ℕ) (b rest : Bytes) → c ≤ length b → drop c (b ++ rest) ≡ drop c b ++ rest
drop-append_left zero b rest h = refl
drop-append_left (suc c) [] rest h = absurd (omega arith)
drop-append_left (suc c) (x ∷ b) rest h = drop-append_left c b rest (omega (arith, h))

pub take_more :
    (k c m : ℕ) (b rest : Bytes)
    → m ≡ k + c
    → m ≤ length b
    → take k b ++ take c (drop k b ++ rest) ≡ take m b
take_more zero c m b rest e h =
    let eq : m ≡ c = omega (arith, e) in rw eq (take-append_left c b rest (omega (arith, eq, h)))
take_more (suc k) c zero b rest e h = absurd (omega (arith, e))
take_more (suc k) c (suc m) [] rest e h = absurd (omega arith)
take_more (suc k) c (suc m) (x ∷ b) rest e h =
    ap (λ ys. x ∷ ys) (take_more k c m b rest (omega (arith, e)) (omega (arith, h)))

pub drop_more :
    (k c m : ℕ) (b rest : Bytes)
    → m ≡ k + c
    → m ≤ length b
    → drop c (drop k b ++ rest) ≡ drop m b ++ rest
drop_more zero c m b rest e h =
    let eq : m ≡ c = omega (arith, e) in rw eq (drop-append_left c b rest (omega (arith, eq, h)))
drop_more (suc k) c zero b rest e h = absurd (omega (arith, e))
drop_more (suc k) c (suc m) [] rest e h = absurd (omega arith)
drop_more (suc k) c (suc m) (x ∷ b) rest e h =
    drop_more k c m b rest (omega (arith, e)) (omega (arith, h))

decoded-IsAt :
    (b : Bytes) (hlen plen k : ℕ) (d : Decoded)
    → length b ≡ hlen + plen
    → hlen + plen < 2 ^ 31
    → k ≤ length b
    → Part hlen plen k d
    → IsAt b hlen plen k (decoded d (take k b))
unfolding decoded decoded_int
decoded-IsAt b hlen plen k d len small h (Part.complete e) =
    rw (e, to_int-pos plen (omega (arith, small)))
      (IsAt.knows refl refl refl
        (need_rest-small hlen plen (length (take k b)) small ∙ omega (arith, length-take k b, h))
        (omega (arith, h, len)))
decoded-IsAt b hlen plen k d len small h (Part.partial j e more room) =
    rw e (IsAt.looks refl refl more room)

pub advance-IsAt :
    (b : Bytes) (hlen plen k k' : ℕ) (st : Reading)
    → 2 ≤ length b
    → ws_decode_len b ≡ Decoded.lengths hlen plen
    → length b ≡ hlen + plen
    → hlen + plen < 2 ^ 31
    → k' ≤ length b
    → IsAt b hlen plen k st
    → IsAt b hlen plen k' (advance st (take k' b))
unfolding advance
advance-IsAt b hlen plen k k' st two dec len small h (IsAt.knows buf eh ep en le) =
    let nz : (st.hlen == 0) ≡ false = ground (arith, eh, ws_decode_len-two b hlen plen two dec) in
    rw nz (
      IsAt.knows refl eh ep
        (need_rest-small st.hlen st.plen (length (take k' b)) (omega (arith, eh, ep, small))
          ∙ omega (arith, eh, ep, length-take k' b, h))
        (omega (arith, h, len)))
advance-IsAt b hlen plen k k' st two dec len small h (IsAt.looks buf eh need room) =
    let none_yet : (st.hlen == 0) ≡ true = ground (arith, eh) in
    rw none_yet (
      decoded-IsAt b hlen plen k' (ws_decode_len (take k' b)) len small h
        (ws_decode_len-Part b k' hlen plen two h dec))

pub IsAt-buf :
    (b : Bytes) (hlen plen k : ℕ) (st : Reading) → IsAt b hlen plen k st → st.buf ≡ take k b
IsAt-buf b hlen plen k st (IsAt.knows e eh ep en le) = e
IsAt-buf b hlen plen k st (IsAt.looks e eh need room) = e

-- What is needed is there to come.
pub IsAt-need :
    (b : Bytes) (hlen plen k : ℕ) (st : Reading) → IsAt b hlen plen k st → k + st.need ≤ hlen + plen
IsAt-need b hlen plen k st (IsAt.knows e eh ep en le) = omega (arith, en, le)
IsAt-need b hlen plen k st (IsAt.looks e eh need room) = omega (arith, room)
