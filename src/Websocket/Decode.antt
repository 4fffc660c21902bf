-- ===== src/Websocket/Decode.antt =====
-- ws_decode_len() in the three forms of a length.
use smrender.Base.{
  ℕ, ◌%◌, ◌≤◌, ◌<◌, ◌≡◌, refl, ◌≢◌, inl, inr, Bool, true, false, some, arith, ltb, leb, ◌==◌,
  if◌then◌else◌, leb→le, Bool-cases, length, get_or,
}
use smrender.Bstring.{Bytes}
use smrender.Websocket.{Decoded, ws_len_bytes, ws_pld_len, with_mask, decode_long, ws_decode_len}

pub ltb-false : (a b : ℕ) → b ≤ a → ltb a b ≡ false
ltb-false a b h = ground arith

pub ==_false : (a b : ℕ) → a ≢ b → (a == b) ≡ false
==_false a b n = ground arith

pub if_some {ℓ} :
    {A : Type ℓ} (b : Bool) (x y : A) → (if b then some x else some y) ≡ some (if b then x else y)
if_some true x y = refl
if_some false x y = refl

-- What is read of a header.
pub decode_short :
    (plen : ℕ) (buf : Bytes)
    → plen ≤ 125
    → 2 ≤ length buf
    → get_or buf 1 0 % 128 ≡ plen
    → ws_decode_len buf ≡ Decoded.lengths (with_mask (get_or buf 1 0) 2) plen
unfolding ws_decode_len
decode_short plen buf small room code =
    rw
      (ltb-false _ _ room, code, ==_false plen 0x7e (omega arith), ==_false plen 0x7f (omega arith))
      refl

pub decode_two :
    (plen : ℕ) (buf : Bytes)
    → 4 ≤ length buf
    → get_or buf 1 0 % 128 ≡ 0x7e
    → ws_pld_len buf 2 2 0 ≡ plen
    → ws_decode_len buf ≡ Decoded.lengths (with_mask (get_or buf 1 0) 4) plen
unfolding ws_decode_len decode_long
decode_two plen buf room code val =
    rw (ltb-false (length buf) 2 (omega arith), ltb-false (length buf) 4 room, code, val) refl

pub decode_eight :
    (plen : ℕ) (buf : Bytes)
    → 10 ≤ length buf
    → get_or buf 1 0 % 128 ≡ 0x7f
    → ws_pld_len buf 2 8 0 ≡ plen
    → ws_decode_len buf ≡ Decoded.lengths (with_mask (get_or buf 1 0) 10) plen
unfolding ws_decode_len decode_long
decode_eight plen buf room code val =
    rw (ltb-false (length buf) 2 (omega arith), ltb-false (length buf) 10 room, code, val) refl

-- The three forms of a length.
pub data LenForm (plen n : ℕ) : Type 0 where
  short : plen ≤ 125 → n ≡ 0 → LenForm plen n
  two_bytes : 125 < plen → plen < 0x10000 → n ≡ 2 → LenForm plen n
  eight_bytes : 0x10000 ≤ plen → n ≡ 8 → LenForm plen n

pub len_form : (plen : ℕ) → LenForm plen (ws_len_bytes plen)
unfolding ws_len_bytes
len_form plen = elim (Bool-cases (leb plen 125)) [
  | inl e ↦ rw e (LenForm.short (leb→le plen 125 e) refl)
  | inr e ↦ elim (Bool-cases (leb plen 0xffff)) [
    | inl f ↦ rw (e, f) (LenForm.two_bytes (ground arith) (ground arith) refl)
    | inr f ↦ rw (e, f) (LenForm.eight_bytes (ground arith) refl)
  ]
]
