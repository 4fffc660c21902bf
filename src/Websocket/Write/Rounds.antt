-- ===== src/Websocket/Write/Rounds.antt =====
-- A round of ws_write() on a frame buffer that has room for the longest header and a byte.
use smrender.Base.{
  ℕ, suc, ◌+◌, ◌-◌, ◌/◌, ◌%◌, ◌≤◌, ◌≡◌, refl, sym, ap, ◌∙◌, inl, inr, false, some, [], ◌∷◌, ◌++◌,
  arith, ltb, leb, ◌==◌, Bool-cases, length, set, get_or, take, drop, length-append, length-set,
  length-take, length-drop, none-some, some_inj,
}
use smrender.Bstring.{Bytes}
use smrender.Websocket.{WsFrame, or_mask_bit, put_header, put_len, ws_len_bytes, ws_mask, mask_loop}
use smrender.Websocket.Digits.{length-put_bytes}
use smrender.Websocket.Write.{Websocket, hlen_min, frame_room, copy_payload}

pub ws_len_bytes-le : (n : ℕ) → ws_len_bytes n ≤ 8
unfolding ws_len_bytes
ws_len_bytes-le n = ground arith

pub ws_len_bytes_mono : (m n : ℕ) → m ≤ n → ws_len_bytes m ≤ ws_len_bytes n
unfolding ws_len_bytes
ws_len_bytes_mono m n h = ground arith

-- There is room.
pub frame_room-some :
    (ws : Websocket) (n : ℕ)
    → 15 ≤ ws.size
    → frame_room ws n ≡ some (ws.size - (hlen_min ws + ws_len_bytes n))
unfolding frame_room
frame_room-some ws n h =
    let le : ltb ws.size (hlen_min ws + ws_len_bytes n) ≡ false =
      ground (arith, ws_len_bytes-le n) in
    rw le refl

length-mask_loop : (mask i : ℕ) (buf : Bytes) → length (mask_loop mask i buf) ≡ length buf
unfolding mask_loop
length-mask_loop mask i [] = refl
length-mask_loop mask i (x ∷ buf) = ap suc (length-mask_loop mask (i + 1) buf)

pub length-ws_mask : (buf : Bytes) (mask : ℕ) → length (ws_mask buf mask) ≡ length buf
unfolding ws_mask
length-ws_mask buf mask = elim (Bool-cases (mask == 0)) [
  | inl e ↦ rw e refl
  | inr e ↦ rw e (length-mask_loop mask 0 buf)
]

pub length-or_mask_bit : (i : ℕ) (buf : Bytes) → length (or_mask_bit i buf) ≡ length buf
unfolding or_mask_bit
length-or_mask_bit i buf = length-set buf i (get_or buf i 0 % 128 + 128)

pub length-copy_payload :
    (hlen : ℕ) (payload frmbuf : Bytes)
    → hlen + length payload ≤ length frmbuf
    → length (copy_payload hlen payload frmbuf) ≡ length frmbuf
unfolding copy_payload
length-copy_payload hlen payload frmbuf h = omega (
  arith,
  h,
  length-append (take hlen frmbuf) (payload ++ drop (hlen + length payload) frmbuf),
  length-append payload (drop (hlen + length payload) frmbuf),
  length-take hlen frmbuf,
  length-drop (hlen + length payload) frmbuf,
)

length-put_len : (plen : ℕ) (buf : Bytes) → length (put_len plen buf) ≡ length buf
unfolding put_len
length-put_len plen buf = elim (Bool-cases (leb plen 125)) [
  | inl e ↦ rw e (length-set buf 1 plen)
  | inr e ↦ elim (Bool-cases (ltb plen 0x10000)) [
    | inl f ↦
        rw (e, f)
          (length-set (set (set buf 1 0x7e) 2 (plen / 256 % 256)) 3 (plen % 256)
            ∙ length-set (set buf 1 0x7e) 2 (plen / 256 % 256)
            ∙ length-set buf 1 0x7e)
    | inr f ↦ rw (e, f) (length-put_bytes 8 9 plen (set buf 1 0x7f) ∙ length-set buf 1 0x7f)
  ]
]

-- The header keeps the length of the buffer.
pub length-put_header :
    (wf : WsFrame) (buf : Bytes) → put_header wf ≡ some buf → length buf ≡ length wf.buf
unfolding put_header
length-put_header wf buf e = elim (Bool-cases (wf.mask == 0)) [
  | inl m ↦
      ap length (sym (some_inj (rw m at e)))
      ∙ length-set (put_len wf.plen wf.buf) 0 (wf.op % 256)
      ∙ length-put_len wf.plen wf.buf
  | inr m ↦ elim (Bool-cases (ltb wf.hlen 4)) [
    | inl s ↦ absurd (none-some (rw (m, s) at e))
    | inr s ↦
        let base : Bytes = set (put_len wf.plen wf.buf) 0 (wf.op % 256) in
        ap length (sym (some_inj (rw (m, s) at e)))
        ∙ length-put_bytes 4 (wf.hlen - 1) wf.mask (or_mask_bit 1 base)
        ∙ length-or_mask_bit 1 base
        ∙ length-set (put_len wf.plen wf.buf) 0 (wf.op % 256)
        ∙ length-put_len wf.plen wf.buf
  ]
]
