-- ===== src/Websocket/Write/Frames.antt =====
-- The parts of a frame of ws_write().
use smrender.Base.{
  ℕ, zero, suc, ◌+◌, ◌-◌, ◌%◌, ◌^◌, ◌≤◌, ◌<◌, ◌≡◌, refl, ◌∙◌, ◌⊎◌, inl, inr, Bool, true, false, not,
  [], ◌∷◌, arith, ltb, leb, ◌==◌, if◌then◌else◌, Bool-cases, length, set, take, drop, length-set,
}
use smrender.Bstring.{Bytes}
use smrender.Websocket.{
  WsFrame, Decoded, ws_decode_len, read_mask, or_mask_bit, ws_len_bytes, ws_mask,
}
use smrender.Websocket.Mask.{AreBytes}
use smrender.Websocket.Write.{Websocket, hlen_min, copy_payload, len_code, next_frame}
use smrender.Websocket.Write.Rounds.{ws_len_bytes-le, ws_len_bytes_mono, length-or_mask_bit}

-- The payload of a frame, by ws_decode_len(), the mask and ws_mask().
abbrev pub payload_with : Bytes → Decoded → Bytes
payload_with frm (Decoded.missing k) = []
payload_with frm (Decoded.lengths hlen plen) =
    ws_mask (take plen (drop hlen frm)) (read_mask frm hlen)

abbrev pub payload_of : Bytes → Bytes
payload_of frm = payload_with frm (ws_decode_len frm)

-- The mask of a frame is 0 just where there is none.
abbrev pub IsMaskFor : Websocket → ℕ → Type 0
IsMaskFor ws mask = ((mask == 0) ≡ not ws.mask) × (mask < 2 ^ 32)

-- The parts of a frame for `plen` bytes.
pub record Sizes (ws : Websocket) (buf : Bytes) (wf : WsFrame) : Type 0 where
  pub some_bytes : 1 ≤ wf.plen
  pub no_more : wf.plen ≤ length buf
  pub hlen_eq : wf.hlen ≡ hlen_min ws + ws_len_bytes wf.plen
  pub fits : wf.hlen + wf.plen ≤ ws.size

pub next_frame-Sizes :
    (ws : Websocket) (first : Bool) (mask room : ℕ) (frmbuf buf : Bytes)
    → 15 ≤ ws.size
    → 1 ≤ length buf
    → room ≡ ws.size - (hlen_min ws + ws_len_bytes (length buf))
    → Sizes ws buf (next_frame ws first mask frmbuf room buf)
unfolding next_frame
next_frame-Sizes ws first mask room frmbuf buf h some_buf e =
    elim (Bool-cases (ltb room (length buf))) [
      | inl l ↦
          let le : room ≤ length buf = ground arith in
          rw l (record {
            some_bytes = ground (arith, e, h, ws_len_bytes-le (length buf));
            no_more = le;
            hlen_eq = refl;
            fits =
                ground (
                  arith,
                  e,
                  h,
                  ws_len_bytes-le (length buf),
                  ws_len_bytes_mono room (length buf) le,
                );
          })
      | inr l ↦ rw l (record {
        some_bytes = some_buf;
        no_more = omega arith;
        hlen_eq = refl;
        fits = ground (arith, e, h, ws_len_bytes-le (length buf));
      })
    ]

-- The buffer of a frame.
pub record Filled (size mask : ℕ) (buf : Bytes) (wf : WsFrame) : Type 0 where
  pub front : Bytes
  pub length_front : length front ≡ size
  pub filled : wf.buf ≡ copy_payload wf.hlen (ws_mask (take wf.plen buf) mask) front

pub next_frame-Filled :
    (ws : Websocket) (first : Bool) (mask room : ℕ) (frmbuf buf : Bytes)
    → length frmbuf ≡ ws.size
    → Filled ws.size mask buf (next_frame ws first mask frmbuf room buf)
unfolding next_frame
next_frame-Filled ws first mask room frmbuf buf e =
    let plen : ℕ = if ltb room (length buf) then room else length buf in
    let coded : Bytes = set (set frmbuf 1 (len_code (length buf))) 1 (len_code plen) in
    let coded_length : length coded ≡ ws.size =
      length-set (set frmbuf 1 (len_code (length buf))) 1 (len_code plen)
      ∙ length-set frmbuf 1 (len_code (length buf))
      ∙ e in
    record {
      front = if ws.mask then or_mask_bit 1 coded else coded;
      length_front =
          either ws.mask (or_mask_bit 1 coded) coded (length-or_mask_bit 1 coded ∙ coded_length)
            coded_length;
      filled = refl;
    }
  where
    either :
        {k : ℕ} (b : Bool) (x y : Bytes)
        → length x ≡ k
        → length y ≡ k
        → length (if b then x else y) ≡ k
    either true x y p q = p
    either false x y p q = q

pub next_frame-op-lt :
    (ws : Websocket) (first : Bool) (mask room : ℕ) (frmbuf buf : Bytes)
    → (next_frame ws first mask frmbuf room buf).op < 256
unfolding next_frame
next_frame-op-lt ws true mask room frmbuf buf = ground arith
next_frame-op-lt ws false mask room frmbuf buf = ground arith

pub next_frame-mask :
    (ws : Websocket) (first : Bool) (mask room : ℕ) (frmbuf buf : Bytes)
    → (next_frame ws first mask frmbuf room buf).mask ≡ mask
unfolding next_frame
next_frame-mask ws first mask room frmbuf buf = refl

pub hlen_min-mask :
    (m : Bool) (mask : ℕ)
    → (mask == 0) ≡ not m
    → ◌≡◌ {A = ℕ} (if m then 4 else 0) (if mask == 0 then 0 else 4)
hlen_min-mask true mask e = rw e refl
hlen_min-mask false mask e = rw e refl

pub take-AreBytes : (n : ℕ) (buf : Bytes) → AreBytes buf → AreBytes (take n buf)
take-AreBytes zero buf ok x e = absurd e
take-AreBytes (suc n) [] ok x e = absurd e
take-AreBytes (suc n) (y ∷ buf) ok x (inl e) = ok x (inl e)
take-AreBytes (suc n) (y ∷ buf) ok x (inr e) = take-AreBytes n buf (λ z h. ok z (inr h)) x e

-- The opcode has WS_FIN just where the frame takes the rest of the message.
pub next_frame-fin :
    (ws : Websocket) (first : Bool) (mask room : ℕ) (frmbuf buf : Bytes)
    → (let wf = next_frame ws first mask frmbuf room buf in
        ((leb 128 wf.op ≡ true) × (wf.plen ≡ length buf))
        ⊎ ((leb 128 wf.op ≡ false) × (wf.plen < length buf)))
unfolding next_frame
next_frame-fin ws first mask room frmbuf buf = elim (Bool-cases (ltb room (length buf))) [
  | inl l ↦ rw l (inr (fin_no first, ground arith))
  | inr l ↦ rw l (inl (fin_yes first, refl))
]
  where
    fin_yes : (b : Bool) → leb 128 ((if b then ws.op % 16 else 0) + 128) ≡ true
    fin_yes true = ground arith
    fin_yes false = ground arith

    fin_no : (b : Bool) → leb 128 ((if b then ws.op % 16 else 0) + 0) ≡ false
    fin_no true = ground arith
    fin_no false = ground arith
