-- ===== src/Websocket/Frame.antt =====
-- What ws_read_frame() finds in a header that ws_write_frame() has written.
use smrender.Base.{
  ℕ, ◌+◌, ◌-◌, ◌%◌, ◌^◌, ◌≤◌, ◌<◌, ◌≡◌, refl, sym, ap, ◌∙◌, ◌≢◌, ◌⊎◌, inl, inr, some, arith, ◌==◌,
  if◌then◌else◌, length, set, get_or, subst, length-set,
}
use smrender.Bstring.{Bytes}
use smrender.Websocket.{
  WsFrame, Decoded, put_bytes, put_len, or_mask_bit, put_header, ws_len_bytes, ws_pld_len,
  with_mask, ws_decode_len, read_mask,
}
use smrender.Websocket.Digits.{get_or-set_self, ws_pld_len-congr}
use smrender.Websocket.Decode.{
  ltb-false, if_some, LenForm, len_form, decode_short, decode_two, decode_eight,
}
use smrender.Websocket.Masked.{Masked, put_mask-Masked}
use smrender.Websocket.Encoded.{
  put_len_short, put_len_two, put_len_eight, Encoded, set_op-Encoded, set-Encoded, set-Encoded_two,
  put_bytes-Encoded,
}

-- The frames as ws_write() sets them up: the header has its length, and the buffer holds header and
-- payload.
pub record IsFrame (wf : WsFrame) : Type 0 where
  pub hlen_exact : wf.hlen ≡ 2 + ws_len_bytes wf.plen + (if wf.mask == 0 then 0 else 4)
  pub fits : wf.hlen + wf.plen ≤ length wf.buf
  pub plen-lt : wf.plen < 2 ^ 63
  pub mask-lt : wf.mask < 2 ^ 32
  pub op-lt : wf.op < 256

-- Header and mask together.
read_back :
    (wf : WsFrame) (n code : ℕ) (base buf : Bytes)
    → wf.hlen ≡ 2 + n + (if wf.mask == 0 then 0 else 4)
    → wf.hlen ≤ length wf.buf
    → code < 128
    → Encoded wf.plen n code wf.buf base
    → Masked wf.mask wf.hlen base buf
    → ((get_or buf 1 0 % 128 ≡ code) × (2 + n ≤ length buf))
      × ((n ≢ 0 → ws_pld_len buf 2 n 0 ≡ wf.plen) × (with_mask (get_or buf 1 0) (2 + n) ≡ wf.hlen))
read_back wf n code base buf e fits small c m = (
  (omega (arith, m.code, c.code_stored), omega (arith, m.same_length, c.same_length)),
  (
    λ z.
        ws_pld_len-congr buf base 2 n 0 (λ j p q. m.len_kept j p (ground arith)) ∙ c.value_stored z,
    m.hlen_read (2 + n) ∙ sym e,
  ),
)

-- The header without the mask, in the form of its length.
base_of : WsFrame → Bytes
base_of wf = set (put_len wf.plen wf.buf) 0 (wf.op % 256)

put_header_cases :
    (wf : WsFrame)
    → 6 ≤ wf.hlen ⊎ (wf.mask ≡ 0)
    → put_header wf
      ≡ some (
          if wf.mask == 0
          then base_of wf
          else put_bytes 4 (wf.hlen - 1) wf.mask (or_mask_bit 1 (base_of wf)))
unfolding put_header base_of
put_header_cases wf (inl h) = rw (ltb-false wf.hlen 4 (omega arith)) (if_some (wf.mask == 0) _ _)
put_header_cases wf (inr e) = rw e refl

-- A form of the length with its code, what it puts into the header and how it is decoded.
record Form (wf : WsFrame) (n : ℕ) : Type 0 where
  code : ℕ
  code-lt : code < 128
  encoded : Encoded wf.plen n code wf.buf (base_of wf)
  decoded :
      (buf : Bytes)
      → 2 + n ≤ length buf
      → get_or buf 1 0 % 128 ≡ code
      → (n ≢ 0 → ws_pld_len buf 2 n 0 ≡ wf.plen)
      → ws_decode_len buf ≡ Decoded.lengths (with_mask (get_or buf 1 0) (2 + n)) wf.plen

LenForm-Form :
    (wf : WsFrame) (n : ℕ)
    → 2 + n ≤ length wf.buf
    → wf.plen < 2 ^ 63
    → LenForm wf.plen n
    → Form wf n
unfolding base_of
LenForm-Form wf n room bound (LenForm.short h e) =
    subst (λ k. Form wf k) (sym e)
      (record {
        code = wf.plen;
        code-lt = omega arith;
        encoded = rw (put_len_short wf.plen wf.buf h) (
            set_op-Encoded wf.plen 0 wf.plen (wf.op % 256) wf.buf (set wf.buf 1 wf.plen)
              (set-Encoded wf.plen wf.buf (omega arith)));
        decoded = λ buf r c v. decode_short wf.plen buf h r c;
      })
LenForm-Form wf n room bound (LenForm.two_bytes l h e) =
    subst (λ k. Form wf k) (sym e)
      (record {
        code = 0x7e;
        code-lt = omega arith;
        encoded = rw (put_len_two wf.plen wf.buf l h) (
            set_op-Encoded wf.plen 2 0x7e (wf.op % 256) wf.buf _
              (set-Encoded_two wf.plen wf.buf (omega arith) h));
        decoded = λ buf r c v. decode_two wf.plen buf r c (v (omega arith));
      })
LenForm-Form wf n room bound (LenForm.eight_bytes h e) =
    subst (λ k. Form wf k) (sym e)
      (record {
        code = 0x7f;
        code-lt = omega arith;
        encoded = rw (put_len_eight wf.plen wf.buf h) (
            set_op-Encoded wf.plen 8 0x7f (wf.op % 256) wf.buf _
              (put_bytes-Encoded wf.plen wf.buf (omega arith) bound));
        decoded = λ buf r c v. decode_eight wf.plen buf r c (v (omega arith));
      })

base_first :
    (wf : WsFrame) → wf.op < 256 → 0 < length (base_of wf) → get_or (base_of wf) 0 0 ≡ wf.op
unfolding base_of
base_first wf h room =
    get_or-set_self (put_len wf.plen wf.buf) 0 (wf.op % 256)
      (omega (arith, length-set (put_len wf.plen wf.buf) 0 (wf.op % 256)))
    ∙ omega arith

IsFrame-room :
    (wf : WsFrame)
    → IsFrame wf
    → ((2 + ws_len_bytes wf.plen ≤ length wf.buf) × (wf.hlen ≤ length wf.buf))
      × ((6 ≤ wf.hlen) ⊎ (wf.mask ≡ 0))
IsFrame-room wf ok = ((ground (arith, ok.hlen_exact, ok.fits), omega (arith, ok.fits)), form)
  where
    form : (6 ≤ wf.hlen) ⊎ (wf.mask ≡ 0)
    form = ground (arith, ok.hlen_exact)

-- ws_decode_len() of the header that ws_write_frame() puts into the buffer, of a frame as ws_write()
-- sets it up, gives the lengths of the header and of the payload; the mask is read back from it, the
-- first byte is the opcode, and no byte behind the header is changed.
pub ws_decode_len-put_header :
    (wf : WsFrame)
    → IsFrame wf
    → (buf : Bytes) × ((put_header wf ≡ some buf)
        × ((ws_decode_len buf ≡ Decoded.lengths wf.hlen wf.plen)
            × ((read_mask buf wf.hlen ≡ wf.mask)
                × ((get_or buf 0 0 ≡ wf.op)
                    × ((i : ℕ) → wf.hlen ≤ i → get_or buf i 0 ≡ get_or wf.buf i 0)))))
ws_decode_len-put_header wf ok =
    let ((room0, room1), kind) = IsFrame-room wf ok in
    let n = ws_len_bytes wf.plen in
    let f = LenForm-Form wf n room0 ok.plen-lt (len_form wf.plen) in
    let base = base_of wf in
    let buf =
      if wf.mask == 0 then base else put_bytes 4 (wf.hlen - 1) wf.mask (or_mask_bit 1 base) in
    let m : Masked wf.mask wf.hlen base buf =
      put_mask-Masked wf.mask wf.hlen base ok.mask-lt kind
        (omega (arith, room1, f.encoded.same_length))
        (omega (arith, f.code-lt, f.encoded.code_stored)) in
    let ((code, room), (value, header)) =
      read_back wf n f.code base buf ok.hlen_exact room1 f.code-lt f.encoded m in
    (
      buf,
      (
        put_header_cases wf kind,
        (
          f.decoded buf room code value ∙ ap (λ k. Decoded.lengths k wf.plen) header,
          (
            m.mask_read,
            (
              m.first_kept ∙ base_first wf ok.op-lt (omega (arith, room0, f.encoded.same_length)),
              λ i h. m.payload_kept i h ∙ f.encoded.kept i (omega (arith, ok.hlen_exact)),
            ),
          ),
        ),
      ),
    )
