-- ===== src/Websocket/Write/Sent.antt =====
-- What a receiver finds in a frame of ws_write().
use smrender.Base.{
  ℕ, ◌+◌, ◌^◌, ◌≤◌, ◌<◌, ◌≡◌, sym, ap, ◌∙◌, Bool, some, arith, leb, ◌==◌, if◌then◌else◌, length,
  take, drop, length-take, some_inj,
}
use smrender.Bstring.{Bytes}
use smrender.Websocket.{WsFrame, ws_decode_len, read_mask, put_header, ws_mask}
use smrender.Websocket.Mask.{AreBytes, ws_mask-ws_mask}
use smrender.Websocket.Frame.{IsFrame, ws_decode_len-put_header}
use smrender.Websocket.Write.{Websocket, copy_payload}
use smrender.Websocket.Write.Rounds.{length-ws_mask, length-copy_payload, length-put_header}
use smrender.Websocket.Write.Prefix.{take-put_header, drop-ext, middle}
use smrender.Websocket.Write.Frames.{
  payload_with, payload_of, IsMaskFor, Sizes, Filled, hlen_min-mask, take-AreBytes,
}

-- A frame that has been sent: its bytes, its payload and whether it is the last one.
pub record IsSent (size : ℕ) (frm payload : Bytes) (fin : Bool) : Type 0 where
  pub frame : WsFrame
  pub is_frame : IsFrame frame
  pub exact : length frame.buf ≡ frame.hlen + frame.plen
  pub small : frame.plen < 2 ^ 31
  pub fits : frame.hlen + frame.plen ≤ size
  pub header : put_header frame ≡ some frm
  pub unmasked : ws_mask (take frame.plen (drop frame.hlen frm)) frame.mask ≡ payload
  pub plen_eq : frame.plen ≡ length payload
  pub op_fin : leb 128 frame.op ≡ fin

-- The frame in a buffer of its own length.
abbrev cut : WsFrame → WsFrame
cut wf = record wf { buf = take (wf.hlen + wf.plen) wf.buf }

module _ (ws : Websocket) (mask : ℕ) (buf : Bytes) (wf : WsFrame) (small : ws.size < 2 ^ 31)
    (mask_eq : wf.mask ≡ mask) (op-lt : wf.op < 256) (mask_ok : IsMaskFor ws mask)
    (z : Sizes ws buf wf) (f : Filled ws.size mask buf wf) where
  length-take_buf : length (take wf.plen buf) ≡ wf.plen
  length-take_buf = omega (arith, length-take wf.plen buf, z.no_more)

  length-payload : length (ws_mask (take wf.plen buf) mask) ≡ wf.plen
  length-payload = length-ws_mask (take wf.plen buf) mask ∙ length-take_buf

  pub length-buf : length wf.buf ≡ ws.size
  length-buf =
      ap length f.filled
      ∙ length-copy_payload wf.hlen (ws_mask (take wf.plen buf) mask) f.front
          (omega (arith, length-payload, f.length_front, z.fits))
      ∙ f.length_front

  length-cut : length (cut wf).buf ≡ wf.hlen + wf.plen
  length-cut = omega (arith, length-take (wf.hlen + wf.plen) wf.buf, length-buf, z.fits)

  with_buf-IsFrame : (b : Bytes) → wf.hlen + wf.plen ≤ length b → IsFrame (record wf { buf = b })
  with_buf-IsFrame b fits = record {
    hlen_exact = omega (
      arith,
      z.hlen_eq,
      hlen_min-mask ws.mask mask mask_ok.0,
      ap {B = ℕ} (λ m. if m == 0 then 0 else 4) mask_eq,
    );
    fits = fits;
    plen-lt = omega (arith, z.fits, small);
    mask-lt = omega (arith, mask_eq, mask_ok.1);
    op-lt = op-lt;
  }

  -- Behind the header.
  cut_payload : take wf.plen (drop wf.hlen (cut wf).buf) ≡ ws_mask (take wf.plen buf) mask
  unfolding copy_payload
  cut_payload =
      let payload : Bytes = ws_mask (take wf.plen buf) mask in
      ap (λ b. take wf.plen (drop wf.hlen (take (wf.hlen + wf.plen) b))) f.filled
      ∙ ap
          (λ k.
            take k (drop wf.hlen (take (wf.hlen + wf.plen) (copy_payload wf.hlen payload f.front))))
          (sym length-payload)
      ∙ middle (wf.hlen + wf.plen) wf.hlen (take wf.hlen f.front) payload
          (drop (wf.hlen + length payload) f.front)
          (omega (arith, length-take wf.hlen f.front, f.length_front, z.fits))
          (omega (arith, length-payload))

  -- What is read in the frame with its header.
  pub frame-IsSent :
      (b : Bytes) (fin : Bool)
      → AreBytes buf
      → put_header wf ≡ some b
      → leb 128 wf.op ≡ fin
      → IsSent ws.size (take (wf.hlen + wf.plen) b) (take wf.plen buf) fin
  frame-IsSent b fin ok e fin_eq =
      let cut_ok : IsFrame (cut wf) = with_buf-IsFrame (cut wf).buf (omega (arith, length-cut)) in
      let cut_header : put_header (cut wf) ≡ some (take (wf.hlen + wf.plen) b) =
        take-put_header (wf.hlen + wf.plen) wf b (omega (arith, z.hlen_eq, z.some_bytes)) e in
      let (b', (e', (dec, (msk, (op, same))))) = ws_decode_len-put_header (cut wf) cut_ok in
      let b_eq : b' ≡ take (wf.hlen + wf.plen) b = some_inj (sym e' ∙ cut_header) in
      let same_length : length b' ≡ length (cut wf).buf = length-put_header (cut wf) b' e' in
      record {
        frame = cut wf;
        is_frame = cut_ok;
        exact = length-cut;
        small = omega (arith, z.fits, small);
        fits = z.fits;
        header = cut_header;
        unmasked =
            ap (λ d. ws_mask (take wf.plen (drop wf.hlen d)) wf.mask) (sym b_eq)
            ∙ ap (λ d. ws_mask (take wf.plen d) wf.mask)
                (drop-ext wf.hlen b' (cut wf).buf same_length same)
            ∙ ap (λ d. ws_mask d wf.mask) cut_payload
            ∙ ap (ws_mask (ws_mask (take wf.plen buf) mask)) mask_eq
            ∙ ws_mask-ws_mask mask (take wf.plen buf) (take-AreBytes wf.plen buf ok);
        plen_eq = sym length-take_buf;
        op_fin = fin_eq;
      }

  -- The header can be written.
  pub header-some : (b : Bytes) × (put_header wf ≡ some b)
  header-some =
      let (b, (e, rest)) =
        ws_decode_len-put_header wf (with_buf-IsFrame wf.buf (omega (arith, length-buf, z.fits))) in
      (b, e)

pub IsSent-payload_of :
    (size : ℕ) (frm payload : Bytes) (fin : Bool)
    → IsSent size frm payload fin
    → payload_of frm ≡ payload
IsSent-payload_of size frm payload fin s =
    let (b, (e, (dec, (msk, rest)))) = ws_decode_len-put_header s.frame s.is_frame in
    let b_eq : b ≡ frm = some_inj (sym e ∙ s.header) in
    ap (payload_with frm) (sym (ap ws_decode_len b_eq) ∙ dec)
    ∙ ap (ws_mask (take s.frame.plen (drop s.frame.hlen frm)))
        (sym (ap (λ d. read_mask d s.frame.hlen) b_eq) ∙ msk)
    ∙ s.unmasked
