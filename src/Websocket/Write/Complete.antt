-- ===== src/Websocket/Write/Complete.antt =====
-- ws_write() sends the whole message.
use smrender.Base.{
  ℕ, zero, suc, ◌+◌, ◌-◌, ◌^◌, ◌≤◌, ◌<◌, ◌≡◌, refl, sym, ap, ◌∙◌, ◌⊎◌, inl, inr, Bool, true, false,
  List, [], ◌∷◌, ◌++◌, arith, ltb, leb, ◌==◌, length, take, drop, subst, length-drop,
  take-append-drop,
}
use smrender.Bstring.{Bytes}
use smrender.Websocket.{WsFrame, ws_len_bytes, ws_write_frame}
use smrender.Websocket.Mask.{AreBytes}
use smrender.Websocket.Write.{
  Websocket, hlen_min, frame_room, next_frame, Written, after_write, mask_for, write_round,
  write_loop, ws_write,
}
use smrender.Websocket.Write.Rounds.{frame_room-some, length-put_header}
use smrender.Websocket.Write.Prefix.{take_whole, drop_whole}
use smrender.Websocket.Write.Wire.{wire, Message, IsLast}
use smrender.Websocket.Write.Frames.{
  payload_of, Sizes, Filled, next_frame-Sizes, next_frame-Filled, next_frame-op-lt, next_frame-mask,
  next_frame-fin,
}
use smrender.Websocket.Write.Sent.{length-buf, IsSent, IsSent-payload_of, frame-IsSent, header-some}
use smrender.Websocket.Write.Log.{
  log_fd, message_of, AllFit, IsMaskSource, mask_for-IsMaskFor, ws_write_frame-run, after_write-run,
  append_assoc, append-nil, drop-AreBytes, write_round-some,
}

fin_cases :
    (op : ℕ) {size plen n : ℕ} {frm payload : Bytes}
    → ((leb 128 op ≡ true) × (plen ≡ n)) ⊎ ((leb 128 op ≡ false) × (plen < n))
    → ((fin : Bool) → leb 128 op ≡ fin → IsSent size frm payload fin)
    → (fin : Bool) × (IsSent size frm payload fin × IsLast fin plen n)
fin_cases op (inl l) sent = (true, (sent true l.0, l.1))
fin_cases op (inr m) sent = (false, (sent false m.0, m.1))

IsSent-length :
    {size : ℕ} {frm payload : Bytes} {fin : Bool} → IsSent size frm payload fin → length frm ≤ size
IsSent-length {frm = frm} s = omega (arith, length-put_header s.frame frm s.header, s.exact, s.fits)

-- The frames of a message with one more before them, if that is not the last.
Message-cons :
    (size plen : ℕ) (frm buf : Bytes) (fin : Bool) (w res : List Bytes)
    → IsSent size frm (take plen buf) fin
    → IsLast fin plen (length buf)
    → (1 ≤ length (drop plen buf)
        → (out : Bytes) × (wire res ≡ (wire w ++ frm) ++ out) × Message size (drop plen buf) out)
    → (drop plen buf ≡ [] → wire res ≡ wire w ++ frm)
    → (out : Bytes) × (wire res ≡ wire w ++ out) × Message size buf out
Message-cons size plen frm buf true w res sent is_last rest none_left = (
  frm,
  none_left (drop_whole plen buf (sym is_last)),
  subst (λ p. Message size p frm) (take_whole plen buf (sym is_last)) (Message.last sent),
)
Message-cons size plen frm buf false w res sent is_last rest none_left =
    let (out, eq, msg) = rest (omega (arith, length-drop plen buf, is_last)) in
    (
      frm ++ out,
      eq ∙ append_assoc (wire w) frm out,
      subst (λ p. Message size p (frm ++ out)) (take-append-drop plen buf) (Message.more sent msg),
    )

-- All of `buf` has been sent behind the frames `w`.
record Sent (size wlen : ℕ) (buf : Bytes) (w : List Bytes) (res : Written × List Bytes)
    : Type 0 where
  returned : res.0 ≡ Written.written (wlen + length buf)
  message : message_of res.1 ≡ message_of w ++ buf
  fit : AllFit size w → AllFit size res.1
  wired : 1 ≤ length buf → (out : Bytes) × (wire res.1 ≡ wire w ++ out) × Message size buf out
  unchanged : buf ≡ [] → res.1 ≡ w

module _ (ws : Websocket) (random_mask : List Bytes → ℕ × List Bytes)
    (source : IsMaskSource random_mask) (enough : 15 ≤ ws.size) (small : ws.size < 2 ^ 31) where
  write_round-run :
      (frmbuf : Bytes) (wlen : ℕ) (buf : Bytes) (w : List Bytes)
      (go_on : ℕ → WsFrame → List Bytes → Written × List Bytes)
      → length frmbuf ≡ ws.size
      → 1 ≤ length buf
      → AreBytes buf
      → (wf : WsFrame) × (frm : Bytes) × (write_round log_fd ws random_mask frmbuf wlen buf w
            (frame_room ws (length buf))
            go_on
          ≡ go_on (wlen + wf.plen) wf (frm ∷ w))
        × (((1 ≤ wf.plen) × (wf.plen ≤ length buf))
            × ((length wf.buf ≡ ws.size)
                × ((fin : Bool) × (IsSent ws.size frm (take wf.plen buf) fin
                      × IsLast fin wf.plen (length buf)))))
  write_round-run frmbuf wlen buf w go_on e some_buf ok =
      let room : ℕ = ws.size - (hlen_min ws + ws_len_bytes (length buf)) in
      let mask : ℕ = (mask_for ws random_mask w).0 in
      let wf : WsFrame = next_frame ws (wlen == 0) mask frmbuf room buf in
      let (mask_ok, silent) = mask_for-IsMaskFor ws random_mask w source in
      let z : Sizes ws buf wf =
        next_frame-Sizes ws (wlen == 0) mask room frmbuf buf enough some_buf refl in
      let f : Filled ws.size mask buf wf =
        next_frame-Filled ws (wlen == 0) mask room frmbuf buf e in
      let mask_eq : wf.mask ≡ mask = next_frame-mask ws (wlen == 0) mask room frmbuf buf in
      let op-lt : wf.op < 256 = next_frame-op-lt ws (wlen == 0) mask room frmbuf buf in
      let (b, header) = header-some ws mask buf wf small mask_eq op-lt mask_ok z f in
      let buf_length : length wf.buf ≡ ws.size =
        length-buf ws mask buf wf small mask_eq op-lt mask_ok z f in
      let n : ℕ = wf.hlen + wf.plen in
      let b_length : length b ≡ ws.size = length-put_header wf b header ∙ buf_length in
      let safe : ltb ws.size (wf.hlen + wf.plen) ≡ false = ground (arith, z.fits) in
      let run : write_round log_fd ws random_mask frmbuf wlen buf w (frame_room ws (length buf))
            go_on
          ≡ go_on (wlen + wf.plen) wf (take (wf.hlen + wf.plen) b ∷ w) =
        ap (λ r. write_round log_fd ws random_mask frmbuf wlen buf w r go_on)
          (frame_room-some ws (length buf) enough)
        ∙ write_round-some ws random_mask frmbuf wlen room buf w go_on safe
        ∙ ap
            (λ v.
              after_write wlen (wf.hlen + wf.plen) (ws_write_frame log_fd wf v)
                (go_on (wlen + wf.plen) wf))
            silent
        ∙ ap (λ v. after_write wlen (wf.hlen + wf.plen) v (go_on (wlen + wf.plen) wf))
            (ws_write_frame-run wf b w header (omega (arith, b_length, z.fits)))
        ∙ after_write-run wlen (wf.hlen + wf.plen) (take (wf.hlen + wf.plen) b ∷ w)
            (go_on (wlen + wf.plen) wf) (omega (arith, z.some_bytes)) in
      (
        wf,
        take (wf.hlen + wf.plen) b,
        run,
        (
          (z.some_bytes, z.no_more),
          (
            buf_length,
            fin_cases wf.op (next_frame-fin ws (wlen == 0) mask room frmbuf buf) (λ fin.
                frame-IsSent ws mask buf wf small mask_eq op-lt mask_ok z f b fin ok header),
          ),
        ),
      )

  write_loop-Sent :
      (fuel : ℕ) (frmbuf : Bytes) (wlen : ℕ) (buf : Bytes) (w : List Bytes)
      → length buf ≤ fuel
      → length frmbuf ≡ ws.size
      → AreBytes buf
      → Sent ws.size wlen buf w (write_loop log_fd ws random_mask fuel frmbuf wlen buf w)
  unfolding write_loop
  write_loop-Sent fuel frmbuf wlen [] w h e ok = record {
    returned = ap Written.written (omega arith);
    message = sym (append-nil (message_of w));
    fit = λ a. a;
    wired = λ one. absurd (omega arith);
    unchanged = λ z. refl;
  }
  write_loop-Sent zero frmbuf wlen (x ∷ buf) w h e ok = absurd (omega (arith, h))
  write_loop-Sent (suc fuel) frmbuf wlen (x ∷ buf) w h e ok =
      let next : ℕ → WsFrame → List Bytes → Written × List Bytes =
        λ wlen' wf. write_loop log_fd ws random_mask fuel wf.buf wlen' (drop wf.plen (x ∷ buf)) in
      let (wf, frm, run, ((some_bytes, no_more), (buf_length, (fin, (frm_sent, is_last))))) =
        write_round-run frmbuf wlen (x ∷ buf) w next e (omega arith) ok in
      let rest : Sent ws.size (wlen + wf.plen) (drop wf.plen (x ∷ buf)) (frm ∷ w) (
          write_loop log_fd ws random_mask fuel wf.buf (wlen + wf.plen) (drop wf.plen (x ∷ buf))
            (frm ∷ w)) =
        write_loop-Sent fuel wf.buf (wlen + wf.plen) (drop wf.plen (x ∷ buf)) (frm ∷ w)
          (omega (arith, length-drop wf.plen (x ∷ buf), some_bytes, h)) buf_length
          (drop-AreBytes wf.plen (x ∷ buf) ok) in
      subst (Sent ws.size wlen (x ∷ buf) w) (sym run) (record {
        returned =
            rest.returned
            ∙ ap Written.written (omega (arith, length-drop wf.plen (x ∷ buf), no_more));
        message =
            rest.message
            ∙ append_assoc (message_of w) (payload_of frm) (drop wf.plen (x ∷ buf))
            ∙ ap (λ p. message_of w ++ (p ++ drop wf.plen (x ∷ buf)))
                (IsSent-payload_of ws.size frm (take wf.plen (x ∷ buf)) fin frm_sent)
            ∙ ap (λ p. message_of w ++ p) (take-append-drop wf.plen (x ∷ buf));
        fit = λ a. rest.fit (IsSent-length frm_sent, a);
        wired = λ one.
            Message-cons ws.size wf.plen frm (x ∷ buf) fin w
              (write_loop log_fd ws random_mask fuel wf.buf (wlen + wf.plen)
                (drop wf.plen (x ∷ buf)) (frm ∷ w)).1
              frm_sent is_last rest.wired (λ z. ap wire (rest.unchanged z));
        unchanged = λ z. absurd (omega (arith, ap length z));
      })

-- ws_write() with a frame buffer of 15 bytes or more, on a descriptor that takes all bytes, comes to
-- its end and returns the size of the message. Its safety check never fails: no frame is longer than
-- the frame buffer. The payloads that a receiver finds in the frames by ws_decode_len(), the mask and
-- ws_mask() are, one behind the other, the message. This holds for every source of masks that are not 0.
pub ws_write-message :
    (ws : Websocket) (random_mask : List Bytes → ℕ × List Bytes) (frmbuf buf : Bytes)
    → IsMaskSource random_mask
    → 15 ≤ ws.size
    → ws.size < 2 ^ 31
    → length frmbuf ≡ ws.size
    → AreBytes buf
    → ((ws_write log_fd ws random_mask frmbuf buf []).0 ≡ Written.written (length buf))
      × ((message_of (ws_write log_fd ws random_mask frmbuf buf []).1 ≡ buf)
          × AllFit ws.size (ws_write log_fd ws random_mask frmbuf buf []).1)
unfolding ws_write
ws_write-message ws random_mask frmbuf buf source enough small e ok =
    let sent : Sent ws.size 0 buf []
        (write_loop log_fd ws random_mask (length buf) frmbuf 0 buf []) =
      write_loop-Sent ws random_mask source enough small (length buf) frmbuf 0 buf [] (omega arith)
        e ok in
    (sent.returned ∙ ap Written.written (omega arith), (sent.message, sent.fit tt))

-- The frames that ws_write() sends.
pub ws_write-Message :
    (ws : Websocket) (random_mask : List Bytes → ℕ × List Bytes) (frmbuf buf : Bytes)
    → IsMaskSource random_mask
    → 15 ≤ ws.size
    → ws.size < 2 ^ 31
    → length frmbuf ≡ ws.size
    → AreBytes buf
    → 1 ≤ length buf
    → Message ws.size buf (wire (ws_write log_fd ws random_mask frmbuf buf []).1)
unfolding ws_write
ws_write-Message ws random_mask frmbuf buf source enough small e ok one =
    let sent : Sent ws.size 0 buf []
        (write_loop log_fd ws random_mask (length buf) frmbuf 0 buf []) =
      write_loop-Sent ws random_mask source enough small (length buf) frmbuf 0 buf [] (omega arith)
        e ok in
    let (out, eq, msg) = sent.wired one in subst (Message ws.size buf) (sym eq) msg
