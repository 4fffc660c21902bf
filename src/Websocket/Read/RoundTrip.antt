-- ===== src/Websocket/Read/RoundTrip.antt =====
-- ws_read() gives the message that ws_write() has sent.
use smrender.Base.{
  ℕ, zero, suc, ◌+◌, ◌-◌, ◌^◌, ◌≤◌, ◌<◌, ◌≡◌, refl, ap, ◌∙◌, Bool, true, false, List, [], ◌++◌,
  arith, ltb, leb, ◌==◌, if◌then◌else◌, ==_refl, length, length-append,
}
use smrender.Bstring.{Bytes}
use smrender.Websocket.{WsFrame}
use smrender.Websocket.Mask.{AreBytes}
use smrender.Websocket.Io.{Received}
use smrender.Websocket.Io.Whole.{IsChunk, stream_fd, ws_read_frame-put_header}
use smrender.Websocket.Write.{Websocket, ws_write}
use smrender.Websocket.Write.Rounds.{length-put_header}
use smrender.Websocket.Write.Sent.{IsSent}
use smrender.Websocket.Write.Wire.{wire, Message}
use smrender.Websocket.Write.Log.{log_fd, IsMaskSource, append_assoc}
use smrender.Websocket.Write.Complete.{ws_write-Message}
use smrender.Websocket.Read.{Joined, cut_plen, payload, after_frame, join_loop, ws_read}

-- A frame has two bytes or more.
IsSent-two : {size : ℕ} {frm part : Bytes} {fin : Bool} → IsSent size frm part fin → 2 ≤ length frm
IsSent-two {frm = frm} s =
    omega (arith, length-put_header s.frame frm s.header, s.exact, s.is_frame.hlen_exact)

-- A frame that fits into the rest of the buffer.
after_frame-received :
    {W : Type 0} (room : ℕ) (buf : Bytes) (wf : WsFrame) (w : W)
    (go_on : ℕ → Bytes → W → Joined × W)
    → wf.plen ≤ room
    → after_frame room buf (Received.received wf, w) go_on ≡ (
        if leb 128 wf.op
        then (Joined.joined (buf ++ payload wf.plen wf), w)
        else go_on (room - wf.plen) (buf ++ payload wf.plen wf) w)
unfolding after_frame cut_plen
after_frame-received room buf wf w go_on h =
    let fit : ltb room wf.plen ≡ false = ground arith in
    let all : (wf.hlen + wf.plen == wf.hlen + wf.plen) ≡ true = ==_refl (wf.hlen + wf.plen) in
    rw (fit, all) refl

module _ (chunk : ℕ → Bytes → ℕ) (is_chunk : IsChunk chunk) (size : ℕ)
    (int_size : size < 2 ^ 31) where
  round-run :
      {frm part : Bytes} {fin : Bool} (fuel room : ℕ) (buf rest : Bytes)
      → IsSent size frm part fin
      → length part ≤ room
      → join_loop (stream_fd chunk) size (suc fuel) room buf (frm ++ rest) ≡ (
          if fin
          then (Joined.joined (buf ++ part), rest)
          else join_loop (stream_fd chunk) size fuel (room - length part) (buf ++ part) rest)
  unfolding join_loop payload
  round-run {frm} {part} {fin} fuel room buf rest s h =
      let wf : WsFrame = record s.frame { buf = frm } in
      ap (λ r. after_frame room buf r (join_loop (stream_fd chunk) size fuel))
        (ws_read_frame-put_header chunk s.frame frm rest size is_chunk s.is_frame s.exact int_size
          s.fits s.header)
      ∙ after_frame-received room buf wf rest (join_loop (stream_fd chunk) size fuel)
          (omega (arith, s.plen_eq, h))
      ∙ ap
          (λ p.
            if leb 128 s.frame.op
            then (Joined.joined (buf ++ p), rest)
            else join_loop (stream_fd chunk) size fuel (room - s.frame.plen) (buf ++ p) rest)
          s.unmasked
      ∙ ap
          (λ n.
            if leb 128 s.frame.op
            then (Joined.joined (buf ++ part), rest)
            else join_loop (stream_fd chunk) size fuel (room - n) (buf ++ part) rest)
          s.plen_eq
      ∙ ap
          (λ c.
            if c
            then (Joined.joined (buf ++ part), rest)
            else join_loop (stream_fd chunk) size fuel (room - length part) (buf ++ part) rest)
          s.op_fin

  -- The frames of a message, behind what has been read.
  join_loop-Message :
      {msg out : Bytes} (fuel room : ℕ) (buf rest : Bytes)
      → Message size msg out
      → length out ≤ fuel
      → length msg ≤ room
      → join_loop (stream_fd chunk) size fuel room buf (out ++ rest)
        ≡ (Joined.joined (buf ++ msg), rest)
  join_loop-Message zero room buf rest (Message.last s) enough h =
      absurd (omega (arith, IsSent-two s, enough))
  join_loop-Message (suc fuel) room buf rest (Message.last s) enough h =
      round-run fuel room buf rest s h
  join_loop-Message zero room buf rest
        (Message.more {frm = frm} {payload = part} {buf = msg} {out = out} s m) enough h =
      absurd (omega (arith, IsSent-two s, length-append frm out, enough))
  join_loop-Message (suc fuel) room buf rest
        (Message.more {frm = frm} {payload = part} {buf = msg} {out = out} s m) enough h =
      ap (join_loop (stream_fd chunk) size (suc fuel) room buf) (append_assoc frm out rest)
      ∙ round-run fuel room buf (out ++ rest) s (omega (arith, h, length-append part msg))
      ∙ join_loop-Message fuel (room - length part) (buf ++ part) rest m
          (omega (arith, IsSent-two s, length-append frm out, enough))
          (omega (arith, h, length-append part msg))
      ∙ ap (λ b. (Joined.joined b, rest)) (append_assoc buf part msg)

-- The bytes that ws_write() sends for a message that is not empty, with a frame buffer of 15 bytes or
-- more, are read back as that message by ws_read() with a frame buffer of the same size and room for
-- the message: in whatever parts read() delivers the bytes, whatever follows them, of which nothing is
-- taken, and with a unit of fuel for each byte, or more.
pub ws_read-ws_write :
    (chunk : ℕ → Bytes → ℕ) (ws : Websocket) (random_mask : List Bytes → ℕ × List Bytes)
    (frmbuf buf rest : Bytes) (fuel size : ℕ)
    → IsChunk chunk
    → IsMaskSource random_mask
    → 15 ≤ ws.size
    → ws.size < 2 ^ 31
    → length frmbuf ≡ ws.size
    → AreBytes buf
    → 1 ≤ length buf
    → length buf ≤ size
    → length (wire (ws_write log_fd ws random_mask frmbuf buf []).1) ≤ fuel
    → ws_read
        (stream_fd chunk)
        ws.size
        fuel
        size
        (wire (ws_write log_fd ws random_mask frmbuf buf []).1 ++ rest)
      ≡ (Joined.joined buf, rest)
unfolding ws_read
ws_read-ws_write chunk ws random_mask frmbuf buf rest fuel size is_chunk source enough small e ok
      one room fueled =
    join_loop-Message chunk is_chunk ws.size small fuel size [] rest
      (ws_write-Message ws random_mask frmbuf buf source enough small e ok one) fueled room
