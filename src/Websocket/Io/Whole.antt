-- ===== src/Websocket/Io/Whole.antt =====
-- ws_read_frame() gives the frame that was sent, in whatever parts read() delivers it.
use smrender.Base.{
  ℕ, zero, suc, ◌+◌, ◌-◌, ◌^◌, ◌≤◌, ◌<◌, ◌≡◌, refl, sym, ap, ◌∙◌, inl, inr, false, some, [], ◌∷◌,
  ◌++◌, arith, ltb, ◌==◌, ==_iff, Bool-cases, length, get_or, take, drop, length-append,
  length-take, length-drop, some_inj,
}
use smrender.Bstring.{Bytes}
use smrender.Websocket.{WsFrame, Fd, Decoded, ws_hdr_minlen, ws_decode_len, read_mask, put_header}
use smrender.Websocket.Frame.{IsFrame, ws_decode_len-put_header}
use smrender.Websocket.Io.{
  Received, Reading, advance, after_read, read_loop, received_frame, ws_read_frame,
}
use smrender.Websocket.Write.Rounds.{length-put_header}
use smrender.Websocket.Write.Prefix.{take_whole, drop_whole}
use smrender.Websocket.Io.Position.{IsAt, take_more, drop_more, advance-IsAt, IsAt-buf, IsAt-need}
use smrender.Websocket.Io.Partial.{ws_decode_len-two}

-- A descriptor from which the bytes that are the state are read; `chunk` says how many at a time.
abbrev pub stream_fd : (ℕ → Bytes → ℕ) → Fd Bytes
stream_fd chunk = record {
  write = λ b w. (some (length b), w);
  read = λ n w. (some (take (chunk n w) w), drop (chunk n w) w);
}

-- read() delivers a byte at least, and no more than it is asked for.
abbrev pub IsChunk : (ℕ → Bytes → ℕ) → Type 0
IsChunk chunk = (n : ℕ) (w : Bytes) → 1 ≤ n → (1 ≤ chunk n w) × (chunk n w ≤ n)

after_read-run :
    {W : Type 0} (r : Bytes) (w : W) (go_on : Bytes → W → Received × W)
    → 1 ≤ length r
    → after_read (some r, w) go_on ≡ go_on r w
unfolding after_read
after_read-run [] w go_on h = absurd (omega (arith, h))
after_read-run (x ∷ r) w go_on h = refl

read_loop-done :
    {W : Type 0} (fd : Fd W) (fuel size : ℕ) (st : Reading) (w : W)
    → st.need ≡ 0
    → read_loop fd fuel size st w ≡ (Received.received (received_frame st.buf st.hlen st.plen), w)
unfolding read_loop
read_loop-done fd zero size st w e = rw e refl
read_loop-done fd (suc fuel) size st w e = rw e refl

read_loop-round :
    {W : Type 0} (fd : Fd W) (fuel size : ℕ) (st : Reading) (w : W)
    → (st.need == 0) ≡ false
    → ltb (size - length st.buf) st.need ≡ false
    → read_loop fd (suc fuel) size st w
      ≡ after_read
          (fd.read st.need w)
          (λ r w'. read_loop fd fuel size (advance st (st.buf ++ r)) w')
unfolding read_loop
read_loop-round fd fuel size st w e f = rw (e, f) refl

received-eq :
    (wf : WsFrame) (b : Bytes)
    → get_or b 0 0 ≡ wf.op
    → read_mask b wf.hlen ≡ wf.mask
    → received_frame b wf.hlen wf.plen ≡ record wf { buf = b }
unfolding received_frame
received-eq wf b op msk = rw (op, msk) refl

module _ (chunk : ℕ → Bytes → ℕ) (is_chunk : IsChunk chunk) (b rest : Bytes) (hlen plen size : ℕ)
    (two : 2 ≤ length b) (dec : ws_decode_len b ≡ Decoded.lengths hlen plen)
    (len : length b ≡ hlen + plen) (small : hlen + plen < 2 ^ 31) (fits : length b ≤ size) where
  -- The end of the loop.
  done-IsAt :
      (k : ℕ) (st : Reading)
      → IsAt b hlen plen k st
      → st.need ≡ 0
      → (received_frame st.buf st.hlen st.plen ≡ received_frame b hlen plen) × (k ≡ hlen + plen)
  done-IsAt k st (IsAt.looks e eh need room) z = absurd (omega (arith, need, z))
  done-IsAt k st (IsAt.knows e eh ep en le) z =
      let all : k ≡ hlen + plen = omega (arith, en, z, le) in
      (
        ap (λ x. received_frame x st.hlen st.plen) (e ∙ take_whole k b (omega (arith, all, len)))
            ∙ ap (λ h. received_frame b h st.plen) eh
            ∙ ap (received_frame b hlen) ep,
        all,
      )

  finished :
      (k : ℕ) (st : Reading)
      → IsAt b hlen plen k st
      → st.need ≡ 0
      → ◌≡◌ {A = Received × Bytes}
          (Received.received (received_frame st.buf st.hlen st.plen), drop k b ++ rest)
          (Received.received (received_frame b hlen plen), rest)
  finished k st at z =
      let (frame, all) = done-IsAt k st at z in
      ap (λ f. (Received.received f, drop k b ++ rest)) frame
      ∙ ap (λ w. (Received.received (received_frame b hlen plen), w))
          (ap (λ x. x ++ rest) (drop_whole k b (len ∙ sym all)))

  read_loop-run :
      (fuel k : ℕ) (st : Reading)
      → length b ≤ fuel + k
      → IsAt b hlen plen k st
      → read_loop (stream_fd chunk) fuel size st (drop k b ++ rest)
        ≡ (Received.received (received_frame b hlen plen), rest)
  read_loop-run zero k st enough at =
      let z : st.need ≡ 0 = omega (arith, IsAt-need b hlen plen k st at, enough, len) in
      read_loop-done (stream_fd chunk) zero size st (drop k b ++ rest) z ∙ finished k st at z
  read_loop-run (suc fuel) k st enough at = elim (Bool-cases (st.need == 0)) [
    | inl e ↦
        let z : st.need ≡ 0 = (==_iff st.need 0).0 e in
        read_loop-done (stream_fd chunk) (suc fuel) size st (drop k b ++ rest) z
        ∙ finished k st at z
    | inr e ↦
        let w : Bytes = drop k b ++ rest in
        let c : ℕ = chunk st.need (drop k b ++ rest) in
        let needs : 1 ≤ st.need = ground arith in
        let (some_bytes, no_more) = is_chunk st.need (drop k b ++ rest) needs in
        let room : k + st.need ≤ hlen + plen = IsAt-need b hlen plen k st at in
        let buf_length : length st.buf ≡ k =
          ap length (IsAt-buf b hlen plen k st at) ∙ omega (arith, length-take k b, room, len) in
        let fit : ltb (size - length st.buf) st.need ≡ false =
          ground (arith, buf_length, room, len, fits) in
        let there : k + c ≤ length b = omega (arith, no_more, room, len) in
        let read_length : 1 ≤ length (take c (drop k b ++ rest)) = omega (
          arith,
          length-take c (drop k b ++ rest),
          length-append (drop k b) rest,
          length-drop k b,
          some_bytes,
          there,
        ) in
        let new : st.buf ++ take c (drop k b ++ rest) ≡ take (k + c) b =
          ap (λ x. x ++ take c (drop k b ++ rest)) (IsAt-buf b hlen plen k st at)
          ∙ take_more k c (k + c) b rest refl there in
        read_loop-round (stream_fd chunk) fuel size st (drop k b ++ rest) e fit
        ∙ after_read-run (take c (drop k b ++ rest)) (drop c (drop k b ++ rest))
            (λ r w'. read_loop (stream_fd chunk) fuel size (advance st (st.buf ++ r)) w')
            read_length
        ∙ ap (λ x. read_loop (stream_fd chunk) fuel size (advance st x) (drop c (drop k b ++ rest)))
            new
        ∙ ap (read_loop (stream_fd chunk) fuel size (advance st (take (k + c) b)))
            (drop_more k c (k + c) b rest refl there)
        ∙ read_loop-run fuel (k + c) (advance st (take (k + c) b))
            (omega (arith, enough, some_bytes))
            (advance-IsAt b hlen plen k (k + c) st two dec len small there at)
  ]

  -- From the start.
  ws_read_frame-run :
      ws_read_frame (stream_fd chunk) size (b ++ rest)
      ≡ (Received.received (received_frame b hlen plen), rest)
  unfolding ws_read_frame
  ws_read_frame-run =
      read_loop-run (size + 1) 0 (record { need = ws_hdr_minlen; hlen = 0; plen = 0; buf = [] })
        (omega (arith, fits))
        (IsAt.looks refl refl (omega arith) (ws_decode_len-two b hlen plen two dec))

-- A frame as ws_write() sets it up, in a buffer of its own length: if its bytes with the header of
-- ws_write_frame() are what read() delivers, in whatever parts and whatever follows, ws_read_frame()
-- with a buffer of the size of the frame or more, which is an int, gives the frame with its lengths, its opcode and its
-- mask, and takes no byte of what follows.
pub ws_read_frame-put_header :
    (chunk : ℕ → Bytes → ℕ) (wf : WsFrame) (b rest : Bytes) (size : ℕ)
    → IsChunk chunk
    → IsFrame wf
    → length wf.buf ≡ wf.hlen + wf.plen
    → size < 2 ^ 31
    → wf.hlen + wf.plen ≤ size
    → put_header wf ≡ some b
    → ws_read_frame (stream_fd chunk) size (b ++ rest)
      ≡ (Received.received (record wf { buf = b }), rest)
ws_read_frame-put_header chunk wf b rest size is_chunk ok e small fits header =
    let (b', (header', (dec, (msk, (op, same))))) = ws_decode_len-put_header wf ok in
    let b_eq : b' ≡ b = some_inj (sym header' ∙ header) in
    let len : length b ≡ wf.hlen + wf.plen = length-put_header wf b header ∙ e in
    ws_read_frame-run chunk is_chunk b rest wf.hlen wf.plen size (omega (arith, len, ok.hlen_exact))
      (sym (ap ws_decode_len b_eq) ∙ dec) len (omega (arith, small, fits))
      (omega (arith, len, fits))
    ∙ ap (λ f. (Received.received f, rest))
        (received-eq wf b (sym (ap (λ x. get_or x 0 0) b_eq) ∙ op)
          (sym (ap (λ x. read_mask x wf.hlen) b_eq) ∙ msk))
