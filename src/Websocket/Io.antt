-- ===== src/Websocket/Io.antt =====
-- The loops of smrenderd/websocket.c around read() and write(). `Fd` is the file descriptor.
pub mod Returns
pub mod Partial
pub mod Position
pub mod Whole
use smrender.Base.{
  ℕ, zero, suc, ◌+◌, ◌-◌, ◌%◌, ◌^◌, Option, none, some, [], ◌∷◌, ◌++◌, ltb, ◌==◌, if◌then◌else◌,
  length, get_or, ℤ, pos, negsuc,
}
use smrender.Bstring.{Bytes}
use smrender.Websocket.{WsFrame, Fd, Decoded, ws_hdr_minlen, ws_decode_len, read_mask}

-- The int of ws_read_frame to which an int64_t is assigned: 32 bits, with sign.
unfoldable pub to_int : ℕ → ℤ
to_int n = let k = n % 2 ^ 32 in if ltb k (2 ^ 31) then pos k else negsuc (2 ^ 32 - k - 1)

-- need_data = wf->hlen + wf->plen - wf->len, an int for a sum below 2^32: a negative one, as the sum is
-- from 2^31 on or if it is below 0, ends the loop as 0 does.
unfoldable pub need_rest : ℕ → ℕ → ℕ → ℕ
need_rest hlen plen len = let n = hlen + plen - len in if ltb n (2 ^ 31) then n else 0

-- How a call ends: -1; 0 for the end of the file; the frame; and, which is not in the code, the end
-- of the fuel.
pub data Received : Type 0 where
  failed end_of_file no_fuel : Received
  received : WsFrame → Received

-- The frame behind the loop.
unfoldable pub received_frame : Bytes → ℕ → ℕ → WsFrame
received_frame buf hlen plen = record {
  hlen = hlen;
  plen = plen;
  op = get_or buf 0 0;
  mask = read_mask buf hlen;
  buf = buf;
}

-- The variables of the loop: need_data, wf->hlen (0 while it is not known), wf->plen, the bytes read.
pub record Reading : Type 0 where
  pub need : ℕ
  pub hlen : ℕ
  pub plen : ℕ
  pub buf : Bytes

-- need_data = ws_decode_len(...), and the test whether it is negative, in which case the loop goes on
-- with wf->hlen as it is: this is so, too, for a length that is negative as an int.
unfoldable pub decoded_int : ℕ → ℤ → Bytes → Reading
decoded_int hlen (pos p) buf = record {
  need = need_rest hlen p (length buf);
  hlen = hlen;
  plen = p;
  buf = buf;
}
decoded_int hlen (negsuc p) buf = record { need = p + 1; hlen = hlen; plen = 0; buf = buf }

unfoldable pub decoded : Decoded → Bytes → Reading
unfolding decoded_int
decoded (Decoded.missing k) buf = record { need = k; hlen = 0; plen = 0; buf = buf }
decoded (Decoded.lengths hlen plen) buf = decoded_int hlen (to_int plen) buf

-- The rest of a round, of which `buf` are the bytes read with the new ones.
unfoldable pub advance : Reading → Bytes → Reading
unfolding decoded
advance st buf = if st.hlen == 0 then decoded (ws_decode_len buf) buf else record {
  need = need_rest st.hlen st.plen (length buf);
  hlen = st.hlen;
  plen = st.plen;
  buf = buf;
}

-- What is done with the result of read().
unfoldable pub after_read :
    {W : Type 0} → Option Bytes × W → (Bytes → W → Received × W) → Received × W
after_read (none, w) go_on = (Received.failed, w)
after_read (some [], w) go_on = (Received.end_of_file, w)
after_read (some (x ∷ xs), w) go_on = go_on (x ∷ xs) w

-- for (need_data = WS_HDR_MINLEN; need_data > 0;), a round for each unit of fuel.
unfoldable pub read_loop : {W : Type 0} → Fd W → ℕ → ℕ → Reading → W → Received × W
unfolding received_frame after_read advance
read_loop fd zero size st w = (
  if st.need == 0
      then Received.received (received_frame st.buf st.hlen st.plen)
      else Received.no_fuel,
  w,
)
read_loop fd (suc fuel) size st w =
    let round =
      after_read (fd.read st.need w)
        (λ r w'. read_loop fd fuel size (advance st (st.buf ++ r)) w') in
    if st.need == 0
    then (Received.received (received_frame st.buf st.hlen st.plen), w)
    else if ltb (size - length st.buf) st.need
    then (Received.failed, w)
    else round

-- ws_read_frame: each round reads a byte of `size` at least, which `size + 1` rounds are enough for.
unfoldable pub ws_read_frame : {W : Type 0} → Fd W → ℕ → W → Received × W
unfolding read_loop
ws_read_frame fd size w =
    read_loop fd (size + 1) size (record { need = ws_hdr_minlen; hlen = 0; plen = 0; buf = [] }) w
