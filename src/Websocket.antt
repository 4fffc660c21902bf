-- ===== src/Websocket.antt =====
-- smrenderd/websocket.c: the frames of RFC 6455. A buffer is the list of its bytes, a write behind
-- its end, which the C code must not do, has no effect. An int that holds a length is not negative.
mod Xor
pub mod Digits
pub mod Mask
pub mod Decode
pub mod Masked
pub mod Encoded
pub mod Frame
pub mod Io
pub mod Write
pub mod Read
use smrender.Base.{
  ℕ, zero, suc, ◌+◌, ◌-◌, ◌*◌, ◌/◌, ◌%◌, ◌^◌, Option, none, some, [], ◌∷◌, ltb, leb, ◌==◌,
  if◌then◌else◌, length, set, get_or, take,
}
use Prim.Native.Nat.{bit_xor}
use smrender.Bstring.{Bytes}

-- ws_frame_t; the mask as its 32 bits without sign, so that 0 is 0.
pub record WsFrame : Type 0 where
  pub hlen : ℕ
  pub plen : ℕ
  pub op : ℕ
  pub mask : ℕ
  pub buf : Bytes

abbrev pub ws_hdr_minlen : ℕ
ws_hdr_minlen = 2

-- ((char*) &mask)[i % 4] of the mask in network byte order.
unfoldable pub mask_byte : ℕ → ℕ → ℕ
mask_byte mask i = mask / 2 ^ (8 * (3 - i % 4)) % 256

-- for (int i = 0; i < size; i++), from `i` on
unfoldable pub mask_loop : ℕ → ℕ → Bytes → Bytes
mask_loop mask i [] = []
mask_loop mask i (x ∷ buf) = bit_xor x (mask_byte mask i) ∷ mask_loop mask (i + 1) buf

-- ws_mask, of a buffer of `size` bytes
unfoldable pub ws_mask : Bytes → ℕ → Bytes
unfolding mask_loop
ws_mask buf mask = if mask == 0 then buf else mask_loop mask 0 buf

-- for (i = last; ...; i--, v >>= 8) buf[i] = v, `cnt` times
unfoldable pub put_bytes : ℕ → ℕ → ℕ → Bytes → Bytes
put_bytes zero last v buf = buf
put_bytes (suc cnt) last v buf = put_bytes cnt (last - 1) (v / 256) (set buf last (v % 256))

-- The length in the header.
unfoldable pub put_len : ℕ → Bytes → Bytes
unfolding put_bytes
put_len plen buf =
    if leb plen 125
    then set buf 1 plen
    else if ltb plen 0x10000
    then set (set (set buf 1 0x7e) 2 (plen / 256 % 256)) 3 (plen % 256)
    else put_bytes 8 9 plen (set buf 1 0x7f)

-- buf[i] |= WS_MASK
unfoldable pub or_mask_bit : ℕ → Bytes → Bytes
or_mask_bit i buf = set buf i (get_or buf i 0 % 128 + 128)

-- The header that ws_write_frame writes into the buffer; none where it fails with EINVAL.
unfoldable pub put_header : WsFrame → Option Bytes
put_header wf =
    let buf = set (put_len wf.plen wf.buf) 0 (wf.op % 256) in
    if wf.mask == 0
    then some buf
    else if ltb wf.hlen 4
    then none
    else some (put_bytes 4 (wf.hlen - 1) wf.mask (or_mask_bit 1 buf))

-- The other end of the file descriptor: write() takes a prefix of the bytes, as long as it says,
-- or fails; read() gives at most as many bytes as it is asked for, or fails.
pub record Fd (W : Type 0) : Type 0 where
  pub write : Bytes → W → Option ℕ × W
  pub read : ℕ → W → Option Bytes × W

-- The result of write(), against the length of the frame.
unfoldable pub check_written : ℕ → Option ℕ → Option ℕ
check_written size none = none
check_written size (some wlen) = if ltb wlen size then none else some wlen

-- The part of ws_write_frame behind the header.
unfoldable pub write_buf : {W : Type 0} → Fd W → ℕ → Option Bytes → W → Option ℕ × W
unfolding check_written
write_buf fd size none w = (none, w)
write_buf fd size (some buf) w =
    let (wlen, w') = fd.write (take size buf) w in (check_written size wlen, w')

-- ws_write_frame; -1 is none.
unfoldable pub ws_write_frame : {W : Type 0} → Fd W → WsFrame → W → Option ℕ × W
unfolding put_header write_buf
ws_write_frame fd wf w = write_buf fd (wf.hlen + wf.plen) (put_header wf) w

-- ws_len_bytes of a length that is not negative
unfoldable pub ws_len_bytes : ℕ → ℕ
ws_len_bytes len = if leb len 125 then 0 else if leb len 0xffff then 2 else 8

-- ws_pld_len, on int64_t without the sign
unfoldable pub ws_pld_len : Bytes → ℕ → ℕ → ℕ → ℕ
ws_pld_len buf i zero plen = plen
ws_pld_len buf i (suc cnt) plen =
    ws_pld_len buf (i + 1) cnt ((plen * 256 + get_or buf i 0) % 2 ^ 64)

-- What ws_decode_len finds: too few bytes, by how many, or the lengths of header and payload, the
-- latter as the 64 bits of an int64_t.
pub data Decoded : Type 0 where
  missing : ℕ → Decoded
  lengths : ℕ → ℕ → Decoded

-- hlen + (buf[1] & WS_MASK ? 4 : 0)
unfoldable pub with_mask : ℕ → ℕ → ℕ
with_mask b hlen = if leb 128 b then hlen + 4 else hlen

-- The part of ws_decode_len for a length of `cnt` bytes behind the first two.
unfoldable pub decode_long : Bytes → ℕ → Decoded
unfolding with_mask ws_pld_len
decode_long buf cnt =
    let hlen = ws_hdr_minlen + cnt in
    if ltb (length buf) hlen
    then missing (hlen - length buf)
    else lengths (with_mask (get_or buf 1 0) hlen) (ws_pld_len buf ws_hdr_minlen cnt 0)

-- ws_decode_len of the bytes read up to now
unfoldable pub ws_decode_len : Bytes → Decoded
unfolding decode_long
ws_decode_len buf =
    let code = get_or buf 1 0 % 128 in
    if ltb (length buf) ws_hdr_minlen
    then missing (ws_hdr_minlen - length buf)
    else if code == 0x7e
    then decode_long buf 2
    else if code == 0x7f
    then decode_long buf 8
    else lengths (with_mask (get_or buf 1 0) ws_hdr_minlen) code

-- The mask of a frame: ntohl of the last four bytes of the header.
unfoldable pub read_mask : Bytes → ℕ → ℕ
unfolding ws_pld_len
read_mask buf hlen = if leb 128 (get_or buf 1 0) then ws_pld_len buf (hlen - 4) 4 0 else 0
