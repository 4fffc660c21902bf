-- ===== src/Websocket/Write.antt =====
-- ws_write() of smrenderd/websocket.c, which cuts a message into frames.
pub mod Rounds
pub mod Prefix
pub mod Frames
pub mod Sent
pub mod Wire
pub mod Log
pub mod Complete
use smrender.Base.{
  ℕ, zero, suc, ◌+◌, ◌-◌, ◌%◌, Bool, ◌||◌, Option, none, some, [], ◌∷◌, ◌++◌, ltb, leb, ◌==◌,
  if◌then◌else◌, length, set, take, drop,
}
use smrender.Bstring.{Bytes}
use smrender.Websocket.{
  WsFrame, Fd, ws_hdr_minlen, or_mask_bit, ws_len_bytes, ws_mask, ws_write_frame,
}

-- websocket_t, of which the file descriptor is an argument of its own; `mask` is ws->mask != 0.
pub record Websocket : Type 0 where
  pub size : ℕ
  pub mask : Bool
  pub op : ℕ

-- ws_init
abbrev pub ws_init : ℕ → Bool → Websocket
ws_init size mask = record { size = size; mask = mask; op = 2 }

-- The byte that ws_len_bytes writes through len_code.
unfoldable pub len_code : ℕ → ℕ
len_code len = if leb len 125 then len else if leb len 0xffff then 0x7e else 0x7f

-- wf.hlen without the bytes of the length.
abbrev pub hlen_min : Websocket → ℕ
hlen_min ws = (if ws.mask then 4 else 0) + ws_hdr_minlen

-- ws->size - wf.hlen - hlen, the bytes of a message of `size` bytes that a frame has room for; none if
-- it is negative, and the call of memcpy() undefined.
unfoldable pub frame_room : Websocket → ℕ → Option ℕ
frame_room ws size =
    let hlen = hlen_min ws + ws_len_bytes size in
    if ltb ws.size hlen then none else some (ws.size - hlen)

-- The frame buffer with the payload behind the header.
unfoldable pub copy_payload : ℕ → Bytes → Bytes → Bytes
copy_payload hlen payload frmbuf =
    take hlen frmbuf ++ (payload ++ drop (hlen + length payload) frmbuf)

-- The frame for the next bytes of `buf`, of which it has `room` for so many; `first` is wlen == 0.
unfoldable pub next_frame : Websocket → Bool → ℕ → Bytes → ℕ → Bytes → WsFrame
next_frame ws first mask frmbuf room buf =
    let plen = if ltb room (length buf) then room else length buf in
    let hlen = hlen_min ws + ws_len_bytes plen in
    let coded = set (set frmbuf 1 (len_code (length buf))) 1 (len_code plen) in
    record {
      hlen = hlen;
      plen = plen;
      op = (if first then ws.op % 16 else 0) + (if ltb room (length buf) then 0 else 128);
      mask = mask;
      buf =
          copy_payload hlen (ws_mask (take plen buf) mask)
            (if ws.mask then or_mask_bit 1 coded else coded);
    }

-- How a call ends: the number it returns; -1; and, which are not in the code, undefined behaviour and
-- the end of the fuel.
pub data Written : Type 0 where
  written : ℕ → Written
  failed undefined no_fuel : Written

-- What is done with the result of ws_write_frame; the first result is that of a truncated write.
unfoldable pub after_write : {W : Type 0} → ℕ → ℕ → Option ℕ × W → (W → Written × W) → Written × W
after_write wlen size (none, w) go_on = (Written.failed, w)
after_write wlen size (some len, w) go_on =
    if (len == 0) || ltb len size then (Written.written wlen, w) else go_on w

-- ws_random_mask() is the parameter `random_mask`.
unfoldable pub mask_for : {W : Type 0} → Websocket → (W → ℕ × W) → W → ℕ × W
mask_for ws random_mask w = if ws.mask then random_mask w else (0, w)

-- A round behind the room: the safety check, the frame and its write.
unfoldable pub write_round :
    {W : Type 0}
    → Fd W
    → Websocket
    → (W → ℕ × W)
    → Bytes
    → ℕ
    → Bytes
    → W
    → Option ℕ
    → (ℕ → WsFrame → W → Written × W)
    → Written × W
write_round fd ws random_mask frmbuf wlen buf w none go_on = (Written.undefined, w)
write_round fd ws random_mask frmbuf wlen buf w (some room) go_on =
    let (mask, w') = mask_for ws random_mask w in
    let wf = next_frame ws (wlen == 0) mask frmbuf room buf in
    if ltb ws.size (wf.hlen + wf.plen)
    then (Written.failed, w)
    else after_write wlen (wf.hlen + wf.plen) (ws_write_frame fd wf w') (go_on (wlen + wf.plen) wf)

-- for (wlen = 0; size > 0; wlen += wf.plen), on fuel; what ws_write_frame() writes into the header is
-- not kept, since each round writes all of the header.
unfoldable pub write_loop :
    {W : Type 0} → Fd W → Websocket → (W → ℕ × W) → ℕ → Bytes → ℕ → Bytes → W → Written × W
write_loop fd ws random_mask fuel frmbuf wlen [] w = (Written.written wlen, w)
write_loop fd ws random_mask zero frmbuf wlen (x ∷ buf) w = (Written.no_fuel, w)
write_loop fd ws random_mask (suc fuel) frmbuf wlen (x ∷ buf) w =
    write_round fd ws random_mask frmbuf wlen (x ∷ buf) w (frame_room ws (length (x ∷ buf)))
      (λ wlen' wf. write_loop fd ws random_mask fuel wf.buf wlen' (drop wf.plen (x ∷ buf)))

-- ws_write: `frmbuf` is the array on the stack, of ws->size bytes.
unfoldable pub ws_write :
    {W : Type 0} → Fd W → Websocket → (W → ℕ × W) → Bytes → Bytes → W → Written × W
ws_write fd ws random_mask frmbuf buf w = write_loop fd ws random_mask (length buf) frmbuf 0 buf w
