-- ===== src/Websocket/Read.antt =====
-- ws_read() of smrenderd/websocket.c, which joins the frames of a message.
pub mod RoundTrip
use smrender.Base.{ℕ, zero, suc, ◌+◌, ◌-◌, [], ◌++◌, ltb, leb, ◌==◌, if◌then◌else◌, take, drop}
use smrender.Bstring.{Bytes}
use smrender.Websocket.{WsFrame, Fd, ws_mask}
use smrender.Websocket.Io.{Received, ws_read_frame}

-- How a call ends: with the bytes in `buf`, of which it returns the number; -1; 0 at the end of the
-- file; and, which is not in the code, the end of the fuel.
pub data Joined : Type 0 where
  joined : Bytes → Joined
  failed end_of_file no_fuel : Joined

-- wf.plen, cut down to the room in the buffer.
unfoldable pub cut_plen : ℕ → WsFrame → ℕ
cut_plen room wf = if ltb room wf.plen then room else wf.plen

-- The bytes that are copied, unmasked.
unfoldable pub payload : ℕ → WsFrame → Bytes
payload plen wf = ws_mask (take plen (drop wf.hlen wf.buf)) wf.mask

-- What is done with the result of ws_read_frame: `go_on` is for a frame without WS_FIN.
unfoldable pub after_frame :
    {W : Type 0} → ℕ → Bytes → Received × W → (ℕ → Bytes → W → Joined × W) → Joined × W
after_frame room buf (Received.failed, w) go_on = (Joined.failed, w)
after_frame room buf (Received.end_of_file, w) go_on = (Joined.end_of_file, w)
after_frame room buf (Received.no_fuel, w) go_on = (Joined.no_fuel, w)
after_frame room buf (Received.received wf, w) go_on =
    let plen = cut_plen room wf in
    let buf' = buf ++ payload plen wf in
    if wf.hlen + plen == wf.hlen + wf.plen
    then if leb 128 wf.op then (Joined.joined buf', w) else go_on (room - plen) buf' w
    else (Joined.failed, w)

-- for (rlen = 0; !(wf.op & WS_FIN); rlen += wf.plen), a round for each unit of fuel; `frm` is ws->size,
-- `room` what is left of the size of the buffer and `buf` what it holds.
unfoldable pub join_loop : {W : Type 0} → Fd W → ℕ → ℕ → ℕ → Bytes → W → Joined × W
join_loop fd frm zero room buf w = (Joined.no_fuel, w)
join_loop fd frm (suc fuel) room buf w =
    after_frame room buf (ws_read_frame fd frm w) (join_loop fd frm fuel)

-- ws_read, with `fuel` frames at most
unfoldable pub ws_read : {W : Type 0} → Fd W → ℕ → ℕ → ℕ → W → Joined × W
ws_read fd frm fuel size w = join_loop fd frm fuel size [] w
