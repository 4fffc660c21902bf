-- ===== src/Tests/Frames.antt =====
-- Runs on frames of the websocket.
use smrender.Base.{
  ℕ, ◌≤◌, ◌≡◌, refl, ◌≢◌, inl, inr, true, Option, some, List, [], ◌∷◌, ◌++◌, arith, length, take,
  drop, replicate, subst, length-take,
}
use smrender.Bstring.{Bytes}
use smrender.Websocket.{
  put_len, put_bytes, or_mask_bit, WsFrame, Fd, put_header, ws_len_bytes, ws_decode_len,
  decode_long, with_mask, ws_pld_len, read_mask,
}
use smrender.Websocket.Frame.{IsFrame}
use smrender.Websocket.Mask.{AreBytes}
use smrender.Websocket.Write.{Websocket, Written, ws_init, ws_write}
use smrender.Websocket.Write.Log.{log_fd, message_of, AllFit, IsMaskSource}
use smrender.Websocket.Write.Complete.{ws_write-message}
use smrender.Websocket.Io.{
  Received, ws_read_frame, read_loop, advance, decoded, decoded_int, to_int, need_rest, after_read,
  received_frame,
}
use smrender.Websocket.Io.Whole.{IsChunk, stream_fd, ws_read_frame-put_header}
use smrender.Websocket.Write.Wire.{wire}
use smrender.Websocket.Read.{Joined, ws_read}
use smrender.Websocket.Read.RoundTrip.{ws_read-ws_write}
use smrender.Websocket.Io.Returns.{ReadsAtMost, ws_read_frame-Ends}

-- A masked frame of two bytes.
abbrev frame : WsFrame
frame = record {
  hlen = 6;
  plen = 2;
  op = 0x82;
  mask = 0x01020304;
  buf = 0 ∷ 0 ∷ 0 ∷ 0 ∷ 0 ∷ 0 ∷ 97 ∷ 98 ∷ [];
}

frame-IsFrame : IsFrame frame
unfolding ws_len_bytes
frame-IsFrame = record {
  hlen_exact = refl;
  fits = omega arith;
  plen-lt = omega arith;
  mask-lt = omega arith;
  op-lt = omega arith;
}

-- A descriptor whose other end has sent the bytes that are the state.
abbrev stream : Fd Bytes
stream = record { write = λ b w. (some (length b), w); read = λ n w. (some (take n w), drop n w) }

take_at_most : (n : ℕ) (w : Bytes) → length (take n w) ≤ n
take_at_most n w = omega (arith, length-take n w)

read_inj {ℓ κ} :
    {A : Type ℓ} {B : Type κ} {a b : A} {x y : B}
    → ◌≡◌ {A = Option A × B} (some a, x) (some b, y)
    → a ≡ b
read_inj e = ground arith

stream-ReadsAtMost : ReadsAtMost stream
stream-ReadsAtMost n w w' r e = subst (λ b. length b ≤ n) (read_inj e) (take_at_most n w)

ws_read_frame-Ends_example : (ws_read_frame stream 8 (0x82 ∷ 1 ∷ 97 ∷ [])).0 ≢ Received.no_fuel
ws_read_frame-Ends_example = ws_read_frame-Ends stream 8 (0x82 ∷ 1 ∷ 97 ∷ []) stream-ReadsAtMost

-- A message of five bytes through a frame buffer of 15 bytes, with masks.
abbrev small_socket : Websocket
small_socket = ws_init 15 true

abbrev message : Bytes
message = 104 ∷ 101 ∷ 108 ∷ 108 ∷ 111 ∷ []

abbrev same_mask : List Bytes → ℕ × List Bytes
same_mask w = (0x01020304, w)

same_mask-IsMaskSource : IsMaskSource same_mask
same_mask-IsMaskSource = record {
  not_zero = λ w e. ground (arith, e);
  bounded = λ w. omega arith;
  silent = λ w. refl;
}

message-AreBytes : AreBytes message
message-AreBytes x (inl e) = omega (arith, e)
message-AreBytes x (inr (inl e)) = omega (arith, e)
message-AreBytes x (inr (inr (inl e))) = omega (arith, e)
message-AreBytes x (inr (inr (inr (inl e)))) = omega (arith, e)
message-AreBytes x (inr (inr (inr (inr (inl e))))) = omega (arith, e)
message-AreBytes x (inr (inr (inr (inr (inr e))))) = absurd e

ws_write-message_example :
    ((ws_write log_fd small_socket same_mask (replicate 15 0) message []).0 ≡ Written.written 5)
    × ((message_of (ws_write log_fd small_socket same_mask (replicate 15 0) message []).1 ≡ message)
        × AllFit 15 (ws_write log_fd small_socket same_mask (replicate 15 0) message []).1)
ws_write-message_example =
    ws_write-message small_socket same_mask (replicate 15 0) message same_mask-IsMaskSource
      (omega arith) (omega arith) refl message-AreBytes

-- Byte by byte, with a byte of the next frame behind the frame.
abbrev single : ℕ → Bytes → ℕ
single n w = 1

single-IsChunk : IsChunk single
single-IsChunk n w h = (omega arith, h)

abbrev frame_bytes : Bytes
frame_bytes = 0x82 ∷ 0x82 ∷ 1 ∷ 2 ∷ 3 ∷ 4 ∷ 97 ∷ 98 ∷ []

frame-put_header : put_header frame ≡ some frame_bytes
unfolding put_header put_len put_bytes or_mask_bit
frame-put_header = refl

ws_read_frame-put_header_example :
    ws_read_frame (stream_fd single) 16 (frame_bytes ++ 0x81 ∷ [])
    ≡ (Received.received (record frame { buf = frame_bytes }), 0x81 ∷ [])
ws_read_frame-put_header_example =
    ws_read_frame-put_header single frame frame_bytes (0x81 ∷ []) 16 single-IsChunk frame-IsFrame
      refl (omega arith) (omega arith) frame-put_header

ws_read-ws_write_example :
    ws_read
      (stream_fd single)
      15
      (length (wire (ws_write log_fd small_socket same_mask (replicate 15 0) message []).1))
      5
      (wire (ws_write log_fd small_socket same_mask (replicate 15 0) message []).1 ++ 0x81 ∷ [])
    ≡ (Joined.joined message, 0x81 ∷ [])
ws_read-ws_write_example =
    ws_read-ws_write single small_socket same_mask (replicate 15 0) message (0x81 ∷ [])
      (length (wire (ws_write log_fd small_socket same_mask (replicate 15 0) message []).1)) 5
      single-IsChunk same_mask-IsMaskSource (omega arith) (omega arith) refl message-AreBytes
      (omega arith) (omega arith) (omega arith)

-- Of a masked frame that announces 2^31 - 1 bytes the first 10 bytes are taken for all of it.
abbrev long_header : Bytes
long_header = 0x82 ∷ 0xff ∷ 0 ∷ 0 ∷ 0 ∷ 0 ∷ 0x7f ∷ 0xff ∷ 0xff ∷ 0xff ∷ []

wrapped_int : ws_read_frame (stream_fd single) 16 (long_header ++ 1 ∷ []) ≡ (
  Received.received (record {
    hlen = 14;
    plen = 0x7fffffff;
    op = 0x82;
    mask = read_mask long_header 14;
    buf = long_header;
  }),
  1 ∷ [],
)
unfolding ws_read_frame read_loop advance decoded decoded_int to_int need_rest after_read
    received_frame ws_decode_len decode_long with_mask ws_pld_len read_mask
wrapped_int = refl
