-- ===== src/Websocket/Write/Log.antt =====
-- A round of ws_write() on a descriptor that keeps all frames.
use smrender.Base.{
  ℕ, zero, suc, ◌+◌, ◌^◌, ◌≤◌, ◌<◌, ◌≡◌, refl, ap, ◌≢◌, inl, inr, false, none, some, List, [], ◌∷◌,
  ◌++◌, arith, ltb, ◌==◌, Bool-cases, length, take, drop, length-take,
}
use smrender.Bstring.{Bytes}
use smrender.Websocket.{WsFrame, Fd, check_written, write_buf, put_header, ws_write_frame}
use smrender.Websocket.Mask.{AreBytes}
use smrender.Websocket.Write.{Websocket, next_frame, Written, after_write, mask_for, write_round}
use smrender.Websocket.Write.Frames.{payload_of, IsMaskFor}

-- A descriptor that takes all bytes; its state is the frames, the last one first.
abbrev pub log_fd : Fd (List Bytes)
log_fd = record { write = λ b w. (some (length b), b ∷ w); read = λ n w. (none, w) }

-- The payloads of the frames.
abbrev pub message_of : List Bytes → Bytes
message_of [] = []
message_of (b ∷ w) = message_of w ++ payload_of b

abbrev pub AllFit : ℕ → List Bytes → Type 0
AllFit size [] = Unit
AllFit size (b ∷ w) = (length b ≤ size) × AllFit size w

-- A source of masks that are not 0 and have 32 bits.
pub record IsMaskSource (random_mask : List Bytes → ℕ × List Bytes) : Type 0 where
  pub not_zero : (w : List Bytes) → (random_mask w).0 ≢ 0
  pub bounded : (w : List Bytes) → (random_mask w).0 < 2 ^ 32
  pub silent : (w : List Bytes) → (random_mask w).1 ≡ w

pub mask_for-IsMaskFor :
    (ws : Websocket) (random_mask : List Bytes → ℕ × List Bytes) (w : List Bytes)
    → IsMaskSource random_mask
    → IsMaskFor ws (mask_for ws random_mask w).0 × ((mask_for ws random_mask w).1 ≡ w)
unfolding mask_for
mask_for-IsMaskFor ws random_mask w source = elim (Bool-cases ws.mask) [
  | inl e ↦
      let ne : ((random_mask w).0 == 0) ≡ false = ground (arith, source.not_zero w) in
      rw e ((ne, source.bounded w), source.silent w)
  | inr e ↦ rw e ((refl, omega arith), refl)
]

pub ws_write_frame-run :
    (wf : WsFrame) (b : Bytes) (w : List Bytes)
    → put_header wf ≡ some b
    → wf.hlen + wf.plen ≤ length b
    → ws_write_frame log_fd wf w ≡ (some (wf.hlen + wf.plen), take (wf.hlen + wf.plen) b ∷ w)
unfolding ws_write_frame write_buf check_written
ws_write_frame-run wf b w e h =
    let l : length (take (wf.hlen + wf.plen) b) ≡ wf.hlen + wf.plen =
      omega (arith, length-take (wf.hlen + wf.plen) b, h) in
    let n : ltb (wf.hlen + wf.plen) (wf.hlen + wf.plen) ≡ false = ground arith in rw (e, l, n) refl

pub after_write-run :
    (wlen size : ℕ) (w : List Bytes) (go_on : List Bytes → Written × List Bytes)
    → 1 ≤ size
    → after_write wlen size (some size, w) go_on ≡ go_on w
unfolding after_write
after_write-run wlen size w go_on h =
    let z : (size == 0) ≡ false = ground arith in
    let n : ltb size size ≡ false = ground arith in rw (z, n) refl

pub append_assoc : (xs ys zs : Bytes) → (xs ++ ys) ++ zs ≡ xs ++ (ys ++ zs)
append_assoc [] ys zs = refl
append_assoc (x ∷ xs) ys zs = ap (λ l. x ∷ l) (append_assoc xs ys zs)

pub append-nil : (xs : Bytes) → xs ++ [] ≡ xs
append-nil [] = refl
append-nil (x ∷ xs) = ap (λ l. x ∷ l) (append-nil xs)

pub drop-AreBytes : (n : ℕ) (buf : Bytes) → AreBytes buf → AreBytes (drop n buf)
drop-AreBytes zero buf ok = ok
drop-AreBytes (suc n) [] ok = ok
drop-AreBytes (suc n) (y ∷ buf) ok = drop-AreBytes n buf (λ z h. ok z (inr h))

-- A round in which the safety check does not fail.
pub write_round-some :
    (ws : Websocket) (random_mask : List Bytes → ℕ × List Bytes) (frmbuf : Bytes) (wlen room : ℕ)
    (buf : Bytes) (w : List Bytes) (go_on : ℕ → WsFrame → List Bytes → Written × List Bytes)
    → (let wf = next_frame ws (wlen == 0) (mask_for ws random_mask w).0 frmbuf room buf in
        ltb ws.size (wf.hlen + wf.plen) ≡ false)
    → write_round log_fd ws random_mask frmbuf wlen buf w (some room) go_on ≡ (
        let wf = next_frame ws (wlen == 0) (mask_for ws random_mask w).0 frmbuf room buf in
        after_write wlen
          (wf.hlen + wf.plen)
          (ws_write_frame log_fd wf (mask_for ws random_mask w).1)
          (go_on (wlen + wf.plen) wf))
unfolding write_round
write_round-some ws random_mask frmbuf wlen room buf w go_on safe = rw safe refl
