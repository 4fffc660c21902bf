-- ===== src/Websocket/Io/Returns.antt =====
-- ws_read_frame() comes to an end.
use smrender.Base.{
  ℕ, zero, suc, ◌+◌, ◌-◌, ◌≤◌, ◌<◌, ◌≡◌, refl, ap, ◌≢◌, inl, inr, Bool, true, false, Option, none,
  some, [], ◌∷◌, ◌++◌, arith, ltb, ◌==◌, if◌then◌else◌, Bool-cases, length, length-append, ℤ, pos,
  negsuc,
}
use smrender.Bstring.{Bytes}
use smrender.Websocket.{Fd, Decoded, ws_decode_len, ws_hdr_minlen}
use smrender.Websocket.Io.{
  Received, Reading, to_int, decoded_int, decoded, advance, after_read, read_loop, ws_read_frame,
}

-- read() gives no more bytes than it is asked for.
abbrev pub ReadsAtMost : {W : Type 0} → Fd W → Type 0
ReadsAtMost {W} fd = (n : ℕ) (w w' : W) (r : Bytes) → fd.read n w ≡ (some r, w') → length r ≤ n

abbrev Ends : {W : Type 0} → Received × W → Type 0
Ends res = res.0 ≢ Received.no_fuel

after_read-Ends :
    {W : Type 0} (res : Option Bytes × W) (go_on : Bytes → W → Received × W)
    → ((x : ℕ) (xs : Bytes) (w' : W) → res ≡ (some (x ∷ xs), w') → Ends (go_on (x ∷ xs) w'))
    → Ends (after_read res go_on)
unfolding after_read
after_read-Ends (none, w) go_on ends = λ e. ground arith
after_read-Ends (some [], w) go_on ends = λ e. ground arith
after_read-Ends (some (x ∷ xs), w) go_on ends = ends x xs w refl

decoded_int-buf : (hlen : ℕ) (z : ℤ) (buf : Bytes) → (decoded_int hlen z buf).buf ≡ buf
unfolding decoded_int
decoded_int-buf hlen (pos p) buf = refl
decoded_int-buf hlen (negsuc p) buf = refl

decoded-buf : (d : Decoded) (buf : Bytes) → (decoded d buf).buf ≡ buf
unfolding decoded
decoded-buf (Decoded.missing k) buf = refl
decoded-buf (Decoded.lengths hlen plen) buf = decoded_int-buf hlen (to_int plen) buf

advance-buf : (st : Reading) (buf : Bytes) → (advance st buf).buf ≡ buf
unfolding advance
advance-buf st buf = elim (Bool-cases (st.hlen == 0)) [
  | inl e ↦ rw e (decoded-buf (ws_decode_len buf) buf)
  | inr e ↦ rw e refl
]

either_Ends :
    {W : Type 0} (b c : Bool) (x y z : Received × W)
    → Ends x
    → Ends y
    → (b ≡ false → c ≡ false → Ends z)
    → Ends (if b then x else if c then y else z)
either_Ends true c x y z p q r = p
either_Ends false true x y z p q r = q
either_Ends false false x y z p q r = r refl refl

read_loop-Ends :
    {W : Type 0} (fd : Fd W) (fuel size : ℕ) (st : Reading) (w : W)
    → ReadsAtMost fd
    → size < fuel + length st.buf
    → length st.buf ≤ size
    → Ends (read_loop fd fuel size st w)
unfolding read_loop
read_loop-Ends fd zero size st w at_most enough below = absurd (omega arith)
read_loop-Ends fd (suc fuel) size st w at_most enough below =
    either_Ends (st.need == 0) (ltb (size - length st.buf) st.need) _ _ _ (λ e. ground arith)
      (λ e. ground arith)
      (λ some_need room. after_read-Ends (fd.read st.need w) _ (λ x xs w' e.
        let grown = length-append st.buf (x ∷ xs) in
        let new = ap length (advance-buf st (st.buf ++ x ∷ xs)) in
        let asked = at_most st.need w w' (x ∷ xs) e in
        let fits : st.need ≤ size - length st.buf = ground arith in
        read_loop-Ends fd fuel size (advance st (st.buf ++ x ∷ xs)) w' at_most
          (omega (arith, grown, new)) (omega (arith, grown, new, asked, fits))))

-- ws_read_frame() comes to an end, without the fuel of the model running out, for every buffer size
-- and whatever the bytes are that read() delivers, provided that it never delivers more than asked for.
pub ws_read_frame-Ends :
    {W : Type 0} (fd : Fd W) (size : ℕ) (w : W)
    → ReadsAtMost fd
    → (ws_read_frame fd size w).0 ≢ Received.no_fuel
unfolding ws_read_frame
ws_read_frame-Ends fd size w at_most =
    read_loop-Ends fd (size + 1) size
      (record { need = ws_hdr_minlen; hlen = 0; plen = 0; buf = [] }) w at_most (omega arith)
      (omega arith)
