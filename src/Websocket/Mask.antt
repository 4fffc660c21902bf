-- ===== src/Websocket/Mask.antt =====
-- ws_mask() undoes itself.
use smrender.Base.{ℕ, ◌+◌, ◌<◌, ◌≡◌, refl, ap, inl, inr, [], ◌∷◌, arith, ◌==◌, Bool-cases, In}
use smrender.Bstring.{Bytes}
use smrender.Websocket.{mask_byte, mask_loop, ws_mask}
use smrender.Websocket.Xor.{bit_xor_twice}

-- Bytes are below 256.
abbrev pub AreBytes : Bytes → Type 0
AreBytes buf = (x : ℕ) → In x buf → x < 256

mask_byte-lt : (mask i : ℕ) → mask_byte mask i < 256
unfolding mask_byte
mask_byte-lt mask i = omega arith

mask_loop_twice :
    (mask i : ℕ) (buf : Bytes) → AreBytes buf → mask_loop mask i (mask_loop mask i buf) ≡ buf
unfolding mask_loop
mask_loop_twice mask i [] ok = refl
mask_loop_twice mask i (x ∷ buf) ok =
    rw (bit_xor_twice x (mask_byte mask i) (ok x (inl refl)) (mask_byte-lt mask i))
      (ap (λ ys. x ∷ ys) (mask_loop_twice mask (i + 1) buf (λ y h. ok y (inr h))))

-- The second of two applications of ws_mask() with the same mask, which is what the receiver of a
-- masked frame does, gives back the bytes.
pub ws_mask-ws_mask :
    (mask : ℕ) (buf : Bytes) → AreBytes buf → ws_mask (ws_mask buf mask) mask ≡ buf
unfolding ws_mask
ws_mask-ws_mask mask buf ok = elim (Bool-cases (mask == 0)) [
  | inl e ↦ rw e refl
  | inr e ↦ rw e (mask_loop_twice mask 0 buf ok)
]
