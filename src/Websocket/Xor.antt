-- ===== src/Websocket/Xor.antt =====
-- Exclusive or of two bytes.
use smrender.Base.{ℕ, ◌<◌, ◌≡◌, refl, Bool, true, arith, ◌==◌, ==_iff}
use Prim.Native.Nat.{bit_xor}
use smrender.Base.Tables.{every_from, every_from-at}

twice : ℕ → ℕ → Bool
twice x y = bit_xor (bit_xor x y) y == x

all_bytes : every_from 256 0 (λ x. every_from 256 0 (twice x)) ≡ true
unfolding every_from twice
all_bytes = refl

pub bit_xor_twice : (x y : ℕ) → x < 256 → y < 256 → bit_xor (bit_xor x y) y ≡ x
unfolding twice
bit_xor_twice x y p q =
    let row = every_from-at 256 0 x (λ z. every_from 256 0 (twice z)) all_bytes (omega arith) p in
    (==_iff _ x).0 (every_from-at 256 0 y (twice x) row (omega arith) q)
