-- ===== src/Bxtree/Keys.antt =====
-- Two hashes lead to the same leaf exactly if they are equal.
use smrender.Base.{
  ℕ, zero, suc, ◌+◌, ◌-◌, ◌*◌, ◌/◌, ◌%◌, ◌^◌, ◌<◌, ◌≡◌, refl, sym, Bool, true, ◌&&◌, arith, ◌==◌,
}
use native.Mathlib.Nat.{div-div-eq-div-mul}
use native.Mathlib.Numerals.{towards_suc}
use smrender.Bxtree.{bt_mask, depth, word}

-- The two agree in all digits from level `d` on.
unfoldable pub same_path : ℕ → ℕ → ℕ → ℕ → Bool
same_path zero h k d = true
same_path (suc left) h k d = bt_mask k d == bt_mask h d && same_path left h k (d + 1)

pub bt_mask-lt : (x y : ℕ) → bt_mask x y < 16
unfolding bt_mask
bt_mask-lt x y = omega arith

pub same_path_refl : (left h d : ℕ) → same_path left h h d ≡ true
unfolding same_path
same_path_refl zero h d = refl
same_path_refl (suc left) h d = ground (arith, same_path_refl left h (d + 1))

same_digit :
    (left h k d : ℕ)
    → same_path (suc left) h k d ≡ true
    → (bt_mask k d ≡ bt_mask h d) × (same_path left h k (d + 1) ≡ true)
unfolding same_path
same_digit left h k d e = ground arith

-- One more digit of a prefix; `m` is the weight of the digit.
extend : (m h k : ℕ) → h / (m * 16) ≡ k / (m * 16) → h / m % 16 ≡ k / m % 16 → h / m ≡ k / m
extend m h k p q = omega (arith, div-div-eq-div-mul h m 16, div-div-eq-div-mul k m 16)

abbrev pub weight : ℕ → ℕ
weight left = 2 ^ (left * 4)

pub weight-suc : (left : ℕ) → weight (suc left) ≡ weight left * 16
weight-suc left = rw e (simp towards_suc (omega arith))
  where
    e : suc left * 4 ≡ left * 4 + 4
    e = omega arith

pub bt_mask-weight : (left h d : ℕ) → d + suc left ≡ depth → bt_mask h d ≡ h / weight left % 16
unfolding bt_mask
bt_mask-weight left h d e = rw shift
  where
    shift : 64 - (d + 1) * 4 ≡ left * 4
    shift = omega arith

same_path_prefix :
    (left h k d : ℕ)
    → d + left ≡ depth
    → h / weight left ≡ k / weight left
    → same_path left h k d ≡ true
    → h ≡ k
same_path_prefix zero h k d e p s = omega arith
same_path_prefix (suc left) h k d e p s =
    same_path_prefix left h k (d + 1) (omega arith)
      (extend (weight left) h k (rw (← weight-suc left) p) (digit e)) (same_digit left h k d s).1
  where
    digit : d + suc left ≡ depth → h / weight left % 16 ≡ k / weight left % 16
    digit e =
        rw (← bt_mask-weight left h d e, ← bt_mask-weight left k d e)
          (sym (same_digit left h k d s).0)

pub same_path_eq : (h k : ℕ) → h < word → k < word → same_path depth h k 0 ≡ true → h ≡ k
same_path_eq h k p q = same_path_prefix depth h k 0 refl (omega arith)
