-- ===== src/Base/Tables.antt =====
-- Tables that are checked by evaluation.
use Prim.Native.Nat.{ℕ, zero, suc, ◌+◌, ◌≤◌, ◌<◌}
use mathlib.Core.Path.{◌≡◌, subst}
use mathlib.Core.Logic.{inl, inr}
use mathlib.Core.Bool.{Bool, true, ◌&&◌}
use native.Mathlib.Omega.{arith}
use smrender.Base.Tests.{◌==◌, ==_iff, Bool-cases}

-- The test holds of the `k` numbers from `i` on.
unfoldable pub every_from : ℕ → ℕ → (ℕ → Bool) → Bool
every_from zero i test = true
every_from (suc k) i test = test i && every_from k (i + 1) test

pub every_from-at :
    (k i j : ℕ) (test : ℕ → Bool) → every_from k i test ≡ true → i ≤ j → j < i + k → test j ≡ true
unfolding every_from
every_from-at zero i j test all lo hi = absurd (omega arith)
every_from-at (suc k) i j test all lo hi = elim (Bool-cases (i == j)) [
  | inl e ↦ subst (λ n. test n ≡ true) ((==_iff i j).0 e) (ground arith)
  | inr e ↦ every_from-at k (i + 1) j test (ground arith) (ground arith) (omega arith)
]
