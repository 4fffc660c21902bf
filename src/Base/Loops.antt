-- ===== src/Base/Loops.antt =====
-- A counted loop on a state, and the sum over a range.
use Prim.Native.Nat.{ℕ, zero, suc, ◌+◌}

-- The state behind `count` rounds of the loop, the first of which has the index `from`.
unfoldable pub for_range {ℓ} : {State : Type ℓ} → ℕ → ℕ → (ℕ → State → State) → State → State
for_range zero from round st = st
for_range (suc count) from round st =
    let st' = round from st in for_range count (from + 1) round st'

-- term from + ... + term (from + count - 1)
unfoldable pub sum_range : ℕ → ℕ → (ℕ → ℕ) → ℕ
sum_range zero from term = 0
sum_range (suc count) from term = term from + sum_range count (from + 1) term
