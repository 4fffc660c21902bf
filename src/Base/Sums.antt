-- ===== src/Base/Sums.antt =====
-- Laws of sums over a range.
use Prim.Native.Nat.{ℕ, zero, suc, ◌+◌, ◌≤◌, ◌<◌}
use mathlib.Core.Path.{◌≡◌, refl, ap}
use mathlib.Core.Logic.{◌≢◌, inl, inr}
use native.Mathlib.Omega.{arith}
use smrender.Base.Tests.{◌==◌, ==_iff, Bool-cases}
use smrender.Base.Loops.{sum_range}

sum_range-congr_above :
    (k i x : ℕ) (f g : ℕ → ℕ)
    → ((j : ℕ) → j ≢ x → g j ≡ f j)
    → x < i
    → sum_range k i g ≡ sum_range k i f
unfolding sum_range
sum_range-congr_above zero i x f g same h = refl
sum_range-congr_above (suc k) i x f g same h =
    omega (arith, same i (omega arith), sum_range-congr_above k (i + 1) x f g same (omega arith))

-- A sum after a change of one term.
pub sum_range-update :
    (k i x : ℕ) (f g : ℕ → ℕ)
    → ((j : ℕ) → j ≢ x → g j ≡ f j)
    → i ≤ x
    → x < i + k
    → sum_range k i g + f x ≡ sum_range k i f + g x
unfolding sum_range
sum_range-update zero i x f g same p q = absurd (omega arith)
sum_range-update (suc k) i x f g same p q = elim (Bool-cases (x == i)) [
  | inl e ↦
      let eq : x ≡ i = (==_iff x i).0 e in
      omega (arith, ap g eq, ap f eq, sum_range-congr_above k (i + 1) x f g same (omega arith))
  | inr e ↦
      let ne : i ≢ x = λ eq. ground arith in
      omega (arith, same i ne, sum_range-update k (i + 1) x f g same (ground arith) (omega arith))
]

-- Sums of the same terms.
pub sum_range-congr :
    (k i : ℕ) (f g : ℕ → ℕ)
    → ((j : ℕ) → i ≤ j → j < i + k → f j ≡ g j)
    → sum_range k i f ≡ sum_range k i g
unfolding sum_range
sum_range-congr zero i f g same = refl
sum_range-congr (suc k) i f g same = omega (
  arith,
  same i (omega arith) (omega arith),
  sum_range-congr k (i + 1) f g (λ j p q. same j (omega arith) (omega arith)),
)

pub sum_range-zero :
    (k i : ℕ) (f : ℕ → ℕ) → ((j : ℕ) → i ≤ j → j < i + k → f j ≡ 0) → sum_range k i f ≡ 0
unfolding sum_range
sum_range-zero zero i f all = refl
sum_range-zero (suc k) i f all = omega (
  arith,
  all i (omega arith) (omega arith),
  sum_range-zero k (i + 1) f (λ j p q. all j (omega arith) (omega arith)),
)

-- A sum after a term has become smaller.
pub sum_range-update_lt :
    (k x : ℕ) (f g : ℕ → ℕ)
    → ((j : ℕ) → j ≢ x → g j ≡ f j)
    → x < k
    → g x < f x
    → sum_range k 0 g < sum_range k 0 f
sum_range-update_lt k x f g same h less =
    omega (arith, sum_range-update k 0 x f g same (omega arith) (omega arith))
