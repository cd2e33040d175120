-- ===== src/Common/Tables.antt =====
-- Tables: a Boolean test that is run on every number below a bound.
use mathlib.Core.Bool.{false}
use Prim.Native.Nat.{ℕ, zero, suc, ◌<◌}
use mathlib.Core.Path.{◌≡◌}
use mathlib.Core.Logic.{inl, inr}
use mathlib.Core.Bool.{Bool, true}
use native.Mathlib.Omega.{arith}
use bayos_kernel.Common.Tests.{◌==◌, if◌then◌else◌, ==_iff, Bool-cases}

-- `covered test n`: the Boolean test holds of each row of a table with `n` rows.
unfoldable pub covered : (ℕ → Bool) → ℕ → Bool
covered test zero = true
covered test (suc last) = if test last then covered test last else false

pub covered_at : (test : ℕ → Bool) (n i : ℕ) → i < n → covered test n ≡ true → test i ≡ true
unfolding covered
covered_at test zero i inside t = absurd (omega arith)
covered_at test (suc last) i inside t =
    let before = covered_at test last i in
    elim (Bool-cases (test last)) [
      | inl e ↦ elim (Bool-cases (i == last)) [
        | inl same ↦ rw ((==_iff i last).0 same) e
        | inr other ↦ ground (arith, before)
      ]
      | inr e ↦ absurd (ground (arith, e))
    ]
