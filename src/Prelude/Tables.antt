-- ===== src/Prelude/Tables.antt =====
-- Checking a Boolean property of every number of a range by evaluation.
use Prim.Native.Nat.{ℕ, zero, suc, ◌<◌}
use mathlib.Core.Path.{◌≡◌}
use mathlib.Core.Bool.{Bool, true, false}
use native.Mathlib.Omega.{arith}
use linux_base_operating_sys.Prelude.Tests.{if◌then◌else◌}

unfoldable pub every_below : ℕ → (ℕ → Bool) → Bool
every_below zero test = true
every_below (suc count) test =
    let others = every_below count test in if test count then others else false

pub every_below_at :
    (count : ℕ) (test : ℕ → Bool) (i : ℕ)
    → every_below count test ≡ true
    → i < count
    → test i ≡ true
unfolding every_below
every_below_at (suc count) test i passed inside = ground (arith, every_below_at count test i)
every_below_at zero test i passed inside = absurd (omega arith)
