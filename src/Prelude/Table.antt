-- ===== src/Prelude/Table.antt =====
-- A property of small numbers, checked by evaluation at every value.
use Prim.Native.Nat.{ℕ, zero, suc, ◌<◌}
use mathlib.Core.Path.{◌≡◌}
use mathlib.Core.Bool.{Bool, true, ◌&&◌}
use native.Mathlib.Omega.{arith}

-- Whether `test` holds of every number below `bound`.
unfoldable pub every_below : (bound : ℕ) (test : ℕ → Bool) → Bool
every_below zero test = true
every_below (suc k) test = every_below k test && test k

-- A table that evaluates to true says so of each of its rows.
pub row_below :
    (bound : ℕ) (test : ℕ → Bool) (i : ℕ)
    → every_below bound test ≡ true
    → i < bound
    → test i ≡ true
unfolding every_below
row_below zero test i table small = absurd (omega arith)
row_below (suc k) test i table small = ground (arith, row_below k test i)
