-- ===== src/Base/Tables.antt =====
-- A test of every number below a bound, checked by evaluation.
use Prim.Native.Nat.{ℕ, zero, suc, ◌<◌}
use mathlib.Core.Path.{◌≡◌}
use mathlib.Core.Bool.{Bool, true, ◌&&◌}
use native.Mathlib.Omega.{arith}

module _ (test : ℕ → Bool) where
  unfoldable pub passes_below : ℕ → Bool
  passes_below zero = true
  passes_below (suc top) = test top && passes_below top

  pub passes_below_each :
      {v : ℕ} (limit : ℕ) → v < limit → passes_below limit ≡ true → test v ≡ true
  unfolding passes_below
  passes_below_each zero small passed = absurd (omega arith)
  passes_below_each {v} (suc top) small passed = ground (arith, passes_below_each {v = v} top)
