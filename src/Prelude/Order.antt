-- ===== src/Prelude/Order.antt =====
-- A total order as a Boolean test, as the sorted sets of Redis need it.
use mathlib.Core.Path.{◌≡◌}
use mathlib.Core.Bool.{Bool, true, false}

pub record Order (W : Type 0) : Type 0 where
  pub less : W → W → Bool
  pub irreflexive : (a : W) → less a a ≡ false
  pub transitive : (a b c : W) → less a b ≡ true → less b c ≡ true → less a c ≡ true
  pub connected : (a b : W) → less a b ≡ false → less b a ≡ false → a ≡ b
