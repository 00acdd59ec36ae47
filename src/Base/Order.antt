-- ===== src/Base/Order.antt =====
-- The order of C integers.
use mathlib.Core.Path.{◌≡◌}
use mathlib.Core.Bool.{true, false}
use native.Mathlib.Omega.{arith}
use xiaozhi_pc.Base.Int.{ℤ, pos, negsuc, less}

pub less_asym : (a b : ℤ) → less a b ≡ true → less b a ≡ false
unfolding less
less_asym (pos a) (pos b) h = ground arith
less_asym (pos a) (negsuc b) h = ground arith
less_asym (negsuc a) (pos b) h = ground arith
less_asym (negsuc a) (negsuc b) h = ground arith

pub less_irrefl : (a : ℤ) → less a a ≡ false
unfolding less
less_irrefl (pos a) = ground arith
less_irrefl (negsuc a) = ground arith

-- `a ≤ b < c` gives `a < c`.
pub less_of_not : (a b c : ℤ) → less b a ≡ false → less b c ≡ true → less a c ≡ true
unfolding less
less_of_not (pos a) (pos b) (pos c) h k = ground arith
less_of_not (pos a) (pos b) (negsuc c) h k = ground arith
less_of_not (pos a) (negsuc b) c h k = ground arith
less_of_not (negsuc a) (pos b) (pos c) h k = ground arith
less_of_not (negsuc a) (pos b) (negsuc c) h k = ground arith
less_of_not (negsuc a) (negsuc b) (pos c) h k = ground arith
less_of_not (negsuc a) (negsuc b) (negsuc c) h k = ground arith
