-- ===== src/Base/Bytes/Order.antt =====
-- The order of `std::string`, by which `std::map` keeps its keys.

use mathlib.Core.Path.{◌≡◌, refl}
use mathlib.Core.Bool.{Bool, true, false}
use mathlib.Core.List.{[], ◌∷◌}
use native.Mathlib.Omega.{arith}
use foxy_4_web_server.Base.Tests.{ltb, ◌==◌, if◌then◌else◌}
use foxy_4_web_server.Base.Bytes.{Bytes, same}

-- `a < b`: lexicographic, bytes compared as unsigned
unfoldable pub less : Bytes → Bytes → Bool
less [] [] = false
less [] (y ∷ ys) = true
less (x ∷ xs) [] = false
less (x ∷ xs) (y ∷ ys) = if x == y then less xs ys else ltb x y

-- One of two different strings is the smaller.
pub less_total : (a b : Bytes) → same a b ≡ false → less a b ≡ false → less b a ≡ true
unfolding same less
less_total [] [] h k = cc
less_total [] (y ∷ b) h k = cc
less_total (x ∷ a) [] h k = refl
less_total (x ∷ a) (y ∷ b) h k = ground (arith, less_total a b)

pub less_trans : (a b c : Bytes) → less a b ≡ true → less b c ≡ true → less a c ≡ true
unfolding less
less_trans (x ∷ a) (y ∷ b) (z ∷ c) h k = ground (arith, less_trans a b c)
less_trans [] (y ∷ b) (z ∷ c) h k = refl
less_trans a b c h k = ground arith

-- A string is not below one that is smaller than it, nor equal to it.
pub less_asym : (a b : Bytes) → less a b ≡ true → (less b a ≡ false) × (same a b ≡ false)
unfolding less same
less_asym [] [] h = cc
less_asym [] (y ∷ b) h = (refl, refl)
less_asym (x ∷ a) [] h = cc
less_asym (x ∷ a) (y ∷ b) h = ground (arith, less_asym a b)
