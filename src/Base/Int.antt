-- ===== src/Base/Int.antt =====
-- The integers, for `int`: `negsuc n` is -(n + 1).
use Prim.Native.Nat.{ℕ, zero, suc, ◌-◌}
use foxy_4_web_server.Base.Tests.{ltb, if◌then◌else◌}

pub data ℤ : Type 0 where
  pos : ℕ → ℤ
  negsuc : ℕ → ℤ

-- A `char` as an `int`: the type is signed, so the bytes from 128 are negative.
unfoldable pub char_to_int : ℕ → ℤ
char_to_int c = if ltb c 128 then pos c else negsuc (255 - c)

-- `-n`
unfoldable pub neg : ℕ → ℤ
neg zero = pos zero
neg (suc n) = negsuc n
