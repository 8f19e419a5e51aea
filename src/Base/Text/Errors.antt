-- ===== src/Base/Text/Errors.antt =====
-- Where `std::stoi` throws.
use foxy_4_web_server.Base.Tests.{◌==◌}
use foxy_4_web_server.Base.Results.{throws, invalid_argument}
use foxy_4_web_server.Base.Bytes.{Bytes}
use foxy_4_web_server.Base.Text.{is_decimal, is_space, skip_space, signed, unsigned, stoi}
use mathlib.Core.Bool.{false}
use mathlib.Core.List.{◌∷◌}
use mathlib.Core.Path.{◌≡◌}
use Prim.Native.Nat.{ℕ}

-- No digit, sign or white space in front.
pub stoi_throws :
    (c : ℕ) (s : Bytes)
    → is_space c ≡ false
    → is_decimal c ≡ false
    → (c == b'-') ≡ false
    → (c == b'+') ≡ false
    → stoi (c ∷ s) ≡ throws invalid_argument
unfolding stoi skip_space signed unsigned
stoi_throws c s space digit minus plus =
    rw (space, skip_space) (rw (minus, signed) (rw (plus, signed) (rw (digit, unsigned))))
