-- ===== src/Base/Text.antt =====
-- Decimal numbers of the standard library: `std::to_string` and `std::stoi`.
pub mod RoundTrip
pub mod Errors
use Prim.Native.Nat.{ℕ, zero, suc, ◌+◌, ◌-◌, ◌*◌, ◌/◌, ◌%◌, ◌^◌}
use mathlib.Core.Bool.{Bool, true, false, ◌&&◌, ◌||◌}
use mathlib.Core.List.{List, [], ◌∷◌, ◌++◌}
use foxy_4_web_server.Base.Tests.{ltb, leb, ◌==◌, if◌then◌else◌}
use foxy_4_web_server.Base.Results.{Outcome, ok, throws, out_of_range, invalid_argument}
use foxy_4_web_server.Base.Bytes.{Bytes}
use foxy_4_web_server.Base.Int.{ℤ, pos, neg}

abbrev pub int_max : ℕ
int_max = 2147483647

-- isdigit
unfoldable pub is_decimal : ℕ → Bool
is_decimal c = leb b'0' c && leb c b'9'

-- isspace
unfoldable pub is_space : ℕ → Bool
is_space c = c == b' ' || (leb 9 c && leb c 13)

-- The digits of `n`; each round drops one, so `n + 1` rounds are enough.
pub digits : ℕ → ℕ → Bytes
digits zero n = []
digits (suc f) n =
    let rest = digits f (n / 10) in
    if ltb n 10 then (b'0' + n) ∷ [] else rest ++ (b'0' + n % 10) ∷ []

-- `std::to_string(n)` of an unsigned number
unfoldable pub to_string : ℕ → Bytes
unfolding digits
to_string n = digits (n + 1) n

unfoldable pub skip_space : Bytes → Bytes
skip_space [] = []
skip_space (c ∷ cs) = if is_space c then skip_space cs else c ∷ cs

-- The value of the digits at the front, `acc` those before them.
unfoldable pub scan : ℕ → Bytes → ℕ
scan acc [] = acc
scan acc (c ∷ cs) = let more = scan (acc * 10 + (c - b'0')) cs in if is_decimal c then more else acc

pub magnitude : Bool → ℕ → Outcome ℤ
magnitude negative n =
    if negative
    then (if leb n (int_max + 1) then ok (neg n) else throws out_of_range)
    else (if leb n int_max then ok (pos n) else throws out_of_range)

pub unsigned : Bool → Bytes → Outcome ℤ
unsigned negative [] = throws invalid_argument
unsigned negative (c ∷ cs) =
    if is_decimal c then magnitude negative (scan 0 (c ∷ cs)) else throws invalid_argument

pub signed : Bytes → Outcome ℤ
signed [] = throws invalid_argument
signed (c ∷ cs) =
    if c == b'-'
    then unsigned true cs
    else if c == b'+'
    then unsigned false cs
    else unsigned false (c ∷ cs)

-- `std::stoi(s)`: white space, a sign and digits; what follows the digits is left alone.
unfoldable pub stoi : Bytes → Outcome ℤ
unfolding is_decimal is_space skip_space scan magnitude unsigned signed neg
stoi s = signed (skip_space s)
