-- ===== src/Base/Bytes.antt =====
-- `std::string`: a list of bytes. What the source uses of its operations.
pub mod Order
pub mod Occurs
use Prim.Native.Nat.{ℕ, zero, suc, ◌+◌, ◌-◌}
use Prim.Native.Char.{code}
use Prim.Native.String.{String}
use mathlib.Core.Path.{◌≡◌, refl, ap, sym, ◌∙◌}
use mathlib.Core.Logic.{◌↔◌}
use mathlib.Core.Bool.{Bool, true, false, ◌&&◌, ◌||◌}
use mathlib.Core.Option.{Option, none, some}
use mathlib.Core.Option
use mathlib.Core.List.{List, [], ◌∷◌, ◌++◌, append_assoc}
use native.Mathlib.Omega.{arith}
use foxy_4_web_server.Base.Tests.{ltb, ◌==◌, if◌then◌else◌}
use foxy_4_web_server.Base.Lists.{length, take, drop}
use foxy_4_web_server.Base.Results.{Outcome, ok, throws, out_of_range}

abbrev pub Bytes : Type 0
Bytes = List ℕ

-- The bytes of a literal of the source (all of them are ASCII).
abbrev pub codes : String → Bytes
codes String.[] = []
codes (String.◌∷◌ c s) = code c ∷ codes s

-- `a == b`
unfoldable pub same : Bytes → Bytes → Bool
same [] [] = true
same (x ∷ xs) (y ∷ ys) = x == y && same xs ys
same _ _ = false

pub same_iff : (a b : Bytes) → (same a b ≡ true) ↔ (a ≡ b)
unfolding same
same_iff (x ∷ a) (y ∷ b) = ground (arith, same_iff a b)
same_iff _ _ = ground arith

pub same_refl : (a : Bytes) → same a a ≡ true
same_refl a = (same_iff a a).1 refl

-- `starts_with(s, prefix)`, `s.rfind(prefix, 0) == 0`
unfoldable pub starts_with : Bytes → Bytes → Bool
starts_with s [] = true
starts_with [] (y ∷ ys) = false
starts_with (x ∷ xs) (y ∷ ys) = x == y && starts_with xs ys

-- `s.find(p)`: the first position, `none` for `npos`.
unfoldable pub find : Bytes → Bytes → Option ℕ
unfolding starts_with
find [] p = if starts_with [] p then some 0 else none
find (x ∷ xs) p = if starts_with (x ∷ xs) p then some 0 else Option.map (λ n. suc n) (find xs p)

-- `s.find(p) != npos`
unfoldable pub contains : Bytes → Bytes → Bool
unfolding starts_with
contains [] p = starts_with [] p
contains (x ∷ xs) p = starts_with (x ∷ xs) p || contains xs p

-- `s[s.size() - 1]`, `s.back()` of a string that is not empty
unfoldable pub last? : Bytes → Option ℕ
last? [] = none
last? (x ∷ []) = some x
last? (x ∷ y ∷ ys) = last? (y ∷ ys)

-- `s.pop_back()` of a string that is not empty
unfoldable pub drop_last : Bytes → Bytes
drop_last [] = []
drop_last (x ∷ []) = []
drop_last (x ∷ y ∷ ys) = x ∷ drop_last (y ∷ ys)

-- `s.substr(pos)`: throws where `pos` is past the end.
unfoldable pub substr : Bytes → ℕ → Outcome Bytes
substr s pos = if ltb (length s) pos then throws out_of_range else ok (drop pos s)

-- The string at a `char*`: the bytes before the first 0. `none`: the array holds no 0, and the
-- read runs past its end.
unfoldable pub c_str : Bytes → Option Bytes
c_str [] = none
c_str (c ∷ cs) = if c == 0 then some [] else Option.map (λ s. c ∷ s) (c_str cs)

-- The part of a string in front of its first 0: what its `c_str()` stands for.
unfoldable pub before_nul : Bytes → Bytes
before_nul [] = []
before_nul (c ∷ cs) = if c == 0 then [] else c ∷ before_nul cs

pub last?-append_one : (s : Bytes) (c : ℕ) → last? (s ++ c ∷ []) ≡ some c
unfolding last?
last?-append_one [] c = refl
last?-append_one (x ∷ []) c = refl
last?-append_one (x ∷ y ∷ s) c = last?-append_one (y ∷ s) c

pub drop_last-append_one : (s : Bytes) (c : ℕ) → drop_last (s ++ c ∷ []) ≡ s
unfolding drop_last
drop_last-append_one [] c = refl
drop_last-append_one (x ∷ []) c = refl
drop_last-append_one (x ∷ y ∷ s) c = ap (◌∷◌ x) (drop_last-append_one (y ∷ s) c)

pub starts_with-append : (s t : Bytes) → starts_with (s ++ t) s ≡ true
unfolding starts_with
starts_with-append [] [] = refl
starts_with-append [] (x ∷ t) = refl
starts_with-append (x ∷ s) t = ground (arith, starts_with-append s t)
