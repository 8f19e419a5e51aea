-- ===== src/Base/Bytes/Occurs.antt =====
-- Where the two bytes `..` occur, and where a prefix is found.
use Prim.Native.Nat.{ℕ, zero, suc}
use mathlib.Core.Path.{◌≡◌, refl}
use mathlib.Core.Bool.{true, false}
use mathlib.Core.Option.{some}
use mathlib.Core.List.{[], ◌∷◌, ◌++◌}
use native.Mathlib.Omega.{arith}
use foxy_4_web_server.Base.Lists.{drop}
use foxy_4_web_server.Base.Bytes.{Bytes, starts_with, contains, find, last?, before_nul, codes}

abbrev pub HasNoDots : Bytes → Type 0
HasNoDots s = contains s (codes "..") ≡ false

pub HasNoDots-append :
    (s t : Bytes) → HasNoDots s → HasNoDots t → last? s ≡ some b'/' → HasNoDots (s ++ t)
unfolding contains last?
HasNoDots-append [] t h k e = k
HasNoDots-append (x ∷ []) t h k e = ground arith
HasNoDots-append (x ∷ y ∷ s) t h k e = ground (arith, HasNoDots-append (y ∷ s) t)

pub HasNoDots-drop : (n : ℕ) (s : Bytes) → HasNoDots s → HasNoDots (drop n s)
unfolding contains
HasNoDots-drop zero s h = h
HasNoDots-drop (suc n) [] h = refl
HasNoDots-drop (suc n) (x ∷ s) h = HasNoDots-drop n s (ground arith)

pub HasNoDots-before_nul : (s : Bytes) → HasNoDots s → HasNoDots (before_nul s)
unfolding contains before_nul
HasNoDots-before_nul [] h = refl
HasNoDots-before_nul (x ∷ []) h = ground arith
HasNoDots-before_nul (x ∷ y ∷ s) h = ground (arith, HasNoDots-before_nul (y ∷ s))

pub find_of_prefix : (s p : Bytes) → starts_with s p ≡ true → find s p ≡ some 0
unfolding find
find_of_prefix [] p h = ground arith
find_of_prefix (x ∷ s) p h = ground arith
