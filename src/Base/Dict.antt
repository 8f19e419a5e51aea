-- ===== src/Base/Dict.antt =====
-- `std::map<std::string, V>`: the entries in the order of their keys.
pub mod Sorted
pub mod Ascending
pub mod Entries
use mathlib.Core.Path.{◌≡◌, refl}
use mathlib.Core.Bool.{Bool, true, false}
use mathlib.Core.Option.{Option, none, some}
use mathlib.Core.List.{List, [], ◌∷◌}
use native.Mathlib.Omega.{arith}
use foxy_4_web_server.Base.Tests.{if◌then◌else◌}
use foxy_4_web_server.Base.Bytes.{Bytes, same, same_iff}
use foxy_4_web_server.Base.Bytes.Order.{less}

abbrev pub Dict {ℓ} : Type ℓ → Type ℓ
Dict V = List (Bytes × V)

module _ {ℓ} {V : Type ℓ} where
  -- `m.find(k)`, and `m.count(k) == 1` where the answer is `some`
  unfoldable pub lookup : Bytes → Dict V → Option V
  lookup k [] = none
  lookup k ((j, v) ∷ m) = if same j k then some v else lookup k m

  -- `m[k] = v`
  unfoldable pub put : Bytes → V → Dict V → Dict V
  put k v [] = (k, v) ∷ []
  put k v ((j, w) ∷ m) =
      if same j k then (j, v) ∷ m else if less k j then (k, v) ∷ (j, w) ∷ m else (j, w) ∷ put k v m

  -- `m.insert({k, v})`: an entry that is there stays.
  unfoldable pub insert : Bytes → V → Dict V → Dict V
  insert k v m = elim (lookup k m) [ none ↦ put k v m | some w ↦ m ]

  -- The value of `m[k]`; a key that is not there gets the default value `v`.
  unfoldable pub get_or : Bytes → V → Dict V → V
  get_or k v m = elim (lookup k m) [ none ↦ v | some w ↦ w ]

  pub lookup-put :
      (k j : Bytes) (v : V) (m : Dict V)
      → lookup j (put k v m) ≡ (if same k j then some v else lookup j m)
  unfolding lookup put
  lookup-put k j v [] = refl
  lookup-put k j v ((i, w) ∷ m) =
      ground (arith, lookup-put k j v m, same_iff i k, same_iff i j, same_iff k j)

  pub lookup-insert :
      (k j : Bytes) (v : V) (m : Dict V)
      → lookup j (insert k v m)
        ≡ elim (lookup j m) [ none ↦ if same k j then some v else none | some w ↦ some w ]
  unfolding insert
  lookup-insert k j v m = ground (arith, lookup-put k j v m, same_iff k j)
