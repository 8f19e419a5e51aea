-- ===== src/Base/Dict/Entries.antt =====
-- What holds of every entry of a dictionary.
use mathlib.Core.Path.{◌≡◌}
use mathlib.Core.Option.{some}
use mathlib.Core.Logic.{inl, inr}
use mathlib.Core.List.{[], ◌∷◌}
use native.Mathlib.Omega.{arith}
use foxy_4_web_server.Base.Tests.{Bool-cases}
use foxy_4_web_server.Base.Lists.{All}
use foxy_4_web_server.Base.Bytes.{Bytes, same, same_iff}
use foxy_4_web_server.Base.Bytes.Order.{less}
use foxy_4_web_server.Base.Dict.{Dict, lookup, put}

module _ {ℓ κ} {V : Type ℓ} (P : Bytes × V → Type κ) where
  pub All-put : (k : Bytes) (v : V) (m : Dict V) → All P m → P (k, v) → All P (put k v m)
  unfolding put
  All-put k v [] _ h = (h, tt)
  All-put k v ((j, w) ∷ m) (x, t) h = elim (Bool-cases (same j k)) [
    | inl equal ↦ rw equal (rw ((same_iff j k).0 equal) h, t)
    | inr other ↦ elim (Bool-cases (less k j)) [
      | inl below ↦ rw (other, below) (h, (x, t))
      | inr above ↦ rw (other, above) (x, All-put k v m t h)
    ]
  ]

  pub All-lookup : (k : Bytes) (v : V) (m : Dict V) → All P m → lookup k m ≡ some v → P (k, v)
  unfolding lookup
  All-lookup k v [] _ e = cc
  All-lookup k v ((j, w) ∷ m) (x, t) e = elim (Bool-cases (same j k)) [
    | inl equal ↦ ground (arith, (same_iff j k).0 equal)
    | inr other ↦ All-lookup k v m t (ground arith)
  ]
