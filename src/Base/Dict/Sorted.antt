-- ===== src/Base/Dict/Sorted.antt =====
-- A dictionary built by the operations has its keys in strictly ascending order.
use mathlib.Core.Path.{◌≡◌}
use mathlib.Core.Bool.{true}
use mathlib.Core.List.{[], ◌∷◌}
use native.Mathlib.Omega.{arith}
use foxy_4_web_server.Base.Bytes.{Bytes, same_iff}
use foxy_4_web_server.Base.Bytes.Order.{less, less_total}
use foxy_4_web_server.Base.Dict.{Dict, put, insert}

module _ {ℓ} {V : Type ℓ} where
  -- `k` is below the first key.
  abbrev pub IsBelow : Bytes → Dict V → Type 0
  IsBelow k [] = Unit
  IsBelow k ((j, _) ∷ _) = less k j ≡ true

  abbrev pub IsSorted : Dict V → Type 0
  IsSorted [] = Unit
  IsSorted ((k, _) ∷ m) = IsBelow k m × IsSorted m

  IsBelow-put :
      (i k : Bytes) (v : V) (m : Dict V) → less i k ≡ true → IsBelow i m → IsBelow i (put k v m)
  unfolding put
  IsBelow-put i k v [] h b = h
  IsBelow-put i k v ((j, w) ∷ m) h b = ground arith

  pub put-IsSorted : (k : Bytes) (v : V) (m : Dict V) → IsSorted m → IsSorted (put k v m)
  unfolding put
  put-IsSorted k v [] _ = (tt, tt)
  put-IsSorted k v ((j, w) ∷ m) (b, s) =
      ground (
        arith,
        put-IsSorted k v m s,
        less_total k j,
        same_iff k j,
        same_iff j k,
        IsBelow-put j k v m,
      )

  pub insert-IsSorted : (k : Bytes) (v : V) (m : Dict V) → IsSorted m → IsSorted (insert k v m)
  unfolding insert
  insert-IsSorted k v m s = ground (arith, put-IsSorted k v m s)
