-- ===== src/Base/Dict/Ascending.antt =====
-- Entries that come in ascending order are appended.
use mathlib.Core.Path.{◌≡◌, refl}
use mathlib.Core.Bool.{true}
use mathlib.Core.Option.{none, some}
use mathlib.Core.List.{[], ◌∷◌, ◌++◌}
use native.Mathlib.Omega.{arith}
use foxy_4_web_server.Base.Bytes.{Bytes, same_refl}
use foxy_4_web_server.Base.Bytes.Order.{less, less_trans, less_asym}
use foxy_4_web_server.Base.Dict.{Dict, lookup, put, insert, get_or}
use foxy_4_web_server.Base.Dict.Sorted.{IsBelow, IsSorted}

module _ {ℓ} {V : Type ℓ} where
  -- Every key is below `k`.
  abbrev pub AllLess : Bytes → Dict V → Type 0
  AllLess k [] = Unit
  AllLess k ((j, _) ∷ m) = (less j k ≡ true) × AllLess k m

  less_of_sorted :
      (i k : Bytes) (v : V) (m rest : Dict V)
      → IsBelow i (m ++ (k, v) ∷ rest)
      → IsSorted (m ++ (k, v) ∷ rest)
      → less i k ≡ true
  less_of_sorted i k v [] rest b s = b
  less_of_sorted i k v ((j, w) ∷ m) rest b (c, s) =
      less_trans i j k b (less_of_sorted j k v m rest c s)

  pub AllLess-of_sorted :
      (k : Bytes) (v : V) (m rest : Dict V) → IsSorted (m ++ (k, v) ∷ rest) → AllLess k m
  AllLess-of_sorted k v [] rest s = tt
  AllLess-of_sorted k v ((j, w) ∷ m) rest (b, s) =
      (less_of_sorted j k v m rest b s, AllLess-of_sorted k v m rest s)

  lookup_of_AllLess : (k : Bytes) (m : Dict V) → AllLess k m → lookup k m ≡ none
  unfolding lookup
  lookup_of_AllLess k [] _ = refl
  lookup_of_AllLess k ((j, w) ∷ m) (b, h) = ground (arith, less_asym j k b, lookup_of_AllLess k m h)

  pub put_of_AllLess : (k : Bytes) (v : V) (m : Dict V) → AllLess k m → put k v m ≡ m ++ (k, v) ∷ []
  unfolding put
  put_of_AllLess k v [] _ = refl
  put_of_AllLess k v ((j, w) ∷ m) (b, h) = ground (arith, less_asym j k b, put_of_AllLess k v m h)

  pub insert_of_AllLess :
      (k : Bytes) (v : V) (m : Dict V) → AllLess k m → insert k v m ≡ m ++ (k, v) ∷ []
  unfolding insert
  insert_of_AllLess k v m h = rw (lookup_of_AllLess k m h, insert) (put_of_AllLess k v m h)

  -- The last key is written again.
  pub put_last :
      (k : Bytes) (v w : V) (m : Dict V)
      → AllLess k m
      → put k v (m ++ (k, w) ∷ []) ≡ m ++ (k, v) ∷ []
  unfolding put
  put_last k v w [] _ = ground (arith, same_refl k)
  put_last k v w ((j, u) ∷ m) (b, h) = ground (arith, less_asym j k b, put_last k v w m h)

  lookup_last :
      (k : Bytes) (w : V) (m : Dict V) → AllLess k m → lookup k (m ++ (k, w) ∷ []) ≡ some w
  unfolding lookup
  lookup_last k w [] _ = ground (arith, same_refl k)
  lookup_last k w ((j, u) ∷ m) (b, h) = ground (arith, less_asym j k b, lookup_last k w m h)

  pub get_or_last :
      (k : Bytes) (v w : V) (m : Dict V) → AllLess k m → get_or k v (m ++ (k, w) ∷ []) ≡ w
  unfolding get_or
  get_or_last k v w m h = rw (lookup_last k w m h, get_or)
