-- ===== src/Boost.antt =====
-- What the program calls of Boost's string algorithms, which are not in the repository.
use foxy_4_web_server.Base.{ℕ, Bool, false, none, some, List, [], ◌∷◌, ◌≡◌, ◌==◌, ◌||◌, All}
use foxy_4_web_server.Base.Bytes.{Bytes, last?}

-- The first byte is `c`.
unfoldable pub begins : ℕ → Bytes → Bool
begins c [] = false
begins c (x ∷ s) = x == c

-- The last byte is `c`.
unfoldable pub ends : ℕ → Bytes → Bool
ends c s = elim (last? s) [ none ↦ false | some x ↦ x == c ]

-- One of the bytes is `c`.
unfoldable pub holds : ℕ → Bytes → Bool
holds c [] = false
holds c (x ∷ s) = x == c || holds c s

-- `boost::starts_with` and `boost::ends_with`, with what their documentation says of a test string
-- of one character, and `boost::split` on `is_any_of`: a string without a separator is one part.
pub record Boost : Type 0 where
  pub starts_with : Bytes → Bytes → Bool
  pub ends_with : Bytes → Bytes → Bool
  pub split : Bytes → Bytes → List Bytes
  pub starts_with_one : (s : Bytes) (c : ℕ) → starts_with s (c ∷ []) ≡ begins c s
  pub ends_with_one : (s : Bytes) (c : ℕ) → ends_with s (c ∷ []) ≡ ends c s
  pub split_one :
      (s separators : Bytes) → All (λ c. holds c separators ≡ false) s → split s separators ≡ s ∷ []
