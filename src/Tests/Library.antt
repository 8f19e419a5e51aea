-- ===== src/Tests/Library.antt =====
-- Functions in place of those of Boost.
use foxy_4_web_server.Base.{ℕ, Bool, true, false, [], ◌∷◌, ◌≡◌, refl, arith}
use foxy_4_web_server.Base.Bytes.{Bytes, starts_with}
use foxy_4_web_server.Boost.{Boost, begins, ends}

abbrev pub ends_with : Bytes → Bytes → Bool
ends_with s [] = true
ends_with s (c ∷ []) = ends c s
ends_with s (c ∷ d ∷ t) = false

pub starts_with_one : (s : Bytes) (c : ℕ) → starts_with s (c ∷ []) ≡ begins c s
unfolding starts_with begins
starts_with_one [] c = refl
starts_with_one (x ∷ []) c = ground arith
starts_with_one (x ∷ y ∷ s) c = ground arith

abbrev pub string_tests : Boost
string_tests = record {
  starts_with = starts_with;
  ends_with = ends_with;
  split = λ s separators. s ∷ [];
  starts_with_one = starts_with_one;
  ends_with_one = λ s c. refl;
  split_one = λ s separators none_there. refl;
}
