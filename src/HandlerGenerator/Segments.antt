-- ===== src/HandlerGenerator/Segments.antt =====
-- The segments of a path, and what `common_prefix_length` counts.
use foxy_4_web_server.Base.{
  ℕ, suc, ◌≤◌, false, List, [], ◌∷◌, ◌++◌, ◌≡◌, ◌≢◌, refl, ◌∙◌, arith, append_assoc, append-nil,
  length, if◌then◌else◌, ◌==◌, All,
}
use foxy_4_web_server.Base.Bytes.{Bytes, same, same_iff, same_refl, before_nul}
use foxy_4_web_server.HandlerGenerator.{
  push_segment, split_loop, segments, count_equal, common_prefix_length,
}

-- The bytes of a segment.
abbrev IsSegmentByte : ℕ → Type 0
IsSegmentByte c = ((c == b'/') ≡ false) × ((c == 0) ≡ false)

-- A path made of segments, each behind a slash.
abbrev pub path_of : List Bytes → Bytes
path_of [] = []
path_of (s ∷ ss) = b'/' ∷ (s ++ path_of ss)

abbrev IsSegment : Bytes → Type 0
IsSegment [] = ⊥
IsSegment (c ∷ s) = All IsSegmentByte (c ∷ s)

before_nul-bytes : (s t : Bytes) → All IsSegmentByte s → before_nul (s ++ t) ≡ s ++ before_nul t
unfolding before_nul
before_nul-bytes [] t _ = refl
before_nul-bytes (c ∷ s) t ((_, h), k) = rw (h, before_nul-bytes s t k)

before_nul-path_of : (ss : List Bytes) → All IsSegment ss → before_nul (path_of ss) ≡ path_of ss
unfolding before_nul
before_nul-path_of [] _ = refl
before_nul-path_of ((c ∷ s) ∷ ss) (h, k) =
    rw (before_nul-bytes (c ∷ s) (path_of ss) h, before_nul-path_of ss k)
before_nul-path_of ([] ∷ ss) (h, k) = absurd h

split_loop-bytes :
    (s t : Bytes) (v : List Bytes) (x : Bytes)
    → All IsSegmentByte s
    → split_loop v x (s ++ t) ≡ split_loop v (x ++ s) t
unfolding split_loop
split_loop-bytes [] t v x _ = rw append-nil
split_loop-bytes (c ∷ s) t v x ((h, _), k) =
    rw (split_loop, h) (split_loop-bytes s t v (x ++ c ∷ []) k ∙ rw append_assoc)

split_loop-path_of :
    (ss : List Bytes) (v : List Bytes) (x : Bytes)
    → All IsSegment ss
    → split_loop v x (path_of ss) ≡ push_segment v x ++ ss
unfolding split_loop
split_loop-path_of [] v x _ = rw append-nil
split_loop-path_of ((c ∷ s) ∷ ss) v x (h, k) =
    split_loop-bytes (c ∷ s) (path_of ss) (push_segment v x) [] h
    ∙ split_loop-path_of ss (push_segment v x) (c ∷ s) k
    ∙ unfold push_segment in rw append_assoc
split_loop-path_of ([] ∷ ss) v x (h, k) = absurd h

-- Splitting gives the segments back.
segments-path_of : (ss : List Bytes) → All IsSegment ss → segments (path_of ss) ≡ ss
unfolding segments push_segment
segments-path_of ss h = rw (before_nul-path_of ss h) (split_loop-path_of ss [] [] h)

-- The number of segments that two lists have in common before they differ.
abbrev shared : List Bytes → List Bytes → ℕ
shared (x ∷ xs) (y ∷ ys) = let more = shared xs ys in if same y x then suc more else 0
shared _ _ = 0

-- The count is at least that number.
shared-le : (xs ys : List Bytes) → shared xs ys ≤ count_equal xs ys
unfolding count_equal
shared-le (x ∷ xs) (y ∷ ys) = ground (arith, shared-le xs ys)
shared-le [] ys = omega arith
shared-le (x ∷ xs) [] = omega arith

count_equal_self : (xs : List Bytes) → count_equal xs xs ≡ length xs
unfolding count_equal
count_equal_self [] = refl
count_equal_self (x ∷ xs) = ground (arith, same_refl x, count_equal_self xs)

-- A path below a location has all the segments of the location in common with it.
count_equal-append : (xs ys : List Bytes) → count_equal (xs ++ ys) xs ≡ length xs
unfolding count_equal
count_equal-append [] [] = refl
count_equal-append [] (y ∷ ys) = refl
count_equal-append (x ∷ xs) ys = ground (arith, same_refl x, count_equal-append xs ys)

-- Paths of segments, one of which begins with the other, have all the segments of the shorter one
-- in common.
pub common_prefix_length-append :
    (xs ys : List Bytes)
    → All IsSegment xs
    → All IsSegment (xs ++ ys)
    → common_prefix_length (path_of (xs ++ ys)) (path_of xs) ≡ length xs
unfolding common_prefix_length
common_prefix_length-append xs ys h k =
    rw (segments-path_of (xs ++ ys) k, segments-path_of xs h) (count_equal-append xs ys)

-- Paths whose first segments differ have no common prefix, and yet the count goes on behind them.
pub common_prefix_length_mismatch :
    (a b : Bytes) (xs : List Bytes)
    → a ≢ b
    → All IsSegment (a ∷ xs)
    → All IsSegment (b ∷ xs)
    → common_prefix_length (path_of (a ∷ xs)) (path_of (b ∷ xs)) ≡ length xs
unfolding common_prefix_length count_equal
common_prefix_length_mismatch a b xs ne h k =
    rw (segments-path_of (a ∷ xs) h, segments-path_of (b ∷ xs) k)
      (ground (arith, same_iff b a, count_equal_self xs))
