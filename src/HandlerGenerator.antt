-- ===== src/HandlerGenerator.antt =====
-- src/request_handler_generator.cc: the map from locations to handlers, and the dispatch of a URI.
pub mod Segments
pub mod Dispatch
pub mod Errors
pub mod Declared
pub mod Configured
use foxy_4_web_server.Boost.{Boost}
use foxy_4_web_server.Base.{
  ℕ, zero, suc, ◌+◌, Bool, true, false, not, ◌&&◌, ◌||◌, Option, none, some, List, [], ◌∷◌, ◌++◌,
  length, Outcome, ok, undefined, ◌>>=◌, ◌==◌, ltb, if◌then◌else◌,
}
use foxy_4_web_server.Base.Bytes.{Bytes, codes, same, before_nul}
use foxy_4_web_server.Base.Dict.{Dict, lookup, insert, put}
use foxy_4_web_server.Config.{Statement, plain, with_block, Config, end, next, tokens_of, token_at}
use foxy_4_web_server.DataCollector.{DataCollector}
use foxy_4_web_server.Handlers.Init.{Handler, create_handler}
use foxy_4_web_server.Utility.{is_quoted}

-- `if (!x.empty()) v.push_back(x)`
unfoldable pub push_segment : List Bytes → Bytes → List Bytes
push_segment v [] = v
push_segment v (c ∷ x) = v ++ (c ∷ x) ∷ []

-- The loop over the characters: `v` holds the segments, `x` the one that is being read.
unfoldable pub split_loop : List Bytes → Bytes → Bytes → List Bytes
unfolding push_segment
split_loop v x [] = push_segment v x
split_loop v x (c ∷ cs) =
    split_loop (if c == b'/' then push_segment v x else v) (if c == b'/' then [] else x ++ c ∷ [])
      cs

unfoldable pub segments : Bytes → List Bytes
unfolding split_loop before_nul
segments s = split_loop [] [] (before_nul s)

-- The loop over both lists, to the end of the shorter one.
unfoldable pub count_equal : List Bytes → List Bytes → ℕ
count_equal (x ∷ xs) (y ∷ ys) = (if same y x then 1 else 0) + count_equal xs ys
count_equal _ _ = 0

unfoldable pub common_prefix_length : Bytes → Bytes → ℕ
unfolding segments count_equal
common_prefix_length a b = count_equal (segments a) (segments b)

-- `map_`; a null pointer is `none`.
abbrev pub HandlerMap : Type 0
HandlerMap = Dict (Option Handler)

-- `longest_length` and `longest_path`.
abbrev pub Longest : Type 0
Longest = ℕ × Bytes

-- The body of the loop in `dispatch_handler`; the second test sees what the first one wrote.
unfoldable pub consider : Bytes → Bytes → Longest → Longest
consider uri path (longest_length, longest_path) =
    let current = common_prefix_length uri path in
    if current == 0
    then (longest_length, longest_path)
    else if ltb longest_length current
    then (current, path)
    else if longest_length == current && ltb (length path) (length longest_path)
    then (current, path)
    else (longest_length, longest_path)

unfoldable pub longest_match : Bytes → HandlerMap → Longest → Longest
unfolding consider
longest_match uri [] best = best
longest_match uri ((path, h) ∷ m) best = longest_match uri m (consider uri path best)

-- `map_[path]`: a path that is not there gets a null pointer.
unfoldable pub handler_at : Bytes → HandlerMap → Option Handler × HandlerMap
handler_at path m = elim (lookup path m) [ none ↦ (none, put path none m) | some h ↦ (h, m) ]

-- The handler, null if there is none, and the map afterwards.
unfoldable pub dispatch_handler : Bytes → HandlerMap → Option Handler × HandlerMap
unfolding longest_match handler_at
dispatch_handler uri m =
    let (longest_length, longest_path) = longest_match uri m (0, []) in
    if longest_length == 0 then handler_at (codes "/") m else handler_at longest_path m

abbrev has_block : Statement → Bool
has_block (plain tokens) = false
has_block (with_block tokens child) = true

unfoldable pub invalid_config : Statement → Bool
invalid_config s = not (length (tokens_of s) == 3) && has_block s

-- `*(statement->child_block_)`: a null pointer has no object behind it.
unfoldable pub block_of : Statement → Outcome Config
block_of (plain tokens) = undefined
block_of (with_block tokens child) = ok child

-- `find == tokens.begin()`: the first token is the word, or there is no token.
unfoldable pub is_location : List Bytes → Bool
is_location [] = true
is_location (t ∷ tokens) = same t (codes "location")

-- One statement of `get_map`: `none` ends the call with `false`.
unfoldable pub add_location :
    ⦃b : Boost⦄
    → Statement
    → HandlerMap
    → DataCollector
    → Outcome (Option HandlerMap × DataCollector)
unfolding invalid_config block_of token_at is_quoted create_handler
add_location s m c = if invalid_config s then ok (none, c) else (do
  method ← token_at (tokens_of s) 2
  token ← token_at (tokens_of s) 1
  (quoted, path) ← is_quoted token
  if quoted
      then (do
        block ← block_of s
        (handler, c') ← create_handler path method block c
        elim handler [ none ↦ ok (none, c') | some h ↦ ok (some (insert path (some h) m), c') ])
      else ok (none, c))

abbrev Mapped : Type 0
Mapped = Outcome (Bool × HandlerMap × DataCollector)

unfoldable pub get_map :
    ⦃b : Boost⦄ → Config → HandlerMap → DataCollector → Outcome (Bool × HandlerMap × DataCollector)
unfolding add_location is_location
get_map end m c = ok (true, m, c)
get_map (next s more) m c =
    if is_location (tokens_of s)
    then (do
      (added, c') ← add_location s m c
      elim added [ none ↦ ok (false, m, c') | some m' ↦ get_map more m' c' ])
    else get_map more m c
