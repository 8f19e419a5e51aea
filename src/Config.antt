-- ===== src/Config.antt =====
-- src/config.cc, src/config_statement.cc, include/config.h: a parsed configuration and what the
-- program reads from it.
pub mod Errors
use foxy_4_web_server.Boost.{Boost}
use foxy_4_web_server.Base.{
  ℕ, zero, suc, ◌+◌, Bool, true, false, not, ◌&&◌, ◌||◌, Option, none, some, List, [], ◌∷◌, ◌++◌,
  length, get_elem?, all, Outcome, ok, undefined, ◌>>=◌, ◌==◌, ltb, if◌then◌else◌,
}
use mathlib.Core.Option
use foxy_4_web_server.Base.Bytes.{Bytes, codes, same}
use foxy_4_web_server.Base.Int.{ℤ}
use foxy_4_web_server.Base.Text.{is_decimal, stoi}
use foxy_4_web_server.Utility.{is_quoted}

-- A statement has its tokens and, where `child_block_` is set, a block.
mutual
  pub data Statement : Type 0 where
    plain : List Bytes → Statement
    with_block : List Bytes → Config → Statement

  pub data Config : Type 0 where
    end : Config
    next : Statement → Config → Config

abbrev pub tokens_of : Statement → List Bytes
tokens_of (plain tokens) = tokens
tokens_of (with_block tokens child) = tokens

-- `std::find(tokens.begin(), tokens.end(), word)`: the position, `none` for the end.
unfoldable pub find_token : Bytes → List Bytes → Option ℕ
find_token word [] = none
find_token word (t ∷ tokens) =
    if same t word then some 0 else Option.map (λ n. suc n) (find_token word tokens)

-- `*(tokens.begin() + i)`: at or behind the end the read is undefined.
unfoldable pub token_at : List Bytes → ℕ → Outcome Bytes
token_at tokens i = elim (get_elem? tokens i) [ none ↦ undefined | some t ↦ ok t ]

-- `find != end && find != prev(end)`
unfoldable pub valid_keyword_listen : Option ℕ → List Bytes → Bool
valid_keyword_listen none tokens = false
valid_keyword_listen (some i) tokens = not (i + 1 == length tokens)

-- `s.find_first_not_of("0123456789") == npos`
unfoldable pub all_digits : Bytes → Bool
all_digits s = all is_decimal s

abbrev position : Option ℕ → ℕ
position none = 0
position (some i) = i

-- The pairs of a port and a type.
abbrev pub Ports : Type 0
Ports = List (ℤ × Bytes)

abbrev is_some_port : Ports → Bool
is_some_port [] = false
is_some_port (p ∷ ps) = true

-- What a statement with a `listen` of three tokens does: `none` ends the search with `false`.
unfoldable pub read_listen : List Bytes → ℕ → Ports → Outcome (Option Ports)
unfolding token_at all_digits
read_listen tokens i vec = do
  portstring ← token_at tokens (i + 2)
  if all_digits portstring
      then (do
        port ← stoi portstring
        type ← token_at tokens (i + 1)
        if not (same type (codes "https")) && not (same type (codes "http"))
            then ok none
            else ok (some (vec ++ (port, type) ∷ [])))
      else ok none

abbrev is_listen : List Bytes → Bool
is_listen tokens =
    valid_keyword_listen (find_token (codes "listen") tokens) tokens && length tokens == 3

-- The rest of the loop after a `listen`.
abbrev after_listen :
    Ports → (Ports → Outcome (Bool × Ports)) → Option Ports → Outcome (Bool × Ports)
after_listen vec rest none = ok (false, vec)
after_listen vec rest (some vec') = rest vec'

unfoldable pub get_port : Config → Ports → Outcome (Bool × Ports)
unfolding find_token valid_keyword_listen read_listen
get_port end vec = ok (is_some_port vec, vec)
get_port (next (plain tokens) more) vec =
    if is_listen tokens
    then (do
      read ← read_listen tokens (position (find_token (codes "listen") tokens)) vec
      after_listen vec (get_port more) read)
    else get_port more vec
get_port (next (with_block tokens child) more) vec =
    if is_listen tokens
    then (do
      read ← read_listen tokens (position (find_token (codes "listen") tokens)) vec
      after_listen vec (get_port more) read)
    else (do (_, vec') ← get_port child vec; get_port more vec')

-- The number of a `threads` statement.
unfoldable pub read_threads : List Bytes → ℕ → ℤ → Outcome (Bool × ℤ)
unfolding token_at all_digits
read_threads tokens i threads = do
  threadstring ← token_at tokens (i + 1)
  if all_digits threadstring then (do n ← stoi threadstring; ok (true, n)) else ok (false, threads)

abbrev has_keyword : Bytes → List Bytes → Bool
has_keyword word tokens = valid_keyword_listen (find_token word tokens) tokens

-- The first statement that is a `threads` or has a block decides.
unfoldable pub get_threads : Config → ℤ → Outcome (Bool × ℤ)
unfolding find_token valid_keyword_listen read_threads
get_threads end threads = ok (false, threads)
get_threads (next (plain tokens) more) threads =
    if has_keyword (codes "threads") tokens
    then read_threads tokens (position (find_token (codes "threads") tokens)) threads
    else get_threads more threads
get_threads (next (with_block tokens child) more) threads =
    if has_keyword (codes "threads") tokens
    then read_threads tokens (position (find_token (codes "threads") tokens)) threads
    else get_threads child threads

-- The quoted token behind a keyword, of `get_dir` and of `get_hostname`; blocks are not entered.
unfoldable pub get_quoted : ⦃b : Boost⦄ → Bytes → Config → Bytes → Outcome (Bool × Bytes)
unfolding find_token valid_keyword_listen token_at
get_quoted word end value = ok (true, value)
get_quoted word (next s more) value =
    let tokens = tokens_of s in
    if has_keyword word tokens
    then (do token ← token_at tokens (position (find_token word tokens) + 1); is_quoted token)
    else get_quoted word more value

unfoldable pub get_dir : ⦃b : Boost⦄ → Config → Bytes → Outcome (Bool × Bytes)
unfolding get_quoted
get_dir = get_quoted (codes "dir")

unfoldable pub get_hostname : ⦃b : Boost⦄ → Config → Bytes → Outcome (Bool × Bytes)
unfolding get_quoted
get_hostname = get_quoted (codes "hostname")

unfoldable pub tabs : ℕ → Bytes
tabs zero = []
tabs (suc depth) = b'\t' ∷ tabs depth

-- The tokens with a blank between each two.
unfoldable pub join : List Bytes → Bytes
join [] = []
join (t ∷ []) = t
join (t ∷ u ∷ tokens) = t ++ b' ' ∷ join (u ∷ tokens)

abbrev ending : List Bytes → Bytes
ending [] = []
ending (t ∷ tokens) = codes ";"

-- `NginxConfig::ToString` and, in its cases, `NginxConfigStatement::ToString`.
unfoldable pub to_text : Config → ℕ → Bytes
unfolding tabs join
to_text end depth = []
to_text (next (plain tokens) more) depth =
    (tabs depth ++ join tokens ++ ending tokens ++ codes "\n") ++ to_text more depth
to_text (next (with_block tokens child) more) depth =
    (tabs depth
      ++ join tokens
      ++ codes " {\n"
      ++ to_text child (suc depth)
      ++ tabs depth
      ++ codes "}"
      ++ codes "\n")
    ++ to_text more depth
