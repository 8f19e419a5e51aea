-- ===== src/ConfigParser.antt =====
-- src/config_parser.cc, include/config_parser.h: the lexer and the parser of configuration files.
pub mod Total
pub mod Lexing
pub mod Statements
pub mod Rounds
pub mod Reads
pub mod RoundTrip
pub mod Tokens
pub mod Parsed
pub mod Reparse
pub mod Faults
use foxy_4_web_server.Base.{
  ℕ, zero, suc, ◌+◌, Bool, true, false, not, ◌&&◌, ◌||◌, Option, none, some, List, [], ◌∷◌, ◌++◌,
  length, Outcome, ok, throws, undefined, ◌>>=◌, ◌==◌, if◌then◌else◌,
}
use foxy_4_web_server.Base.Bytes.{Bytes}
use foxy_4_web_server.Config.{Statement, plain, with_block, Config, end, next}

pub data TokenType : Type 0 where
  start normal start_block end_block comment statement_end eof error : TokenType

pub data TokenParserState : Type 0 where
  initial_whitespace single_quote double_quote token_type_comment token_type_normal :
      TokenParserState

-- What one byte does: the token ends with it, or before it (`unget`), or goes on.
pub data Action : Type 0 where
  emits ungets : TokenType → Bytes → Action
  continues : TokenParserState → Bytes → Action

-- The cases of the switch in `ParseToken`.
unfoldable pub token_step : TokenParserState → Bytes → ℕ → Action
token_step initial_whitespace value c =
    if c == b'{'
    then emits start_block (c ∷ [])
    else if c == b'}'
    then emits end_block (c ∷ [])
    else if c == b'#'
    then continues token_type_comment (c ∷ [])
    else if c == b'"'
    then continues double_quote (c ∷ [])
    else if c == b'\''
    then continues single_quote (c ∷ [])
    else if c == b';'
    then emits statement_end (c ∷ [])
    else if c == b' ' || c == b'\t' || c == b'\n' || c == b'\r'
    then continues initial_whitespace value
    else continues token_type_normal (value ++ c ∷ [])
token_step single_quote value c =
    if c == b'\'' then emits normal (value ++ c ∷ []) else continues single_quote (value ++ c ∷ [])
token_step double_quote value c =
    if c == b'"' then emits normal (value ++ c ∷ []) else continues double_quote (value ++ c ∷ [])
token_step token_type_comment value c =
    if c == b'\n' || c == b'\r'
    then emits comment value
    else continues token_type_comment (value ++ c ∷ [])
token_step token_type_normal value c =
    if c == b' ' || c == b'\t' || c == b'\n' || c == b';' || c == b'{' || c == b'}'
    then ungets normal value
    else continues token_type_normal (value ++ c ∷ [])

-- At the end of the file.
unfoldable pub at_end : TokenParserState → TokenType
at_end single_quote = error
at_end double_quote = error
at_end _ = eof

-- The loop of `ParseToken`, on what is left of the stream: the type, the value and the rest.
unfoldable pub token_loop : TokenParserState → Bytes → Bytes → TokenType × Bytes × Bytes
unfolding at_end
token_loop state value [] = (at_end state, value, [])
token_loop state value (c ∷ cs) = elim (token_step state value c) [
  | emits type v ↦ (type, v, cs)
  | ungets type v ↦ (type, v, c ∷ cs)
  | continues state' v ↦ token_loop state' v cs
]

unfoldable pub parse_token : Bytes → TokenType × Bytes × Bytes
parse_token input = token_loop initial_whitespace [] input

-- `config_stack`, the innermost block first. A block that is open is not in its parent yet: the
-- last statement of the parent has an empty block in its place. `root` is the configuration once
-- the stack has lost its last entry.
pub record Blocks : Type 0 where
  pub stack : List Config
  pub root : Config

-- `statements_.emplace_back(new NginxConfigStatement)`
unfoldable pub add_statement : Config → Config
add_statement end = next (plain []) end
add_statement (next s more) = next s (add_statement more)

-- `statements_.back()->tokens_.push_back(token)`
unfoldable pub add_token : Bytes → Config → Outcome Config
add_token token end = undefined
add_token token (next (plain tokens) end) = ok (next (plain (tokens ++ token ∷ [])) end)
add_token token (next (with_block tokens b) end) =
    ok (next (with_block (tokens ++ token ∷ []) b) end)
add_token token (next s (next t more)) = do rest ← add_token token (next t more); ok (next s rest)

-- The block of the last statement, `statements_.back()->child_block_`, is `b`.
unfoldable pub set_block : Config → Config → Outcome Config
set_block b end = undefined
set_block b (next (plain tokens) end) = ok (next (with_block tokens b) end)
set_block b (next (with_block tokens _) end) = ok (next (with_block tokens b) end)
set_block b (next s (next t more)) = do rest ← set_block b (next t more); ok (next s rest)

-- `config_stack.top()` with a change; there is no top of an empty stack.
unfoldable pub change_top : (Config → Outcome Config) → Blocks → Outcome Blocks
change_top f s = elim s.stack [
  | [] ↦ undefined
  | top ∷ below ↦ (do top' ← f top; ok (record s { stack = top' ∷ below }))
]

-- `config_stack.pop()`; the block that is closed enters its parent.
unfoldable pub pop : Blocks → Outcome Blocks
unfolding set_block
pop s = elim s.stack [
  | [] ↦ undefined
  | top ∷ below ↦ elim below [
    | [] ↦ ok (record { stack = []; root = top })
    | parent ∷ more ↦ (do parent' ← set_block top parent; ok (record s { stack = parent' ∷ more }))
  ]
]

-- A new block for the last statement, pushed on the stack.
unfoldable pub open_block : Blocks → Outcome Blocks
unfolding change_top set_block
open_block s = do s' ← change_top (set_block end) s; ok (record s' { stack = end ∷ s'.stack })

abbrev pub is_empty_stack : List Config → Bool
is_empty_stack [] = true
is_empty_stack (c ∷ cs) = false

-- A round of the loop in `Parse` ends the call or goes on with a last token type.
pub data Turn : Type 0 where
  stops : Bool → Blocks → Turn
  goes : TokenType → Blocks → Turn

-- The case `TOKEN_TYPE_NORMAL`.
unfoldable pub on_normal : TokenType → Bytes → Blocks → Outcome Turn
unfolding change_top add_statement add_token
on_normal normal token s = do s' ← change_top (add_token token) s; ok (goes normal s')
on_normal start token s = do
  s' ← change_top (λ c. add_token token (add_statement c)) s
  ok (goes normal s')
on_normal statement_end token s = do
  s' ← change_top (λ c. add_token token (add_statement c)) s
  ok (goes normal s')
on_normal start_block token s = do
  s' ← change_top (λ c. add_token token (add_statement c)) s
  ok (goes normal s')
on_normal end_block token s = do
  s' ← change_top (λ c. add_token token (add_statement c)) s
  ok (goes normal s')
on_normal _ token s = ok (stops false s)

abbrev pub is_normal : TokenType → Bool
is_normal normal = true
is_normal _ = false

-- What may stand before `}`.
abbrev pub ends_block : TokenType → Bool
ends_block statement_end = true
ends_block start_block = true
ends_block end_block = true
ends_block _ = false

-- What may stand before the end of the file.
abbrev pub ends_file : TokenType → Bool
ends_file statement_end = true
ends_file end_block = true
ends_file start = true
ends_file comment = true
ends_file _ = false

-- The body of the loop in `Parse`: the token's type, the last type, the token.
unfoldable pub turn : TokenType → TokenType → Bytes → Blocks → Outcome Turn
turn error last token s = ok (stops false s)
turn comment last token s = ok (goes last s)
turn start last token s = ok (stops false s)
turn normal last token s = on_normal last token s
turn statement_end last token s =
    if is_normal last then ok (goes statement_end s) else ok (stops false s)
turn start_block last token s =
    if is_normal last then (do s' ← open_block s; ok (goes start_block s')) else ok (stops false s)
turn end_block last token s =
    if ends_block last then (do s' ← pop s; ok (goes end_block s')) else ok (stops false s)
turn eof last token s =
    if ends_file last
    then (do s' ← pop s; if is_empty_stack s'.stack then ok (stops true s') else ok (goes eof s'))
    else ok (stops false s)

-- The configuration that the caller sees: every open block in its parent.
unfoldable pub close_all : Config → List Config → Config → Outcome Config
unfolding set_block
close_all root [] b = ok b
close_all root (parent ∷ more) b = do parent' ← set_block b parent; close_all root more parent'

unfoldable pub finish : Bool → Blocks → Outcome (Bool × Config)
unfolding close_all
finish result s = elim s.stack [
  | [] ↦ ok (result, s.root)
  | top ∷ below ↦ (do config ← close_all s.root below top; ok (result, config))
]

-- The loop in `Parse`, with fuel; `none` means that the fuel ran out.
unfoldable pub parse_loop : ℕ → TokenType → Blocks → Bytes → Option (Outcome (Bool × Config))
parse_loop zero last s input = none
parse_loop (suc f) last s input =
    let (type, token, rest) = parse_token input in
    elim (turn type last token s) [
      | ok t ↦ elim t [
        | stops result s' ↦ some (finish result s')
        | goes last' s' ↦ parse_loop f last' s' rest
      ]
      | throws e ↦ some (Outcome.throws e)
      | undefined ↦ some Outcome.undefined
    ]

-- Every round but the last two reads a byte.
unfoldable pub parse : Bytes → Config → Option (Outcome (Bool × Config))
parse config_file config =
    parse_loop (length config_file + 2) start (record { stack = config ∷ []; root = config })
      config_file
