-- ===== src/ConfigParser/Total.antt =====
-- The loop in `Parse` ends within its fuel.
use foxy_4_web_server.Base.{
  ℕ, zero, suc, ◌+◌, ◌≤◌, Bool, false, Option, none, [], ◌∷◌, ◌≡◌, ◌≢◌, refl, ◌⊎◌, inl, inr, arith,
  length, Outcome, ok, throws, undefined,
}
use foxy_4_web_server.Base.Bytes.{Bytes}
use foxy_4_web_server.Config.{Config}
use foxy_4_web_server.ConfigParser.{
  TokenType, start, eof, TokenParserState, initial_whitespace, Action, emits, ungets, continues,
  token_step, token_loop, parse_token, Blocks, Turn, stops, goes, turn, parse_loop, parse,
}

-- A token leaves no more than it was given.
token_loop-le :
    (st : TokenParserState) (v input : Bytes) → length (token_loop st v input).2 ≤ length input
unfolding token_loop
token_loop-le st v [] = omega arith
token_loop-le st v (c ∷ cs) = go (token_step st v c) refl (λ st' v'. token_loop-le st' v' cs)
  where
    go :
        (a : Action)
        → token_step st v c ≡ a
        → ((st' : TokenParserState) (v' : Bytes) → length (token_loop st' v' cs).2 ≤ length cs)
        → length (token_loop st v (c ∷ cs)).2 ≤ suc (length cs)
    go (emits t w) e ih = rw (token_loop, e) (omega arith)
    go (ungets t w) e ih = rw (token_loop, e) (omega arith)
    go (continues st' w) e ih = rw (token_loop, e) (omega (arith, ih st' w))

-- The first byte is read.
initial_not_ungets :
    (v : Bytes) (c : ℕ) {t : TokenType} {w : Bytes}
    → token_step initial_whitespace v c ≡ ungets t w
    → ⊥
unfolding token_step
initial_not_ungets v c h = ground arith

parse_token-lt : (c : ℕ) (cs : Bytes) → length (parse_token (c ∷ cs)).2 ≤ length cs
unfolding parse_token token_loop
parse_token-lt c cs = go (token_step initial_whitespace [] c) refl
  where
    go :
        (a : Action)
        → token_step initial_whitespace [] c ≡ a
        → length (parse_token (c ∷ cs)).2 ≤ length cs
    go (emits t w) e = rw (token_loop, e) (omega arith)
    go (ungets t w) e = absurd (initial_not_ungets [] c e)
    go (continues st' w) e = rw (token_loop, e) (token_loop-le st' w cs)

-- At the end of the input there is nothing but the end.
parse_token_nil : parse_token [] ≡ (eof, [], [])
unfolding parse_token token_loop
parse_token_nil = refl

-- Fuel for the input, or for one round after the end of the file.
abbrev IsEnough : ℕ → TokenType → Bytes → Type 0
IsEnough f last input = (length input + 2 ≤ f) ⊎ ((last ≡ eof) × (input ≡ []) × (1 ≤ f))

turn_eof : (token : Bytes) (s : Blocks) → turn eof eof token s ≡ ok (stops false s)
unfolding turn
turn_eof token s = refl

-- A round that goes on after the end of the file has that as its last token type.
turn_goes_eof :
    (last last' : TokenType) (token : Bytes) (s s' : Blocks)
    → turn eof last token s ≡ ok (goes last' s')
    → last' ≡ eof
unfolding turn
turn_goes_eof last last' token s s' h = ground arith

-- The fuel has not run out.
abbrev Ends : Option (Outcome (Bool × Config)) → Type 0
Ends o = o ≢ none

parse_loop_round :
    (f : ℕ) (last : TokenType) (s : Blocks) (input : Bytes)
    → ((last' : TokenType) (s' : Blocks)
        → turn (parse_token input).0 last (parse_token input).1 s ≡ ok (goes last' s')
        → Ends (parse_loop f last' s' (parse_token input).2))
    → Ends (parse_loop (suc f) last s input)
unfolding parse_loop
parse_loop_round f last s input later =
    go (turn (parse_token input).0 last (parse_token input).1 s) refl
  where
    go :
        (t : Outcome Turn)
        → turn (parse_token input).0 last (parse_token input).1 s ≡ t
        → parse_loop (suc f) last s input ≢ none
    go (ok (stops b s')) e = rw (parse_loop, e) (λ x. cc)
    go (ok (goes last' s')) e = rw (parse_loop, e) (later last' s' e)
    go (throws x) e = rw (parse_loop, e) (λ x. cc)
    go undefined e = rw (parse_loop, e) (λ x. cc)

parse_loop-Ends :
    (f : ℕ) (last : TokenType) (s : Blocks) (input : Bytes)
    → IsEnough f last input
    → Ends (parse_loop f last s input)
unfolding parse_token token_loop
parse_loop-Ends zero last s input enough = absurd (ground arith)
parse_loop-Ends (suc f) last s [] enough = parse_loop_round f last s [] λ last' s' e. elim enough [
  | inl big ↦
      parse_loop-Ends f last' s' [] (inr (turn_goes_eof last last' [] s s' e, refl, omega arith))
  | inr (over, _, _) ↦ cc (turn_eof [] s, over, e)
]
parse_loop-Ends (suc f) last s (c ∷ cs) enough = parse_loop_round f last s (c ∷ cs) λ last' s' e.
    parse_loop-Ends f last' s' (parse_token (c ∷ cs)).2 (ground (arith, parse_token-lt c cs))

-- The parser of a file ends within its fuel.
pub parse_ends : (config_file : Bytes) (config : Config) → parse config_file config ≢ none
unfolding parse
parse_ends config_file config = parse_loop-Ends _ start _ config_file (inl (omega arith))
