-- ===== src/ConfigParser/Rounds.antt =====
-- The loop of `Parse` as a relation between where it stands before and after some rounds.
use foxy_4_web_server.Config.{Config}
use foxy_4_web_server.ConfigParser.{stops, goes}
use foxy_4_web_server.Base.{Outcome, ok, throws, undefined}
use mathlib.Core.Path.{subst}
use foxy_4_web_server.Base.{
  Outcome, ok, throws, undefined, ℕ, zero, suc, ◌+◌, ◌≡◌, refl, sym, ap, ◌∙◌, Bool, Option, some,
  arith,
}
use foxy_4_web_server.Base.Bytes.{Bytes}
use foxy_4_web_server.ConfigParser.{
  TokenType, parse_token, Blocks, Turn, turn, finish, parse_loop, stops, goes,
}

-- The last token's type, the blocks that are open and what is left of the file.
abbrev pub Place : Type 0
Place = TokenType × Blocks × Bytes

-- White space does not count: at the end of the rounds only the next token does.
pub data Rounds : Place → Place → Type 0 where
  stop :
      (last : TokenType) (s : Blocks) (input input' : Bytes)
      → parse_token input ≡ parse_token input'
      → Rounds (last, s, input) (last, s, input')
  round :
      (last last' type : TokenType) (s s' : Blocks) (input token rest : Bytes) (b : Place)
      → parse_token input ≡ (type, token, rest)
      → turn type last token s ≡ ok (goes last' s')
      → Rounds (last', s', rest) b
      → Rounds (last, s, input) b

skip_then :
    (last : TokenType) (s : Blocks) (input input' : Bytes) (b : Place)
    → parse_token input ≡ parse_token input'
    → Rounds (last, s, input') b
    → Rounds (last, s, input) b
skip_then last s input input' b e (stop _ _ _ i h) = stop last s input i (e ∙ h)
skip_then last s input input' b e (round _ l t _ s' _ k r _ h g more) =
    round last l t s s' input k r b (e ∙ h) g more

pub Rounds_trans : (a b c : Place) → Rounds a b → Rounds b c → Rounds a c
Rounds_trans _ _ c (stop last s input input' e) q = skip_then last s input input' c e q
Rounds_trans _ _ c (round last l t s s' input k r b h g more) q =
    round last l t s s' input k r c h g (Rounds_trans (l, s', r) b c more q)

-- What the loop does with a turn and the rest of the file.
unfoldable pub after : ℕ → Bytes → Outcome Turn → Option (Outcome (Bool × Config))
after f rest (ok (stops result s)) = some (finish result s)
after f rest (ok (goes last s)) = parse_loop f last s rest
after f rest (throws e) = some (throws e)
after f rest undefined = some undefined

-- A round of the loop on the next token.
unfoldable pub read_by :
    ℕ → TokenType → Blocks → TokenType × Bytes × Bytes → Option (Outcome (Bool × Config))
unfolding after
read_by f last s (type, token, rest) = after f rest (turn type last token s)

pub parse_loop-suc :
    (f : ℕ) (last : TokenType) (s : Blocks) (input : Bytes)
    → parse_loop (suc f) last s input ≡ read_by f last s (parse_token input)
unfolding parse_loop read_by after
parse_loop-suc f last s input = go (turn (parse_token input).0 last (parse_token input).1 s) refl
  where
    go :
        (t : Outcome Turn)
        → turn (parse_token input).0 last (parse_token input).1 s ≡ t
        → parse_loop (suc f) last s input ≡ read_by f last s (parse_token input)
    go (ok (stops result s')) e = rw (parse_loop, e) refl
    go (ok (goes last' s')) e = rw (parse_loop, e) refl
    go (throws x) e = rw (parse_loop, e) refl
    go undefined e = rw (parse_loop, e) refl

from_skip :
    (f : ℕ) (last : TokenType) (s : Blocks) (input input' : Bytes)
    → parse_token input ≡ parse_token input'
    → parse_loop f last s input ≡ parse_loop f last s input'
unfolding parse_loop
from_skip zero last s input input' e = refl
from_skip (suc f) last s input input' e =
    parse_loop-suc f last s input ∙ ap (read_by f last s) e ∙ sym (parse_loop-suc f last s input')

-- What the loop gives at the end of some rounds, it gives at their beginning, with more fuel.
pub parse_loop-Rounds :
    (a b : Place) (f : ℕ) (r : Outcome (Bool × Config))
    → Rounds a b
    → parse_loop f b.0 b.1 b.2 ≡ some r
    → (g : ℕ) × (parse_loop g a.0 a.1 a.2 ≡ some r)
unfolding read_by after
parse_loop-Rounds _ _ f r (stop last s input input' e) h =
    (f, from_skip f last s input input' e ∙ h)
parse_loop-Rounds _ _ f r (round last l t s s' input k rest b e turned more) h =
    let (g, later) = parse_loop-Rounds (l, s', rest) b f r more h in
    (
      suc g,
      parse_loop-suc g last s input ∙ ap (read_by g last s) e ∙ ap (after g rest) turned ∙ later,
    )

after_more :
    (f k : ℕ) (rest : Bytes) (t : Outcome Turn) (r : Outcome (Bool × Config))
    → ((last : TokenType) (s : Blocks)
        → parse_loop f last s rest ≡ some r
        → parse_loop (f + k) last s rest ≡ some r)
    → after f rest t ≡ some r
    → after (f + k) rest t ≡ some r
unfolding after
after_more f k rest (ok (stops result s)) r later h = h
after_more f k rest (ok (goes last s)) r later h = later last s h
after_more f k rest (throws e) r later h = h
after_more f k rest undefined r later h = h

-- More fuel does not change a result.
pub parse_loop_more :
    (f k : ℕ) (last : TokenType) (s : Blocks) (input : Bytes) (r : Outcome (Bool × Config))
    → parse_loop f last s input ≡ some r
    → parse_loop (f + k) last s input ≡ some r
unfolding parse_loop read_by
parse_loop_more zero k last s input r h = absurd (ground arith)
parse_loop_more (suc f) k last s input r h =
    let same : suc (f + k) ≡ suc f + k = omega arith in
    subst (λ n. parse_loop n last s input ≡ some r) same
      (parse_loop-suc (f + k) last s input
        ∙ after_more f k (parse_token input).2
            (turn (parse_token input).0 last (parse_token input).1 s) r
            (λ last' s' h'. parse_loop_more f k last' s' (parse_token input).2 r h')
            (sym (parse_loop-suc f last s input) ∙ h))
