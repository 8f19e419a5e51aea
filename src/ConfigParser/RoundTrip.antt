-- ===== src/ConfigParser/RoundTrip.antt =====
-- `NginxConfig::ToString` and then `Parse`.
use foxy_4_web_server.Config.{Statement, plain, with_block, Config, end, next}
use foxy_4_web_server.ConfigParser.{TokenType, start, start_block, end_block, statement_end, eof}
use foxy_4_web_server.Base.{ok, Outcome}
use mathlib.Core.Path.{subst}
use foxy_4_web_server.Base.{
  length, Outcome, ok, ℕ, suc, ◌+◌, ◌≡◌, refl, sym, ap, ◌∙◌, Bool, true, Option, none, some, List,
  [], ◌∷◌, ◌++◌, append_assoc, append-nil, arith,
}
use foxy_4_web_server.Base.Bytes.{Bytes}
use foxy_4_web_server.Config.{Statement, Config, tabs, join, to_text}
use foxy_4_web_server.ConfigParser.{
  TokenType, token_loop, parse_token, pop, ends_block, ends_file, turn, finish, parse_loop, parse,
  start, start_block, end_block, statement_end, eof,
}
use foxy_4_web_server.ConfigParser.Statements.{
  append_config, append_config_assoc, append_config-end, snoc,
}
use foxy_4_web_server.ConfigParser.Rounds.{
  Rounds, Rounds_trans, parse_loop-Rounds, parse_loop_more, stop,
}
use foxy_4_web_server.ConfigParser.Reads.{
  AreTokens, IsReadable, BeginsStatement, inside, reads_plain, reads_opening, reads_closing,
}
use foxy_4_web_server.ConfigParser.Total.{parse_ends}

-- The last token's type after the text of a configuration.
pub last_of : TokenType → Config → TokenType
last_of last end = last
last_of last (next (plain _) more) = last_of statement_end more
last_of last (next (with_block _ _) more) = last_of end_block more

pub last_of-ends_block :
    (last : TokenType) (c : Config) → ends_block last ≡ true → ends_block (last_of last c) ≡ true
unfolding last_of
last_of-ends_block last end h = h
last_of-ends_block last (next (plain _) more) h = last_of-ends_block statement_end more refl
last_of-ends_block last (next (with_block _ _) more) h = last_of-ends_block end_block more refl

pub last_of-ends_file :
    (last : TokenType) (c : Config) → ends_file last ≡ true → ends_file (last_of last c) ≡ true
unfolding last_of
last_of-ends_file last end h = h
last_of-ends_file last (next (plain _) more) h = last_of-ends_file statement_end more refl
last_of-ends_file last (next (with_block _ _) more) h = last_of-ends_file end_block more refl

pub last_of-next : (s : Statement) (more : Config) → ends_block (last_of start (next s more)) ≡ true
unfolding last_of
last_of-next (plain ts) more = last_of-ends_block statement_end more refl
last_of-next (with_block ts child) more = last_of-ends_block end_block more refl

-- The text of a configuration, with its parts bracketed to the right.
text_plain :
    (ts : List Bytes) (more : Config) (depth : ℕ) (rest : Bytes)
    → AreTokens ts
    → to_text (next (plain ts) more) depth ++ rest
      ≡ tabs depth ++ (join ts ++ b';' ∷ b'\n' ∷ (to_text more depth ++ rest))
unfolding to_text
text_plain [] more depth rest h = absurd h
text_plain (t ∷ ts) more depth rest h = simp append_assoc

text_block :
    (ts : List Bytes) (child more : Config) (depth : ℕ) (rest : Bytes)
    → to_text (next (with_block ts child) more) depth ++ rest
      ≡ tabs depth
        ++ (join ts
            ++ b' '
              ∷ b'{'
              ∷ b'\n'
              ∷ (to_text child (suc depth)
                  ++ (tabs depth ++ b'}' ∷ b'\n' ∷ (to_text more depth ++ rest))))
unfolding to_text
text_block ts child more depth rest = simp append_assoc

-- The parser reads the text of a configuration into the innermost block.
pub reads :
    (c : Config) (depth : ℕ) (last : TokenType) (done : Config) (below : List Config)
    (root : Config) (rest : Bytes)
    → BeginsStatement last
    → IsReadable c
    → Rounds
        (last, inside done below root, to_text c depth ++ rest)
        (last_of last c, inside (append_config done c) below root, rest)
unfolding last_of to_text append_config
reads end depth last done below root rest begins h =
    rw (append_config-end done) (stop last (inside done below root) _ _ refl)
reads (next (plain ts) more) depth last done below root rest begins (tokens, h) =
    rw
      (
        text_plain ts more depth rest tokens,
        sym (append_config_assoc done (next (plain ts) end) more),
      )
      (Rounds_trans _ _ _ (reads_plain depth last ts done below root _ begins tokens)
        (reads more depth statement_end (snoc done (plain ts)) below root rest tt h))
reads (next (with_block ts child) more) depth last done below root rest begins (tokens, inner, h) =
    rw
      (
        text_block ts child more depth rest,
        sym (append_config_assoc done (next (with_block ts child) end) more),
      )
      (Rounds_trans _ _ _ (reads_opening depth last ts done below root _ begins tokens) (
        Rounds_trans _ _ _
          (reads child (suc depth) start_block end (snoc done (with_block ts end) ∷ below) root _ tt
            inner)
          (Rounds_trans _ _ _
            (reads_closing depth (last_of start_block child) ts done child below root _
              (last_of-ends_block start_block child refl))
            (reads more depth end_block (snoc done (with_block ts child)) below root rest tt h))))

-- The end of the file after a whole configuration.
pub at_eof :
    (last : TokenType) (c root : Config) (input v : Bytes)
    → ends_file last ≡ true
    → parse_token input ≡ (eof, v, [])
    → parse_loop 1 last (inside c [] root) input ≡ some (ok (true, c))
unfolding parse_loop turn pop finish
at_eof last c root input v h e = rw (parse_loop, e, h) refl

-- A result with any fuel is the result of `Parse`.
pub parse_with_fuel :
    (f : ℕ) (input : Bytes) (config : Config) (r : Outcome (Bool × Config))
    → parse_loop f start (inside config [] config) input ≡ some r
    → parse input config ≡ some r
unfolding parse
parse_with_fuel f input config r h = go (parse input config) refl
  where
    go :
        (o : Option (Outcome (Bool × Config)))
        → parse input config ≡ o
        → parse input config ≡ some r
    go none e = absurd (parse_ends input config e)
    go (some r') e =
        let swap : f + (length input + 2) ≡ length input + 2 + f = omega arith in
        e
        ∙ sym (parse_loop_more (length input + 2) f start _ input r' e)
        ∙ subst (λ n. parse_loop n start (inside config [] config) input ≡ some r) swap
            (parse_loop_more f (length input + 2) start _ input r h)

-- Parsing the text of a configuration, at any depth, into a configuration gives the statements of
-- both: the parser reads back what the printer wrote.
pub parse-to_text :
    (c before : Config) (depth : ℕ)
    → IsReadable c
    → parse (to_text c depth) before ≡ some (ok (true, append_config before c))
unfolding parse_token token_loop
parse-to_text c before depth h =
    let (f, result) =
      parse_loop-Rounds _ (last_of start c, inside (append_config before c) [] before, []) 1 _
        (reads c depth start before [] before [] tt h)
        (at_eof (last_of start c) (append_config before c) before [] []
          (last_of-ends_file start c refl) refl) in
    parse_with_fuel f (to_text c depth) before _ (
      sym (ap (parse_loop f start (inside before [] before)) (append-nil (to_text c depth)))
      ∙ result)
