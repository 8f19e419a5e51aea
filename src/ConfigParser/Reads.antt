-- ===== src/ConfigParser/Reads.antt =====
-- The rounds of `Parse` on the text of a configuration.
use foxy_4_web_server.Config.{plain, with_block, Config, end, next}
use foxy_4_web_server.ConfigParser.{
  TokenType, start, normal, start_block, end_block, comment, statement_end, eof, error, goes,
}
use foxy_4_web_server.Base.{ok}
use foxy_4_web_server.Base.{
  All, ok, ℕ, ◌≡◌, refl, sym, ap, ◌∙◌, true, List, [], ◌∷◌, ◌++◌, append_assoc, append-nil,
}
use foxy_4_web_server.Base.Bytes.{Bytes}
use foxy_4_web_server.Config.{Config, tabs, join}
use foxy_4_web_server.ConfigParser.{
  TokenType, token_step, token_loop, parse_token, Blocks, change_top, pop, open_block, on_normal,
  ends_block, turn, start, normal, start_block, end_block, comment, statement_end, eof, error, goes,
}
use foxy_4_web_server.ConfigParser.Lexing.{
  ends_word, IsToken, parse_token-blank, parse_token-tabs, parse_token-IsToken,
}
use foxy_4_web_server.ConfigParser.Statements.{
  snoc, add_statement_lem, add_token-snoc, set_block-snoc, set_block_again,
}
use foxy_4_web_server.ConfigParser.Rounds.{Place, Rounds, Rounds_trans, stop, round}

-- Tokens as a statement has them: there is one, and the lexer can read each.
abbrev pub AreTokens : List Bytes → Type 0
AreTokens [] = ⊥
AreTokens (t ∷ ts) = IsToken t × All IsToken ts

-- A configuration that the parser can read.
abbrev pub IsReadable : Config → Type 0
IsReadable end = Unit
IsReadable (next (plain tokens) more) = AreTokens tokens × IsReadable more
IsReadable (next (with_block tokens child) more) =
    AreTokens tokens × IsReadable child × IsReadable more

-- Before the first token of a statement.
abbrev pub BeginsStatement : TokenType → Type 0
BeginsStatement start = Unit
BeginsStatement statement_end = Unit
BeginsStatement start_block = Unit
BeginsStatement end_block = Unit
BeginsStatement _ = ⊥

-- The innermost block is `c`.
abbrev pub inside : Config → List Config → Config → Blocks
inside c below root = record { stack = c ∷ below; root = root }

first_token :
    (last : TokenType) (t : Bytes) (c : Config) (below : List Config) (root : Config)
    → BeginsStatement last
    → turn normal last t (inside c below root)
      ≡ ok (goes normal (inside (snoc c (plain (t ∷ []))) below root))
unfolding turn on_normal change_top
first_token start t c below root h = rw (add_statement_lem c, add_token-snoc t [] c) refl
first_token statement_end t c below root h = rw (add_statement_lem c, add_token-snoc t [] c) refl
first_token start_block t c below root h = rw (add_statement_lem c, add_token-snoc t [] c) refl
first_token end_block t c below root h = rw (add_statement_lem c, add_token-snoc t [] c) refl
first_token normal t c below root h = absurd h
first_token comment t c below root h = absurd h
first_token eof t c below root h = absurd h
first_token error t c below root h = absurd h

later_token :
    (t : Bytes) (ts : List Bytes) (c : Config) (below : List Config) (root : Config)
    → turn normal normal t (inside (snoc c (plain ts)) below root)
      ≡ ok (goes normal (inside (snoc c (plain (ts ++ t ∷ []))) below root))
unfolding turn on_normal change_top
later_token t ts c below root = rw (add_token-snoc t ts c) refl

-- Tokens, each behind a blank.
joined : List Bytes → Bytes
joined [] = []
joined (u ∷ us) = b' ' ∷ (u ++ joined us)

join-joined : (t : Bytes) (us : List Bytes) → join (t ∷ us) ≡ t ++ joined us
unfolding join joined
join-joined t [] = sym (append-nil t)
join-joined t (u ∷ us) = ap (λ x. t ++ b' ' ∷ x) (join-joined u us)

-- What follows a statement's tokens ends a word.
joined_ends :
    (us : List Bytes) (d : ℕ) (rest : Bytes)
    → ends_word d ≡ true
    → (e : ℕ) × (r : Bytes) × (joined us ++ d ∷ rest ≡ e ∷ r) × (ends_word e ≡ true)
unfolding joined
joined_ends [] d rest h = (d, rest, refl, h)
joined_ends (u ∷ us) d rest h = (b' ', (u ++ joined us) ++ d ∷ rest, refl, refl)

token_before :
    (u : Bytes) (us : List Bytes) (d : ℕ) (rest : Bytes)
    → IsToken u
    → ends_word d ≡ true
    → parse_token (u ++ (joined us ++ d ∷ rest)) ≡ (normal, u, joined us ++ d ∷ rest)
token_before u us d rest token h =
    let (e, r, split, ends) = joined_ends us d rest h in
    ap (λ z. parse_token (u ++ z)) split
    ∙ parse_token-IsToken u e r token ends
    ∙ ap (λ z. (normal, u, z)) (sym split)

later_tokens :
    (us ts : List Bytes) (c : Config) (below : List Config) (root : Config) (d : ℕ) (rest : Bytes)
    → All IsToken us
    → ends_word d ≡ true
    → Rounds
        (normal, inside (snoc c (plain ts)) below root, joined us ++ d ∷ rest)
        (normal, inside (snoc c (plain (ts ++ us))) below root, d ∷ rest)
unfolding joined
later_tokens [] ts c below root d rest h e =
    rw (append-nil ts) (stop normal (inside (snoc c (plain ts)) below root) _ _ refl)
later_tokens (u ∷ us) ts c below root d rest (token, h) e =
    rw (append_assoc u (joined us), sym (append_assoc ts (u ∷ []) us))
      (round normal normal normal _ _ _ u (joined us ++ d ∷ rest) _
        (parse_token-blank b' ' (u ++ (joined us ++ d ∷ rest)) refl
          ∙ token_before u us d rest token e)
        (later_token u ts c below root) (later_tokens us (ts ++ u ∷ []) c below root d rest h e))

-- The tokens of a statement.
statement_tokens :
    (last : TokenType) (ts : List Bytes) (c : Config) (below : List Config) (root : Config) (d : ℕ)
    (rest : Bytes)
    → BeginsStatement last
    → AreTokens ts
    → ends_word d ≡ true
    → Rounds
        (last, inside c below root, join ts ++ d ∷ rest)
        (normal, inside (snoc c (plain ts)) below root, d ∷ rest)
statement_tokens last [] c below root d rest begins h e = absurd h
statement_tokens last (t ∷ us) c below root d rest begins (token, h) e =
    rw (join-joined t us, append_assoc t (joined us))
      (round last normal normal _ _ _ t (joined us ++ d ∷ rest) _ (token_before t us d rest token e)
        (first_token last t c below root begins) (later_tokens us (t ∷ []) c below root d rest h e))

-- What is in front of the first token does not count.
behind_tabs :
    (depth : ℕ) (last : TokenType) (s : Blocks) (input : Bytes) (b : Place)
    → Rounds (last, s, input) b
    → Rounds (last, s, tabs depth ++ input) b
behind_tabs depth last s input b more =
    Rounds_trans _ _ b (stop last s _ input (parse_token-tabs depth input)) more

pub reads_plain :
    (depth : ℕ) (last : TokenType) (ts : List Bytes) (c : Config) (below : List Config)
    (root : Config) (rest : Bytes)
    → BeginsStatement last
    → AreTokens ts
    → Rounds
        (last, inside c below root, tabs depth ++ (join ts ++ b';' ∷ b'\n' ∷ rest))
        (statement_end, inside (snoc c (plain ts)) below root, rest)
unfolding turn parse_token token_loop token_step
reads_plain depth last ts c below root rest begins tokens = behind_tabs depth last _ _ _ (
    Rounds_trans _ _ _
      (statement_tokens last ts c below root b';' (b'\n' ∷ rest) begins tokens refl)
      (round normal statement_end statement_end _ _ _ _ _ _ refl refl
        (stop statement_end _ _ rest (parse_token-blank b'\n' rest refl))))

pub reads_opening :
    (depth : ℕ) (last : TokenType) (ts : List Bytes) (c : Config) (below : List Config)
    (root : Config) (rest : Bytes)
    → BeginsStatement last
    → AreTokens ts
    → Rounds
        (last, inside c below root, tabs depth ++ (join ts ++ b' ' ∷ b'{' ∷ b'\n' ∷ rest))
        (start_block, inside end (snoc c (with_block ts end) ∷ below) root, rest)
unfolding turn parse_token token_loop token_step open_block change_top
reads_opening depth last ts c below root rest begins tokens = behind_tabs depth last _ _ _ (
    Rounds_trans _ _ _
      (statement_tokens last ts c below root b' ' (b'{' ∷ b'\n' ∷ rest) begins tokens refl)
      (round normal start_block start_block _ _ _ _ _ _ refl (rw (set_block-snoc end ts c) refl)
        (stop start_block _ _ rest (parse_token-blank b'\n' rest refl))))

pub reads_closing :
    (depth : ℕ) (last : TokenType) (ts : List Bytes) (c child : Config) (below : List Config)
    (root : Config) (rest : Bytes)
    → ends_block last ≡ true
    → Rounds
        (
          last,
          inside child (snoc c (with_block ts end) ∷ below) root,
          tabs depth ++ b'}' ∷ b'\n' ∷ rest,
        )
        (end_block, inside (snoc c (with_block ts child)) below root, rest)
unfolding turn parse_token token_loop token_step pop
reads_closing depth last ts c child below root rest ends = behind_tabs depth last _ _ _ (
    round last end_block end_block _ _ _ _ _ _ refl (rw (ends, set_block_again child end ts c) refl)
      (stop end_block _ _ rest (parse_token-blank b'\n' rest refl)))
