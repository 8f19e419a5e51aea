-- ===== src/ConfigParser/Faults.antt =====
-- Files that `Parse` accepts or leaves undefined although they are not well formed.

use foxy_4_web_server.Config.{Statement, Config, end, next}
use foxy_4_web_server.ConfigParser.{TokenType, start, normal, end_block, eof}
use foxy_4_web_server.Base.{ok, Outcome, undefined}
use foxy_4_web_server.Base.{
  All, Outcome, ok, undefined, ℕ, ◌≡◌, refl, ◌∙◌, Bool, true, false, some, [], ◌∷◌, ◌++◌,
  append_assoc, append-nil,
}
use foxy_4_web_server.Base.Bytes.{Bytes}
use foxy_4_web_server.Config.{Statement, Config, to_text}
use foxy_4_web_server.ConfigParser.{
  TokenType, token_step, at_end, token_loop, parse_token, change_top, pop, on_normal, ends_block,
  turn, parse_loop, parse, start, normal, end_block, eof, token_type_normal,
}
use foxy_4_web_server.ConfigParser.Lexing.{
  is_blank, ends_word, is_mark, IsToken, token_loop-initial, parse_token-IsToken,
}
use foxy_4_web_server.ConfigParser.Statements.{append_config}
use foxy_4_web_server.ConfigParser.Rounds.{parse_loop-Rounds}
use foxy_4_web_server.ConfigParser.Reads.{IsReadable, inside}
use foxy_4_web_server.ConfigParser.RoundTrip.{
  last_of, last_of-ends_file, last_of-next, reads, at_eof, parse_with_fuel,
}

-- What comes of the text of a configuration with something behind it.
after_text :
    (c : Config) (depth : ℕ) (rest : Bytes) (f : ℕ) (r : Outcome (Bool × Config))
    → IsReadable c
    → parse_loop f (last_of start c) (inside c [] end) rest ≡ some r
    → parse (to_text c depth ++ rest) end ≡ some r
unfolding append_config
after_text c depth rest f r h e =
    let (g, result) =
      parse_loop-Rounds _ (last_of start c, inside c [] end, rest) f _
        (reads c depth start end [] end rest tt h) e in
    parse_with_fuel g _ end r result

token_loop_unended :
    (v s : Bytes)
    → All (λ c. ends_word c ≡ false) s
    → token_loop token_type_normal v s ≡ (eof, v ++ s, [])
unfolding token_loop token_step at_end
token_loop_unended v [] h = rw (append-nil v) refl
token_loop_unended v (c ∷ s) (inner, h) =
    rw (token_loop, inner)
      (token_loop_unended (v ++ c ∷ []) s h ∙ rw (append_assoc v (c ∷ [])) refl)

-- A word behind the last statement, with the end of the file behind it, is dropped: the file is
-- accepted, with the configuration in front of the word.
pub parse_drops_word :
    (c : Config) (depth x : ℕ) (s : Bytes)
    → IsReadable c
    → is_blank x ≡ false
    → is_mark x ≡ false
    → All (λ d. ends_word d ≡ false) s
    → parse (to_text c depth ++ x ∷ s) end ≡ some (ok (true, c))
unfolding parse_token
parse_drops_word c depth x s h blank mark inner = after_text c depth (x ∷ s) 1 _ h (
    at_eof (last_of start c) c end (x ∷ s) (x ∷ s) (last_of-ends_file start c refl)
      (token_loop-initial x s blank mark ∙ token_loop_unended (x ∷ []) s inner))

-- A token without an open block.
without_block :
    (root : Config) (input t rest : Bytes)
    → parse_token input ≡ (normal, t, rest)
    → parse_loop 1 end_block (record { stack = []; root = root }) input ≡ some undefined
unfolding parse_loop turn on_normal change_top
without_block root input t rest e = rw (parse_loop, e) refl

extra_brace :
    (last : TokenType) (c root : Config) (rest : Bytes)
    → ends_block last ≡ true
    → parse_loop 2 last (inside c [] root) (b'}' ∷ rest)
      ≡ parse_loop 1 end_block (record { stack = []; root = c }) rest
unfolding parse_loop parse_token token_loop token_step turn pop
extra_brace last c root rest ends = rw (parse_loop, ends) refl

-- The text of a configuration with at least one statement, a `}` that closes no block, and then
-- another token: the token goes to the top of an empty stack, which is undefined.
pub parse_of_extra_brace :
    (s : Statement) (more : Config) (depth d : ℕ) (t rest : Bytes)
    → IsReadable (next s more)
    → IsToken t
    → ends_word d ≡ true
    → parse (to_text (next s more) depth ++ b'}' ∷ (t ++ d ∷ rest)) end ≡ some undefined
parse_of_extra_brace s more depth d t rest h token e =
    after_text (next s more) depth (b'}' ∷ (t ++ d ∷ rest)) 2 _ h (
      extra_brace (last_of start (next s more)) (next s more) end (t ++ d ∷ rest)
        (last_of-next s more)
      ∙ without_block (next s more) (t ++ d ∷ rest) t (d ∷ rest)
          (parse_token-IsToken t d rest token e))
