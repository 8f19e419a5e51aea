-- ===== src/Tests/Settings.antt =====
-- Tests and concrete configurations for the parser and the printer of configurations.
use foxy_4_web_server.Config.{plain, with_block, Config, end, next}
use foxy_4_web_server.Base.{ok, undefined}
use foxy_4_web_server.Base.{ok, undefined, ◌≡◌, refl, true, some, [], ◌∷◌, ◌++◌}
use foxy_4_web_server.Base.Bytes.{Bytes, codes}
use foxy_4_web_server.Config.{Config, to_text}
use foxy_4_web_server.ConfigParser.{
  token_step, at_end, token_loop, parse_token, add_statement, add_token, set_block, change_top, pop,
  open_block, on_normal, turn, finish, parse_loop, parse,
}
use foxy_4_web_server.ConfigParser.Lexing.{word, single_quoted}
use foxy_4_web_server.ConfigParser.Reads.{IsReadable}
use foxy_4_web_server.ConfigParser.RoundTrip.{parse-to_text}
use foxy_4_web_server.ConfigParser.Statements.{append_config}
use foxy_4_web_server.ConfigParser.Reparse.{parse-parse}
use foxy_4_web_server.ConfigParser.Faults.{parse_drops_word, parse_of_extra_brace}

-- A file with a comment, a quoted token, blocks and white space of all kinds.
abbrev file : Bytes
file = codes "# on\nport 80;\r\n s{a 'b c' ;\n\tt {}}"

abbrev inner : Config
inner = next (plain (codes "a" ∷ codes "'b c'" ∷ [])) (next (with_block (codes "t" ∷ []) end) end)

abbrev settings : Config
settings =
    next (plain (codes "port" ∷ codes "80" ∷ [])) (next (with_block (codes "s" ∷ []) inner) end)

file_parsed : parse file end ≡ some (ok (true, settings))
unfolding parse parse_loop parse_token token_loop token_step turn on_normal add_statement add_token
    set_block change_top pop open_block finish at_end
file_parsed = refl

settings-IsReadable : IsReadable settings
settings-IsReadable = (
  (word _ _ refl refl (refl, (refl, (refl, tt))), (word _ _ refl refl (refl, tt), tt)),
  (
    (word _ _ refl refl tt, tt),
    (
      (word _ _ refl refl tt, (single_quoted (codes "b c") _ refl (refl, (refl, (refl, tt))), tt)),
      ((word _ _ refl refl tt, tt), tt, tt),
    ),
    tt,
  ),
)

parse-to_text_example :
    parse (to_text settings 1) inner ≡ some (ok (true, append_config inner settings))
parse-to_text_example = parse-to_text settings inner 1 settings-IsReadable

parse-parse_example : parse (to_text settings 0) end ≡ some (ok (true, settings))
parse-parse_example = parse-parse file settings 0 file_parsed

parse_drops_word_example :
    parse (to_text settings 0 ++ codes "dir") end ≡ some (ok (true, settings))
parse_drops_word_example =
    parse_drops_word settings 0 b'd' (codes "ir") settings-IsReadable refl refl (refl, (refl, tt))

parse_of_extra_brace_example :
    parse (to_text settings 0 ++ b'}' ∷ (codes "listen" ++ b' ' ∷ codes "http 80;")) end
    ≡ some undefined
parse_of_extra_brace_example =
    parse_of_extra_brace (plain (codes "port" ∷ codes "80" ∷ []))
      (next (with_block (codes "s" ∷ []) inner) end) 0 b' ' (codes "listen") (codes "http 80;")
      settings-IsReadable
      (word b'l' (codes "isten") refl refl (refl, (refl, (refl, (refl, (refl, tt)))))) refl
