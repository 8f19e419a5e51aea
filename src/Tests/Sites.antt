-- ===== src/Tests/Sites.antt =====
-- A concrete configuration, from its text to the handlers of its locations.

use foxy_4_web_server.Handlers.Init.{echo}
use foxy_4_web_server.Base.{some, refl, true}
use foxy_4_web_server.Config.{plain, with_block, Config, end, next}
use foxy_4_web_server.HandlerGenerator.Declared.{Declares, nothing, other, location}
use foxy_4_web_server.Handlers.Init.{health, create_handler}
use foxy_4_web_server.Boost.{ends}
use foxy_4_web_server.HandlerGenerator.{is_location, get_map}
use foxy_4_web_server.Config.{to_text}
use foxy_4_web_server.ConfigParser.{parse}
use foxy_4_web_server.ConfigParser.Lexing.{IsToken, word, double_quoted}
use foxy_4_web_server.ConfigParser.Lexing.{
  is_blank, ends_word, is_mark, IsToken, word, double_quoted,
}
use foxy_4_web_server.ConfigParser.Reads.{IsReadable}
use foxy_4_web_server.HandlerGenerator.Configured.{Serves, configured}
use foxy_4_web_server.Handlers.Static.Encoding.{url_encode, url_decode-url_encode}
use foxy_4_web_server.HandlerGenerator.Declared.{nothing, other, location}
use foxy_4_web_server.Utility.Quoted.{quoted}
use foxy_4_web_server.Handlers.Static.Decode.{url_decode}
use foxy_4_web_server.Base.{
  ◌==◌, all, ok, ℕ, ◌≡◌, refl, true, not, ◌&&◌, some, [], ◌∷◌, ◌++◌, arith,
}
use foxy_4_web_server.Base.Bytes.{Bytes, codes, same, last?}
use foxy_4_web_server.Boost.{ends}
use foxy_4_web_server.HandlerGenerator.{HandlerMap, dispatch_handler, is_location, get_map}
use foxy_4_web_server.Utility.{with_slash}
use foxy_4_web_server.Tests.Library.{string_tests}
use foxy_4_web_server.Tests.Parser.{all-false}
use foxy_4_web_server.DataCollector.{DataCollector, new_collector}
use foxy_4_web_server.Tests.Locations.{All-bytes}

-- A configuration with another statement and two locations.
abbrev two : Config
two = next (plain (codes "listen" ∷ codes "http" ∷ codes "80" ∷ [])) (
    next (with_block (codes "location" ∷ quoted (codes "/e") ∷ codes "EchoHandler" ∷ []) end) (
      next (with_block (codes "location" ∷ quoted (codes "/h/") ∷ codes "HealthHandler" ∷ []) end)
        end))

two-Declares : Declares ⦃b = string_tests⦄ two ((codes "/e/", echo) ∷ (codes "/h/", health) ∷ [])
unfolding is_location same create_handler with_slash ends last?
two-Declares = other _ _ _ refl (
    location (codes "/e") (codes "EchoHandler") end echo _ _ (λ c. (_, refl))
      (location (codes "/h/") (codes "HealthHandler") end health _ _ (λ c. (_, refl)) nothing))

word-IsToken :
    (c : ℕ) (s : Bytes)
    → (not (is_blank c) && not (is_mark c) && all (λ d. not (ends_word d)) s) ≡ true
    → IsToken (c ∷ s)
word-IsToken c s h = word c s (ground arith) (ground arith) (all-false ends_word s (ground arith))

two-IsReadable : IsReadable two
two-IsReadable = (
  (
    word-IsToken b'l' (codes "isten") refl,
    (word-IsToken b'h' (codes "ttp") refl, (word-IsToken b'8' (codes "0") refl, tt)),
  ),
  (
    (
      word-IsToken b'l' (codes "ocation") refl,
      (
        double_quoted (codes "/e") _ refl (all-false (λ c. c == b'"') (codes "/e") refl),
        (word-IsToken b'E' (codes "choHandler") refl, tt),
      ),
    ),
    tt,
    (
      (
        word-IsToken b'l' (codes "ocation") refl,
        (
          double_quoted (codes "/h/") _ refl (all-false (λ c. c == b'"') (codes "/h/") refl),
          (word-IsToken b'H' (codes "ealthHandler") refl, tt),
        ),
      ),
      tt,
      tt,
    ),
  ),
)

configured_example :
    (m : HandlerMap) × (c' : DataCollector) × (parse (to_text two 1) end ≡ some (ok (true, two)))
    × (get_map ⦃b = string_tests⦄ two [] new_collector ≡ ok (true, m, c'))
    × ((uri : Bytes)
        → Serves uri ((codes "/e/", echo) ∷ (codes "/h/", health) ∷ []) (dispatch_handler uri m).0)
configured_example =
    configured ⦃b = string_tests⦄ two ((codes "/e/", echo) ∷ (codes "/h/", health) ∷ []) 1
      new_collector two-IsReadable two-Declares

url_decode-url_encode_example :
    url_decode (url_encode (λ c. not (c == b' ')) (codes "a %+b" ++ 255 ∷ []))
    ≡ some (codes "a %+b" ++ 255 ∷ [])
url_decode-url_encode_example =
    url_decode-url_encode (λ c. not (c == b' ')) (codes "a %+b" ++ 255 ∷ [])
      (All-bytes (codes "a %+b" ++ 255 ∷ []) refl)
