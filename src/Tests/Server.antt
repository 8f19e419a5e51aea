-- ===== src/Tests/Server.antt =====
-- The configuration and the dispatch at concrete inputs.
use foxy_4_web_server.Base.{true, false, some, none, [], ◌∷◌, ◌≡◌, ◌≢◌, refl, arith, ok, undefined}
use foxy_4_web_server.Base.Bytes.{Bytes, codes, same, same_iff, starts_with, last?, drop_last}
use foxy_4_web_server.Boost.{begins, ends}
use foxy_4_web_server.Config.{end, next, plain, get_port}
use foxy_4_web_server.Config.Errors.{get_port_past_end}
use foxy_4_web_server.ConfigParser.{parse}
use foxy_4_web_server.ConfigParser.Total.{parse_ends}
use foxy_4_web_server.DataCollector.{new_collector}
use foxy_4_web_server.HandlerGenerator.{HandlerMap, get_map, dispatch_handler}
use foxy_4_web_server.HandlerGenerator.Dispatch.{Dispatched, dispatch_handler_best}
use foxy_4_web_server.HandlerGenerator.Errors.{get_map_without_block}
use foxy_4_web_server.Handlers.Init.{Handler}
use foxy_4_web_server.Tests.Library.{string_tests}
use foxy_4_web_server.Utility.{is_quoted}

abbrev locations : HandlerMap
locations =
    (codes "/", some Handler.not_found)
    ∷ (codes "/echo/", some Handler.echo)
    ∷ (codes "/health/", some Handler.health)
    ∷ []

dispatch_handler_best_example :
    Dispatched (codes "/echo/x") locations (dispatch_handler (codes "/echo/x") locations)
dispatch_handler_best_example = dispatch_handler_best (codes "/echo/x") locations

differ : (a b : Bytes) → same a b ≡ false → a ≢ b
differ a b other e = ground (arith, same_iff a b)

parse_ends_example : parse (codes "listen http 80;\n") end ≢ none
parse_ends_example = parse_ends (codes "listen http 80;\n") end

get_port_past_end_example :
    get_port (next (plain (codes "x" ∷ codes "listen" ∷ codes "80" ∷ [])) end) [] ≡ undefined
unfolding same
get_port_past_end_example =
    get_port_past_end (codes "x") (codes "80") end [] (differ (codes "x") (codes "listen") refl)

quoted_path : is_quoted ⦃b = string_tests⦄ (codes "\"/a/\"") ≡ ok (true, codes "/a/")
unfolding is_quoted starts_with begins ends last? drop_last
quoted_path = refl

get_map_without_block_example :
    get_map ⦃b = string_tests⦄
      (next (plain (codes "location" ∷ codes "\"/a/\"" ∷ codes "EchoHandler" ∷ [])) end)
      []
      new_collector
    ≡ undefined
get_map_without_block_example =
    get_map_without_block ⦃b = string_tests⦄ (codes "\"/a/\"") (codes "/a/") (codes "EchoHandler")
      end [] new_collector quoted_path
