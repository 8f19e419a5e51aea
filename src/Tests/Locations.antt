-- ===== src/Tests/Locations.antt =====
-- The handlers of locations on a concrete connection.
use foxy_4_web_server.Handlers.Calls
use foxy_4_web_server.Handlers.Init.{static, echo}
use foxy_4_web_server.Base.{none, some, refl, true, false}
use foxy_4_web_server.Http.{Request}
use foxy_4_web_server.Session.{Session, write, read_data, handle_write, over_tls, Handle}
use foxy_4_web_server.Session.Steps.{stop, go, on_write}
use foxy_4_web_server.RequestParser.{new_parser}
use foxy_4_web_server.Base.{
  ltb, ◌==◌, if◌then◌else◌, all, All, ◌<◌, ◌≡◌, refl, true, false, not, none, some, [], ◌∷◌, ◌++◌,
  arith,
}
use foxy_4_web_server.Base.Bytes.{Bytes, codes, same, contains, last?, before_nul}
use foxy_4_web_server.Base.Bytes.Order.{less}
use foxy_4_web_server.Base.Dict.{lookup, put, insert, get_or}
use foxy_4_web_server.MimeTypes.{extension_to_type}
use foxy_4_web_server.Handlers.Calls.{Platform}
use foxy_4_web_server.HandlerGenerator.{common_prefix_length, HandlerMap, dispatch_handler}
use foxy_4_web_server.Session.{Session, Handle, handle_write, over_tls, read_data, write}
use foxy_4_web_server.Session.Steps.{IsReady, Steps}
use foxy_4_web_server.Session.KeepAlive.{IsPlain}
use foxy_4_web_server.Session.Serving.{page_text, Delivers, IsOpen}
use foxy_4_web_server.Session.Locations.{echo_answered, file_answered}
use foxy_4_web_server.Handlers.Static.Encoding.{url_encode}
use foxy_4_web_server.Handlers.Static.Paths.{get_extension}
use foxy_4_web_server.Handlers.Static.Files.{IsLocal}
use foxy_4_web_server.Tests.Library.{string_tests}
use foxy_4_web_server.Tests.Accounts.{Rows, services}
use foxy_4_web_server.Tests.Connection.{asked, answering, waiting, asked-IsPlain}
use foxy_4_web_server.Tests.Parser.{all-false}
use foxy_4_web_server.RequestParser.Chars.{refused, control, digit}
use foxy_4_web_server.DataCollector.{new_collector}
use foxy_4_web_server.Handlers.Echo.{convert_to_rawbody}

-- A site with one file; nothing comes of a connection.
abbrev site : Platform Rows
site = record {
  outside = λ w. record {
    open_file = λ name. if same name (codes "/r/a b.txt") then some (codes "hi") else none;
    verify_cookie = λ token. false;
  };
  services = services;
  upstream = λ w. ((λ n host port text. none), w);
}

abbrev tls : Handle Rows
tls = Calls.handle_request ⦃b = string_tests⦄ site

abbrev locations : HandlerMap
locations = (codes "/", some echo) ∷ (codes "/s", some (static (codes "/r") [] (codes "/s"))) ∷ []

-- A session that writes an answer, and the same session afterwards.
abbrev busy : Session Rows
busy = record {
  request_parser = answering.request_parser;
  response_generator = answering.response_generator;
  request = answering.request;
  data_bytes = answering.data_bytes;
  buffer = answering.buffer;
  generator = locations;
  collector = new_collector;
  world = some [];
}

abbrev idle : Session Rows
idle = record busy { request = waiting.request }

busy-IsReady : IsReady busy
busy-IsReady = record {
  earlier = record new_parser { n_char_parsed = 7 };
  parser = refl;
  empty = refl;
}

busy_written : handle_write (over_tls tls) false busy ≡ (idle, read_data)
unfolding handle_write insert get_or lookup put same less
busy_written = refl

then_idle : Steps (over_tls tls) (busy, write []) (idle, read_data)
then_idle = rw (← busy_written) (go (on_write {b = []} false) stop)

asked-IsOpen : IsOpen tls idle asked
unfolding lookup
asked-IsOpen = record {
  from = (busy, write []);
  settled = busy-IsReady;
  steps = then_idle;
  plain = asked-IsPlain;
  room = omega arith;
}

to_echo : dispatch_handler (codes "/a") locations ≡ (some echo, locations)
unfolding dispatch_handler common_prefix_length same lookup
to_echo = refl

echo_answered_example :
    Delivers tls idle asked [] (page_text (convert_to_rawbody asked) (codes "text/plain"))
echo_answered_example =
    echo_answered ⦃b = string_tests⦄ site idle asked [] locations asked-IsOpen to_echo

-- A request of a file, with a blank as an escape.
abbrev file_asked : Request
file_asked = record asked { uri = codes "/s/a%20b.txt" }

file_asked-IsPlain : IsPlain file_asked
unfolding refused control digit same less lookup convert_to_rawbody
file_asked-IsPlain = record {
  printable = record {
    known = λ e. cc;
    uri_bytes = (
      (refl, refl),
      (
        (refl, refl),
        (
          (refl, refl),
          (
            (refl, refl),
            (
              (refl, refl),
              (
                (refl, refl),
                (
                  (refl, refl),
                  (
                    (refl, refl),
                    ((refl, refl), ((refl, refl), ((refl, refl), ((refl, refl), tt)))),
                  ),
                ),
              ),
            ),
          ),
        ),
      ),
    );
    version = asked-IsPlain.printable.version;
    sorted = (tt, tt);
    header_bytes = ((all-false refused (codes "Host") refl, (refl, tt), refl), tt);
  };
  nonzero = all-false (λ c. c == 0) (convert_to_rawbody file_asked) refl;
  fits = omega arith;
  no_body = refl;
  no_length = refl;
}

file_asked-IsOpen : IsOpen tls idle file_asked
unfolding lookup
file_asked-IsOpen = record {
  from = (busy, write []);
  settled = busy-IsReady;
  steps = then_idle;
  plain = file_asked-IsPlain;
  room = omega arith;
}

to_static :
    dispatch_handler file_asked.uri locations
    ≡ (some (static (codes "/r") [] (codes "/s")), locations)
unfolding dispatch_handler common_prefix_length same lookup
to_static = refl

pub All-bytes : (s : Bytes) → all (λ c. ltb c 256) s ≡ true → All (λ c. c < 256) s
All-bytes [] h = tt
All-bytes (c ∷ s) h = (ground arith, All-bytes s (ground arith))

page_path-IsLocal : IsLocal (codes "/s" ++ codes "/a b.txt")
unfolding contains
page_path-IsLocal = record {
  bytes = All-bytes (codes "/s/a b.txt") refl;
  absolute = refl;
  no_dots = refl;
}

file_answered_example :
    Delivers tls idle file_asked [] (page_text (codes "hi") (codes "text/plain"))
unfolding url_encode same before_nul get_extension last? extension_to_type
file_answered_example =
    file_answered ⦃b = string_tests⦄ site idle file_asked [] locations (codes "/r") (codes "/s")
      (codes "/a b.txt") (codes "hi") (λ c. not (c == b' ')) file_asked-IsOpen to_static
      page_path-IsLocal refl refl
