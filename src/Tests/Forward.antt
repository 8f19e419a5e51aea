-- ===== src/Tests/Forward.antt =====
-- The forwarding of requests, the redirects and the servers at concrete inputs.
use foxy_4_web_server.Handlers.Proxy.Forward
use foxy_4_web_server.Handlers.Proxy
use foxy_4_web_server.HttpSession
use foxy_4_web_server.Session
use foxy_4_web_server.Base.{
  ◌==◌, if◌then◌else◌, length, ok, ℕ, ◌+◌, ◌<◌, ◌≡◌, refl, true, false, some, List, [], ◌∷◌, arith,
}
use foxy_4_web_server.Base.Int.{pos}
use foxy_4_web_server.Base.Text.{is_space}
use foxy_4_web_server.Base.Bytes.{Bytes, codes, same, starts_with, find, contains, substr}
use foxy_4_web_server.Base.Dict.{lookup, put, insert, get_or}
use foxy_4_web_server.Base.Bytes.Order.{less}
use foxy_4_web_server.Handlers.Echo.{method_name, convert_to_rawbody}
use foxy_4_web_server.Http.{Method, Request, StatusCode}
use foxy_4_web_server.Handlers.Proxy.{redirect_request}
use foxy_4_web_server.Handlers.Proxy.Forward.{ProxyHandler, Upstream, server_address, not_found_yet}
use foxy_4_web_server.Handlers.Proxy.Blocks.{Header, entered}
use foxy_4_web_server.Handlers.Proxy.Reply.{success-IsCode, moved-IsCode}
use foxy_4_web_server.Handlers.Proxy.Rounds.{IsReply, delivered}
use foxy_4_web_server.Handlers.Proxy.Delivery.{handle_request-reply, handle_request-redirect}
use foxy_4_web_server.Server.{endpoint_port, new_server}
use foxy_4_web_server.Server.Accepting.{accept_all, sessions_started, accept_all-new_server}
use foxy_4_web_server.Session.{Session, read_data, write}
use foxy_4_web_server.Session.Steps.{go, stop, on_write, with_data, Steps}
use foxy_4_web_server.HttpSession.{redirecting}
use foxy_4_web_server.HttpSession.Redirect.{redirect_text, redirected}
use foxy_4_web_server.DataCollector.{map_status_to_string}
use foxy_4_web_server.DataCollector.Counts.{count}
use foxy_4_web_server.ResponseGenerator.Wire.{wire}
use foxy_4_web_server.Tests.Connection.{asked, answering, waiting, answering-IsReady, asked-IsPlain}

abbrev proxied : ProxyHandler
proxied = record { root = codes "example.org"; path = codes "/p/"; port = pos 80 }

abbrev asking : Request
asking = record {
  method = Method.get;
  uri = codes "/p/x";
  http_version = codes "1.1";
  headers = (codes "Host", codes "h:1") ∷ [];
  body = [];
}

asking_text :
    Proxy.convert_to_rawbody (codes "/p/") asking false
    ≡ ok (codes "GET /x HTTP/1.0\r\nHost: h:1\r\nConnection: close\r\n\r\n")
unfolding Proxy.convert_to_rawbody substr same method_name
asking_text = refl

abbrev cut : List Bytes
cut = codes "HT" ∷ codes "TP/1.0 200 OK\r\nA" ∷ codes ": b\r\n\r" ∷ codes "\nhel" ∷ codes "lo" ∷ []

abbrev talking : Upstream
talking n host port text = some cut

cut-IsReply : IsReply (codes "1.0") (codes "200") (codes "OK") 200 (codes "A", codes "b") []
unfolding is_space
cut-IsReply = record {
  word = (refl, (refl, (refl, tt)));
  digits = success-IsCode;
  line = (refl, (refl, tt));
  header = ((refl, tt), (refl, tt), (refl, tt));
  headers = tt;
}

handle_request-reply_example :
    Forward.handle_request proxied talking asking
    ≡ some (ok (delivered ((codes "A", codes "b") ∷ []) [] (codes "hello")))
unfolding get_or lookup same contains starts_with put
handle_request-reply_example =
    handle_request-reply proxied talking asking _ asking_text cut refl (codes "1.0") (codes "OK")
      (codes "hello") (codes "A", codes "b") [] cut-IsReply refl refl

abbrev location : Header
location = (codes "Location", codes "http://h/y")

abbrev elsewhere : List Bytes
elsewhere = codes "HTTP/1.0 302 Found\r\nLocation: ht" ∷ codes "tp://h/y\r\n\r\n" ∷ []

-- A redirect on the first connection.
abbrev moving : Upstream
moving n host port text = if n == 0 then some elsewhere else some cut

elsewhere-IsReply : IsReply (codes "1.0") (codes "302") (codes "Found") 302 location []
unfolding is_space
elsewhere-IsReply = record {
  word = (refl, (refl, (refl, tt)));
  digits = moved-IsCode;
  line = (refl, (refl, (refl, (refl, (refl, tt)))));
  header = (
    (refl, (refl, (refl, (refl, (refl, (refl, (refl, (refl, tt)))))))),
    (refl, (refl, (refl, (refl, (refl, (refl, (refl, (refl, tt)))))))),
    (refl, (refl, (refl, (refl, (refl, (refl, (refl, (refl, (refl, (refl, tt)))))))))),
  );
  headers = tt;
}

redirected_text :
    redirect_request (codes "/p/") (codes "h/y") asking
    ≡ ok (codes "GET /y HTTP/1.0\r\nHost: h:1\r\nConnection: close\r\n\r\n")
unfolding redirect_request contains starts_with same method_name
redirected_text = refl

handle_request-redirect_example :
    Forward.handle_request proxied moving asking
    ≡ some (
        ok (
          delivered
            ((codes "A", codes "b") ∷ [])
            (insert (codes "Location") [] (entered (location ∷ []) []))
            (codes "hello")))
unfolding get_or lookup same contains starts_with put find insert less server_address
handle_request-redirect_example =
    handle_request-redirect proxied moving asking _ asking_text elsewhere refl (codes "1.0")
      (codes "Found") [] (codes "1.0") (codes "OK") (codes "hello") _ location
      (codes "A", codes "b") [] [] cut elsewhere-IsReply refl refl redirected_text refl cut-IsReply
      refl refl

accept_all-new_server_example :
    ((accept_all {Session = ℕ}
        ((false, 2) ∷ (true, 3) ∷ [])
        (new_server 1 (pos 65616) (pos 4))).started
      ≡ sessions_started 1 ((false, 2) ∷ (true, 3) ∷ []))
    × ((accept_all {Session = ℕ}
          ((false, 2) ∷ (true, 3) ∷ [])
          (new_server 1 (pos 65616) (pos 4))).threads
        ≡ 4)
    × ((accept_all {Session = ℕ}
          ((false, 2) ∷ (true, 3) ∷ [])
          (new_server 1 (pos 65616) (pos 4))).port
        ≡ endpoint_port (pos 65616))
    × (endpoint_port (pos 65616) < 65536)
accept_all-new_server_example =
    accept_all-new_server {Session = ℕ} ((false, 2) ∷ (true, 3) ∷ []) 1 (pos 65616) (pos 4)

redirect_written :
    Session.handle_write (redirecting (codes "h")) false answering ≡ (waiting, read_data)
unfolding Session.handle_write insert get_or lookup put same less
redirect_written = refl

then_redirect : Steps (redirecting (codes "h")) (answering, write []) (waiting, read_data)
then_redirect = rw (← redirect_written) (go (on_write {b = []} false) stop)

redirected_example :
    (s' : Session (Unit {0})) × (b : List Bytes) × (HttpSession.handle_read
        (codes "h")
        false
        (length (convert_to_rawbody asked))
        []
        (with_data waiting (convert_to_rawbody asked))
      ≡ some (ok (s', write b)))
    × (wire b ≡ redirect_text (codes "h") (codes "/a"))
    × (count (codes "/a") (map_status_to_string StatusCode.moved_temporarily) s'.collector
        ≡ count (codes "/a") (map_status_to_string StatusCode.moved_temporarily) waiting.collector
          + 1)
unfolding lookup
redirected_example =
    redirected (codes "h") (codes "a") (answering, write []) waiting asked [] answering-IsReady
      then_redirect asked-IsPlain refl (omega arith)
