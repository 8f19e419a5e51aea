-- ===== src/HttpSession/Redirect.antt =====
-- What a client without TLS is sent.
use foxy_4_web_server.HttpSession
use foxy_4_web_server.Base.{
  length, ok, ◌+◌, ◌<◌, ◌≡◌, refl, ◌∙◌, false, some, List, [], ◌∷◌, ◌++◌, append_assoc,
}
use foxy_4_web_server.Base.Bytes.{Bytes, codes, same, same_refl}
use foxy_4_web_server.Base.Bytes.Order.{less}
use foxy_4_web_server.Base.Dict.{put}
use foxy_4_web_server.Base.Dict.Sorted.{IsSorted}
use foxy_4_web_server.Base.Text.{int_max, to_string}
use foxy_4_web_server.Handlers.Static.{redirect_to}
use foxy_4_web_server.Handlers.Echo.{convert_to_rawbody}
use foxy_4_web_server.DataCollector.{map_status_to_string}
use foxy_4_web_server.DataCollector.Counts.{count}
use foxy_4_web_server.Http.{Request, StatusCode}
use foxy_4_web_server.ResponseGenerator.{to_buffer, crlf, content_headers}
use foxy_4_web_server.ResponseGenerator.Wire.{wire, header_text}
use foxy_4_web_server.Session.{max_length, zeros, Read, Next, Session, on_result, read_data, write}
use foxy_4_web_server.Session.Steps.{IsSettled, with_data, send-IsSent, IsKind, Steps}
use foxy_4_web_server.Session.KeepAlive.{IsPlain, seen, handle_read-Steps}
use foxy_4_web_server.Session.Counts.{send-count}
use foxy_4_web_server.HttpSession.{respond, redirecting}
use foxy_4_web_server.RequestParser.{reset}

redirecting-IsKind :
    {World : Type 0} (hostname : Bytes) → IsKind {World = World} (redirecting hostname)
unfolding respond
redirecting-IsKind hostname = record {
  sends = λ s after. send-IsSent (HttpSession.handle_request hostname s.request) s after;
  closes = λ s. tt;
}

-- The whole text of a redirect.
abbrev pub redirect_text : Bytes → Bytes → Bytes
redirect_text hostname target =
    codes "HTTP/1.0 302 Moved Temporarily\r\nConnection: close\r\nContent-Length: 0\r\n"
    ++ (codes "Content-Type: text/plain\r\nLocation: https://"
        ++ (hostname ++ (target ++ codes "\r\n\r\n")))

redirect_to-IsSorted : (location : Bytes) → IsSorted (redirect_to location).headers
unfolding redirect_to content_headers put same less to_string
redirect_to-IsSorted location = (refl, (refl, (refl, (tt, tt))))

redirect_wire :
    (hostname target : Bytes)
    → (to_buffer StatusCode.moved_temporarily
        ++ header_text (redirect_to (codes "https://" ++ hostname ++ target)).headers
        ++ crlf
        ++ [])
      ≡ redirect_text hostname target
unfolding redirect_to content_headers put same less to_buffer to_string
redirect_wire hostname target = simp append_assoc

handle_request_redirects :
    (hostname path : Bytes) (r : Request)
    → r.uri ≡ b'/' ∷ path
    → HttpSession.handle_request hostname r ≡ redirect_to (codes "https://" ++ hostname ++ r.uri)
unfolding HttpSession.handle_request
handle_request_redirects hostname path r e = rw e refl

-- After any steps of a connection without TLS from where a session is settled, a session that waits
-- for a request answers the next one: the text of a printable request whose URI begins with a slash,
-- without a body and without a `Content-Length`, that has no 0, is shorter than the array and arrives
-- in one read, and whose counter has not reached the largest `int`, is answered by the text of a
-- redirect to the host over TLS and the URI, and its counter is one more.
pub redirected :
    {World : Type 0} (hostname path : Bytes) (from : Session World × Next) (s : Session World)
    (r : Request) (reads : List Read)
    → IsSettled from
    → Steps (redirecting hostname) from (s, read_data)
    → IsPlain r
    → r.uri ≡ b'/' ∷ path
    → count r.uri (map_status_to_string StatusCode.moved_temporarily) s.collector < int_max
    → (s' : Session World) × (b : List Bytes) × (HttpSession.handle_read hostname false
          (length (convert_to_rawbody r))
          reads
          (with_data s (convert_to_rawbody r))
        ≡ some (ok (s', write b)))
      × (wire b ≡ redirect_text hostname r.uri)
      × (count r.uri (map_status_to_string StatusCode.moved_temporarily) s'.collector
          ≡ count r.uri (map_status_to_string StatusCode.moved_temporarily) s.collector + 1)
unfolding respond HttpSession.handle_read on_result redirect_to same map_status_to_string
redirected hostname path from s r reads settled steps plain slash room =
    let (q, answered) =
      handle_read-Steps (redirecting hostname) (redirecting-IsKind hostname) from s r reads settled
        steps plain in
    let status = map_status_to_string StatusCode.moved_temporarily in
    let location = codes "https://" ++ hostname ++ r.uri in
    let s0 = record (with_data s (convert_to_rawbody r)) {
      request = seen r;
      request_parser = reset q;
    } in
    let (s', b, sent, text, counts) =
      send-count (redirect_to location) s0 (redirect_to-IsSorted location) room in
    (
      record s' { data_bytes = zeros max_length },
      b,
      rw (answered, handle_request_redirects hostname path (seen r) slash, sent) refl,
      text ∙ redirect_wire hostname r.uri,
      rw (counts r.uri status, same_refl r.uri) refl,
    )
