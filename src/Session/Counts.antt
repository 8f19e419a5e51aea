-- ===== src/Session/Counts.antt =====
-- What a session sends and counts for a response.
use foxy_4_web_server.Base.{◌+◌, ◌<◌, List, ◌++◌, ◌≡◌, refl, arith, ok}
use foxy_4_web_server.Base.Bytes.{Bytes}
use foxy_4_web_server.Base.Dict.Sorted.{IsSorted}
use foxy_4_web_server.Base.Text.{int_max}
use foxy_4_web_server.DataCollector.{map_status_to_string}
use foxy_4_web_server.DataCollector.Counts.{count, hit, increment_request-count}
use foxy_4_web_server.Http.{Response}
use foxy_4_web_server.ResponseGenerator.{crlf, init, to_buffer, to_buffers}
use foxy_4_web_server.ResponseGenerator.Wire.{wire, header_text, wire-to_buffers}
use foxy_4_web_server.Session.{Session, write, send}

-- A response with sorted headers, whose counter has not reached the largest `int`, is sent and
-- counted: the bytes are its status line, its headers, an empty line and its body, the counter of
-- the request's URI and the response's status is one more, and every other counter stays.
pub send-count :
    {World : Type 0} (response : Response) (s : Session World)
    → IsSorted response.headers
    → count s.request.uri (map_status_to_string response.code) s.collector < int_max
    → (s' : Session World) × (b : List Bytes) × (send response s ≡ ok (s', write b))
      × (wire b ≡ to_buffer response.code ++ header_text response.headers ++ crlf ++ response.body)
      × ((u status : Bytes)
          → count u status s'.collector
            ≡ count u status s.collector + hit u status (s.request.uri, response.code))
unfolding send
send-count response s sorted room =
    let (c, counted, counts) =
      increment_request-count s.request.uri response.code s.collector _ (omega arith) room in
    let g = init s.response_generator response in
    (
      record s { response_generator = g; collector = c },
      to_buffers g,
      rw counted refl,
      wire-to_buffers s.response_generator response sorted,
      counts,
    )
