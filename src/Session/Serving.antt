-- ===== src/Session/Serving.antt =====
-- What a client over TLS is sent.
use foxy_4_web_server.Handlers.Init.{Handler}
use foxy_4_web_server.Session.{Read, Next, read_data, write, Session, Handle, over_tls, answer}
use foxy_4_web_server.Http.{Request, StatusCode, Response}
use foxy_4_web_server.Base.{◌>>=◌, undefined, ok, none, some}
use foxy_4_web_server.Base.{
  length, ◌>>=◌, ok, undefined, ◌+◌, ◌<◌, ◌≡◌, refl, ap, ◌∙◌, false, none, some, List, ◌++◌,
  append_assoc,
}
use foxy_4_web_server.Base.Bytes.{Bytes, codes, same, same_refl}
use foxy_4_web_server.Base.Bytes.Order.{less}
use foxy_4_web_server.Base.Dict.{put}
use foxy_4_web_server.Base.Dict.Sorted.{IsSorted}
use foxy_4_web_server.Base.Text.{int_max, to_string}
use foxy_4_web_server.Handlers.Echo.{convert_to_rawbody}
use foxy_4_web_server.DataCollector.{map_status_to_string}
use foxy_4_web_server.DataCollector.Counts.{count}
use foxy_4_web_server.HandlerGenerator.{HandlerMap, dispatch_handler}
use foxy_4_web_server.ResponseGenerator.{to_buffer, crlf, content_headers}
use foxy_4_web_server.ResponseGenerator.Wire.{wire, header_text}
use foxy_4_web_server.Session.{
  max_length, zeros, Read, Next, Session, Handle, send, answer, clear_data, on_result, handle_read,
  over_tls, read_data, write,
}
use foxy_4_web_server.Session.Steps.{IsSettled, with_data, over_tls-IsKind, Steps}
use foxy_4_web_server.Session.KeepAlive.{IsPlain, seen, handle_read-Steps}
use foxy_4_web_server.Session.Counts.{send-count}
use foxy_4_web_server.RequestParser.{reset}

-- The text of a page that is found.
abbrev pub page_text : Bytes → Bytes → Bytes
page_text content type =
    codes "HTTP/1.1 200 OK\r\nContent-Length: "
    ++ (to_string (length content)
        ++ (codes "\r\nContent-Type: " ++ (type ++ (codes "\r\n\r\n" ++ content))))

abbrev pub page : Bytes → Bytes → Response
page content type = record {
  code = StatusCode.success;
  body = content;
  headers = content_headers content type;
}

page-IsSorted : (content type : Bytes) → IsSorted (page content type).headers
unfolding content_headers put same less
page-IsSorted content type = (refl, (tt, tt))

page_wire :
    (content type : Bytes)
    → (to_buffer StatusCode.success ++ header_text (page content type).headers ++ crlf ++ content)
      ≡ page_text content type
unfolding content_headers put same less to_buffer
page_wire content type = simp append_assoc

-- The answer to a plain request: its text, and one more on the counter of its URI.
abbrev pub Delivers :
    {World : Type 0} → Handle World → Session World → Request → List Read → Bytes → Type 0
Delivers {World} handle s r reads text =
    (s' : Session World) × (b : List Bytes) × (handle_read (over_tls handle) false
        (length (convert_to_rawbody r)) reads (with_data s (convert_to_rawbody r))
      ≡ some (ok (s', write b)))
    × (wire b ≡ text)
    × (count r.uri (map_status_to_string StatusCode.success) s'.collector
        ≡ count r.uri (map_status_to_string StatusCode.success) s.collector + 1)

-- A session that waits for a request after any steps of its connection, and the counter of the
-- request's URI has not reached the largest `int`.
pub record IsOpen {World : Type 0} (handle : Handle World) (s : Session World) (r : Request)
    : Type 0 where
  pub from : Session World × Next
  pub settled : IsSettled from
  pub steps : Steps (over_tls handle) from (s, read_data)
  pub plain : IsPlain r
  pub room : count r.uri (map_status_to_string StatusCode.success) s.collector < int_max

answer_sends :
    {World : Type 0} (handle : Handle World) (s : Session World) (h : Handler) (m : HandlerMap)
    (w : World) (response : Response)
    → dispatch_handler s.request.uri s.generator ≡ (some h, m)
    → handle h s.collector s.world s.request ≡ ok (w, response)
    → answer handle s ≡ send response (record s { generator = m; world = w })
unfolding answer
answer_sends handle s h m w response chosen called =
    ap
      (λ found. elim found.0 [
        | none ↦ undefined
        | some h' ↦ (do
          (w', response') ← handle h' s.collector s.world s.request
          send response' (record s { generator = found.1; world = w' }))
      ])
      chosen
    ∙ ap (λ o. o >>= λ x. send x.1 (record s { generator = m; world = x.0 })) called

pub page_answered :
    {World : Type 0} (handle : Handle World) (s : Session World) (r : Request) (reads : List Read)
    (h : Handler) (m : HandlerMap) (w : World) (content type : Bytes)
    → IsOpen handle s r
    → dispatch_handler r.uri s.generator ≡ (some h, m)
    → handle h s.collector s.world (seen r) ≡ ok (w, page content type)
    → Delivers handle s r reads (page_text content type)
unfolding on_result answer same map_status_to_string
page_answered {World} handle s r reads h m w content type opened chosen called =
    let (q, answered) =
      handle_read-Steps (over_tls handle) (over_tls-IsKind handle) opened.from s r reads
        opened.settled opened.steps opened.plain in
    let success = map_status_to_string StatusCode.success in
    let s0 : Session World = record (with_data s (convert_to_rawbody r)) {
      request = seen r;
      request_parser = reset q;
    } in
    let (s', b, sent, text, counts) =
      send-count (page content type) (record s0 { generator = m; world = w })
        (page-IsSorted content type) opened.room in
    (
      record s' { data_bytes = zeros max_length },
      b,
      answered
          ∙ ap (λ o. some (o >>= λ after. ok (clear_data after)))
              (answer_sends handle s0 h m w (page content type) chosen called ∙ sent),
      text ∙ page_wire content type,
      rw (counts r.uri success, same_refl r.uri) refl,
    )
