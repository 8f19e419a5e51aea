-- ===== src/Handlers/Proxy/Forward.antt =====
-- src/proxy_request_handler.cc, `handle_request`: the request is sent on, and the response read.
-- The upstream server is a parameter.
use foxy_4_web_server.Base.{
  ◌==◌, if◌then◌else◌, length, take, drop, Outcome, ok, throws, undefined, ℕ, zero, suc, ◌+◌, true,
  false, not, ◌||◌, Option, none, some, List, [], ◌∷◌, ◌++◌,
}
use foxy_4_web_server.Base.Bytes.{Bytes, codes, same, find, contains}
use foxy_4_web_server.Base.Text.{to_string}
use foxy_4_web_server.Base.Int.{ℤ, pos, negsuc}
use foxy_4_web_server.Base.Dict.{Dict, put, insert, get_or}
use foxy_4_web_server.Http.{Request, StatusCode, Response}
use foxy_4_web_server.ResponseGenerator.{stock_response}
use foxy_4_web_server.Handlers.Proxy.{
  convert_to_rawbody, parse_header, clean_html, redirect_request,
}
use foxy_4_web_server.Handlers.Proxy.Stream.{read_until, concat, lines, read_word, read_unsigned}

pub record ProxyHandler : Type 0 where
  pub root : Bytes
  pub path : Bytes
  pub port : ℤ

-- What comes of a connection, by its number, its host, its port and the text that is sent: the
-- pieces in which the response is read, up to the end of the stream or an error; `none` where the
-- host is not found, or the connection or the write fails.
abbrev pub Upstream : Type 0
Upstream = ℕ → Bytes → Bytes → Bytes → Option (List Bytes)

-- `static_cast<Response::status_code>(n)`
unfoldable pub status_of : ℕ → StatusCode
status_of n =
    if n == 200
    then StatusCode.success
    else if n == 201
    then StatusCode.created
    else if n == 202
    then StatusCode.accepted
    else if n == 204
    then StatusCode.no_content
    else if n == 300
    then StatusCode.multiple_choices
    else if n == 301
    then StatusCode.moved_permanently
    else if n == 302
    then StatusCode.moved_temporarily
    else if n == 304
    then StatusCode.not_modified
    else if n == 400
    then StatusCode.bad_request
    else if n == 401
    then StatusCode.unauthorized
    else if n == 403
    then StatusCode.forbidden
    else if n == 404
    then StatusCode.not_found
    else if n == 500
    then StatusCode.internal_server_error
    else if n == 501
    then StatusCode.not_implemented
    else if n == 502
    then StatusCode.bad_gateway
    else if n == 503
    then StatusCode.service_unavailable
    else StatusCode.other n

-- `std::to_string(port_)`
abbrev pub port_text : ℤ → Bytes
port_text (pos n) = to_string n
port_text (negsuc n) = b'-' ∷ to_string (suc n)

-- The part of the host in front of a colon.
abbrev pub without_port : Bytes → Bytes
without_port host = elim (find host (codes ":")) [ none ↦ host | some colon ↦ take colon host ]

-- The loop that looks for `Host`.
unfoldable pub server_address : Bytes → Dict Bytes → Bytes
server_address found [] = found
server_address found ((k, v) ∷ m) =
    server_address (if same k (codes "Host") then without_port v else found) m

-- The status line: the version, the code and what the buffer holds behind the line; `none`: the
-- stream has failed.
unfoldable pub status_line : Bytes → Option (Bytes × ℕ × Bytes)
unfolding read_unsigned lines
status_line s =
    let (version, after_version) = read_word s in
    elim (read_unsigned after_version) [
      | none ↦ none
      | some (status, after_status) ↦ elim (lines after_status) [
        | [] ↦ none
        | (message, rest) ∷ later ↦ some (version, status, rest)
      ]
    ]

-- The loop over the header lines has ended: at the blank line or the end of the buffer, at a line
-- without a colon, by an exception, or in an undefined operation.
pub data Headers : Type 0 where
  complete : Response → Bytes → Headers
  thrown : Response → Headers
  refused lost : Headers

unfoldable pub read_headers : List (Bytes × Bytes) → Response → Headers
unfolding parse_header
read_headers [] r = complete r []
read_headers ((line, rest) ∷ more) r = elim (same line (codes "\r")) [
  | true ↦ complete r rest
  | false ↦ elim (parse_header line r) [
    | throws e ↦ thrown r
    | undefined ↦ lost
    | ok (is_header, r') ↦ elim is_header [ true ↦ read_headers more r' | false ↦ refused ]
  ]
]

-- A round of the loop over the connections: the response is returned, or thrown out of the `try`
-- and returned behind it; or a redirect is followed, with the response so far and the text of the
-- next request; or the behaviour is undefined.
pub data Round : Type 0 where
  finished : Response → Round
  again : Response → Bytes → Round
  broken : Round

-- The body, its links and its length.
unfoldable pub read_body : Bytes → Response → Bytes → List Bytes → Option Round
unfolding clean_html
read_body path r rest later =
    let first = (if same rest [] then r.body else rest) in
    let whole = first ++ concat later in
    let kind = get_or (codes "Content-Type") [] r.headers in
    let headers = insert (codes "Content-Type") [] r.headers in
    let measured = λ (body : Bytes). finished (record r {
      headers = put (codes "Content-Length") (to_string (length body)) headers;
      body = body;
    }) in
    if contains kind (codes "html")
    then elim (clean_html path whole) [
      | none ↦ none
      | some (ok body) ↦ some (measured body)
      | some (throws e) ↦ some (finished (record r { headers = headers; body = whole }))
      | some undefined ↦ some broken
    ]
    else some (measured whole)

-- What follows two slashes, or all.
abbrev pub after_slashes : Bytes → Bytes
after_slashes new_root = elim (find new_root (codes "//")) [
  | none ↦ new_root
  | some slashes ↦ drop (slashes + 2) new_root
]

-- The redirect to the same server is followed; another response is read to its end.
unfoldable pub after_headers :
    Bytes → Bytes → Request → ℕ → Response → Bytes → List Bytes → Option Round
unfolding read_body redirect_request
after_headers path server_addr request status r rest later =
    let new_root = get_or (codes "Location") [] r.headers in
    let r' = record r { headers = insert (codes "Location") [] r.headers } in
    if status == 301 || status == 302
    then (if contains new_root server_addr
        then elim (redirect_request path (after_slashes new_root) request) [
          | ok raw_req ↦ some (again r' raw_req)
          | throws e ↦ some (finished r')
          | undefined ↦ some broken
        ]
        else read_body path r' rest later)
    else read_body path r rest later

unfoldable pub after_status :
    Bytes → Bytes → Request → Bytes → ℕ → Response → Bytes → List Bytes → Option Round
unfolding read_until lines read_headers after_headers
after_status path server_addr request version status r rest later =
    if not (same (take 5 version) (codes "HTTP/"))
    then some (finished (stock_response StatusCode.internal_server_error))
    else if not (status == 200 || status == 301 || status == 302)
    then some (finished (stock_response r.code))
    else elim (read_until (codes "\r\n\r\n") rest later) [
      | none ↦ some (finished r)
      | some (buffer, later') ↦ elim (read_headers (lines buffer) r) [
        | complete r' rest' ↦ after_headers path server_addr request status r' rest' later'
        | thrown r' ↦ some (finished r')
        | refused ↦ some (finished (stock_response StatusCode.internal_server_error))
        | lost ↦ some broken
      ]
    ]

-- A connection that was made: its response is read, over the headers of the rounds before.
unfoldable pub round : Bytes → Bytes → Request → Response → List Bytes → Option Round
unfolding read_until status_line after_status
round path server_addr request r pieces = elim (read_until (codes "\r\n") [] pieces) [
  | none ↦ some (finished r)
  | some (buffer, later) ↦ elim (status_line buffer) [
    | none ↦ some (finished (stock_response StatusCode.internal_server_error))
    | some (version, status, rest) ↦
        after_status path server_addr request version status (record r { code = status_of status })
          rest later
  ]
]

-- `while (loop_count < 5)`: `left` rounds are left. A connection that fails throws.
unfoldable pub rounds :
    ProxyHandler → Upstream → Bytes → Request → ℕ → ℕ → Bytes → Response → Option (Outcome Response)
unfolding round
rounds h upstream server_addr request zero loop_count raw_req r = some (ok r)
rounds h upstream server_addr request (suc left) loop_count raw_req r =
    elim (upstream loop_count h.root (port_text h.port) raw_req) [
      | none ↦ some (ok r)
      | some pieces ↦ elim (round h.path server_addr request r pieces) [
        | none ↦ none
        | some (finished r') ↦ some (ok r')
        | some (again r' raw_req') ↦
            rounds h upstream server_addr request left (suc loop_count) raw_req' r'
        | some broken ↦ some undefined
      ]
    ]

abbrev pub not_found_yet : Response
not_found_yet = record { code = StatusCode.not_found; headers = []; body = [] }

-- `handle_request(request)`. The text of the request is made outside of the `try`.
unfoldable pub handle_request : ProxyHandler → Upstream → Request → Option (Outcome Response)
unfolding rounds convert_to_rawbody
handle_request h upstream request = elim (convert_to_rawbody h.path request false) [
  | ok raw_req ↦
      rounds h upstream (server_address [] request.headers) request 5 0 raw_req not_found_yet
  | throws e ↦ some (throws e)
  | undefined ↦ some undefined
]
