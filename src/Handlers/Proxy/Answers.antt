-- ===== src/Handlers/Proxy/Answers.antt =====
-- The forwarding of requests: its fuel is enough, and what the client gets where the upstream server fails.
use foxy_4_web_server.Base.{
  if◌then◌else◌, Option-cases, Outcome, Outcome-cases, ok, ℕ, zero, suc, ◌≡◌, refl, ◌≢◌, ◌⊎◌, inl,
  inr, false, Option, none, some, List, [], ◌++◌, arith,
}
use foxy_4_web_server.Base.Bytes.{Bytes, codes, same}
use foxy_4_web_server.Base.Dict.{lookup, insert}
use foxy_4_web_server.Http.{Request, StatusCode, Response}
use foxy_4_web_server.ResponseGenerator.{stock_response}
use foxy_4_web_server.ResponseGenerator.Stock.{IsFramed}
use foxy_4_web_server.Handlers.Proxy.{convert_to_rawbody}
use foxy_4_web_server.Handlers.Proxy.Links.{clean_html_ends}
use foxy_4_web_server.Handlers.Proxy.Stream.{read_until, concat}
use foxy_4_web_server.Handlers.Proxy.Forward.{
  ProxyHandler, Upstream, status_of, port_text, server_address, status_line, read_body,
  after_headers, after_status, round, rounds, not_found_yet, handle_request, finished,
}

read_body_ends :
    (path : Bytes) (r : Response) (rest : Bytes) (later : List Bytes)
    → read_body path r rest later ≢ none
unfolding read_body
read_body_ends path r rest later e =
    let whole = (if same rest [] then r.body else rest) ++ concat later in
    ground (arith, clean_html_ends path whole)

after_headers_ends :
    (path server_addr : Bytes) (request : Request) (status : ℕ) (r : Response) (rest : Bytes)
    (later : List Bytes)
    → after_headers path server_addr request status r rest later ≢ none
unfolding after_headers
after_headers_ends path server_addr request status r rest later e =
    let r' = record r { headers = insert (codes "Location") [] r.headers } in
    ground (arith, read_body_ends path r rest later, read_body_ends path r' rest later)

after_status_ends :
    (path server_addr : Bytes) (request : Request) (version : Bytes) (status : ℕ) (r : Response)
    (rest : Bytes) (later : List Bytes)
    → after_status path server_addr request version status r rest later ≢ none
unfolding after_status
after_status_ends path server_addr request version status r rest later e =
    grind (arith, after_headers_ends path server_addr request status)

round_ends :
    (path server_addr : Bytes) (request : Request) (r : Response) (pieces : List Bytes)
    → round path server_addr request r pieces ≢ none
unfolding round
round_ends path server_addr request r pieces e =
    elim (Option-cases (read_until (codes "\r\n") [] pieces)) [
      | inl ended ↦ let other : Option.some (finished r) ≡ none = rw (round, ended) at e in cc other
      | inr ((buffer, later), found) ↦ elim (Option-cases (status_line buffer)) [
        | inl failed ↦
            let other : Option.some (finished (stock_response StatusCode.internal_server_error))
                ≡ none =
              rw (round, found, failed) at e in
            cc other
        | inr ((version, status, rest), parsed) ↦
            after_status_ends path server_addr request version status
              (record r { code = status_of status }) rest later (rw (round, found, parsed) at e)
      ]
    ]

rounds_end :
    (h : ProxyHandler) (upstream : Upstream) (server_addr : Bytes) (request : Request)
    (left loop_count : ℕ) (raw_req : Bytes) (r : Response)
    → rounds h upstream server_addr request left loop_count raw_req r ≢ none
unfolding rounds
rounds_end h upstream server_addr request zero loop_count raw_req r e = cc
rounds_end h upstream server_addr request (suc left) loop_count raw_req r e = grind (
  arith,
  round_ends h.path server_addr request r,
  rounds_end h upstream server_addr request left (suc loop_count),
)

-- The fuel of the rewriting of links is enough: for every list of pieces on each connection the call
-- has a result.
pub handle_request_ends :
    (h : ProxyHandler) (upstream : Upstream) (request : Request)
    → handle_request h upstream request ≢ none
unfolding handle_request
handle_request_ends h upstream request e =
    elim (Outcome-cases (convert_to_rawbody h.path request false)) [
      | inl (raw_req, made) ↦
          rounds_end h upstream (server_address [] request.headers) request 5 0 raw_req
            not_found_yet (rw (handle_request, made) at e)
      | inr (inl (x, fault)) ↦
          let other : Option.some (Outcome.throws x) ≡ none = rw (handle_request, fault) at e in
          cc other
      | inr (inr gone) ↦
          let other : Option.some Outcome.undefined ≡ none = rw (handle_request, gone) at e in
          cc other
    ]

-- If the first connection to the upstream server fails, or its stream ends before the first line
-- does, the client is sent a response with status 404, without headers and without a body: it
-- states no length.
pub handle_request-unreachable :
    (h : ProxyHandler) (upstream : Upstream) (request : Request) (raw_req : Bytes)
    → convert_to_rawbody h.path request false ≡ ok raw_req
    → (upstream 0 h.root (port_text h.port) raw_req ≡ none)
      ⊎ ((pieces : List Bytes) × (upstream 0 h.root (port_text h.port) raw_req ≡ some pieces)
          × (read_until (codes "\r\n") [] pieces ≡ none))
    → (handle_request h upstream request ≡ some (ok not_found_yet)) × ¬ IsFramed not_found_yet
unfolding handle_request rounds round lookup
handle_request-unreachable h upstream request raw_req made (inl failed) =
    (rw (handle_request, made, rounds, failed) refl, λ framed. unfold lookup in cc framed)
handle_request-unreachable h upstream request raw_req made (inr (pieces, connected, ended)) = (
  rw (handle_request, made, rounds, connected, round, ended) refl,
  λ framed. unfold lookup in cc framed,
)
