-- ===== src/Handlers/Proxy/Delivery.antt =====
-- What the client gets of whole responses of the upstream server.
use foxy_4_web_server.Base.{ok, ◌≡◌, refl, true, false, some, List, [], ◌∷◌}
use foxy_4_web_server.Base.Bytes.{Bytes, codes, contains}
use foxy_4_web_server.Base.Dict.{insert, get_or}
use foxy_4_web_server.Http.{Request, StatusCode, Response}
use foxy_4_web_server.Handlers.Proxy.{convert_to_rawbody, redirect_request}
use foxy_4_web_server.Handlers.Proxy.Stream.{concat}
use foxy_4_web_server.Handlers.Proxy.Blocks.{Header, entered}
use foxy_4_web_server.Handlers.Proxy.Forward.{
  ProxyHandler, Upstream, port_text, server_address, after_slashes, rounds, not_found_yet,
  handle_request,
}
use foxy_4_web_server.Handlers.Proxy.Reply.{reply_text}
use foxy_4_web_server.Handlers.Proxy.Rounds.{
  IsReply, IsPlainText, delivered, round-reply, round-redirect,
}

module _ (p : ProxyHandler) (upstream : Upstream) (request : Request) (raw_req : Bytes)
    (made : convert_to_rawbody p.path request false ≡ ok raw_req) (pieces : List Bytes)
    (sent : upstream 0 p.root (port_text p.port) raw_req ≡ some pieces) where
  -- A whole response of the upstream server on the first connection, in whatever pieces its bytes
  -- come: the client gets it with status 200, its headers as their lines enter them one over the
  -- other, a `Content-Length` that is the length of the body whatever the server said, and the body
  -- unchanged. The response is "HTTP/" and a version without white space, the status 200 and a
  -- message, at least one header (a name without a colon, a colon, a blank and a value), an empty
  -- line and any body; no end of a line is in a part of a line; and it has no `Content-Type` with
  -- "html".
  pub handle_request-reply :
      (version message body : Bytes) (h : Header) (hs : List Header)
      → IsReply version (codes "200") message 200 h hs
      → concat pieces ≡ reply_text version (codes "200") message (h ∷ hs) body
      → IsPlainText (entered (h ∷ hs) [])
      → handle_request p upstream request ≡ some (ok (delivered (h ∷ hs) [] body))
  unfolding handle_request rounds
  handle_request-reply version message body h hs w text plain =
      let answer =
        round-reply p.path (server_address [] request.headers) request not_found_yet version message
          body h hs pieces w text refl plain in
      rw (handle_request, made, rounds, sent, answer) refl

  -- A redirect of the upstream server with status 302 whose `Location` holds the host that the client
  -- asked, and on the next connection a whole response with status 200 to the request of the redirect,
  -- both in whatever pieces, without a `Content-Type` with "html" among the headers: the client gets
  -- the second response, with its body and its length, but with its headers entered over those of
  -- the redirect, which stay (the `Location` among them).
  pub handle_request-redirect :
      (version message body version' message' body' raw_req' : Bytes) (h h' : Header)
      (hs hs' : List Header) (pieces' : List Bytes)
      → IsReply version (codes "302") message 302 h hs
      → concat pieces ≡ reply_text version (codes "302") message (h ∷ hs) body
      → contains
          (get_or (codes "Location") [] (entered (h ∷ hs) []))
          (server_address [] request.headers)
        ≡ true
      → redirect_request p.path
          (after_slashes (get_or (codes "Location") [] (entered (h ∷ hs) [])))
          request
        ≡ ok raw_req'
      → upstream 1 p.root (port_text p.port) raw_req' ≡ some pieces'
      → IsReply version' (codes "200") message' 200 h' hs'
      → concat pieces' ≡ reply_text version' (codes "200") message' (h' ∷ hs') body'
      → IsPlainText (entered (h' ∷ hs') (insert (codes "Location") [] (entered (h ∷ hs) [])))
      → handle_request p upstream request
        ≡ some
            (ok (delivered (h' ∷ hs') (insert (codes "Location") [] (entered (h ∷ hs) [])) body'))
  unfolding handle_request rounds
  handle_request-redirect version message body version' message' body' raw_req' h h' hs hs' pieces'
        w text there redirected sent' w' text' plain =
      let addr = server_address [] request.headers in
      let first =
        round-redirect p.path addr request not_found_yet version message body h hs pieces raw_req' w
          text there redirected in
      let moved : Response = record {
        code = StatusCode.moved_temporarily;
        headers = insert (codes "Location") [] (entered (h ∷ hs) []);
        body = [];
      } in
      let second =
        round-reply p.path addr request moved version' message' body' h' hs' pieces' w' text' refl
          plain in
      rw (handle_request, made, rounds, sent, first, sent', second) refl
