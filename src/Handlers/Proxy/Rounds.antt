-- ===== src/Handlers/Proxy/Rounds.antt =====
-- A round of the proxy on a whole response of the upstream server.
use foxy_4_web_server.Base.{
  ◌==◌, All, Outcome, ok, throws, undefined, ℕ, ◌≡◌, refl, ap, ◌∙◌, Bool, true, false, ◌||◌, Option,
  some, List, [], ◌∷◌, ◌++◌,
}
use foxy_4_web_server.Base.Bytes.{Bytes, codes, same, starts_with, contains}
use foxy_4_web_server.Base.Dict.{Dict, insert, get_or}
use foxy_4_web_server.Http.{Request, StatusCode, Response}
use foxy_4_web_server.Handlers.Proxy.{redirect_request}
use foxy_4_web_server.Handlers.Proxy.Stream.{read_until, concat}
use foxy_4_web_server.Handlers.Proxy.Pieces.{
  IsLine, read_until_found, contains-append, line_with_end,
}
use foxy_4_web_server.Handlers.Proxy.Blocks.{
  Header, header_block, entered, IsHeader, block_found, read_headers-block,
}
use foxy_4_web_server.Handlers.Proxy.Forward.{
  broken, status_of, status_line, Round, after_slashes, after_headers, after_status, round,
  finished, again,
}
use foxy_4_web_server.Handlers.Proxy.Reply.{
  first_line, reply_text, IsCode, IsWord, first_line-IsLine, status_line-reply, block_has_end,
  measured, read_body_plain,
}

-- A version without white space, the digits of a status, a message, and at least one header; no end
-- of a line is in a part of a line.
pub record IsReply (version code message : Bytes) (status : ℕ) (h : Header) (hs : List Header)
    : Type 0 where
  pub word : IsWord version
  pub digits : IsCode code status
  pub line : IsLine message
  pub header : IsHeader h
  pub headers : All IsHeader hs

-- No HTML page: its links are not changed.
abbrev pub IsPlainText : Dict Bytes → Type 0
IsPlainText m = contains (get_or (codes "Content-Type") [] m) (codes "html") ≡ false

-- The response with these headers over those of the responses before.
abbrev pub delivered : List Header → Dict Bytes → Bytes → Response
delivered hs earlier body =
    measured (record { code = StatusCode.success; headers = entered hs earlier; body = [] }) body

abbrev is_read_on : ℕ → Bool
is_read_on status = status == 200 || status == 301 || status == 302

round_of :
    (path server_addr : Bytes) (request : Request) (r : Response) (pieces later : List Bytes)
    (buffer version rest : Bytes) (status : ℕ)
    → read_until (codes "\r\n") [] pieces ≡ some (buffer, later)
    → status_line buffer ≡ some (version, status, rest)
    → round path server_addr request r pieces
      ≡ after_status path server_addr request version status
          (record r { code = status_of status })
          rest
          later
unfolding round
round_of path server_addr request r pieces later buffer version rest status found parsed =
    rw (round, found, parsed) refl

after_headers-again :
    (path server_addr new_root raw_req : Bytes) (request : Request) (r : Response) (s : Bytes)
    (back : List Bytes)
    → get_or (codes "Location") [] r.headers ≡ new_root
    → contains new_root server_addr ≡ true
    → redirect_request path (after_slashes new_root) request ≡ ok raw_req
    → after_headers path server_addr request 302 r s back
      ≡ some (again (record r { headers = insert (codes "Location") [] r.headers }) raw_req)
unfolding after_headers
after_headers-again path server_addr new_root raw_req request r s back location there made =
    rw (after_headers, location, there)
      (made_again (redirect_request path (after_slashes new_root) request) made)
  where
    r' : Response
    r' = record r { headers = insert (codes "Location") [] r.headers }

    made_again :
        (o : Outcome Bytes)
        → o ≡ ok raw_req
        → elim o as (λ x. Option Round) [
          | ok raw_req' ↦ some (again r' raw_req')
          | throws e ↦ some (finished r')
          | undefined ↦ some broken
        ]
          ≡ some (again r' raw_req)
    made_again o e = rw e refl

module _ (path server_addr : Bytes) (request : Request) (version code message body : Bytes)
    (status : ℕ) (h : Header) (hs : List Header) (w : IsReply version code message status h hs)
    (known : is_read_on status ≡ true) where
  after_status-block :
      (r : Response) (rest : Bytes) (later : List Bytes)
      → rest ++ concat later ≡ header_block (h ∷ hs) ++ body
      → (s : Bytes) × (back : List Bytes) × (s ++ concat back ≡ body)
        × (after_status path server_addr request (codes "HTTP/" ++ version) status r rest later
            ≡ after_headers path server_addr request status
                (record r { headers = entered (h ∷ hs) r.headers })
                s
                back)
  unfolding after_status same
  after_status-block r rest later text =
      let ended : contains (rest ++ concat later) (codes "\r\n\r\n") ≡ true =
        rw text (block_has_end h hs body) in
      let (front, back, found, holds, whole) =
        read_until_found (codes "\r\n\r\n") rest later ended in
      let (s, block, left) =
        block_found h hs front (concat back) body w.header w.headers holds (whole ∙ text) in
      let parsed = read_headers-block (h ∷ hs) r s (w.header, w.headers) in
      (s, back, left, rw (after_status, known, found, block, parsed) refl)

  -- A round on the whole text reads the headers and leaves the body to what follows.
  round-block :
      (r : Response) (pieces : List Bytes)
      → concat pieces ≡ reply_text version code message (h ∷ hs) body
      → (s : Bytes) × (back : List Bytes) × (s ++ concat back ≡ body)
        × (round path server_addr request r pieces
            ≡ after_headers path server_addr request status
                (record r { code = status_of status; headers = entered (h ∷ hs) r.headers })
                s
                back)
  unfolding contains starts_with
  round-block r pieces text =
      let behind = header_block (h ∷ hs) ++ body in
      let first = first_line version code message in
      let ended : contains (concat pieces) (codes "\r\n") ≡ true =
        rw text (contains-append first (codes "\r\n" ++ behind) (codes "\r\n") refl) in
      let (front, back, found, holds, whole) = read_until_found (codes "\r\n") [] pieces ended in
      let (rest, line, left) =
        line_with_end first front (concat back) behind
          (first_line-IsLine version code message status w.word w.digits w.line) holds
          (whole ∙ text) in
      let parsed = status_line-reply version code message rest status w.word w.digits w.line in
      let (s, later, body_left, answer) =
        after_status-block (record r { code = status_of status }) rest back left in
      (
        s,
        later,
        body_left,
        round_of path server_addr request r pieces back front (codes "HTTP/" ++ version) rest status
              found (ap status_line line ∙ parsed)
            ∙ answer,
      )

module _ (path server_addr : Bytes) (request : Request) (r : Response)
    (version message body : Bytes) (h : Header) (hs : List Header) (pieces : List Bytes) where
  pub round-reply :
      IsReply version (codes "200") message 200 h hs
      → concat pieces ≡ reply_text version (codes "200") message (h ∷ hs) body
      → r.body ≡ []
      → IsPlainText (entered (h ∷ hs) r.headers)
      → round path server_addr request r pieces
        ≡ some (finished (delivered (h ∷ hs) r.headers body))
  unfolding after_headers status_of
  round-reply w text empty plain =
      let (s, back, left, answer) =
        round-block path server_addr request version (codes "200") message body 200 h hs w refl r
          pieces text in
      answer
      ∙ read_body_plain path
          (record r { code = StatusCode.success; headers = entered (h ∷ hs) r.headers }) s back body
          empty left plain

  pub round-redirect :
      (raw_req : Bytes)
      → IsReply version (codes "302") message 302 h hs
      → concat pieces ≡ reply_text version (codes "302") message (h ∷ hs) body
      → contains (get_or (codes "Location") [] (entered (h ∷ hs) r.headers)) server_addr ≡ true
      → redirect_request path
          (after_slashes (get_or (codes "Location") [] (entered (h ∷ hs) r.headers)))
          request
        ≡ ok raw_req
      → round path server_addr request r pieces
        ≡ some (
            again
              (record r {
                code = StatusCode.moved_temporarily;
                headers = insert (codes "Location") [] (entered (h ∷ hs) r.headers);
              })
              raw_req)
  unfolding after_headers status_of
  round-redirect raw_req w text there made =
      let (s, back, left, answer) =
        round-block path server_addr request version (codes "302") message body 302 h hs w refl r
          pieces text in
      answer
      ∙ after_headers-again path server_addr _ raw_req request
          (record r { code = StatusCode.moved_temporarily; headers = entered (h ∷ hs) r.headers }) s
          back refl there made
