-- ===== src/Handlers/Proxy.antt =====
-- src/proxy_request_handler.cc: the text of the request that is sent on, the headers that come
-- back, and the links of a page that comes back.
pub mod Links
pub mod Header
pub mod Stream
pub mod Forward
pub mod Answers
pub mod Pieces
pub mod Blocks
pub mod Reply
pub mod Rounds
pub mod Delivery
use foxy_4_web_server.Base.{
  ℕ, zero, suc, ◌+◌, ◌-◌, Bool, true, false, Option, none, some, [], ◌∷◌, ◌++◌, ltb, leb, ◌==◌,
  length, take, drop, Outcome, ok, throws, undefined, out_of_range, ◌>>=◌, if◌then◌else◌,
}
use foxy_4_web_server.Base.Bytes.{Bytes, codes, same, find, contains, substr, last?, drop_last}
use foxy_4_web_server.Base.Dict.{Dict, put}
use foxy_4_web_server.Handlers.Echo.{method_name}
use foxy_4_web_server.Http.{Request, Response}

-- The loop over the headers: the text, and whether a `Connection` was among them.
unfoldable pub write_headers : Bytes → Bool → Dict Bytes → Bytes × Bool
write_headers req connection [] = (req, connection)
write_headers req connection ((k, v) ∷ m) =
    if same k (codes "Accept-Encoding")
    then write_headers req connection m
    else if same v []
    then write_headers req connection m
    else if same k (codes "Connection")
    then write_headers (req ++ k ++ codes ": " ++ codes "close" ++ codes "\r\n") true m
    else write_headers (req ++ k ++ codes ": " ++ v ++ codes "\r\n") connection m

-- `uri[0] != '/'`, and the slash in front.
abbrev pub absolute : Bytes → Bytes
absolute [] = codes "/"
absolute (c ∷ s) = if c == b'/' then c ∷ s else b'/' ∷ c ∷ s

-- The URI without the location: `path_.length() - 1` wraps where the location is empty, and
-- `substr` throws past the end.
unfoldable pub upstream_uri : Bytes → Bytes → Outcome Bytes
upstream_uri [] uri = throws out_of_range
upstream_uri (c ∷ path) uri = do rest ← substr uri (length path); ok (absolute rest)

unfoldable pub convert_to_rawbody : Bytes → Request → Bool → Outcome Bytes
unfolding write_headers upstream_uri
convert_to_rawbody path request is_redirect = do
  uri ← (if is_redirect then ok request.uri else upstream_uri path request.uri)
  let line =
      method_name request.method
      ++ codes " "
      ++ uri
      ++ codes " HTTP"
      ++ codes "/"
      ++ codes "1.0"
      ++ codes "\r\n"
  let (req, connection) = write_headers line false request.headers
  let closing = (if connection then req else req ++ codes "Connection: close\r\n")
  ok (closing ++ codes "\r\n" ++ request.body)

-- `value.pop_back()`, undefined on an empty string.
unfoldable pub pop_back : Bytes → Outcome Bytes
pop_back [] = undefined
pop_back (c ∷ s) = ok (drop_last (c ∷ s))

unfoldable pub parse_header : Bytes → Response → Outcome (Bool × Response)
unfolding pop_back
parse_header header response = elim (find header (codes ":")) [
  | none ↦ ok (false, response)
  | some pos ↦ (do
    rest ← substr header (pos + 2)
    value ← pop_back rest
    ok (true, record response { headers = put (take pos header) value response.headers }))
]

-- The bytes in front of the first quotation mark, or all.
unfoldable pub before_quote : Bytes → ℕ
before_quote [] = 0
before_quote (c ∷ s) = if c == b'"' then 0 else suc (before_quote s)

-- `j` behind the first `href` or `src`.
unfoldable pub next_link : Bytes → Option ℕ
next_link body = elim (find body (codes "href")) [
  | none ↦ elim (find body (codes "src")) [ none ↦ none | some src_i ↦ some (src_i + 3) ]
  | some href_i ↦ elim (find body (codes "src")) [
    | none ↦ some (href_i + 4)
    | some src_i ↦ some (if ltb href_i src_i then href_i + 4 else src_i + 3)
  ]
]

abbrev pub first_char : Bytes → ℕ
first_char [] = 0
first_char (c ∷ s) = c

-- The loop of `clean_html`, with fuel. Where no text is left behind the quotation mark, the body
-- is appended before the `break` and behind it.
unfoldable pub clean_loop : ℕ → Bytes → Bytes → Bytes → Option Bytes
unfolding before_quote next_link
clean_loop zero path cleaned body = none
clean_loop (suc f) path cleaned body = elim (next_link body) [
  | none ↦ some (cleaned ++ body)
  | some start ↦
      let j = start + before_quote (drop start body) in
      let front = take (j + 1) body in
      let back = drop (j + 1) body in
      let rest =
        clean_loop f path
          (if first_char back == b'/' then cleaned ++ front ++ path else cleaned ++ front) back in
      if leb (length body) (j + 1) then some ((cleaned ++ body) ++ body) else rest
]

-- `path.back()`, undefined on an empty string. Every round but the last takes a byte.
unfoldable pub clean_html : Bytes → Bytes → Option (Outcome Bytes)
unfolding clean_loop
clean_html path body = elim (last? path) [
  | none ↦ some undefined
  | some c ↦
      elim (clean_loop (length body + 1) (if c == b'/' then drop_last path else path) [] body) [
        | none ↦ none
        | some cleaned ↦ some (ok cleaned)
      ]
]

-- The bytes from the first slash on.
unfoldable pub from_slash : Bytes → Bytes
from_slash [] = []
from_slash (c ∷ s) = if c == b'/' then c ∷ s else from_slash s

unfoldable pub redirect_request : Bytes → Bytes → Request → Outcome Bytes
unfolding convert_to_rawbody from_slash
redirect_request path new_root client_request =
    let root = (if contains new_root (codes "\r") then drop_last new_root else new_root) in
    convert_to_rawbody path (record client_request { uri = from_slash root }) true
