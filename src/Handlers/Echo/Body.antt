-- ===== src/Handlers/Echo/Body.antt =====
-- A whole request with a body, written by the echo handler and read by `parse_data`.
use foxy_4_web_server.Base.{
  ℕ, suc, ◌-◌, ◌<◌, ◌^◌, some, [], ◌∷◌, ◌++◌, ◌≡◌, refl, ap, ◌∙◌, arith, length, length-append,
  drop-length_append, All, ok,
}
use foxy_4_web_server.Base.Bytes.{Bytes}
use foxy_4_web_server.Base.Dict.{lookup}
use foxy_4_web_server.Base.Int.{pos}
use foxy_4_web_server.Base.Text.{stoi}
use foxy_4_web_server.Handlers.Echo.{convert_to_rawbody}
use foxy_4_web_server.Handlers.Echo.RoundTrip.{IsPrintable, parse-convert_to_rawbody}
use foxy_4_web_server.Http.{Request, new_request}
use foxy_4_web_server.RequestParser.Body.{IsNonzero, is_empty, parse_data_first}
use foxy_4_web_server.RequestParser.{RequestParser, good, reset, parse, parse_data, tail_of}
use foxy_4_web_server.Utility.ContentLength.{get_content_length_found}
use foxy_4_web_server.Utility.{get_content_length, content_length_key}

tail_of-append : (a b : Bytes) → tail_of (a ++ b) (pos (length b)) ≡ ok b
unfolding tail_of
tail_of-append a b =
    let e : length (a ++ b) - length b ≡ length a = omega (arith, length-append a b) in
    rw (e, drop-length_append a b) (ground (arith, length-append a b))

rawbody_splits : (r : Request) → (a : Bytes) × (convert_to_rawbody r ≡ a ++ r.body)
unfolding convert_to_rawbody
rawbody_splits r = (_, refl)

-- The parser, before it has counted a byte, reads a printable request that the echo handler writes
-- and that has a body, of the length that its `Content-Length` header gives, back whole: `good`,
-- and the same request with its body. The text holds no 0 and is shorter than 2 ^ 31.
pub parse_data-convert_to_rawbody :
    (p : RequestParser) (r : Request) (pad v b : Bytes) (d c : ℕ)
    → IsPrintable r
    → All IsNonzero (convert_to_rawbody r)
    → length (convert_to_rawbody r) < 2 ^ 31
    → p.n_char_parsed ≡ 0
    → r.body ≡ c ∷ b
    → lookup content_length_key r.headers ≡ some (d ∷ v)
    → stoi (d ∷ v) ≡ ok (pos (length r.body))
    → (q : RequestParser) × (parse_data
          (reset p)
          new_request
          (convert_to_rawbody r ++ 0 ∷ pad)
          (length (convert_to_rawbody r))
        ≡ ok (good, q, r))
unfolding reset
parse_data-convert_to_rawbody p r pad v b d c w nonzero small fresh body header number =
    let text = convert_to_rawbody r in
    let (q, e) = parse-convert_to_rawbody p r w in
    let (a, s) = rawbody_splits r in
    let bare = record r { body = [] } in
    let size : length r.body ≡ suc (length b) = rw body refl in
    let header_found : get_content_length bare ≡ ok (pos (suc (length b)), bare) =
      get_content_length_found bare header ∙ rw (number, size) in
    let found : get_content_length (parse (reset p) new_request text).2
        ≡ ok (pos (suc (length b)), bare) =
      rw e header_found in
    let tail : tail_of text (pos (suc (length b))) ≡ ok r.body =
      rw (s, ← size) (tail_of-append a r.body) in
    (
      q,
      parse_data_first (reset p) new_request bare text pad (length b) nonzero (omega arith) found
            fresh
          ∙ rw (e, tail, ap is_empty body),
    )
