-- ===== src/Session/KeepAlive.antt =====
-- Requests one after the other on a connection.
use foxy_4_web_server.Base.{
  ℕ, zero, suc, ◌<◌, ◌-◌, false, none, some, List, [], ◌∷◌, ◌++◌, ◌≡◌, refl, sym, ap, ◌∙◌, arith,
  length, drop, All, ok, ltb,
}
use foxy_4_web_server.Base.Bytes.{Bytes, same}
use foxy_4_web_server.Base.Dict.{lookup, insert, get_or}
use foxy_4_web_server.Base.Int.{pos}
use foxy_4_web_server.Handlers.Echo.{convert_to_rawbody}
use foxy_4_web_server.Handlers.Echo.RoundTrip.{IsPrintable, parse-convert_to_rawbody}
use foxy_4_web_server.Http.{Request, new_request}
use foxy_4_web_server.RequestParser.Body.{IsNonzero, parse_data_of_text}
use foxy_4_web_server.RequestParser.{
  ResultType, good, RequestParser, reset, parse_data, take_body, tail_of,
}
use foxy_4_web_server.Session.{
  max_length, zeros, fill, Read, Next, read_data, Arrival, read_loop, Session, Kind, on_result,
  after_loop, handle_read,
}
use foxy_4_web_server.Session.Steps.{IsKind, IsReady, IsSettled, with_data, Steps, Steps-IsSettled}
use foxy_4_web_server.Utility.{get_content_length, content_length_key}

-- A request without a body that fits into the array, with room for the end of the string.
pub record IsPlain (r : Request) : Type 0 where
  pub printable : IsPrintable r
  pub nonzero : All IsNonzero (convert_to_rawbody r)
  pub fits : length (convert_to_rawbody r) < max_length
  pub no_body : r.body ≡ []
  pub no_length : lookup content_length_key r.headers ≡ none

-- The request as the handlers see it: looking for the length has entered an empty header.
abbrev pub seen : Request → Request
seen r = record r { headers = insert content_length_key [] r.headers }

drop-zeros : (k n : ℕ) → k < n → (pad : Bytes) × (drop k (zeros n) ≡ 0 ∷ pad)
unfolding zeros
drop-zeros k zero h = absurd (omega arith)
drop-zeros zero (suc n) h = (zeros n, refl)
drop-zeros (suc k) (suc n) h = drop-zeros k n (omega arith)

no_length-found :
    (r : Request)
    → lookup content_length_key r.headers ≡ none
    → get_content_length r ≡ ok (pos 0, seen r)
unfolding get_content_length get_or insert same
no_length-found r e = rw (e, get_or, insert)

drop-length : (s : Bytes) → drop (length s) s ≡ []
drop-length [] = refl
drop-length (c ∷ s) = drop-length s

take_body_of_none :
    (result : ResultType) (q : RequestParser) (r : Request) (text : Bytes)
    → take_body result q r (pos 0) text ≡ ok (result, q, record r { body = [] })
unfolding take_body tail_of
take_body_of_none result q r text =
    let e : length text - 0 ≡ length text = omega arith in
    let f : ltb (length text) 0 ≡ false = ground arith in rw (f, e, drop-length text) refl

parse_data-IsPlain :
    (p : RequestParser) (r : Request) (pad : Bytes)
    → IsPlain r
    → (q : RequestParser) × (parse_data
          (reset p)
          new_request
          (convert_to_rawbody r ++ 0 ∷ pad)
          (length (convert_to_rawbody r))
        ≡ ok (good, q, seen r))
parse_data-IsPlain p r pad w =
    let text = convert_to_rawbody r in
    let (q, e) = parse-convert_to_rawbody p r w.printable in
    let bare = record r { body = [] } in
    let body : record (seen r) { body = [] } ≡ seen r =
      ap (λ b. record (seen r) { body = b }) (sym w.no_body) in
    (
      q,
      parse_data_of_text (reset p) new_request text pad w.nonzero
          ∙ rw (
            e,
            no_length-found bare w.no_length,
            take_body_of_none good q (seen bare) text,
            body,
          ),
    )

read_loop_good :
    (n : ℕ) (reads : List Read) (a : Arrival) → a.result ≡ good → read_loop n reads a ≡ some (ok a)
unfolding read_loop
read_loop_good n [] a e = rw e
read_loop_good n (read ∷ reads) a e = rw e

module _ {World : Type 0} (k : Kind World) where
  handle_read_good :
      (n : ℕ) (reads : List Read) (s : Session World) (q : RequestParser) (r : Request)
      → parse_data s.request_parser new_request s.data_bytes n ≡ ok (good, q, r)
      → handle_read k false n reads s
        ≡ some (on_result k good (record s { request = r; request_parser = reset q }))
  unfolding handle_read after_loop
  handle_read_good n reads s q r e =
      let first : Arrival = record {
        result = good;
        request_parser = q;
        request = r;
        data_bytes = s.data_bytes;
        failed = false;
      } in
      rw (handle_read, e, read_loop_good n reads first refl) refl

  handle_read_plain :
      (s : Session World) (r : Request) (reads : List Read)
      → IsReady s
      → IsPlain r
      → (q : RequestParser) × (handle_read k false
            (length (convert_to_rawbody r))
            reads
            (with_data s (convert_to_rawbody r))
          ≡ some (
              on_result k good (record (with_data s (convert_to_rawbody r)) {
                request = seen r;
                request_parser = reset q;
              })))
  unfolding fill
  handle_read_plain s r reads ready w =
      let text = convert_to_rawbody r in
      let (pad, zero_tail) = drop-zeros (length text) max_length w.fits in
      let (q, e) = parse_data-IsPlain ready.earlier r pad w in
      (
        q,
        handle_read_good (length text) reads (with_data s text) q (seen r)
            (rw (ready.parser, ready.empty, zero_tail) e),
      )

  -- After any steps of a connection, whatever came in and however many requests were answered, a
  -- session that waits for a request answers the next one: the text of a printable request without
  -- a body and without a `Content-Length`, that has no 0, is shorter than the array and arrives in
  -- one read, is parsed as `good`, and goes (with an empty `Content-Length` entered) to what this
  -- kind of session does with a request, which ends in the write of a response. The steps begin where a session is settled: where it writes a
  -- response or waits for a request with its parser reset and its array empty, or waits for a body
  -- with its parser reset.
  pub handle_read-Steps :
      (c : IsKind k) (from : Session World × Next) (s : Session World) (r : Request)
      (reads : List Read)
      → IsSettled from
      → Steps k from (s, read_data)
      → IsPlain r
      → (q : RequestParser) × (handle_read k false
            (length (convert_to_rawbody r))
            reads
            (with_data s (convert_to_rawbody r))
          ≡ some (
              on_result k good (record (with_data s (convert_to_rawbody r)) {
                request = seen r;
                request_parser = reset q;
              })))
  handle_read-Steps c from s r reads w steps plain =
      handle_read_plain s r reads (Steps-IsSettled k c steps w) plain
