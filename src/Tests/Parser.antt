-- ===== src/Tests/Parser.antt =====
-- The request parser and the echo handler at concrete inputs.
use foxy_4_web_server.Base.{
  ℕ, Bool, true, false, not, [], ◌∷◌, ◌++◌, ◌≡◌, refl, arith, length, all, All, ◌==◌, ok,
}
use foxy_4_web_server.Base.Bytes.{Bytes, codes, same}
use foxy_4_web_server.Base.Bytes.Order.{less}
use foxy_4_web_server.Base.Dict.{lookup, insert, put, get_or}
use foxy_4_web_server.Base.Int.{pos}
use foxy_4_web_server.Base.Text.{stoi}
use foxy_4_web_server.Handlers.Echo.{convert_to_rawbody}
use foxy_4_web_server.Handlers.Echo.RoundTrip.{IsPrintable, parse-convert_to_rawbody}
use foxy_4_web_server.Handlers.Echo.Body.{parse_data-convert_to_rawbody}
use foxy_4_web_server.Http.{Method, Request, new_request}
use foxy_4_web_server.RequestParser.{
  good, RequestParser, new_parser, reset, parse, parse_data, consume_in,
}
use foxy_4_web_server.RequestParser.Body.{IsNonzero, parse_data-reset}
use foxy_4_web_server.RequestParser.Chars.{refused, control, digit, blank}
use foxy_4_web_server.RequestParser.{header_line_start}
use foxy_4_web_server.RequestParser.Folded.{Appends, folded}
use foxy_4_web_server.RequestParser.Headers.{with_name}
use foxy_4_web_server.RequestParser.Runs.{Runs}
use foxy_4_web_server.RequestParser.Clean.{IsClean, parse-IsClean}
use foxy_4_web_server.Utility.{get_content_length}

pub all-false :
    (p : ℕ → Bool) (s : Bytes) → all (λ c. not (p c)) s ≡ true → All (λ c. p c ≡ false) s
all-false p [] h = tt
all-false p (c ∷ s) h = (ground arith, all-false p s (ground arith))

abbrev post : Request
post = record {
  method = Method.post;
  uri = codes "/a";
  http_version = codes "1.1";
  headers = (codes "Content-Length", codes "2") ∷ (codes "Host", codes "h") ∷ [];
  body = codes "hi";
}

post-IsPrintable : IsPrintable post
unfolding refused control digit same less
post-IsPrintable = record {
  known = λ e. cc;
  uri_bytes = ((refl, refl), ((refl, refl), tt));
  version = record {
    major_head = b'1';
    major_tail = [];
    minor_head = b'1';
    minor_tail = [];
    splits = refl;
    major_digits = (refl, tt);
    minor_digits = (refl, tt);
  };
  sorted = (refl, (tt, tt));
  header_bytes = (
    (all-false refused (codes "Content-Length") refl, (refl, tt), refl),
    ((all-false refused (codes "Host") refl, (refl, tt), refl), tt),
  );
}

post-IsNonzero : All IsNonzero (convert_to_rawbody post)
unfolding convert_to_rawbody same
post-IsNonzero = all-false (λ c. c == 0) (convert_to_rawbody post) refl

parse-convert_to_rawbody_example :
    (q : RequestParser) × (parse (reset new_parser) new_request (convert_to_rawbody post)
      ≡ (good, q, record post { body = [] }, codes "hi"))
parse-convert_to_rawbody_example = parse-convert_to_rawbody new_parser post post-IsPrintable

parse_data-convert_to_rawbody_example :
    (q : RequestParser) × (parse_data
        (reset new_parser)
        new_request
        (convert_to_rawbody post ++ 0 ∷ [])
        (length (convert_to_rawbody post))
      ≡ ok (good, q, post))
unfolding convert_to_rawbody same new_parser lookup stoi
parse_data-convert_to_rawbody_example =
    parse_data-convert_to_rawbody new_parser post [] [] (codes "i") b'2' b'h' post-IsPrintable
      post-IsNonzero (omega arith) refl refl refl refl

new_IsClean : IsClean new_parser new_request
unfolding new_parser
new_IsClean = record { helper = tt; uri_bytes = tt; header_bytes = tt; sorted = tt }

parse-IsClean_example :
    IsClean
      (parse new_parser new_request (codes "GET /a HTTP/1.1\r\nA: b\r\n")).1
      (parse new_parser new_request (codes "GET /a HTTP/1.1\r\nA: b\r\n")).2
parse-IsClean_example =
    parse-IsClean (codes "GET /a HTTP/1.1\r\nA: b\r\n") new_parser new_request new_IsClean

-- A request whose body is still to come.
abbrev head : Bytes
head = codes "POST /a HTTP/1.1\r\nContent-Length: 2\r\n\r\n"

abbrev head_request : Request
head_request = record {
  method = Method.post;
  uri = codes "/a";
  http_version = codes "1.1";
  headers = (codes "Content-Length", codes "2") ∷ [];
  body = [];
}

-- A parser after an earlier request.
abbrev used : RequestParser
used = reset (parse new_parser new_request (codes "GET / HTTP/1.1\r\n\r\n")).1

head_found : get_content_length (parse new_parser new_request head).2 ≡ ok (pos 2, head_request)
unfolding get_content_length get_or insert lookup put same stoi parse new_parser consume_in refused
    control digit blank less
head_found = refl

used_found : get_content_length (parse used new_request head).2 ≡ ok (pos 2, head_request)
unfolding get_content_length get_or insert lookup put same stoi parse new_parser consume_in refused
    control digit blank less reset
used_found = refl

used_reads : (parse used new_request head).3 ≡ []
unfolding parse new_parser consume_in refused control digit blank reset
used_reads = refl

-- The end of the headers is taken for the body.
abbrev head_front : Bytes
head_front = codes "POST /a HTTP/1.1\r\nContent-Length: 2\r\n"

parse_data-reset_example :
    parse_data used new_request
      ((head_front ++ codes "\r\n") ++ 0 ∷ [])
      (length (head_front ++ codes "\r\n"))
    ≡ ok (
      (parse used new_request head).0,
      (parse used new_request head).1,
      record head_request { body = codes "\r\n" },
    )
unfolding new_parser
parse_data-reset_example =
    parse_data-reset new_parser new_request new_request head_request b'G'
      (codes "ET / HTTP/1.1\r\n\r\n") head_front (codes "\r\n") [] 1
      (all-false (λ c. c == 0) head refl) (omega arith) refl used_found used_reads

-- A request with one header, at the start of the next line.
abbrev one_header : Request
one_header = record new_request { headers = (codes "Host", codes "h") ∷ [] }

folded_example :
    (r' : Request) × Runs
      (with_name header_line_start new_parser [])
      one_header
      (b' ' ∷ b'x' ∷ (codes "yz" ++ codes "\r\n"))
      (with_name header_line_start new_parser [])
      r'
    × Appends (codes "x") (codes "yz") one_header.headers r'.headers
unfolding blank control
folded_example =
    folded b' ' b'x' (codes "yz") new_parser one_header refl refl refl refl (refl, (refl, tt))
