-- ===== src/Handlers/Echo/RoundTrip.antt =====
-- The parser reads back what the echo handler writes.
use foxy_4_web_server.Base.{
  ℕ, false, [], ◌∷◌, ◌++◌, ◌≡◌, ◌≢◌, refl, sym, ◌∙◌, append_assoc, append-nil, All,
}
use foxy_4_web_server.Base.Bytes.{Bytes, codes, same}
use foxy_4_web_server.Base.Dict.{Dict}
use foxy_4_web_server.Base.Dict.Sorted.{IsSorted}
use foxy_4_web_server.Base.Dict.Ascending.{AllLess-of_sorted}
use foxy_4_web_server.Handlers.Echo.{method_name, write_headers, convert_to_rawbody}
use foxy_4_web_server.Http.{Method, Request, new_request}
use foxy_4_web_server.RequestParser.{
  RequestParser, http_version_h, header_line_start, uri, method_start, parse, good, method_of,
  reset,
}
use foxy_4_web_server.RequestParser.Chars.{refused}
use foxy_4_web_server.RequestParser.Headers.{Runs-header, with_name, with_headers, parse_end}
use foxy_4_web_server.RequestParser.Pieces.{
  IsToken, IsText, IsUriByte, IsDigit, in_state, Runs-method_word, Runs-uri, Runs-version,
}
use foxy_4_web_server.RequestParser.Runs.{Runs, at, Runs-stop, Runs-append, Runs-eq}

-- A header that the handler writes and the parser reads back.
abbrev IsHeader : Bytes × Bytes → Type 0
IsHeader ([], v) = ⊥
IsHeader (c ∷ cs, v) = All IsToken (c ∷ cs) × All IsText v × (same v [] ≡ false)

-- The text of the headers.
header_lines : Dict Bytes → Bytes
header_lines [] = []
header_lines ((k, v) ∷ m) = k ++ codes ": " ++ v ++ codes "\r\n" ++ header_lines m

write_headers-lines :
    (req : Bytes) (m : Dict Bytes) → All IsHeader m → write_headers req m ≡ req ++ header_lines m
unfolding write_headers header_lines
write_headers-lines req [] h = sym (append-nil req)
write_headers-lines req ((c ∷ cs, v) ∷ m) ((_, _, full), h) =
    rw full (write_headers-lines _ m h ∙ simp append_assoc)
write_headers-lines req (([], v) ∷ m) (h, _) = absurd h

Runs-header_lines :
    (m done : Dict Bytes) (p : RequestParser) (r : Request)
    → IsSorted (done ++ m)
    → All IsHeader m
    → Runs
        (with_name header_line_start p [])
        (with_headers r done)
        (header_lines m)
        (with_name header_line_start p [])
        (with_headers r (done ++ m))
unfolding header_lines
Runs-header_lines [] done p r s h = rw append-nil (Runs-stop _ _)
Runs-header_lines ((c ∷ cs, v) ∷ m) done p r s ((t, x, _), h) =
    let above = AllLess-of_sorted (c ∷ cs) v done m s in
    let later = Runs-header_lines m (done ++ (c ∷ cs, v) ∷ []) p r (rw append_assoc s) h in
    let line = Runs-append (Runs-header c cs v done p r above t x) later in
    Runs-eq (simp append_assoc) (rw (append_assoc done ((c ∷ cs, v) ∷ []) m) at line)
Runs-header_lines (([], v) ∷ m) done p r s (h, _) = absurd h

-- Digits, a dot, digits.
pub record IsVersion (version : Bytes) : Type 0 where
  pub major_head : ℕ
  pub major_tail : Bytes
  pub minor_head : ℕ
  pub minor_tail : Bytes
  pub splits : version ≡ (major_head ∷ major_tail ++ b'.' ∷ []) ++ minor_head ∷ minor_tail
  pub major_digits : All IsDigit (major_head ∷ major_tail)
  pub minor_digits : All IsDigit (minor_head ∷ minor_tail)

-- What the handler writes back of such a request is again a request.
pub record IsPrintable (r : Request) : Type 0 where
  pub known : r.method ≢ Method.unknown
  pub uri_bytes : All IsUriByte r.uri
  pub version : IsVersion r.http_version
  pub sorted : IsSorted r.headers
  pub header_bytes : All IsHeader r.headers

Runs-method_name :
    (m : Method) (p : RequestParser) (r : Request)
    → m ≢ Method.unknown
    → (q : Bytes) × Runs
        (record p { state = method_start; method_helper = [] })
        r
        (method_name m ++ b' ' ∷ [])
        (record p { state = uri; method_helper = q })
        (record r { method = m })
unfolding method_name method_of same refused
Runs-method_name Method.get p r h =
    (codes "GET", Runs-method_word b'G' (codes "ET") p r (refl, (refl, (refl, tt))))
Runs-method_name Method.post p r h =
    (codes "POST", Runs-method_word b'P' (codes "OST") p r (refl, (refl, (refl, (refl, tt)))))
Runs-method_name Method.put p r h =
    (codes "PUT", Runs-method_word b'P' (codes "UT") p r (refl, (refl, (refl, tt))))
Runs-method_name Method.unknown p r h = absurd (h refl)

Runs-IsVersion :
    {v : Bytes} (p : RequestParser) (r : Request)
    → IsVersion v
    → Runs
        (in_state http_version_h p)
        r
        (codes "HTTP/" ++ v ++ codes "\r\n")
        (record p { state = header_line_start; major = 0; minor = 0 })
        (record r { http_version = v })
Runs-IsVersion p r w = rw w.splits (
    Runs-eq (simp append_assoc) (
      Runs-version w.major_head w.minor_head w.major_tail w.minor_tail p r w.major_digits
        w.minor_digits))

abbrev at_start : RequestParser → RequestParser
at_start p = record p { state = method_start; method_helper = []; header_helper = [] }

abbrev at_headers : Bytes → RequestParser → RequestParser
at_headers name p = record p {
  state = header_line_start;
  method_helper = name;
  header_helper = [];
  major = 0;
  minor = 0;
}

-- The request line and the headers.
Runs-rawbody :
    (p : RequestParser) (r : Request)
    → IsPrintable r
    → (name : Bytes) × Runs
        (at_start p)
        new_request
        (write_headers
          (method_name r.method
            ++ codes " "
            ++ r.uri
            ++ codes " HTTP"
            ++ codes "/"
            ++ r.http_version
            ++ codes "\r\n")
          r.headers)
        (at_headers name p)
        (record r { body = [] })
Runs-rawbody p r w =
    let clear = record p { header_helper = [] } in
    let (name, word) = Runs-method_name r.method clear new_request w.known in
    let after = record clear { method_helper = name } in
    let named = record new_request { method = r.method } in
    let addressed = record named { uri = r.uri } in
    let line = Runs-append word (
      Runs-append (Runs-uri r.uri after named w.uri_bytes)
        (Runs-IsVersion after addressed w.version)) in
    let fields =
      Runs-header_lines r.headers [] (at_headers name p) (record r { body = [] }) w.sorted
        w.header_bytes in
    (
      name,
      rw (write_headers-lines _ r.headers w.header_bytes)
          (Runs-eq (simp append_assoc) (Runs-append line fields)),
    )

-- A printable request that the echo handler writes is read back by the parser, whatever the parser
-- did before its `reset`: the result is `good`, the request is the same but for the body, and the
-- body is what the parser has not read.
pub parse-convert_to_rawbody :
    (p : RequestParser) (r : Request)
    → IsPrintable r
    → (q : RequestParser) × (parse (reset p) new_request (convert_to_rawbody r)
        ≡ (good, q, record r { body = [] }, r.body))
unfolding convert_to_rawbody reset
parse-convert_to_rawbody p r w =
    let (name, runs) = Runs-rawbody (reset p) r w in
    let (m, e) = runs.run p.n_char_parsed (codes "\r\n" ++ r.body) in
    let (q, f) = parse_end (at m (at_headers name p)) (record r { body = [] }) r.body in
    (q, rw append_assoc (e ∙ f))
