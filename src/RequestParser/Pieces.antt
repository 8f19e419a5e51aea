-- ===== src/RequestParser/Pieces.antt =====
-- The parser on each piece of a request line and of a header line.
use foxy_4_web_server.Base.{
  ℕ, true, false, [], ◌∷◌, ◌++◌, ◌≡◌, refl, arith, append_assoc, append-nil, ◌⊎◌, inl, inr, All,
  ◌==◌,
}
use foxy_4_web_server.Base.Bytes.{Bytes, codes}
use foxy_4_web_server.Http.{Request}
use foxy_4_web_server.RequestParser.Chars.{refused, control, digit, token_lem, digit_lem}
use foxy_4_web_server.RequestParser.Runs.{Runs, Runs-one, Runs-stop, Runs-append}
use foxy_4_web_server.RequestParser.{
  State, method_start, method, uri, http_version_h, http_version_t_1, http_version_t_2,
  http_version_p, http_version_slash, http_version_major_start, http_version_major,
  http_version_minor_start, http_version_minor, expecting_newline_1, header_line_start,
  RequestParser, consume_in, method_of,
}

-- The bytes of a method and of a header's name.
abbrev pub IsToken : ℕ → Type 0
IsToken c = refused c ≡ false

abbrev pub IsUriByte : ℕ → Type 0
IsUriByte c = (control c ≡ false) × ((c == b' ') ≡ false)

abbrev pub IsDigit : ℕ → Type 0
IsDigit c = digit c ≡ true

-- The bytes of a header's value.
abbrev pub IsText : ℕ → Type 0
IsText c = control c ≡ false

abbrev pub in_state : State → RequestParser → RequestParser
in_state s p = record p { state = s }

abbrev with_method : RequestParser → Bytes → RequestParser
with_method p s = record p { state = method; method_helper = s }

Runs-method :
    (s acc : Bytes) (p : RequestParser) (r : Request)
    → All IsToken s
    → Runs (with_method p acc) r s (with_method p (acc ++ s)) r
unfolding consume_in
Runs-method [] acc p r _ = rw append-nil (Runs-stop _ _)
Runs-method (c ∷ s) acc p r (h, t) = rw (← append_assoc acc (c ∷ []) s) (
    Runs-append {a = c ∷ []} (Runs-one c (λ n. ground (arith, token_lem c h)))
      (Runs-method s (acc ++ c ∷ []) p r t))

-- The method and the blank after it.
pub Runs-method_word :
    (c : ℕ) (s : Bytes) (p : RequestParser) (r : Request)
    → All IsToken (c ∷ s)
    → Runs
        (record p { state = method_start; method_helper = [] })
        r
        (c ∷ s ++ b' ' ∷ [])
        (record p { state = uri; method_helper = c ∷ s })
        (record r { method = method_of (c ∷ s) })
unfolding consume_in
Runs-method_word c s p r (h, t) =
    Runs-append {q = with_method p (c ∷ [])} {a = c ∷ []} (Runs-one c (λ n. ground arith))
      (Runs-append (Runs-method s (c ∷ []) p r t) (Runs-one b' ' (λ n. refl)))

Runs-uri_bytes :
    (s acc : Bytes) (p : RequestParser) (r : Request)
    → All IsUriByte s
    → Runs
        (in_state uri p)
        (record r { uri = acc })
        s
        (in_state uri p)
        (record r { uri = acc ++ s })
unfolding consume_in
Runs-uri_bytes [] acc p r _ = rw append-nil (Runs-stop _ _)
Runs-uri_bytes (c ∷ s) acc p r (h, t) = rw (← append_assoc acc (c ∷ []) s) (
    Runs-append {a = c ∷ []} (Runs-one c (λ n. ground arith))
      (Runs-uri_bytes s (acc ++ c ∷ []) p r t))

-- The URI, from an empty one, and the blank after it.
pub Runs-uri :
    (s : Bytes) (p : RequestParser) (r : Request)
    → All IsUriByte s
    → Runs
        (in_state uri p)
        (record r { uri = [] })
        (s ++ b' ' ∷ [])
        (in_state http_version_h p)
        (record r { uri = s })
unfolding consume_in
Runs-uri s p r t = Runs-append (Runs-uri_bytes s [] p r t) (Runs-one b' ' (λ n. refl))

Runs-digits :
    (st : State) (s acc : Bytes) (p : RequestParser) (r : Request)
    → (st ≡ http_version_major) ⊎ (st ≡ http_version_minor)
    → All IsDigit s
    → Runs
        (in_state st p)
        (record r { http_version = acc })
        s
        (in_state st p)
        (record r { http_version = acc ++ s })
unfolding consume_in
Runs-digits st [] acc p r w _ = rw append-nil (Runs-stop _ _)
Runs-digits st (c ∷ s) acc p r w (h, t) = rw (← append_assoc acc (c ∷ []) s) (
    Runs-append {a = c ∷ []} (Runs-one c (λ n. ground (arith, digit_lem c h)))
      (Runs-digits st s (acc ++ c ∷ []) p r w t))

Runs-slash :
    (p : RequestParser) (r : Request)
    → Runs
        (in_state http_version_h p)
        r
        (codes "HTTP/")
        (record p { state = http_version_major_start; major = 0; minor = 0 })
        (record r { http_version = [] })
unfolding consume_in
Runs-slash p r =
    Runs-append {q = in_state http_version_t_1 p} {a = b'H' ∷ []} (Runs-one b'H' (λ n. refl)) (
      Runs-append {q = in_state http_version_t_2 p} {a = b'T' ∷ []} (Runs-one b'T' (λ n. refl)) (
        Runs-append {q = in_state http_version_p p} {a = b'T' ∷ []} (Runs-one b'T' (λ n. refl)) (
          Runs-append {q = in_state http_version_slash p} {a = b'P' ∷ []}
            (Runs-one b'P' (λ n. refl)) (Runs-one b'/' (λ n. refl)))))

Runs-major :
    (a : ℕ) (ds : Bytes) (p : RequestParser) (r : Request)
    → All IsDigit (a ∷ ds)
    → Runs
        (in_state http_version_major_start p)
        (record r { http_version = [] })
        (a ∷ ds ++ b'.' ∷ [])
        (in_state http_version_minor_start p)
        (record r { http_version = a ∷ ds ++ b'.' ∷ [] })
unfolding consume_in
Runs-major a ds p r (h, t) =
    Runs-append {q = in_state http_version_major p} {r' = record r { http_version = a ∷ [] }}
      {a = a ∷ []} (Runs-one a (λ n. ground arith))
      (Runs-append (Runs-digits http_version_major ds (a ∷ []) p r (inl refl) t)
        (Runs-one b'.' (λ n. refl)))

Runs-minor :
    (b : ℕ) (es acc : Bytes) (p : RequestParser) (r : Request)
    → All IsDigit (b ∷ es)
    → Runs
        (in_state http_version_minor_start p)
        (record r { http_version = acc })
        (b ∷ es ++ codes "\r\n")
        (in_state header_line_start p)
        (record r { http_version = acc ++ b ∷ es })
unfolding consume_in
Runs-minor b es acc p r (h, t) = rw (← append_assoc acc (b ∷ []) es) (
    Runs-append {q = in_state http_version_minor p} {r' = record r { http_version = acc ++ b ∷ [] }}
      {a = b ∷ []} (Runs-one b (λ n. ground arith))
      (Runs-append (Runs-digits http_version_minor es (acc ++ b ∷ []) p r (inr refl) t) (
        Runs-append {q = in_state expecting_newline_1 p} {a = b'\r' ∷ []}
          (Runs-one b'\r' (λ n. refl)) (Runs-one b'\n' (λ n. refl)))))

-- `HTTP/`, the digits of both numbers with a dot between, and the end of the line.
pub Runs-version :
    (a b : ℕ) (ds es : Bytes) (p : RequestParser) (r : Request)
    → All IsDigit (a ∷ ds)
    → All IsDigit (b ∷ es)
    → Runs
        (in_state http_version_h p)
        r
        (codes "HTTP/" ++ (a ∷ ds ++ b'.' ∷ []) ++ (b ∷ es ++ codes "\r\n"))
        (record p { state = header_line_start; major = 0; minor = 0 })
        (record r { http_version = (a ∷ ds ++ b'.' ∷ []) ++ b ∷ es })
Runs-version a b ds es p r h k =
    let zeroed = record p { major = 0; minor = 0 } in
    Runs-append (Runs-append (Runs-slash p r) (Runs-major a ds zeroed r h))
      (Runs-minor b es (a ∷ ds ++ b'.' ∷ []) zeroed r k)
