-- ===== src/RequestParser/Headers.antt =====
-- The parser on header lines.
use foxy_4_web_server.Base.{ℕ, [], ◌∷◌, ◌++◌, ◌≡◌, refl, arith, append_assoc, append-nil, All}
use foxy_4_web_server.Base.Bytes.{Bytes, codes}
use foxy_4_web_server.Base.Dict.{Dict}
use foxy_4_web_server.Base.Dict.Ascending.{AllLess, insert_of_AllLess, put_last, get_or_last}
use foxy_4_web_server.Http.{Request}
use foxy_4_web_server.RequestParser.Chars.{token_lem, text_lem}
use foxy_4_web_server.RequestParser.Pieces.{IsToken, IsText, in_state}
use foxy_4_web_server.RequestParser.Runs.{Runs, Runs-one, Runs-stop, Runs-append, Runs-eq}
use foxy_4_web_server.RequestParser.{
  State, header_line_start, header_name, consume_in, space_before_header_value, header_value,
  expecting_newline_2, RequestParser, good, parse,
}

abbrev pub with_name : State → RequestParser → Bytes → RequestParser
with_name st p s = record p { state = st; header_helper = s }

abbrev pub with_headers : Request → Dict Bytes → Request
with_headers r m = record r { headers = m }

Runs-name_bytes :
    (s acc : Bytes) (p : RequestParser) (r : Request)
    → All IsToken s
    → Runs (with_name header_name p acc) r s (with_name header_name p (acc ++ s)) r
unfolding consume_in
Runs-name_bytes [] acc p r _ = rw append-nil (Runs-stop _ _)
Runs-name_bytes (c ∷ s) acc p r (h, t) = rw (← append_assoc acc (c ∷ []) s) (
    Runs-append {a = c ∷ []} (Runs-one c (λ n. ground (arith, token_lem c h)))
      (Runs-name_bytes s (acc ++ c ∷ []) p r t))

-- A name from a line's start, with the colon.
Runs-name :
    (c : ℕ) (s : Bytes) (p : RequestParser) (r : Request)
    → All IsToken (c ∷ s)
    → Runs
        (with_name header_line_start p [])
        r
        (c ∷ s ++ b':' ∷ [])
        (with_name space_before_header_value p (c ∷ s))
        r
unfolding consume_in
Runs-name c s p r (h, t) =
    Runs-append {q = with_name header_name p (c ∷ [])} {a = c ∷ []}
      (Runs-one c (λ n. ground (arith, token_lem c h)))
      (Runs-append (Runs-name_bytes s (c ∷ []) p r t) (Runs-one b':' (λ n. refl)))

module _ (k : Bytes) (done : Dict Bytes) (above : AllLess k done) where
  Runs-value_bytes :
      (s acc : Bytes) (p : RequestParser) (r : Request)
      → All IsText s
      → Runs
          (with_name header_value p k)
          (with_headers r (done ++ (k, acc) ∷ []))
          s
          (with_name header_value p k)
          (with_headers r (done ++ (k, acc ++ s) ∷ []))
  unfolding consume_in
  Runs-value_bytes [] acc p r _ = rw append-nil (Runs-stop _ _)
  Runs-value_bytes (c ∷ s) acc p r (h, t) = rw (← append_assoc acc (c ∷ []) s) (
      Runs-append {r' = with_headers r (done ++ (k, acc ++ c ∷ []) ∷ [])} {a = c ∷ []}
        (Runs-one c (λ n. ground (
          arith,
          text_lem c h,
          get_or_last k [] acc done above,
          put_last k (acc ++ c ∷ []) acc done above,
        )))
        (Runs-value_bytes s (acc ++ c ∷ []) p r t))

  -- The blank behind the colon, the value and the end of the line.
  Runs-value :
      (s : Bytes) (p : RequestParser) (r : Request)
      → All IsText s
      → Runs
          (with_name space_before_header_value p k)
          (with_headers r done)
          (b' ' ∷ s ++ codes "\r\n")
          (with_name header_line_start p [])
          (with_headers r (done ++ (k, s) ∷ []))
  unfolding consume_in
  Runs-value s p r t =
      Runs-append {q = with_name header_value p k} {r' = with_headers r (done ++ (k, []) ∷ [])}
        {a = b' ' ∷ []} (Runs-one b' ' (λ n. rw (insert_of_AllLess k [] done above)))
        (Runs-append (Runs-value_bytes s [] p r t) (
          Runs-append {q = with_name expecting_newline_2 p []} {a = b'\r' ∷ []}
            (Runs-one b'\r' (λ n. refl)) (Runs-one b'\n' (λ n. refl))))

-- A whole header line.
pub Runs-header :
    (c : ℕ) (cs v : Bytes) (done : Dict Bytes) (p : RequestParser) (r : Request)
    → AllLess (c ∷ cs) done
    → All IsToken (c ∷ cs)
    → All IsText v
    → Runs
        (with_name header_line_start p [])
        (with_headers r done)
        (c ∷ cs ++ codes ": " ++ v ++ codes "\r\n")
        (with_name header_line_start p [])
        (with_headers r (done ++ (c ∷ cs, v) ∷ []))
Runs-header c cs v done p r above t h = Runs-eq (simp append_assoc) (
    Runs-append (Runs-name c cs p (with_headers r done) t) (Runs-value (c ∷ cs) done above v p r h))

-- The empty line ends the request, and what follows it is not read.
pub parse_end :
    (p : RequestParser) (r : Request) (rest : Bytes)
    → (q : RequestParser) × (parse (in_state header_line_start p) r (codes "\r\n" ++ rest)
        ≡ (good, q, r, rest))
unfolding parse consume_in
parse_end p r rest = (_, refl)
