-- ===== src/RequestParser/Body.antt =====
-- `parse_data`: the body, and when it is found to be missing.
use foxy_4_web_server.Base.{
  ℕ, suc, ◌+◌, ◌-◌, ◌<◌, ltb, length-append, drop-length_append, false, ◌^◌, Bool, true, false,
  some, [], ◌∷◌, ◌++◌, ◌≡◌, refl, ◌∙◌, arith, length, take, take-length_append, if◌then◌else◌, All,
  ◌==◌, ok, throws, invalid_argument, ◌>>=◌,
}
use foxy_4_web_server.Base.Bytes.{Bytes, c_str}
use foxy_4_web_server.Base.Dict.{lookup}
use foxy_4_web_server.Base.Int.{pos}
use foxy_4_web_server.Base.Text.{is_space, is_decimal}
use foxy_4_web_server.Base.Text.Errors.{stoi_throws}
use foxy_4_web_server.Http.{Request}
use foxy_4_web_server.RequestParser.Chunks.{parse-n_char_parsed, parse_reads}
use foxy_4_web_server.RequestParser.{
  ResultType, missing_data, RequestParser, parse, parse_data, take_body, tail_of, as_size, reset,
}
use foxy_4_web_server.Utility.ContentLength.{get_content_length_throws}
use foxy_4_web_server.Utility.{get_content_length, content_length_key}

-- No byte of a text is 0.
abbrev pub IsNonzero : ℕ → Type 0
IsNonzero c = (c == 0) ≡ false

c_str_of_text : (s pad : Bytes) → All IsNonzero s → c_str (s ++ 0 ∷ pad) ≡ some s
unfolding c_str
c_str_of_text [] pad _ = refl
c_str_of_text (c ∷ s) pad (h, t) = rw (h, c_str_of_text s pad t)

-- The call on an array that holds a text, its end and anything behind it.
pub parse_data_of_text :
    (p : RequestParser) (r : Request) (text pad : Bytes)
    → All IsNonzero text
    → parse_data p r (text ++ 0 ∷ pad) (length text) ≡ (do
      (n, r') ← get_content_length (parse p r text).2
      take_body (parse p r text).0 (parse p r text).1 r' n text)
unfolding parse_data
parse_data_of_text p r text pad h = simp (take-length_append text, c_str_of_text text pad h)

-- The number that `strlen` is compared with is the count, below 2 ^ 31.
as_size_small : (n : ℕ) → n < 2 ^ 31 → as_size n ≡ n
unfolding as_size
as_size_small n h = ground arith

-- Nothing is left to read.
abbrev pub is_empty : Bytes → Bool
is_empty [] = true
is_empty (c ∷ s) = false

-- The comparison, for a parser that has counted `k` bytes before this text.
count_test :
    (k len left total : ℕ)
    → total + left ≡ k + len
    → k + len < 2 ^ 31
    → (as_size total == len) ≡ (left == k)
count_test k len left total e h = rw (as_size_small total (omega arith)) (ground arith)

is_empty-length : (s : Bytes) (k : ℕ) → k ≡ 0 → (length s == k) ≡ is_empty s
is_empty-length [] k z = rw z
is_empty-length (c ∷ s) k z = ground arith

-- A body is missing where as much is left unread as was counted before.
take_body_counted :
    (k left n : ℕ) (result : ResultType) (q : RequestParser) (r : Request) (text : Bytes)
    → q.n_char_parsed + left ≡ k + length text
    → k + length text < 2 ^ 31
    → take_body result q r (pos (suc n)) text ≡ (
        if left == k
        then ok (missing_data, q, r)
        else (do body ← tail_of text (pos (suc n)); ok (result, q, record r { body = body })))
unfolding take_body
take_body_counted k left n result q r text e h =
    rw (count_test k (length text) left q.n_char_parsed e h)

module _ (p : RequestParser) (r r' : Request) (text pad : Bytes) (n : ℕ)
    (nonzero : All IsNonzero text) (small : p.n_char_parsed + length text < 2 ^ 31)
    (found : get_content_length (parse p r text).2 ≡ ok (pos (suc n), r')) where
  parse_data_counted : parse_data p r (text ++ 0 ∷ pad) (length text) ≡ (
      if length (parse p r text).3 == p.n_char_parsed
      then ok (missing_data, (parse p r text).1, r')
      else (do
        body ← tail_of text (pos (suc n))
        ok ((parse p r text).0, (parse p r text).1, record r' { body = body })))
  parse_data_counted =
      let s = parse p r text in
      rw (parse_data_of_text p r text pad nonzero, found)
        (take_body_counted p.n_char_parsed (length s.3) n s.0 s.1 r' text
          (parse-n_char_parsed text p r (omega arith)) small)

  -- With a positive content length and a parser that has counted no byte yet, the body is found to
  -- be missing exactly when the loop has read the whole text; otherwise the body is the end of the
  -- text, of that length, or `substr` throws if the text is shorter.
  pub parse_data_first :
      p.n_char_parsed ≡ 0
      → parse_data p r (text ++ 0 ∷ pad) (length text) ≡ (
          if is_empty (parse p r text).3 then ok (missing_data, (parse p r text).1, r') else (do
            body ← tail_of text (pos (suc n))
            ok ((parse p r text).0, (parse p r text).1, record r' { body = body })))
  parse_data_first z =
      parse_data_counted ∙ rw (is_empty-length (parse p r text).3 p.n_char_parsed z)

  -- A parser that has counted bytes before does not find the body missing.
  parse_data_stale :
      0 < p.n_char_parsed
      → (parse p r text).3 ≡ []
      → parse_data p r (text ++ 0 ∷ pad) (length text) ≡ (do
        body ← tail_of text (pos (suc n))
        ok ((parse p r text).0, (parse p r text).1, record r' { body = body }))
  parse_data_stale earlier read = parse_data_counted ∙ rw read (ground arith)

tail_of-append :
    (front body : Bytes) (n : ℕ) → length body ≡ n → tail_of (front ++ body) (pos n) ≡ ok body
unfolding tail_of
tail_of-append front body n e =
    let sum : length (front ++ body) ≡ length front + n = length-append front body ∙ rw e refl in
    let enough : ltb (length (front ++ body)) n ≡ false = ground arith in
    let split : length (front ++ body) - n ≡ length front = omega arith in
    rw (enough, split, drop-length_append front body) refl

-- `reset` does not set the count back. A parser reads a request, of at least one byte, and is reset;
-- then a text that it reads to its end and that announces a body, of a positive length that is not
-- larger than that of the text, is not found to miss the body: the end of the text, of that length,
-- becomes the body of the request. No byte of the text is 0, and all that the parser has counted is
-- below 2 ^ 31.
pub parse_data-reset :
    (p : RequestParser) (r0 r r' : Request) (c : ℕ) (earlier front body pad : Bytes) (n : ℕ)
    → All IsNonzero (front ++ body)
    → p.n_char_parsed + length (c ∷ earlier) + length (front ++ body) < 2 ^ 31
    → length body ≡ suc n
    → get_content_length (parse (reset (parse p r0 (c ∷ earlier)).1) r (front ++ body)).2
      ≡ ok (pos (suc n), r')
    → (parse (reset (parse p r0 (c ∷ earlier)).1) r (front ++ body)).3 ≡ []
    → parse_data
        (reset (parse p r0 (c ∷ earlier)).1)
        r
        ((front ++ body) ++ 0 ∷ pad)
        (length (front ++ body))
      ≡ ok (
        (parse (reset (parse p r0 (c ∷ earlier)).1) r (front ++ body)).0,
        (parse (reset (parse p r0 (c ∷ earlier)).1) r (front ++ body)).1,
        record r' { body = body },
      )
unfolding reset
parse_data-reset p r0 r r' c earlier front body pad n nonzero small size found read =
    let q = reset (parse p r0 (c ∷ earlier)).1 in
    let counted = parse-n_char_parsed (c ∷ earlier) p r0 (omega arith) in
    let some_read = parse_reads c earlier p r0 in
    parse_data_stale q r r' (front ++ body) pad n nonzero (omega arith) found (omega arith) read
    ∙ rw (tail_of-append front body (suc n) size) refl

-- A request whose `Content-Length` begins with no digit, sign or white space makes the call throw
-- `invalid_argument`, whatever the loop found.
pub parse_data_throws :
    (p : RequestParser) (r : Request) (data' v : Bytes) (c n : ℕ)
    → lookup content_length_key (parse p r (take n data')).2.headers ≡ some (c ∷ v)
    → is_space c ≡ false
    → is_decimal c ≡ false
    → (c == b'-') ≡ false
    → (c == b'+') ≡ false
    → parse_data p r data' n ≡ throws invalid_argument
unfolding parse_data
parse_data_throws p r data' v c n e s d minus plus =
    rw (get_content_length_throws (parse p r (take n data')).2 e (stoi_throws c v s d minus plus))
