-- ===== src/Handlers/Proxy/Header.antt =====
-- The headers that the upstream server sends.
use foxy_4_web_server.Base.{
  ℕ, suc, ◌+◌, true, false, some, [], ◌∷◌, ◌++◌, ◌≡◌, refl, ap, arith, length, drop, ltb,
  take-length_append, length-append, ok, All, ◌==◌,
}
use foxy_4_web_server.Base.Bytes.{
  Bytes, codes, find, starts_with, substr, drop_last, drop_last-append_one,
}
use foxy_4_web_server.Base.Dict.{put}
use foxy_4_web_server.Handlers.Proxy.{parse_header, pop_back}
use foxy_4_web_server.Http.{Response}

find-colon :
    (name rest : Bytes)
    → All (λ c. (c == b':') ≡ false) name
    → find (name ++ b':' ∷ rest) (codes ":") ≡ some (length name)
unfolding find starts_with
find-colon [] [] h = refl
find-colon [] (c ∷ rest) h = refl
find-colon (c ∷ name) rest (other, h) = rw (other, find-colon name rest h)

drop-two : (name rest : Bytes) (x y : ℕ) → drop (length name + 2) (name ++ x ∷ y ∷ rest) ≡ rest
drop-two [] rest x y = refl
drop-two (c ∷ name) rest x y =
    let e : length (c ∷ name) + 2 ≡ suc (length name + 2) = omega arith in
    rw e (drop-two name rest x y)

pop_back-append : (value : Bytes) (c : ℕ) → pop_back (value ++ c ∷ []) ≡ ok value
unfolding pop_back drop_last
pop_back-append [] c = refl
pop_back-append (x ∷ value) c = ap ok (drop_last-append_one (x ∷ value) c)

substr-two :
    (name rest : Bytes) (x y : ℕ) → substr (name ++ x ∷ y ∷ rest) (length name + 2) ≡ ok rest
unfolding substr
substr-two name rest x y =
    let enough : ltb (length (name ++ x ∷ y ∷ rest)) (length name + 2) ≡ false =
      ground (arith, length-append name (x ∷ y ∷ rest)) in
    rw (enough, drop-two name rest x y)

parse_header-rest :
    (name rest value : Bytes) (response : Response)
    → All (λ c. (c == b':') ≡ false) name
    → pop_back rest ≡ ok value
    → parse_header (name ++ b':' ∷ b' ' ∷ rest) response
      ≡ ok (true, record response { headers = put name value response.headers })
unfolding parse_header
parse_header-rest name rest value response h popped = rw (
  parse_header,
  find-colon name (b' ' ∷ rest) h,
  substr-two name rest b':' b' ',
  popped,
  take-length_append name (b':' ∷ b' ' ∷ rest),
)

-- A header line of a name without a colon, a colon, a blank and a value, up to its carriage return,
-- enters exactly this header, over an earlier one of the name.
pub parse_header-line :
    (name value : Bytes) (response : Response)
    → All (λ c. (c == b':') ≡ false) name
    → parse_header (name ++ (codes ": " ++ (value ++ codes "\r"))) response
      ≡ ok (true, record response { headers = put name value response.headers })
parse_header-line name value response h =
    parse_header-rest name (value ++ codes "\r") value response h (pop_back-append value b'\r')
