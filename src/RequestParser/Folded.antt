-- ===== src/RequestParser/Folded.antt =====
-- A header line that is continued on the next line.
use foxy_4_web_server.RequestParser.{
  header_line_start, header_lws, header_value, expecting_newline_2,
}
use foxy_4_web_server.Base.{refl, true, false}
use foxy_4_web_server.Base.{
  ◌==◌, All, ℕ, ◌≡◌, refl, sym, ◌∙◌, true, false, [], ◌∷◌, ◌++◌, append_assoc, append-nil, arith,
}
use foxy_4_web_server.Base.Bytes.{Bytes, codes, same, same_refl}
use foxy_4_web_server.Base.Dict.{Dict, lookup, put, get_or, lookup-put}
use foxy_4_web_server.Http.{Request}
use foxy_4_web_server.RequestParser.{
  RequestParser, push_value, consume_in, header_line_start, header_lws, header_value,
  expecting_newline_2,
}
use foxy_4_web_server.RequestParser.Chars.{control, blank, text_lem}
use foxy_4_web_server.RequestParser.Runs.{Runs, Runs-one, Runs-append, Runs-stop}
use foxy_4_web_server.RequestParser.Headers.{with_name}
use foxy_4_web_server.RequestParser.Pieces.{IsText}

-- The headers with a text behind the value of `k`, and every other header as before.
abbrev pub Appends : Bytes → Bytes → Dict Bytes → Dict Bytes → Type 0
Appends k s m m' =
    (get_or k [] m' ≡ get_or k [] m ++ s)
    × ((j : Bytes) → same k j ≡ false → lookup j m' ≡ lookup j m)

get_or-put : (k v : Bytes) (m : Dict Bytes) → get_or k [] (put k v m) ≡ v
unfolding get_or
get_or-put k v m = rw (get_or, lookup-put k k v m, same_refl k) refl

Appends-put :
    (k s t : Bytes) (m m' : Dict Bytes)
    → Appends k t (put k (get_or k [] m ++ s) m) m'
    → Appends k (s ++ t) m m'
unfolding get_or
Appends-put k s t m m' (appended, others) = (
  appended ∙ rw (get_or-put k (get_or k [] m ++ s) m) (append_assoc (get_or k [] m) s t),
  λ j other. others j other ∙ lookup-put k j (get_or k [] m ++ s) m ∙ rw other refl,
)

-- The rest of a value, whatever the name.
value_bytes :
    (s : Bytes) (k : Bytes) (p : RequestParser) (r : Request)
    → All IsText s
    → (r' : Request) × Runs (with_name header_value p k) r s (with_name header_value p k) r'
      × Appends k s r.headers r'.headers
unfolding consume_in
value_bytes [] k p r h =
    (r, Runs-stop _ _, (sym (append-nil (get_or k [] r.headers)), λ j other. refl))
value_bytes (c ∷ s) k p r (h, t) =
    let r1 : Request = push_value (with_name header_value p k) r c in
    let (r', runs, appended) = value_bytes s k p r1 t in
    (
      r',
      Runs-append {a = c ∷ []} (Runs-one c (λ n. ground (arith, text_lem c h))) runs,
      Appends-put k (c ∷ []) s r.headers r'.headers appended,
    )

blank_lem : (c : ℕ) → blank c ≡ true → (c == b'\r') ≡ false
unfolding blank
blank_lem c h = ground arith

-- A line that begins with a blank, behind a header line: the rest of the line behind its first byte
-- after the blank is put behind the value of the header whose name is that one byte, which is made
-- where there is none and the rest is not empty. Every header of another name stays, so the one of the
-- line before is not continued unless its name is that byte. The byte behind the blank is no white
-- space; neither it nor the rest of the line has the end of a line or a control byte.
pub folded :
    (b x : ℕ) (v : Bytes) (p : RequestParser) (r : Request) {entry : Bytes × Bytes}
    {more : Dict Bytes}
    → r.headers ≡ entry ∷ more
    → blank b ≡ true
    → blank x ≡ false
    → control x ≡ false
    → All IsText v
    → (r' : Request) × Runs
        (with_name header_line_start p [])
        r
        (b ∷ x ∷ (v ++ codes "\r\n"))
        (with_name header_line_start p [])
        r'
      × Appends (x ∷ []) v r.headers r'.headers
unfolding consume_in
folded b x v p r some_header b_blank x_blank x_text text =
    let (r', runs, appended) = value_bytes v (x ∷ []) p r text in
    (
      r',
      Runs-append {q = with_name header_lws p []} {r' = r} {a = b ∷ []}
          (Runs-one b (λ n. rw (consume_in, blank_lem b b_blank, some_header, b_blank) refl))
          (Runs-append {q = with_name header_value p (x ∷ [])} {r' = r} {a = x ∷ []}
            (Runs-one x (λ n. ground (arith, text_lem x x_text)))
            (Runs-append runs (
              Runs-append {q = with_name expecting_newline_2 p []} {a = b'\r' ∷ []}
                (Runs-one b'\r' (λ n. refl)) (Runs-one b'\n' (λ n. refl))))),
      appended,
    )
