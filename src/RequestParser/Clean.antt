-- ===== src/RequestParser/Clean.antt =====
-- Every request that the parser fills, complete or not, has no control byte in its URI and its
-- headers, so none of them can end a line.
use foxy_4_web_server.Base.{
  ℕ, [], ◌∷◌, ◌++◌, arith, Bool-cases, Option-cases, inl, inr, All, All-append,
}
use foxy_4_web_server.Base.Bytes.{Bytes}
use foxy_4_web_server.Base.Dict.{Dict, lookup, insert, get_or}
use foxy_4_web_server.Base.Dict.Entries.{All-put, All-lookup}
use foxy_4_web_server.Base.Dict.Sorted.{IsSorted, put-IsSorted, insert-IsSorted}
use foxy_4_web_server.Http.{Request}
use foxy_4_web_server.RequestParser.Chars.{token-control}
use foxy_4_web_server.RequestParser.Pieces.{IsText, IsUriByte}
use foxy_4_web_server.RequestParser.{
  State, RequestParser, consume, consume_in, ends_parse, parse, count_char, push_value,
}

abbrev IsCleanHeader : Bytes × Bytes → Type 0
IsCleanHeader (k, v) = All IsText k × All IsText v

pub record IsClean (p : RequestParser) (r : Request) : Type 0 where
  pub helper : All IsText p.header_helper
  pub uri_bytes : All IsUriByte r.uri
  pub header_bytes : All IsCleanHeader r.headers
  pub sorted : IsSorted r.headers

All-append_one : (s : Bytes) (c : ℕ) → All IsText s → IsText c → All IsText (s ++ c ∷ [])
All-append_one s c h k = All-append IsText s (c ∷ []) h (k, tt)

get_or-clean : (k : Bytes) (m : Dict Bytes) → All IsCleanHeader m → All IsText (get_or k [] m)
unfolding get_or
get_or-clean k m h = elim (Option-cases (lookup k m)) [
  | inl missing ↦ rw (missing, get_or) tt
  | inr (v, found) ↦ rw (found, get_or) (All-lookup IsCleanHeader k v m h found).1
]

insert-clean :
    (k : Bytes) (m : Dict Bytes)
    → All IsText k
    → All IsCleanHeader m
    → All IsCleanHeader (insert k [] m)
unfolding insert
insert-clean k m t h = elim (Option-cases (lookup k m)) [
  | inl missing ↦ rw (missing, insert) (All-put IsCleanHeader k [] m h (t, tt))
  | inr (v, found) ↦ rw (found, insert) h
]

push_value-IsClean :
    (p : RequestParser) (r : Request) (c : ℕ)
    → IsClean p r
    → IsText c
    → IsClean p (push_value p r c)
push_value-IsClean p r c w t = record {
  helper = w.helper;
  uri_bytes = w.uri_bytes;
  header_bytes =
      All-put IsCleanHeader p.header_helper _ r.headers w.header_bytes
        (w.helper, All-append_one _ c (get_or-clean p.header_helper r.headers w.header_bytes) t);
  sorted = put-IsSorted _ _ r.headers w.sorted;
}

consume_in-IsClean :
    (st : State) (p : RequestParser) (r : Request) (c : ℕ)
    → IsClean p r
    → IsClean (consume_in st p r c).1 (consume_in st p r c).2
unfolding consume_in
consume_in-IsClean State.header_value p r c w = ground (arith, push_value-IsClean p r c w)
consume_in-IsClean State.header_name p r c w =
    ground (arith, token-control c, All-append_one p.header_helper c w.helper)
consume_in-IsClean State.header_line_start p r c w =
    ground (arith, token-control c, All-append_one p.header_helper c w.helper)
consume_in-IsClean State.header_lws p r c w =
    ground (arith, All-append_one p.header_helper c w.helper)
consume_in-IsClean State.uri p r c w =
    ground (arith, All-append IsUriByte r.uri (c ∷ []) w.uri_bytes)
consume_in-IsClean State.space_before_header_value p r c w = ground (
  arith,
  insert-clean p.header_helper r.headers w.helper w.header_bytes,
  insert-IsSorted p.header_helper [] r.headers w.sorted,
)
consume_in-IsClean _ p r c w = ground arith

-- A clean request stays clean under any input, whatever the result: the URI has no blank and no
-- control byte, no header's name or value has a control byte, and the headers are in the order of
-- their names, no name twice.
pub parse-IsClean :
    (s : Bytes) (p : RequestParser) (r : Request)
    → IsClean p r
    → IsClean (parse p r s).1 (parse p r s).2
unfolding parse count_char
parse-IsClean [] p r w = w
parse-IsClean (c ∷ s) p r w =
    let step = consume p r c in
    let v = consume_in-IsClean p.state p r c w in
    let counted : IsClean (count_char step.1) step.2 = record {
      helper = v.helper;
      uri_bytes = v.uri_bytes;
      header_bytes = v.header_bytes;
      sorted = v.sorted;
    } in
    elim (Bool-cases (ends_parse step.0)) [
      | inl ended ↦ rw ended counted
      | inr on ↦ rw on (parse-IsClean s (count_char step.1) step.2 counted)
    ]
