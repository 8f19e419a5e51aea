-- ===== src/RequestParser.antt =====
-- src/request_parser.cc, include/request_parser.h: the request parser, one byte at a time.
pub mod Chars
pub mod Runs
pub mod Pieces
pub mod Headers
pub mod Folded
pub mod Chunks
pub mod Clean
pub mod Body
use foxy_4_web_server.Base.{
  ℕ, zero, suc, ◌+◌, ◌-◌, ◌%◌, ◌^◌, Bool, true, false, not, ◌&&◌, ◌||◌, Option, none, some, List,
  [], ◌∷◌, ◌++◌, Outcome, ok, throws, undefined, out_of_range, ◌>>=◌, ◌==◌, ltb, if◌then◌else◌,
  length, take, drop,
}
use foxy_4_web_server.Base.Bytes.{Bytes, codes, same, c_str}
use foxy_4_web_server.Base.Dict.{lookup, put, insert, get_or}
use foxy_4_web_server.Base.Int.{ℤ, pos, negsuc}
use foxy_4_web_server.Http.{Method, Request}
use foxy_4_web_server.Utility.{get_content_length}
use foxy_4_web_server.RequestParser.Chars.{refused, control, digit, blank}

pub data State : Type 0 where
  method_start method uri : State
  http_version_h http_version_t_1 http_version_t_2 http_version_p http_version_slash : State
  http_version_major_start http_version_major http_version_minor_start http_version_minor : State
  expecting_newline_1 header_line_start header_lws header_name space_before_header_value : State
  header_value expecting_newline_2 expecting_newline_3 : State

pub data ResultType : Type 0 where
  good bad indeterminate missing_data : ResultType

-- `n_char_parsed` is the bit pattern of a 32-bit `int`.
pub record RequestParser : Type 0 where
  pub state : State
  pub major : ℕ
  pub minor : ℕ
  pub method_helper : Bytes
  pub header_helper : Bytes
  pub n_char_parsed : ℕ

-- The constructor leaves `major` and `minor` uninitialised; nothing reads them.
unfoldable pub new_parser : RequestParser
new_parser = record {
  state = method_start;
  major = 0;
  minor = 0;
  method_helper = [];
  header_helper = [];
  n_char_parsed = 0;
}

unfoldable pub reset : RequestParser → RequestParser
reset p = record p {
  major = 0;
  minor = 0;
  method_helper = [];
  header_helper = [];
  state = method_start;
}

-- The result of a call, with the parser and the request that it leaves.
abbrev Step : Type 0
Step = ResultType × RequestParser × Request

abbrev refuse : RequestParser → Request → Step
refuse p r = (bad, p, r)

abbrev advance : State → RequestParser → Request → Step
advance s p r = (indeterminate, record p { state = s }, r)

-- The states that want one certain byte.
abbrev expect : ℕ → State → RequestParser → Request → ℕ → Step
expect want s p r c = if c == want then advance s p r else refuse p r

unfoldable pub method_of : Bytes → Method
method_of name =
    if same name (codes "POST")
    then Method.post
    else if same name (codes "PUT")
    then Method.put
    else if same name (codes "GET")
    then Method.get
    else Method.unknown

abbrev push_method : RequestParser → ℕ → RequestParser
push_method p c = record p { method_helper = p.method_helper ++ c ∷ [] }

abbrev push_header : RequestParser → ℕ → RequestParser
push_header p c = record p { header_helper = p.header_helper ++ c ∷ [] }

abbrev push_version : Request → ℕ → Request
push_version r c = record r { http_version = r.http_version ++ c ∷ [] }

-- `req.headers_[header_helper].push_back(input)`
abbrev pub push_value : RequestParser → Request → ℕ → Request
push_value p r c = record r {
  headers = put p.header_helper (get_or p.header_helper [] r.headers ++ c ∷ []) r.headers;
}

-- `!req.headers_.empty()`
abbrev nonempty : Request → Bool
nonempty r = elim r.headers [ [] ↦ false | x ∷ m ↦ true ]

-- The cases of the switch in `consume`.
unfoldable pub consume_in : State → RequestParser → Request → ℕ → Step
unfolding method_of
consume_in method_start p r c = if refused c then refuse p r else advance method (push_method p c) r
consume_in method p r c =
    if c == b' '
    then advance uri p (record r { method = method_of p.method_helper })
    else if refused c
    then refuse p r
    else (indeterminate, push_method p c, r)
consume_in uri p r c =
    if c == b' '
    then advance http_version_h p r
    else if control c
    then refuse p r
    else (indeterminate, p, record r { uri = r.uri ++ c ∷ [] })
consume_in http_version_h p r c = expect b'H' http_version_t_1 p r c
consume_in http_version_t_1 p r c = expect b'T' http_version_t_2 p r c
consume_in http_version_t_2 p r c = expect b'T' http_version_p p r c
consume_in http_version_p p r c = expect b'P' http_version_slash p r c
consume_in http_version_slash p r c =
    if c == b'/'
    then advance http_version_major_start (record p { major = 0; minor = 0 })
        (record r { http_version = [] })
    else refuse p r
consume_in http_version_major_start p r c =
    if digit c then advance http_version_major p (push_version r c) else refuse p r
consume_in http_version_major p r c =
    if c == b'.'
    then advance http_version_minor_start p (push_version r b'.')
    else if digit c
    then (indeterminate, p, push_version r c)
    else refuse p r
consume_in http_version_minor_start p r c =
    if digit c then advance http_version_minor p (push_version r c) else refuse p r
consume_in http_version_minor p r c =
    if c == b'\r'
    then advance expecting_newline_1 p r
    else if digit c
    then (indeterminate, p, push_version r c)
    else refuse p r
consume_in expecting_newline_1 p r c = expect b'\n' header_line_start p r c
consume_in header_line_start p r c =
    if c == b'\r'
    then advance expecting_newline_3 p r
    else if nonempty r && blank c
    then advance header_lws p r
    else if refused c
    then refuse p r
    else advance header_name (push_header p c) r
consume_in header_lws p r c =
    if c == b'\r'
    then advance expecting_newline_2 p r
    else if blank c
    then (indeterminate, p, r)
    else if control c
    then refuse p r
    else advance header_value (push_header p c) r
consume_in header_name p r c =
    if c == b':'
    then advance space_before_header_value p r
    else if refused c
    then refuse p r
    else (indeterminate, push_header p c, r)
consume_in space_before_header_value p r c =
    if c == b' '
    then advance header_value p (record r { headers = insert p.header_helper [] r.headers })
    else refuse p r
consume_in header_value p r c =
    if c == b'\r'
    then advance expecting_newline_2 (record p { header_helper = [] }) r
    else if control c
    then refuse p r
    else (indeterminate, p, push_value p r c)
consume_in expecting_newline_2 p r c = expect b'\n' header_line_start p r c
consume_in expecting_newline_3 p r c = if c == b'\n' then (good, p, r) else refuse p r

abbrev pub consume : RequestParser → Request → ℕ → Step
consume p = consume_in p.state p

-- `n_char_parsed++`, a signed `int` that no call sets back. Beyond 2 ^ 31 - 1 its overflow is undefined
-- in C++; here it wraps, as two's complement does.
unfoldable pub count_char : RequestParser → RequestParser
count_char p = record p { n_char_parsed = (p.n_char_parsed + 1) % 2 ^ 32 }

-- `result == good || result == bad`
abbrev pub ends_parse : ResultType → Bool
ends_parse good = true
ends_parse bad = true
ends_parse _ = false

-- The loop over the input; the last part is what it has not read.
unfoldable pub parse :
    RequestParser → Request → Bytes → ResultType × RequestParser × Request × Bytes
unfolding count_char
parse p r [] = (indeterminate, p, r, [])
parse p r (c ∷ cs) =
    let (result, p', r') = consume p r c in
    let more = parse (count_char p') r' cs in
    if ends_parse result then (result, count_char p', r', cs) else more

-- `char_amount == strlen(data)`: the `int` is converted to the 64-bit `size_t`.
unfoldable pub as_size : ℕ → ℕ
as_size n = if ltb n (2 ^ 31) then n else n + 2 ^ 64 - 2 ^ 32

-- `content_length > 0`
abbrev is_positive : ℤ → Bool
is_positive (pos zero) = false
is_positive (pos (suc n)) = true
is_positive (negsuc n) = false

-- `data_helper.substr(data_helper.length() - content_length)`: the difference wraps where it is
-- negative, and a position past the end throws.
unfoldable pub tail_of : Bytes → ℤ → Outcome Bytes
tail_of s (pos n) = if ltb (length s) n then throws out_of_range else ok (drop (length s - n) s)
tail_of s (negsuc n) = throws out_of_range

-- What follows the loop in `parse_data`; `text` is the string at `data`.
unfoldable pub take_body : ResultType → RequestParser → Request → ℤ → Bytes → Outcome Step
unfolding tail_of as_size
take_body result p r content_length text =
    if is_positive content_length && as_size p.n_char_parsed == length text
    then ok (missing_data, p, r)
    else (do body ← tail_of text content_length; ok (result, p, record r { body = body }))

-- `data` is the whole array; `none` in place of its string is a read past its end.
unfoldable pub parse_data : RequestParser → Request → Bytes → ℕ → Outcome Step
parse_data p request data' bytes_transferred = do
  let (result, p', r, rest) = parse p request (take bytes_transferred data')
  (content_length, r') ← get_content_length r
  elim (c_str data') [ none ↦ undefined | some text ↦ take_body result p' r' content_length text ]
