-- ===== src/Handlers/Proxy/Blocks.antt =====
-- The block of the headers of a response, and what reading it enters.
use mathlib.Core.Path.{subst}
use foxy_4_web_server.Base.{
  ◌==◌, All, All-append, ok, ℕ, ◌≡◌, refl, sym, ap, ap₂, ◌∙◌, true, false, List, [], ◌∷◌, ◌++◌,
  append_assoc, arith,
}
use foxy_4_web_server.Base.Bytes.{Bytes, codes, same, starts_with, contains}
use foxy_4_web_server.Base.Dict.{Dict, put}
use foxy_4_web_server.Http.{Response}
use foxy_4_web_server.Handlers.Proxy.{parse_header}
use foxy_4_web_server.Handlers.Proxy.Header.{parse_header-line}
use foxy_4_web_server.Handlers.Proxy.Stream.{lines}
use foxy_4_web_server.Handlers.Proxy.Pieces.{IsLine, not_at_end, line_in_front}
use foxy_4_web_server.Handlers.Proxy.Forward.{read_headers, complete}

abbrev pub Header : Type 0
Header = Bytes × Bytes

abbrev pub header_line : Header → Bytes
header_line (name, value) = name ++ (codes ": " ++ value)

-- The lines of the headers and the empty line behind them.
abbrev pub header_block : List Header → Bytes
header_block [] = codes "\r\n"
header_block (h ∷ hs) = header_line h ++ (codes "\r\n" ++ header_block hs)

-- The entries in the order of the lines.
abbrev pub entered : List Header → Dict Bytes → Dict Bytes
entered [] m = m
entered ((name, value) ∷ hs) m = entered hs (put name value m)

-- A name without a colon, and no end of a line in name and value.
abbrev pub IsHeader : Header → Type 0
IsHeader (name, value) = All (λ c. (c == b':') ≡ false) name × IsLine name × IsLine value

header_line-IsLine : (h : Header) → IsHeader h → IsLine (header_line h)
header_line-IsLine (name, value) (no_colon, name_line, value_line) =
    All-append (λ c. (c == b'\n') ≡ false) name (codes ": " ++ value) name_line
      (refl, (refl, value_line))

header_line-cons : (h : Header) → (c : ℕ) × (line : Bytes) × (header_line h ≡ c ∷ line)
header_line-cons ([], value) = (_, _, refl)
header_line-cons (c ∷ name, value) = (_, _, refl)

not_empty_line :
    (d line buffer rest tail : Bytes) (c : ℕ)
    → IsLine (c ∷ line)
    → buffer ++ rest ≡ c ∷ (line ++ b'\r' ∷ b'\n' ∷ tail)
    → starts_with buffer (b'\r' ∷ b'\n' ∷ d) ≡ false
unfolding starts_with
not_empty_line d line [] rest tail c h e = refl
not_empty_line d line (x ∷ buffer) rest tail c (plain, h) e =
    let behind : buffer ++ rest ≡ line ++ b'\r' ∷ b'\n' ∷ tail = cc e in
    let inside : starts_with buffer (b'\n' ∷ d) ≡ false =
      not_at_end d line buffer rest tail h behind in
    ground (arith, inside)

abbrev blank_line : Bytes
blank_line = codes "\r\n\r\n"

-- A front of a text that begins with the end of a line and a block.
abbrev Fronts : List Header → Bytes → Bytes → Type 0
Fronts hs rest body =
    (back : Bytes)
    → contains back blank_line ≡ true
    → back ++ rest ≡ b'\r' ∷ b'\n' ∷ (header_block hs ++ body)
    → (s : Bytes) × (back ≡ b'\r' ∷ b'\n' ∷ (header_block hs ++ s)) × (s ++ rest ≡ body)

block_step :
    (h : Header) (hs : List Header) (buffer rest body : Bytes)
    → IsHeader h
    → Fronts hs rest body
    → contains buffer blank_line ≡ true
    → buffer ++ rest ≡ header_block (h ∷ hs) ++ body
    → (s : Bytes) × (buffer ≡ header_block (h ∷ hs) ++ s) × (s ++ rest ≡ body)
block_step h hs buffer rest body plain fronts holds e =
    let line = header_line h in
    let text = e ∙ append_assoc line (codes "\r\n" ++ header_block hs) body in
    let (back, front, there, after) =
      line_in_front (codes "\r\n") line buffer rest (header_block hs ++ body)
        (header_line-IsLine h plain) holds text in
    let (s, block, left) = fronts back there after in
    (
      s,
      front
          ∙ ap (λ b. line ++ b) block
          ∙ sym (append_assoc line (codes "\r\n" ++ header_block hs) s),
      left,
    )

block_in_front : (hs : List Header) (rest body : Bytes) → All IsHeader hs → Fronts hs rest body
unfolding contains starts_with
block_in_front hs rest body h [] holds e = ground arith
block_in_front hs rest body h (x ∷ []) holds e = ground arith
block_in_front [] rest body h (x ∷ y ∷ []) holds e = ground arith
block_in_front [] rest body h (x ∷ y ∷ z ∷ []) holds e = ground arith
block_in_front [] rest body h (x ∷ y ∷ z ∷ w ∷ s) holds e =
    let x_is : x ≡ b'\r' = cc e in
    let y_is : y ≡ b'\n' = cc e in
    let z_is : z ≡ b'\r' = cc e in
    let w_is : w ≡ b'\n' = cc e in
    let s_is : s ++ rest ≡ body = cc e in (s, rw (x_is, y_is, z_is, w_is) refl, s_is)
block_in_front (h ∷ hs) rest body all_h (x ∷ y ∷ buffer) holds e =
    let (plain, all_plain) = all_h in
    let x_is : x ≡ b'\r' = cc e in
    let y_is : y ≡ b'\n' = cc e in
    let behind : buffer ++ rest ≡ header_block (h ∷ hs) ++ body = cc e in
    let (c, line, line_is) = header_line-cons h in
    let text : buffer ++ rest ≡ c ∷ (line ++ b'\r' ∷ b'\n' ∷ (header_block hs ++ body)) =
      behind
      ∙ append_assoc (header_line h) (codes "\r\n" ++ header_block hs) body
      ∙ ap (λ l. l ++ b'\r' ∷ b'\n' ∷ (header_block hs ++ body)) line_is in
    let plain_line : IsLine (c ∷ line) = subst IsLine line_is (header_line-IsLine h plain) in
    let no_end : starts_with buffer (codes "\r\n") ≡ false =
      not_empty_line [] line buffer rest (header_block hs ++ body) c plain_line text in
    let later : contains buffer blank_line ≡ true = ground (arith, no_end) in
    let (s, block, left) =
      block_step h hs buffer rest body plain (block_in_front hs rest body all_plain) later behind in
    (s, ap₂ (λ c t. c ∷ t) x_is (ap₂ (λ c t. c ∷ t) y_is block), left)

-- A front of a text that begins with a block of headers, where the front has an empty line.
pub block_found :
    (h : Header) (hs : List Header) (buffer rest body : Bytes)
    → IsHeader h
    → All IsHeader hs
    → contains buffer blank_line ≡ true
    → buffer ++ rest ≡ header_block (h ∷ hs) ++ body
    → (s : Bytes) × (buffer ≡ header_block (h ∷ hs) ++ s) × (s ++ rest ≡ body)
block_found h hs buffer rest body plain all_plain holds e =
    block_step h hs buffer rest body plain (block_in_front hs rest body all_plain) holds e

pub line_of_lines :
    (line rest : Bytes) → IsLine line → lines (line ++ b'\n' ∷ rest) ≡ (line, rest) ∷ lines rest
unfolding lines
line_of_lines [] rest h = refl
line_of_lines (c ∷ line) rest (plain, h) = rw (plain, line_of_lines line rest h) refl

-- The line of a header is not the carriage return of an empty line.
not_blank : (h : Header) → same (header_line h ++ codes "\r") (codes "\r") ≡ false
unfolding same
not_blank ([], value) = refl
not_blank (c ∷ [], value) = ground arith
not_blank (c ∷ d ∷ name, value) = ground arith

-- Reading a block enters its headers and leaves what is behind it.
pub read_headers-block :
    (hs : List Header) (r : Response) (rest : Bytes)
    → All IsHeader hs
    → read_headers (lines (header_block hs ++ rest)) r
      ≡ complete (record r { headers = entered hs r.headers }) rest
unfolding read_headers lines same
read_headers-block [] r rest h = refl
read_headers-block ((name, value) ∷ hs) r rest (plain, all_plain) =
    let line = header_line (name, value) in
    let later = header_block hs ++ rest in
    let text : header_block ((name, value) ∷ hs) ++ rest ≡ (line ++ codes "\r") ++ b'\n' ∷ later =
      append_assoc line (codes "\r\n" ++ header_block hs) rest
      ∙ sym (append_assoc line (codes "\r") (b'\n' ∷ later)) in
    let first = line_of_lines (line ++ codes "\r") later (
      All-append (λ c. (c == b'\n') ≡ false) line (codes "\r")
        (header_line-IsLine (name, value) plain) (refl, tt)) in
    let parsed : parse_header (line ++ codes "\r") r
        ≡ ok (true, record r { headers = put name value r.headers }) =
      rw (append_assoc name (codes ": " ++ value) (codes "\r"))
        (parse_header-line name value r plain.0) in
    rw (text, first, read_headers, not_blank (name, value), parsed)
      (read_headers-block hs (record r { headers = put name value r.headers }) rest all_plain)
