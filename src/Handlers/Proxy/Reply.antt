-- ===== src/Handlers/Proxy/Reply.antt =====
-- A whole response of the upstream server, in whatever pieces it comes.
use foxy_4_web_server.Base.{
  ◌==◌, if◌then◌else◌, length, All, All-append, ℕ, ◌≡◌, refl, sym, ap, ◌∙◌, true, false, some, List,
  [], ◌∷◌, ◌++◌, append_assoc, arith,
}
use foxy_4_web_server.Base.Bytes.{Bytes, codes, same, starts_with, contains}
use foxy_4_web_server.Base.Text.{is_decimal, is_space, to_string, skip_space, scan}
use foxy_4_web_server.Base.Dict.{put, insert, get_or}
use foxy_4_web_server.Http.{Response}
use foxy_4_web_server.Handlers.Proxy.Stream.{
  concat, lines, split_word, split_digits, magnitude_of, read_unsigned,
}
use foxy_4_web_server.Handlers.Proxy.Pieces.{IsLine, contains-append}
use foxy_4_web_server.Handlers.Proxy.Blocks.{Header, header_line, header_block, line_of_lines}
use foxy_4_web_server.Handlers.Proxy.Forward.{status_line, read_body, finished}

-- The status line without its end.
abbrev pub first_line : Bytes → Bytes → Bytes → Bytes
first_line version code message = (codes "HTTP/" ++ version) ++ (b' ' ∷ (code ++ (b' ' ∷ message)))

-- The text of a response.
abbrev pub reply_text : Bytes → Bytes → Bytes → List Header → Bytes → Bytes
reply_text version code message hs body =
    first_line version code message ++ (codes "\r\n" ++ (header_block hs ++ body))

-- The digits of a status code.
pub record IsCode (code : Bytes) (status : ℕ) : Type 0 where
  pub line : IsLine code
  pub reads : (t : Bytes) → read_unsigned (b' ' ∷ (code ++ b' ' ∷ t)) ≡ some (status, b' ' ∷ t)

pub success-IsCode : IsCode (codes "200") 200
unfolding skip_space is_space read_unsigned magnitude_of split_digits is_decimal scan
success-IsCode = record { line = (refl, (refl, (refl, tt))); reads = λ t. refl }

pub moved-IsCode : IsCode (codes "302") 302
unfolding skip_space is_space read_unsigned magnitude_of split_digits is_decimal scan
moved-IsCode = record { line = (refl, (refl, (refl, tt))); reads = λ t. refl }

abbrev pub IsWord : Bytes → Type 0
IsWord = All (λ c. is_space c ≡ false)

split_word-append :
    (word rest : Bytes) → IsWord word → split_word (word ++ b' ' ∷ rest) ≡ (word, b' ' ∷ rest)
unfolding split_word is_space
split_word-append [] rest h = refl
split_word-append (c ∷ word) rest (plain, h) = rw (plain, split_word-append word rest h) refl

not_newline : (c : ℕ) → is_space c ≡ false → (c == b'\n') ≡ false
unfolding is_space
not_newline c h = ground arith

IsWord-IsLine : (word : Bytes) → IsWord word → IsLine word
IsWord-IsLine [] h = tt
IsWord-IsLine (c ∷ word) (plain, h) = (not_newline c plain, IsWord-IsLine word h)

pub first_line-IsLine :
    (version code message : Bytes) (status : ℕ)
    → IsWord version
    → IsCode code status
    → IsLine message
    → IsLine (first_line version code message)
first_line-IsLine version code message status word c line =
    All-append (λ c. (c == b'\n') ≡ false) (codes "HTTP/" ++ version)
      (b' ' ∷ (code ++ (b' ' ∷ message)))
      (refl, (refl, (refl, (refl, (refl, IsWord-IsLine version word)))))
      (refl, All-append (λ c. (c == b'\n') ≡ false) code (b' ' ∷ message) c.line (refl, line))

lines-append :
    (line rest : Bytes)
    → IsLine line
    → lines (line ++ (codes "\r\n" ++ rest)) ≡ (line ++ codes "\r", rest) ∷ lines rest
lines-append line rest h =
    ap lines (sym (append_assoc line (codes "\r") (b'\n' ∷ rest)))
    ∙ line_of_lines (line ++ codes "\r") rest
        (All-append (λ c. (c == b'\n') ≡ false) line (codes "\r") h (refl, tt))

status_line_of :
    (s version after_version behind message rest : Bytes) (status : ℕ)
    (later : List (Bytes × Bytes))
    → split_word (skip_space s) ≡ (version, after_version)
    → read_unsigned after_version ≡ some (status, behind)
    → lines behind ≡ (message, rest) ∷ later
    → status_line s ≡ some (version, status, rest)
unfolding status_line
status_line_of s version after_version behind message rest status later word number line =
    rw (status_line, word, number, line) (ap (λ w. some (w.0, status, rest)) word)

pub status_line-reply :
    (version code message rest : Bytes) (status : ℕ)
    → IsWord version
    → IsCode code status
    → IsLine message
    → status_line (first_line version code message ++ (codes "\r\n" ++ rest))
      ≡ some (codes "HTTP/" ++ version, status, rest)
unfolding skip_space is_space
status_line-reply version code message rest status plain c line =
    let word = codes "HTTP/" ++ version in
    let ended = message ++ (codes "\r\n" ++ rest) in
    let behind = code ++ b' ' ∷ ended in
    let text : first_line version code message ++ (codes "\r\n" ++ rest) ≡ word ++ b' ' ∷ behind =
      append_assoc word (b' ' ∷ (code ++ (b' ' ∷ message))) (codes "\r\n" ++ rest)
      ∙ ap (λ t. word ++ b' ' ∷ t) (append_assoc code (b' ' ∷ message) (codes "\r\n" ++ rest)) in
    let split : split_word (word ++ b' ' ∷ behind) ≡ (word, b' ' ∷ behind) =
      split_word-append word behind (refl, (refl, (refl, (refl, (refl, plain))))) in
    ap status_line text
    ∙ status_line_of (word ++ b' ' ∷ behind) word (b' ' ∷ behind) (b' ' ∷ ended) _ rest status _
        split (c.reads ended) (lines-append (b' ' ∷ message) rest (refl, line))

block_end :
    (hs : List Header) (body : Bytes)
    → contains (b'\r' ∷ b'\n' ∷ (header_block hs ++ body)) (codes "\r\n\r\n") ≡ true
unfolding contains starts_with
block_end [] body = refl
block_end (h ∷ hs) body =
    let end = codes "\r\n" ++ (header_block hs ++ body) in
    let text : header_block (h ∷ hs) ++ body ≡ header_line h ++ end =
      append_assoc (header_line h) (codes "\r\n" ++ header_block hs) body in
    rw text
      (contains-append (codes "\r\n" ++ header_line h) end (codes "\r\n\r\n") (block_end hs body))

pub block_has_end :
    (h : Header) (hs : List Header) (body : Bytes)
    → contains (header_block (h ∷ hs) ++ body) (codes "\r\n\r\n") ≡ true
block_has_end h hs body =
    let end = codes "\r\n" ++ (header_block hs ++ body) in
    let text : header_block (h ∷ hs) ++ body ≡ header_line h ++ end =
      append_assoc (header_line h) (codes "\r\n" ++ header_block hs) body in
    rw text (contains-append (header_line h) end (codes "\r\n\r\n") (block_end hs body))

-- The response with this body, and its length.
abbrev pub measured : Response → Bytes → Response
measured r body = record r {
  headers =
      put (codes "Content-Length") (to_string (length body))
        (insert (codes "Content-Type") [] r.headers);
  body = body;
}

first_of : (s rest body : Bytes) → s ++ rest ≡ body → (if same s [] then [] else s) ++ rest ≡ body
unfolding same
first_of [] rest body e = e
first_of (c ∷ s) rest body e = e

pub read_body_plain :
    (path : Bytes) (r : Response) (s : Bytes) (later : List Bytes) (body : Bytes)
    → r.body ≡ []
    → s ++ concat later ≡ body
    → contains (get_or (codes "Content-Type") [] r.headers) (codes "html") ≡ false
    → read_body path r s later ≡ some (finished (measured r body))
unfolding read_body
read_body_plain path r s later body empty text plain =
    rw (read_body, empty, first_of s (concat later) body text, plain) refl
