-- ===== src/Handlers/Proxy/Stream.antt =====
-- What src/proxy_request_handler.cc uses of Boost and of the standard streams to read a response:
-- `read_until`, `>>` and `getline`, over the pieces in which the bytes come in.
use foxy_4_web_server.Base.{
  ltb, ◌==◌, if◌then◌else◌, length, ℕ, ◌-◌, ◌%◌, ◌^◌, Bool, true, false, Option, none, some, List,
  [], ◌∷◌, ◌++◌,
}
use foxy_4_web_server.Base.Bytes.{Bytes, contains}
use foxy_4_web_server.Base.Text.{is_decimal, is_space, skip_space, scan}

-- `read_until(socket, buffer, delimiter)`: reads until the buffer holds the delimiter, and may have
-- read more. `none`: the stream ends first, which throws.
unfoldable pub read_until : Bytes → Bytes → List Bytes → Option (Bytes × List Bytes)
read_until delimiter buffer [] = if contains buffer delimiter then some (buffer, []) else none
read_until delimiter buffer (piece ∷ pieces) =
    let more = read_until delimiter (buffer ++ piece) pieces in
    if contains buffer delimiter then some (buffer, piece ∷ pieces) else more

-- The bytes of the pieces that are left.
abbrev pub concat : List Bytes → Bytes
concat [] = []
concat (piece ∷ pieces) = piece ++ concat pieces

-- The lines of a buffer, as `getline` gives them, each with what is left behind it.
unfoldable pub lines : Bytes → List (Bytes × Bytes)
lines [] = []
lines (c ∷ s) =
    let more = lines s in
    if c == b'\n'
    then ([], s) ∷ more
    else elim more [ [] ↦ (c ∷ [], []) ∷ [] | (line, rest) ∷ later ↦ (c ∷ line, rest) ∷ later ]

-- The bytes up to white space, and the rest.
unfoldable pub split_word : Bytes → Bytes × Bytes
unfolding is_space
split_word [] = ([], [])
split_word (c ∷ s) =
    let (word, rest) = split_word s in if is_space c then ([], c ∷ s) else (c ∷ word, rest)

-- `stream >> word`. Where only white space is left the word is empty, and the next read fails.
abbrev pub read_word : Bytes → Bytes × Bytes
read_word s = split_word (skip_space s)

unfoldable pub split_digits : Bytes → Bytes × Bytes
unfolding is_decimal
split_digits [] = ([], [])
split_digits (c ∷ s) =
    let (some_digits, rest) = split_digits s in
    if is_decimal c then (c ∷ some_digits, rest) else ([], c ∷ s)

abbrev pub uint_max : ℕ
uint_max = 4294967295

-- The digits and the sign in front of them: a minus sign negates modulo 2 ^ 32.
unfoldable pub magnitude_of : Bool → Bytes → Option (ℕ × Bytes)
unfolding scan split_digits
magnitude_of negative s =
    let (found, rest) = split_digits s in
    let n = scan 0 found in
    if length found == 0
    then none
    else if ltb uint_max n
    then none
    else some ((if negative then (2 ^ 32 - n) % 2 ^ 32 else n), rest)

-- `stream >> n` of an `unsigned int`; `none`: the stream fails.
unfoldable pub read_unsigned : Bytes → Option (ℕ × Bytes)
unfolding magnitude_of skip_space
read_unsigned s = elim (skip_space s) [
  | [] ↦ none
  | c ∷ t ↦
      if c == b'-'
      then magnitude_of true t
      else if c == b'+'
      then magnitude_of false t
      else magnitude_of false (c ∷ t)
]
