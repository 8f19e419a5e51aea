-- ===== src/Handlers/Static/Decode.antt =====
-- `url_decode` of src/static_request_handler.cc.
use foxy_4_web_server.Base.{
  ℕ, ◌+◌, ◌-◌, ◌*◌, ◌%◌, Bool, ◌&&◌, ◌||◌, Option, none, some, [], ◌∷◌, ◌++◌, leb, ◌==◌,
  if◌then◌else◌,
}
use mathlib.Core.Option
use foxy_4_web_server.Base.Bytes.{Bytes}
use foxy_4_web_server.Base.Int.{ℤ, pos, negsuc, neg}
use foxy_4_web_server.Base.Text.{is_space, is_decimal}

unfoldable pub is_hex : ℕ → Bool
unfolding is_decimal
is_hex c = is_decimal c || (leb b'a' c && leb c b'f') || (leb b'A' c && leb c b'F')

unfoldable pub hex_value : ℕ → ℕ
unfolding is_decimal
hex_value c = if is_decimal c then c - b'0' else if leb b'a' c then c - b'a' + 10 else c - b'A' + 10

-- The digits at the front of at most two bytes, as `>> std::hex` reads them: there is a first
-- digit, what follows the digits is left alone, and `0x` alone is the mark of a number without
-- digits.
unfoldable pub hex_digits : Bytes → Option ℕ
unfolding is_hex hex_value
hex_digits [] = none
hex_digits (a ∷ []) = if is_hex a then some (hex_value a) else none
hex_digits (a ∷ b ∷ _) =
    if a == b'0' && (b == b'x' || b == b'X')
    then none
    else if is_hex a
    then some (if is_hex b then hex_value a * 16 + hex_value b else hex_value a)
    else none

-- A sign and digits.
unfoldable pub hex_signed : Bytes → Option ℤ
unfolding hex_digits neg
hex_signed [] = none
hex_signed (c ∷ cs) =
    if c == b'-'
    then Option.map neg (hex_digits cs)
    else if c == b'+'
    then Option.map pos (hex_digits cs)
    else Option.map pos (hex_digits (c ∷ cs))

-- `is >> std::hex >> value` on a stream of the two bytes; white space in front is skipped.
unfoldable pub hex_pair : ℕ → ℕ → Option ℤ
unfolding hex_signed is_space
hex_pair a b =
    if is_space a
    then (if is_space b then none else hex_signed (b ∷ []))
    else hex_signed (a ∷ b ∷ [])

-- `static_cast<char>(value)`, as a byte
unfoldable pub as_char : ℤ → ℕ
as_char (pos n) = n % 256
as_char (negsuc n) = 255 - n % 256

-- A byte that is no `%`.
abbrev pub plain_char : ℕ → ℕ
plain_char c = if c == b'+' then b' ' else c

-- The loop; `none` is the result `false`.
unfoldable pub decode_loop : Bytes → Bytes → Option Bytes
unfolding hex_pair as_char
decode_loop out [] = some out
decode_loop out (c ∷ []) = if c == b'%' then none else some (out ++ plain_char c ∷ [])
decode_loop out (c ∷ a ∷ []) =
    let more = decode_loop (out ++ plain_char c ∷ []) (a ∷ []) in if c == b'%' then none else more
decode_loop out (c ∷ a ∷ b ∷ cs) =
    let more = decode_loop (out ++ plain_char c ∷ []) (a ∷ b ∷ cs) in
    if c == b'%'
    then elim (hex_pair a b) [
      | none ↦ none
      | some value ↦ decode_loop (out ++ as_char value ∷ []) cs
    ]
    else more

unfoldable pub url_decode : Bytes → Option Bytes
unfolding decode_loop
url_decode s = decode_loop [] s
