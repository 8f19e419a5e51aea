-- ===== src/RequestParser/Chars.antt =====
-- The character classes of src/request_parser.cc.
use foxy_4_web_server.Base.{ℕ, ◌≡◌, arith, Bool, true, false, not, ◌&&◌, ◌||◌, leb, ◌==◌}
use foxy_4_web_server.Base.Int.{ℤ, pos, negsuc, char_to_int}

unfoldable pub is_char : ℤ → Bool
is_char (pos c) = leb c 127
is_char (negsuc c) = false

unfoldable pub is_ctl : ℤ → Bool
is_ctl (pos c) = leb c 31 || c == 127
is_ctl (negsuc c) = false

unfoldable pub is_tspecial : ℤ → Bool
is_tspecial (pos c) =
    c == b'('
    || c == b')'
    || c == b'<'
    || c == b'>'
    || c == b'@'
    || c == b','
    || c == b';'
    || c == b':'
    || c == b'\\'
    || c == b'"'
    || c == b'/'
    || c == b'['
    || c == b']'
    || c == b'?'
    || c == b'='
    || c == b'{'
    || c == b'}'
    || c == b' '
    || c == b'\t'
is_tspecial (negsuc c) = false

unfoldable pub is_digit : ℤ → Bool
is_digit (pos c) = leb b'0' c && leb c b'9'
is_digit (negsuc c) = false

-- `!is_char(input) || is_ctl(input) || is_tspecial(input)`
unfoldable pub refused : ℕ → Bool
unfolding is_char is_ctl is_tspecial char_to_int
refused input =
    not (is_char (char_to_int input))
    || is_ctl (char_to_int input)
    || is_tspecial (char_to_int input)

-- `is_ctl(input)`
unfoldable pub control : ℕ → Bool
unfolding is_ctl char_to_int
control input = is_ctl (char_to_int input)

-- `is_digit(input)`
unfoldable pub digit : ℕ → Bool
unfolding is_digit char_to_int
digit input = is_digit (char_to_int input)

-- `input == ' ' || input == '\t'`
unfoldable pub blank : ℕ → Bool
blank input = input == b' ' || input == b'\t'

pub token_lem :
    (c : ℕ)
    → refused c ≡ false
    → ((c == b' ') ≡ false) × ((c == b':') ≡ false) × ((c == b'\r') ≡ false) × (blank c ≡ false)
unfolding refused blank
token_lem c h = (ground arith, ground arith, ground arith, ground arith)

pub text_lem : (c : ℕ) → control c ≡ false → (c == b'\r') ≡ false
unfolding control
text_lem c h = ground arith

pub digit_lem : (c : ℕ) → digit c ≡ true → ((c == b'.') ≡ false) × ((c == b'\r') ≡ false)
unfolding digit
digit_lem c h = (ground arith, ground arith)

-- What may stand in a name may stand in a value.
pub token-control : (c : ℕ) → refused c ≡ false → control c ≡ false
unfolding refused control
token-control c h = ground arith
