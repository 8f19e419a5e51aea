-- ===== src/Handlers/Static/Encoding.antt =====
-- `url_decode` on text with escapes.
use mathlib.Core.Option
use foxy_4_web_server.Base.{some}
use foxy_4_web_server.Base.{
  ltb, ◌==◌, if◌then◌else◌, Bool-cases, All, ℕ, ◌+◌, ◌-◌, ◌*◌, ◌/◌, ◌%◌, ◌<◌, ◌≡◌, refl, ap, ◌∙◌,
  inl, inr, Bool, true, false, not, ◌&&◌, some, [], ◌∷◌, ◌++◌, append_assoc, append-nil, arith,
}
use foxy_4_web_server.Base.Bytes.{Bytes}
use foxy_4_web_server.Base.Int.{pos}
use foxy_4_web_server.Base.Text.{is_decimal, is_space}
use foxy_4_web_server.Handlers.Static.Decode.{
  is_hex, hex_value, hex_digits, hex_signed, hex_pair, as_char, plain_char, decode_loop, url_decode,
}

-- A digit in base 16.
unfoldable hex_digit : ℕ → ℕ
hex_digit d = if ltb d 10 then b'0' + d else b'A' + (d - 10)

-- A byte as it is, where `keep` says so and it means no other, or as an escape.
unfoldable escape : (ℕ → Bool) → ℕ → Bytes
unfolding hex_digit
escape keep c =
    if keep c && not (c == b'%') && not (c == b'+')
    then c ∷ []
    else b'%' ∷ hex_digit (c / 16) ∷ hex_digit (c % 16) ∷ []

-- A reference encoder, for any choice of the bytes that it leaves.
unfoldable pub url_encode : (ℕ → Bool) → Bytes → Bytes
unfolding escape
url_encode keep [] = []
url_encode keep (c ∷ s) = escape keep c ++ url_encode keep s

hex_digit-is_hex : (d : ℕ) → d < 16 → is_hex (hex_digit d) ≡ true
unfolding is_hex hex_digit is_decimal
hex_digit-is_hex d h = ground arith

hex_value-hex_digit : (d : ℕ) → d < 16 → hex_value (hex_digit d) ≡ d
unfolding hex_value hex_digit is_decimal
hex_value-hex_digit d h = ground arith

-- A digit is no white space, no sign and no `x`.
hex_digit_other :
    (d : ℕ)
    → d < 16
    → (is_space (hex_digit d) ≡ false)
      × ((hex_digit d == b'-') ≡ false)
      × ((hex_digit d == b'+') ≡ false)
      × ((hex_digit d == b'x') ≡ false)
      × ((hex_digit d == b'X') ≡ false)
unfolding is_space hex_digit
hex_digit_other d h = (ground arith, ground arith, ground arith, ground arith, ground arith)

-- Two digits, of which the second is no `x`.
hex_digits_two :
    (a b : ℕ)
    → is_hex a ≡ true
    → is_hex b ≡ true
    → (b == b'x') ≡ false
    → (b == b'X') ≡ false
    → hex_digits (a ∷ b ∷ []) ≡ some (hex_value a * 16 + hex_value b)
unfolding hex_digits
hex_digits_two a b h k x big_x = rw (hex_digits, x, big_x, h, k) (ground arith)

hex_signed_plain :
    (c : ℕ) (cs : Bytes)
    → (c == b'-') ≡ false
    → (c == b'+') ≡ false
    → hex_signed (c ∷ cs) ≡ Option.map pos (hex_digits (c ∷ cs))
unfolding hex_signed
hex_signed_plain c cs minus plus = rw (hex_signed, minus, plus) refl

hex_pair-hex_digit :
    (a b : ℕ) → a < 16 → b < 16 → hex_pair (hex_digit a) (hex_digit b) ≡ some (pos (a * 16 + b))
unfolding hex_pair
hex_pair-hex_digit a b h k =
    let (space, minus, plus, _, _) = hex_digit_other a h in
    let (_, _, _, x, big_x) = hex_digit_other b k in
    let two =
      hex_digits_two (hex_digit a) (hex_digit b) (hex_digit-is_hex a h) (hex_digit-is_hex b k) x
        big_x in
    rw
      (
        hex_pair,
        space,
        hex_signed_plain (hex_digit a) (hex_digit b ∷ []) minus plus,
        two,
        hex_value-hex_digit a h,
        hex_value-hex_digit b k,
      )
      refl

decode_loop_kept :
    (out : Bytes) (c : ℕ) (cs : Bytes)
    → (c == b'%') ≡ false
    → decode_loop out (c ∷ cs) ≡ decode_loop (out ++ plain_char c ∷ []) cs
unfolding decode_loop
decode_loop_kept out c [] h = rw h refl
decode_loop_kept out c (a ∷ []) h = rw h refl
decode_loop_kept out c (a ∷ b ∷ cs) h = rw h refl

decode_escape :
    (out : Bytes) (c : ℕ) (cs : Bytes)
    → c < 256
    → decode_loop out (b'%' ∷ hex_digit (c / 16) ∷ hex_digit (c % 16) ∷ cs)
      ≡ decode_loop (out ++ c ∷ []) cs
unfolding decode_loop as_char
decode_escape out c cs h =
    let value : c / 16 * 16 + c % 16 ≡ c = omega arith in
    let byte : c % 256 ≡ c = omega arith in
    rw (decode_loop, hex_pair-hex_digit (c / 16) (c % 16) (omega arith) (omega arith), value, byte)
      refl

decode_loop-escape :
    (keep : ℕ → Bool) (out : Bytes) (c : ℕ) (cs : Bytes)
    → c < 256
    → decode_loop out (escape keep c ++ cs) ≡ decode_loop (out ++ c ∷ []) cs
unfolding decode_loop escape
decode_loop-escape keep out c cs h =
    elim (Bool-cases (keep c && not (c == b'%') && not (c == b'+'))) [
      | inl kept ↦
          let percent : (c == b'%') ≡ false = ground arith in
          let plus : (c == b'+') ≡ false = ground arith in
          rw (escape, kept, decode_loop_kept out c cs percent, plus) refl
      | inr escaped ↦ rw (escape, escaped) (decode_escape out c cs h)
    ]

decode_loop-url_encode :
    (keep : ℕ → Bool) (out s : Bytes)
    → All (λ c. c < 256) s
    → decode_loop out (url_encode keep s) ≡ some (out ++ s)
unfolding url_encode decode_loop
decode_loop-url_encode keep out [] h = rw (append-nil out) refl
decode_loop-url_encode keep out (c ∷ s) (byte, h) =
    decode_loop-escape keep out c (url_encode keep s) byte
    ∙ decode_loop-url_encode keep (out ++ c ∷ []) s h
    ∙ ap some (append_assoc out (c ∷ []) s)

-- Text that was encoded, whichever bytes were left as they are, is decoded to itself.
pub url_decode-url_encode :
    (keep : ℕ → Bool) (s : Bytes) → All (λ c. c < 256) s → url_decode (url_encode keep s) ≡ some s
unfolding url_decode
url_decode-url_encode keep s h = decode_loop-url_encode keep [] s h
