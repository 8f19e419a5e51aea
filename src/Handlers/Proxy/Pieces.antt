-- ===== src/Handlers/Proxy/Pieces.antt =====
-- The reading of a text that comes in pieces: up to a line's end, wherever the pieces are cut.
use foxy_4_web_server.Base.{
  ◌==◌, Bool-cases, All, ◌≡◌, refl, ap₂, ◌∙◌, inl, inr, true, false, some, List, [], ◌∷◌, ◌++◌,
  append_assoc, append-nil, arith,
}
use foxy_4_web_server.Base.Bytes.{Bytes, codes, starts_with, contains}
use foxy_4_web_server.Handlers.Proxy.Stream.{read_until, concat}

-- No end of a line.
abbrev pub IsLine : Bytes → Type 0
IsLine = All (λ c. (c == b'\n') ≡ false)

-- The text of which the pieces are cut holds the delimiter: reading stops at a front of it that
-- does, and what is left is the rest.
pub read_until_found :
    (delimiter buffer : Bytes) (pieces : List Bytes)
    → contains (buffer ++ concat pieces) delimiter ≡ true
    → (found : Bytes) × (later : List Bytes) × (read_until delimiter buffer pieces
        ≡ some (found, later))
      × (contains found delimiter ≡ true)
      × (found ++ concat later ≡ buffer ++ concat pieces)
unfolding read_until
read_until_found delimiter buffer [] there =
    let whole : contains buffer delimiter ≡ true = rw (append-nil buffer) at there in
    (buffer, [], rw whole refl, whole, refl)
read_until_found delimiter buffer (piece ∷ pieces) there =
    elim (Bool-cases (contains buffer delimiter)) [
      | inl here ↦ (buffer, piece ∷ pieces, rw here refl, here, refl)
      | inr not_here ↦
          let (found, later, e, holds, rest) =
            read_until_found delimiter (buffer ++ piece) pieces
              (rw (append_assoc buffer piece) there) in
          (found, later, rw not_here e, holds, rest ∙ append_assoc buffer piece (concat pieces))
    ]

pub contains-append : (a t d : Bytes) → contains t d ≡ true → contains (a ++ t) d ≡ true
unfolding contains
contains-append [] t d h = h
contains-append (c ∷ a) t d h = ground (arith, contains-append a t d h)

pub not_at_end :
    (d line buffer rest tail : Bytes)
    → IsLine line
    → buffer ++ rest ≡ line ++ b'\r' ∷ b'\n' ∷ tail
    → starts_with buffer (b'\n' ∷ d) ≡ false
unfolding starts_with
not_at_end d line [] rest tail h e = refl
not_at_end d [] (y ∷ buffer) rest tail h e = let y_is : y ≡ b'\r' = cc e in rw y_is refl
not_at_end d (c ∷ line) (y ∷ buffer) rest tail (plain, h) e =
    let y_is : y ≡ c = cc e in rw (y_is, plain) refl

-- A front of a line and its end that holds an end of a line holds the line.
pub line_in_front :
    (d line buffer rest tail : Bytes)
    → IsLine line
    → contains buffer (b'\r' ∷ b'\n' ∷ d) ≡ true
    → buffer ++ rest ≡ line ++ b'\r' ∷ b'\n' ∷ tail
    → (back : Bytes) × (buffer ≡ line ++ back)
      × (contains back (b'\r' ∷ b'\n' ∷ d) ≡ true)
      × (back ++ rest ≡ b'\r' ∷ b'\n' ∷ tail)
unfolding contains starts_with
line_in_front d [] buffer rest tail h holds e = (buffer, refl, holds, e)
line_in_front d (c ∷ line) [] rest tail (plain, h) holds e = ground arith
line_in_front d (c ∷ line) (x ∷ buffer) rest tail (plain, h) holds e =
    let same_head : x ≡ c = cc e in
    let same_tail : buffer ++ rest ≡ line ++ b'\r' ∷ b'\n' ∷ tail = cc e in
    let inside : starts_with buffer (b'\n' ∷ d) ≡ false =
      not_at_end d line buffer rest tail h same_tail in
    let later : contains buffer (b'\r' ∷ b'\n' ∷ d) ≡ true = ground (arith, inside) in
    let (back, front, there, after) = line_in_front d line buffer rest tail h later same_tail in
    (back, ap₂ (λ y s. y ∷ s) same_head front, there, after)

-- The same with the end of the line.
pub line_with_end :
    (line buffer rest tail : Bytes)
    → IsLine line
    → contains buffer (codes "\r\n") ≡ true
    → buffer ++ rest ≡ line ++ b'\r' ∷ b'\n' ∷ tail
    → (back : Bytes) × (buffer ≡ line ++ b'\r' ∷ b'\n' ∷ back) × (back ++ rest ≡ tail)
unfolding contains starts_with
line_with_end line buffer rest tail h holds e =
    let (back, front, there, after) = line_in_front [] line buffer rest tail h holds e in
    ends_of back front there after
  where
    ends_of :
        (back : Bytes)
        → buffer ≡ line ++ back
        → contains back (codes "\r\n") ≡ true
        → back ++ rest ≡ b'\r' ∷ b'\n' ∷ tail
        → (s : Bytes) × (buffer ≡ line ++ b'\r' ∷ b'\n' ∷ s) × (s ++ rest ≡ tail)
    ends_of [] front there after = ground arith
    ends_of (x ∷ []) front there after = ground arith
    ends_of (x ∷ y ∷ s) front there after =
        let x_is : x ≡ b'\r' = cc after in
        let y_is : y ≡ b'\n' = cc after in
        let s_is : s ++ rest ≡ tail = cc after in (s, rw (x_is, y_is) at front, s_is)
