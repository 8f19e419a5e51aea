-- ===== src/Forms.antt =====
-- src/login_request_handler.cc: the fields of a form, by the regular expressions
-- "username=(.*?)&" and "password=(.*?)(&|$)", both without regard to case.
pub mod Fields
use mathlib.Core.Option
use foxy_4_web_server.Base.{
  leb, ◌==◌, if◌then◌else◌, length, drop, ℕ, ◌+◌, Bool, true, false, ◌&&◌, ◌||◌, Option, none, some,
  [], ◌∷◌,
}
use foxy_4_web_server.Base.Bytes.{Bytes, codes}

-- A letter in lower case, in the "C" locale.
unfoldable pub lower : ℕ → ℕ
lower c = if leb b'A' c && leb c b'Z' then c + 32 else c

-- The text begins with a key in lower case, without regard to case.
unfoldable pub starts_with_key : Bytes → Bytes → Bool
unfolding lower
starts_with_key s [] = true
starts_with_key [] (k ∷ key) = false
starts_with_key (c ∷ s) (k ∷ key) = lower c == k && starts_with_key s key

-- What `.` does not stand for.
unfoldable pub is_line_end : ℕ → Bool
is_line_end c = c == b'\n' || c == b'\r'

-- `(.*?)&`: the group.
unfoldable pub until_ampersand : Bytes → Option Bytes
unfolding is_line_end
until_ampersand [] = none
until_ampersand (c ∷ s) =
    let rest = Option.map (λ t. c ∷ t) (until_ampersand s) in
    if c == b'&' then some [] else if is_line_end c then none else rest

-- `(.*?)(&|$)`: the first group.
unfoldable pub until_end : Bytes → Option Bytes
unfolding is_line_end
until_end [] = some []
until_end (c ∷ s) =
    let rest = Option.map (λ t. c ∷ t) (until_end s) in
    if c == b'&' then some [] else if is_line_end c then none else rest

-- The group of the first place at which the key and what follows it match.
unfoldable pub search_group : (Bytes → Option Bytes) → Bytes → Bytes → Option Bytes
unfolding starts_with_key
search_group group key [] = if starts_with_key [] key then group [] else none
search_group group key (c ∷ s) =
    let rest = search_group group key s in
    let here : Option Bytes = elim (group (drop (length key) (c ∷ s))) [
      | none ↦ rest
      | some g ↦ some g
    ] in
    if starts_with_key (c ∷ s) key then here else rest

-- The group of the first match, and the empty text where there is none.
abbrev group_or_empty : Option Bytes → Bytes
group_or_empty none = []
group_or_empty (some g) = g

unfoldable pub extract_username : Bytes → Bytes
unfolding search_group until_ampersand
extract_username text = group_or_empty (search_group until_ampersand (codes "username=") text)

unfoldable pub extract_password : Bytes → Bytes
unfolding search_group until_end
extract_password text = group_or_empty (search_group until_end (codes "password=") text)
