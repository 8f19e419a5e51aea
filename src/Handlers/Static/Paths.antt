-- ===== src/Handlers/Static/Paths.antt =====
-- The paths of src/static_request_handler.cc: the check, the replacement, the extension.
use foxy_4_web_server.Base.{
  ℕ, ◌+◌, Bool, false, not, ◌||◌, Option, none, some, [], ◌∷◌, ◌++◌, length, take, drop, ltb, ◌==◌,
  if◌then◌else◌,
}
use mathlib.Core.Option
use foxy_4_web_server.Base.Bytes.{Bytes, codes, find, contains, last?}
use foxy_4_web_server.Handlers.Static.Decode.{url_decode}

abbrev dots : Bytes
dots = codes ".."

-- `request_path[0] != '/'`, and the test that the path is empty
abbrev pub is_absolute : Bytes → Bool
is_absolute [] = false
is_absolute (c ∷ s) = c == b'/'

abbrev pub ends_in_slash : Bytes → Bool
ends_in_slash s = elim (last? s) [ none ↦ false | some c ↦ c == b'/' ]

-- The tests on the decoded path.
unfoldable pub check_decoded : Bytes → Option Bytes
check_decoded p =
    if not (is_absolute p) || contains p dots
    then none
    else some (if ends_in_slash p then p ++ codes "index.html" else p)

-- `none` is the result `false`.
unfoldable pub check_request_path : Bytes → Option Bytes
unfolding check_decoded
check_request_path request_uri = elim (url_decode request_uri) [
  | none ↦ none
  | some p ↦ check_decoded p
]

-- `request_path.replace(start_pos, path_.length(), root_)` at the first occurrence of `path_`.
unfoldable pub replace_path : Bytes → Bytes → Bytes → Option Bytes
replace_path path root request_path =
    Option.map (λ start. take start request_path ++ root ++ drop (start + length path) request_path)
      (find request_path path)

-- `s.find_last_of(c)` for one character
unfoldable pub find_last : ℕ → Bytes → Option ℕ
find_last c [] = none
find_last c (x ∷ s) = elim (find_last c s) [
  | some n ↦ some (n + 1)
  | none ↦ if x == c then some 0 else none
]

-- `npos` is above every position, so without a slash there is no extension.
unfoldable pub get_extension : Bytes → Bytes
unfolding find_last
get_extension p = elim (find_last b'.' p) [
  | none ↦ []
  | some dot ↦ elim (find_last b'/' p) [
    | none ↦ []
    | some slash ↦ if ltb slash dot then drop (dot + 1) p else []
  ]
]
