-- ===== src/Utility.antt =====
-- src/utility.cc
pub mod ContentLength
pub mod Quoted
use foxy_4_web_server.Base.{
  ℕ, ◌-◌, Bool, true, false, not, ◌||◌, Option, none, some, List, [], ◌∷◌, ◌++◌, Outcome, ok,
  throws, out_of_range, ◌>>=◌, ◌==◌, if◌then◌else◌,
}
use foxy_4_web_server.Base.Bytes.{Bytes, codes, drop_last, same}
use foxy_4_web_server.Base.Dict.{lookup, insert, get_or}
use foxy_4_web_server.Base.Int.{ℤ, pos}
use foxy_4_web_server.Base.Text.{stoi}
use foxy_4_web_server.Boost.{Boost}
use foxy_4_web_server.Http.{Request}

-- `s->erase(s->size() - 1)`: on the empty string the position is past the end.
unfoldable pub erase_last : Bytes → Outcome Bytes
erase_last [] = throws out_of_range
erase_last (x ∷ s) = ok (drop_last (x ∷ s))

-- `if (!ends_with(*s, "/")) *s += "/"`
unfoldable pub with_slash : ⦃b : Boost⦄ → Bytes → Bytes
with_slash ⦃b⦄ s = if b.ends_with s (codes "/") then s else s ++ b'/' ∷ []

abbrev rest_of : Bytes → Bytes
rest_of [] = []
rest_of (x ∷ s) = s

-- The result, and the string that `*s` holds afterwards.
unfoldable pub is_quoted : ⦃b : Boost⦄ → Bytes → Outcome (Bool × Bytes)
unfolding erase_last with_slash
is_quoted ⦃b⦄ s =
    if not (b.starts_with s (codes "\"")) || not (b.ends_with s (codes "\""))
    then ok (false, s)
    else (do inner ← erase_last (rest_of s); ok (true, with_slash inner))

abbrev pub content_length_key : Bytes
content_length_key = codes "Content-Length"

-- The number, and the request: `headers_["Content-Length"]` enters the key where it is missing.
unfoldable pub get_content_length : Request → Outcome (ℤ × Request)
get_content_length request =
    let found = get_or content_length_key [] request.headers in
    let seen = record request { headers = insert content_length_key [] request.headers } in
    if same found [] then ok (pos 0, seen) else (do n ← stoi found; ok (n, seen))
