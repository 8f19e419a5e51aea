-- ===== src/Utility/ContentLength.antt =====
-- `get_content_length` on a request that has the header.
use foxy_4_web_server.Base.{ℕ, some, ◌∷◌, ◌≡◌, ok, throws, Exception, ◌>>=◌}
use foxy_4_web_server.Base.Bytes.{Bytes, same}
use foxy_4_web_server.Base.Dict.{lookup, insert, get_or}
use foxy_4_web_server.Base.Text.{stoi}
use foxy_4_web_server.Http.{Request}
use foxy_4_web_server.Utility.{get_content_length, content_length_key}

-- The header's conversion decides, and the request stays as it is.
pub get_content_length_found :
    (r : Request) {c : ℕ} {v : Bytes}
    → lookup content_length_key r.headers ≡ some (c ∷ v)
    → get_content_length r ≡ (do n ← stoi (c ∷ v); ok (n, r))
unfolding get_content_length get_or insert same
get_content_length_found r e = rw (e, get_or, insert)

pub get_content_length_throws :
    (r : Request) {c : ℕ} {v : Bytes} {x : Exception}
    → lookup content_length_key r.headers ≡ some (c ∷ v)
    → stoi (c ∷ v) ≡ throws x
    → get_content_length r ≡ throws x
get_content_length_throws r e t = rw (get_content_length_found r e, t)
