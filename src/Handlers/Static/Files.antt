-- ===== src/Handlers/Static/Files.antt =====
-- The files that the static handler sends.

use foxy_4_web_server.Base.{some, refl}
use foxy_4_web_server.Http.{Request, StatusCode}
use foxy_4_web_server.Base.{
  if◌then◌else◌, Bool-cases, drop-length_append, All, ℕ, ◌<◌, ◌≡◌, refl, ap, ◌∙◌, inl, inr, Bool,
  true, some, [], ◌∷◌, ◌++◌, append_assoc, arith,
}
use foxy_4_web_server.Base.Bytes.{Bytes, codes, same, before_nul, starts_with-append}
use foxy_4_web_server.Base.Bytes.Occurs.{HasNoDots}
use foxy_4_web_server.Boost.{Boost}
use foxy_4_web_server.MimeTypes.{extension_to_type}
use foxy_4_web_server.ResponseGenerator.{content_headers}
use foxy_4_web_server.Handlers.Static.{
  Outside, send_file, or_slash, serve_path, wants_login, handle_request,
}
use foxy_4_web_server.Handlers.Static.Encoding.{url_encode, url_decode-url_encode}
use foxy_4_web_server.Handlers.Static.Paths.{
  is_absolute, ends_in_slash, check_decoded, check_request_path, replace_path, get_extension,
}
use foxy_4_web_server.Handlers.Static.Safety.{check_request_path-IsChecked, replace_path-prefix}

-- The name of a file below a directory; a name that ends in a slash is that of a directory, with
-- its index.
abbrev pub file_name : Bytes → Bytes
file_name p = if ends_in_slash p then p ++ codes "index.html" else p

-- A path below a location: bytes, absolute and without `..`.
pub record IsLocal (p : Bytes) : Type 0 where
  pub bytes : All (λ c. c < 256) p
  pub absolute : is_absolute p ≡ true
  pub no_dots : HasNoDots p

check_request_path-url_encode :
    (keep : ℕ → Bool) (p : Bytes)
    → IsLocal p
    → check_request_path (url_encode keep p) ≡ some (file_name p)
unfolding check_request_path check_decoded
check_request_path-url_encode keep p w =
    rw (check_request_path, url_decode-url_encode keep p w.bytes, w.absolute, w.no_dots) refl

-- What stands for the rest of a path below the location `path`.
abbrev rest_below : Bytes → Bytes → Bytes
rest_below path rest = if ends_in_slash (path ++ rest) then rest ++ codes "index.html" else rest

-- The name of the file below the root.
abbrev pub file_below : Bytes → Bytes → Bytes → Bytes
file_below root path rest = root ++ rest_below path rest

file_name-append : (path rest : Bytes) → file_name (path ++ rest) ≡ path ++ rest_below path rest
file_name-append path rest = elim (Bool-cases (ends_in_slash (path ++ rest))) [
  | inl slash ↦ rw (slash, append_assoc path rest) refl
  | inr file ↦ rw file refl
]

or_slash_absolute : (p : Bytes) → is_absolute p ≡ true → or_slash p ≡ p
unfolding same
or_slash_absolute [] h = absurd (ground arith)
or_slash_absolute (c ∷ p) h = refl

-- The location in front of the name goes to the root.
replaced : (path root tail : Bytes) → replace_path path root (path ++ tail) ≡ some (root ++ tail)
replaced path root tail =
    replace_path-prefix path root (path ++ tail) (starts_with-append path tail)
    ∙ ap (λ t. some (root ++ t)) (drop-length_append path tail)

-- A request of an encoded path below the location of a handler without a login is answered by the
-- file of that path below the root.
pub handle_request-file :
    ⦃b : Boost⦄ (root path rest content : Bytes) (o : Outside) (keep : ℕ → Bool) (r : Request)
    → IsLocal (path ++ rest)
    → r.uri ≡ url_encode keep (path ++ rest)
    → o.open_file (before_nul (file_below root path rest)) ≡ some content
    → handle_request (record { root = root; path = path; auth_path = [] }) o r ≡ record {
      code = StatusCode.success;
      body = content;
      headers =
          content_headers content (extension_to_type (get_extension (file_below root path rest)));
    }
unfolding handle_request wants_login serve_path send_file
handle_request-file root path rest content o keep r w asked found =
    let checked = check_request_path-url_encode keep (path ++ rest) w in
    let fine = check_request_path-IsChecked _ (file_name (path ++ rest)) checked in
    rw (asked, checked)
      (sends (file_name (path ++ rest)) (file_name-append path rest) fine.absolute)
  where
    sends :
        (p : Bytes)
        → p ≡ path ++ rest_below path rest
        → is_absolute p ≡ true
        → serve_path (record { root = root; path = path; auth_path = [] }) o p ≡ record {
          code = StatusCode.success;
          body = content;
          headers =
              content_headers content
                (extension_to_type (get_extension (file_below root path rest)));
        }
    sends p split absolute =
        rw
          (
            serve_path,
            or_slash_absolute p absolute,
            split,
            replaced path root (rest_below path rest),
            send_file,
            found,
          )
          refl
