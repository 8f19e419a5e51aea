-- ===== src/Handlers/Static.antt =====
-- src/static_request_handler.cc: files under a root, behind an optional cookie check.
pub mod Decode
pub mod Paths
pub mod Safety
pub mod Encoding
pub mod Files
use foxy_4_web_server.Base.{
  ℕ, Bool, true, false, not, ◌&&◌, Option, none, some, List, [], ◌∷◌, ◌++◌, length, drop, ◌==◌,
  if◌then◌else◌,
}
use foxy_4_web_server.Base.Bytes.{Bytes, codes, starts_with, same, before_nul}
use foxy_4_web_server.Base.Dict.{put, get_or}
use foxy_4_web_server.Base.Text.{to_string}
use foxy_4_web_server.Boost.{Boost}
use foxy_4_web_server.Handlers.Static.Paths.{check_request_path, replace_path, get_extension}
use foxy_4_web_server.Http.{Request, Response, StatusCode}
use foxy_4_web_server.MimeTypes.{extension_to_type}
use foxy_4_web_server.ResponseGenerator.{content_headers, stock_response}

-- The members.
pub record StaticHandler : Type 0 where
  pub root : Bytes
  pub path : Bytes
  pub auth_path : Bytes

-- What the handler asks of the outside: the file of a name, if it opens, and whether
-- `Cookie::verify_cookie` accepts a token.
pub record Outside : Type 0 where
  pub open_file : Bytes → Option Bytes
  pub verify_cookie : Bytes → Bool

-- The loop over the cookies: the text behind the first `jwt=`.
unfoldable pub find_jwt : List Bytes → Bytes
find_jwt [] = []
find_jwt (cookie ∷ cookies) =
    if starts_with cookie (codes "jwt=") then drop 4 cookie else find_jwt cookies

unfoldable pub check_cookie : ⦃b : Boost⦄ → Outside → Bytes → Bool
unfolding find_jwt
check_cookie ⦃b⦄ o cookie_string = o.verify_cookie (find_jwt (b.split cookie_string (codes "; ")))

-- The headers of a redirect without a body, written one after the other.
unfoldable pub redirect_to : Bytes → Response
unfolding content_headers
redirect_to location = record {
  code = StatusCode.moved_temporarily;
  body = [];
  headers =
      put (codes "Location") location
        (put (codes "Connection") (codes "close") (content_headers [] (codes "text/plain")));
}

unfoldable pub prepare_redirect : StaticHandler → Response
unfolding redirect_to
prepare_redirect h = redirect_to h.auth_path

-- What follows the checks: the file of the path, under its extension's type. `ifstream` takes the
-- path as a C string.
unfoldable pub send_file : Outside → Bytes → Response
send_file o request_path = elim (o.open_file (before_nul request_path)) [
  | none ↦ stock_response StatusCode.not_found
  | some content ↦ record {
    code = StatusCode.success;
    body = content;
    headers = content_headers content (extension_to_type (get_extension request_path));
  }
]

abbrev pub or_slash : Bytes → Bytes
or_slash p = if same p [] then codes "/" else p

-- `replace_path` and what follows it.
unfoldable pub serve_path : StaticHandler → Outside → Bytes → Response
serve_path h o request_path = elim (replace_path h.path h.root (or_slash request_path)) [
  | none ↦ stock_response StatusCode.internal_server_error
  | some p ↦ send_file o p
]

-- `auth_path_.length() && !check_cookie(cookie_string)`
unfoldable pub wants_login : ⦃b : Boost⦄ → StaticHandler → Outside → Request → Bool
wants_login h o request =
    not (length h.auth_path == 0)
    && not (check_cookie o (get_or (codes "Cookie") [] request.headers))

unfoldable pub handle_request : ⦃b : Boost⦄ → StaticHandler → Outside → Request → Response
handle_request h o request =
    if wants_login h o request then prepare_redirect h else elim (check_request_path request.uri) [
      | none ↦ stock_response StatusCode.bad_request
      | some request_path ↦ serve_path h o request_path
    ]
