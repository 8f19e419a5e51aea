-- ===== src/Handlers/Framed.antt =====
-- The sizes of the bodies that the handlers send.
use foxy_4_web_server.Base.{
  Bool, true, false, if◌then◌else◌, [], ◌++◌, ◌==◌, Bool-cases, Option-cases, inl, inr,
}
use foxy_4_web_server.Base.Bytes.{Bytes, codes, same, before_nul}
use foxy_4_web_server.Base.Dict.{put, lookup-put}
use foxy_4_web_server.Boost.{Boost}
use foxy_4_web_server.DataCollector.{DataCollector}
use foxy_4_web_server.Handlers.Echo
use foxy_4_web_server.Handlers.Echo.{convert_to_rawbody}
use foxy_4_web_server.Handlers.Health
use foxy_4_web_server.Handlers.Login
use foxy_4_web_server.Handlers.Login.{
  LoginHandler, Services, is_signup, prepare_html_response, handle_signup, handle_login,
  handle_method,
}
use foxy_4_web_server.Handlers.NotFound
use foxy_4_web_server.Handlers.Static
use foxy_4_web_server.Handlers.Static.{
  StaticHandler, Outside, redirect_to, prepare_redirect, send_file, serve_path, wants_login,
  or_slash,
}
use foxy_4_web_server.Handlers.Static.Paths.{get_extension, check_request_path, replace_path}
use foxy_4_web_server.Handlers.Status
use foxy_4_web_server.Handlers.Status.{create_body}
use foxy_4_web_server.HttpSession
use foxy_4_web_server.HttpSession.{first_char}
use foxy_4_web_server.MimeTypes.{extension_to_type}
use foxy_4_web_server.Http.{StatusCode, Method, Request, Response}
use foxy_4_web_server.ResponseGenerator.{stock_response}
use foxy_4_web_server.ResponseGenerator.Stock.{
  IsFramed, content_headers-length, stock_response-IsFramed,
}
use foxy_4_web_server.Utility.{content_length_key}

redirect_to-IsFramed : (location : Bytes) → IsFramed (redirect_to location)
unfolding redirect_to same
redirect_to-IsFramed location =
    rw
      (
        lookup-put (codes "Location") content_length_key,
        lookup-put (codes "Connection") content_length_key,
      )
      (content_headers-length [] (codes "text/plain"))

stock-IsFramed : (status : StatusCode) → IsFramed (stock_response status)
stock-IsFramed status = (stock_response-IsFramed status).1

send_file-IsFramed : (o : Outside) (p : Bytes) → IsFramed (send_file o p)
unfolding send_file
send_file-IsFramed o p = elim (Option-cases (o.open_file (before_nul p))) [
  | inl missing ↦ rw (send_file, missing) (stock-IsFramed StatusCode.not_found)
  | inr (content, found) ↦
      rw (send_file, found) (content_headers-length content (extension_to_type (get_extension p)))
]

serve_path-IsFramed : (h : StaticHandler) (o : Outside) (p : Bytes) → IsFramed (serve_path h o p)
unfolding serve_path
serve_path-IsFramed h o p = elim (Option-cases (replace_path h.path h.root (or_slash p))) [
  | inl foreign ↦ rw (serve_path, foreign) (stock-IsFramed StatusCode.internal_server_error)
  | inr (name, replaced) ↦ rw (serve_path, replaced) (send_file-IsFramed o name)
]

static-IsFramed :
    ⦃b : Boost⦄ (h : StaticHandler) (o : Outside) (r : Request)
    → IsFramed (Static.handle_request h o r)
unfolding Static.handle_request prepare_redirect
static-IsFramed h o r = elim (Bool-cases (wants_login h o r)) [
  | inl login ↦ rw (Static.handle_request, login) (redirect_to-IsFramed h.auth_path)
  | inr on ↦ elim (Option-cases (check_request_path r.uri)) [
    | inl refused ↦ rw (Static.handle_request, on, refused) (stock-IsFramed StatusCode.bad_request)
    | inr (p, checked) ↦ rw (Static.handle_request, on, checked) (serve_path-IsFramed h o p)
  ]
]

redirect-IsFramed :
    (hostname : Bytes) (r : Request) → IsFramed (HttpSession.handle_request hostname r)
unfolding HttpSession.handle_request
redirect-IsFramed hostname r = elim (Bool-cases (first_char r.uri == b'/')) [
  | inl absolute ↦
      rw (HttpSession.handle_request, absolute)
        (redirect_to-IsFramed (codes "https://" ++ hostname ++ r.uri))
  | inr other ↦ rw (HttpSession.handle_request, other) (stock-IsFramed StatusCode.bad_request)
]

page-IsFramed :
    {World : Type 0} (o : Services World) (h : LoginHandler) (file : Bytes) (w : World)
    → IsFramed (prepare_html_response o h file w)
unfolding prepare_html_response
page-IsFramed o h file w = elim (Option-cases (o.open_file (before_nul (h.root ++ file)) w)) [
  | inl missing ↦ rw (prepare_html_response, missing) (stock-IsFramed StatusCode.not_found)
  | inr (content, found) ↦
      rw (prepare_html_response, found) (content_headers-length content (codes "text/html"))
]

cookie-IsFramed :
    (r : Response) (cookie : Bytes)
    → IsFramed r
    → IsFramed (record r { headers = put (codes "Set-Cookie") cookie r.headers })
unfolding same
cookie-IsFramed r cookie framed = rw (lookup-put (codes "Set-Cookie") content_length_key) framed

if-IsFramed :
    {World : Type 0} (b : Bool) (x y : Response × World)
    → IsFramed x.0
    → IsFramed y.0
    → IsFramed (if b then x else y).0
if-IsFramed true x y h k = h
if-IsFramed false x y h k = k

login-IsFramed :
    {World : Type 0} (o : Services World) (m : Method) (h : LoginHandler) (r : Request) (w : World)
    → IsFramed (handle_method o m h r w).0
unfolding handle_method handle_signup handle_login
login-IsFramed o Method.get h r w =
    if-IsFramed (is_signup r) _ _ (page-IsFramed o h (codes "signup/index.html") w)
      (page-IsFramed o h (codes "index.html") w)
login-IsFramed o Method.post h r w =
    if-IsFramed (is_signup r) _ _
      (if-IsFramed _ _ _ (page-IsFramed o h (codes "signup/signup_success.html") _)
        (page-IsFramed o h (codes "signup/signup_failure.html") _))
      (if-IsFramed _ _ _
        (cookie-IsFramed (prepare_html_response o h (codes "login_success.html") _) _
          (page-IsFramed o h (codes "login_success.html") _))
        (page-IsFramed o h (codes "login_failure.html") _))
login-IsFramed o Method.put h r w = stock-IsFramed StatusCode.bad_request
login-IsFramed o Method.unknown h r w = stock-IsFramed StatusCode.bad_request

-- Every response of the handlers for echo, health, status, unknown paths, files and logins, and of
-- the redirecting session, gives the size of its body in its `Content-Length`, on every branch.
pub handle_request-IsFramed :
    ⦃b : Boost⦄ (h : StaticHandler) (o : Outside) (c : DataCollector) (hostname : Bytes)
    {World : Type 0} (services : Services World) (pages : LoginHandler) (w : World) (r : Request)
    → IsFramed (Echo.handle_request r)
      × IsFramed (Health.handle_request r)
      × IsFramed (Status.handle_request c r)
      × IsFramed (NotFound.handle_request r)
      × IsFramed (Static.handle_request h o r)
      × IsFramed (Login.handle_request services pages r w).0
      × IsFramed (HttpSession.handle_request hostname r)
unfolding Echo.handle_request Health.handle_request Status.handle_request NotFound.handle_request
handle_request-IsFramed h o c hostname services pages w r = (
  content_headers-length (convert_to_rawbody r) (codes "text/plain"),
  content_headers-length (codes "OK") (codes "text/plain"),
  content_headers-length (create_body c) (codes "text/html"),
  stock-IsFramed StatusCode.not_found,
  static-IsFramed h o r,
  login-IsFramed services r.method pages r w,
  redirect-IsFramed hostname r,
)
