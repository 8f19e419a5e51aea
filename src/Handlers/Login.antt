-- ===== src/Handlers/Login.antt =====
-- src/login_request_handler.cc: the pages for signing up and in, over the table of the accounts.
pub mod Accounts
use foxy_4_web_server.Base.{
  ◌==◌, if◌then◌else◌, Bool, false, not, ◌&&◌, Option, none, some, [], ◌++◌,
}
use foxy_4_web_server.Base.Bytes.{Bytes, codes, same, contains, before_nul}
use foxy_4_web_server.Base.Dict.{put}
use foxy_4_web_server.Http.{Method, Request, StatusCode, Response}
use foxy_4_web_server.ResponseGenerator.{content_headers, stock_response}
use foxy_4_web_server.Forms.{extract_username, extract_password}
use foxy_4_web_server.Database.{
  sqlite_constraint, Libraries, check_password, db_insert, db_select_pass,
}

-- The members.
pub record LoginHandler : Type 0 where
  pub root : Bytes
  pub path : Bytes

-- The calls outside the program: the libraries of the table, the file of a name, and the token that
-- `Cookie::generate_cookie` signs for a user at the time of the world.
pub record Services (World : Type 0) : Type 0 where
  pub libraries : Libraries World
  pub open_file : Bytes → World → Option Bytes
  pub generate_cookie : Bytes → World → Bytes

abbrev pub is_signup : Request → Bool
is_signup request = contains request.uri (codes "signup")

module _ {World : Type 0} (o : Services World) where
  unfoldable pub prepare_html_response : LoginHandler → Bytes → World → Response
  prepare_html_response h file w = elim (o.open_file (before_nul (h.root ++ file)) w) [
    | none ↦ stock_response StatusCode.not_found
    | some content ↦ record {
      code = StatusCode.success;
      body = content;
      headers = content_headers content (codes "text/html");
    }
  ]

  unfoldable pub compare_password : Bytes → Bytes → World → Bool × World
  compare_password username password w =
      let (rc, hashed_password, w') = db_select_pass o.libraries username [] w in
      (check_password o.libraries password hashed_password, w')

  unfoldable pub signup : Bytes → Bytes → World → Bool × World
  signup username password w =
      let (rc, w') = db_insert o.libraries username password w in
      (not (rc == sqlite_constraint), w')

  -- The branch of a `POST` whose URI holds "signup".
  unfoldable pub handle_signup : LoginHandler → Bytes → Bytes → World → Response × World
  unfolding signup
  handle_signup h username password w =
      let (valid_signup, w') = signup username password w in
      if (not (same username []) && not (same password [])) && valid_signup
      then (prepare_html_response h (codes "signup/signup_success.html") w', w')
      else (prepare_html_response h (codes "signup/signup_failure.html") w', w')

  -- The response of a login, with the token in its `Set-Cookie`.
  unfoldable pub handle_login : LoginHandler → Bytes → Bytes → World → Response × World
  unfolding compare_password
  handle_login h username password w =
      let (matches, w') =
        if same username [] then (false, w) else compare_password username password w in
      if matches
      then (let response = prepare_html_response h (codes "login_success.html") w' in
          let cookie = codes "jwt=" ++ (o.generate_cookie username w' ++ codes "; Path=/") in
          (record response { headers = put (codes "Set-Cookie") cookie response.headers }, w'))
      else (prepare_html_response h (codes "login_failure.html") w', w')

  -- By the method of the request.
  unfoldable pub handle_method : Method → LoginHandler → Request → World → Response × World
  unfolding handle_signup handle_login
  handle_method Method.get h request w =
      if is_signup request
      then (prepare_html_response h (codes "signup/index.html") w, w)
      else (prepare_html_response h (codes "index.html") w, w)
  handle_method Method.post h request w =
      let username = extract_username request.body in
      let password = extract_password request.body in
      if is_signup request
      then handle_signup h username password w
      else handle_login h username password w
  handle_method _ h request w = (stock_response StatusCode.bad_request, w)

  abbrev pub handle_request : LoginHandler → Request → World → Response × World
  handle_request h request w = handle_method request.method h request w
