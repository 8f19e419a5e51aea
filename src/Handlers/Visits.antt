-- ===== src/Handlers/Visits.antt =====
-- A client that signs in and then asks for files: the login handler, the cookie and the static handler.
use foxy_4_web_server.Handlers.Static
use foxy_4_web_server.Handlers.Login
use foxy_4_web_server.Base.{some, none, refl, true, false}
use foxy_4_web_server.Base.{
  Bool, ◌==◌, if◌then◌else◌, length, All, All-map, ℕ, ◌≡◌, refl, ap, ◌∙◌, true, false, not, ◌&&◌,
  Option, none, some, List, [], ◌∷◌, ◌++◌, arith,
}
use foxy_4_web_server.Base.Bytes.{Bytes, codes, same, same_refl, starts_with}
use foxy_4_web_server.Base.Dict.{lookup, get_or, lookup-put}
use foxy_4_web_server.Boost.{holds, Boost}
use foxy_4_web_server.Cookie.{Jwt, secret, generate_cookie, verify_cookie}
use foxy_4_web_server.Cookie.Lifetime.{
  IsCookieByte, IsJwt, is_current, verify_cookie-generate_cookie,
}
use foxy_4_web_server.Database.Table.{IsTable}
use foxy_4_web_server.Handlers.Static.{
  StaticHandler, Outside, find_jwt, check_cookie, prepare_redirect, serve_path, wants_login,
}
use foxy_4_web_server.Handlers.Login.{LoginHandler, Services, is_signup, prepare_html_response}
use foxy_4_web_server.Handlers.Login.Accounts.{logged_in, handle_all, IsForm, login_after_signup}
use foxy_4_web_server.Http.{Request, Response}

-- The static handler's calls outside, at a time.
abbrev pub outside_at : Jwt → (Bytes → Option Bytes) → ℕ → Outside
outside_at j open_file time = record { open_file = open_file; verify_cookie = verify_cookie j time }

-- The part of a `Set-Cookie` that a client sends back.
unfoldable pub kept : Bytes → Bytes
kept [] = []
kept (c ∷ s) = if c == b';' then [] else c ∷ kept s

kept-append : (s rest : Bytes) → All IsCookieByte s → kept (s ++ b';' ∷ rest) ≡ s
unfolding kept
kept-append [] rest h = refl
kept-append (c ∷ s) rest ((semicolon, _), h) =
    rw (kept, semicolon) (ap (◌∷◌ c) (kept-append s rest h))

token-IsCookieByte :
    (j : Jwt) (username : Bytes) (first now : ℕ)
    → IsJwt j
    → All IsCookieByte (generate_cookie j username first now)
unfolding generate_cookie
token-IsCookieByte j username first now law = law.cookie_bytes _ secret

-- The token in a cookie is the one that is checked.
check_cookie-token :
    ⦃b : Boost⦄ (o : Outside) (token : Bytes)
    → All IsCookieByte token
    → check_cookie o (codes "jwt=" ++ token) ≡ o.verify_cookie token
unfolding check_cookie find_jwt starts_with holds
check_cookie-token ⦃b⦄ o token h =
    let plain : All (λ c. holds c (codes "; ") ≡ false) (codes "jwt=" ++ token) = (
      refl,
      (
        refl,
        (
          refl,
          (
            refl,
            All-map IsCookieByte (λ c. holds c (codes "; ") ≡ false) token
                (λ c (semicolon, blank). ground arith) h,
          ),
        ),
      ),
    ) in
    rw (check_cookie, b.split_one (codes "jwt=" ++ token) (codes "; ") plain) refl

-- The answer to a client with a token.
with_token :
    ⦃b : Boost⦄ (s : StaticHandler) (o : Outside) (r : Request) (token : Bytes)
    → lookup (codes "Cookie") r.headers ≡ some (codes "jwt=" ++ token)
    → All IsCookieByte token
    → Static.handle_request s o r ≡ (
        if not (length s.auth_path == 0) && not (o.verify_cookie token)
        then prepare_redirect s
        else Static.handle_request (record s { auth_path = [] }) o r)
unfolding Static.handle_request wants_login get_or serve_path
with_token s o r token sent h =
    rw (Static.handle_request, wants_login, get_or, sent, check_cookie-token o token h) refl

-- The login handler makes its tokens by `Cookie::generate_cookie`, at the times of the world.
abbrev pub with_cookies :
    {World : Type 0} → Jwt → (World → ℕ) → (World → ℕ) → Services World → Services World
with_cookies j first now o = record o {
  generate_cookie = λ username w. generate_cookie j username (first w) (now w);
}

-- The cookie that a response sets.
abbrev pub set_cookie : Response → Bytes
set_cookie r = get_or (codes "Set-Cookie") [] r.headers

-- The answer to a login, after a sign-up and other requests, and the world then.
abbrev pub visited :
    {World : Type 0}
    → Services World
    → LoginHandler
    → Request
    → List Request
    → Request
    → World
    → Response × World
visited o h up rs later w =
    Login.handle_request o h later (handle_all o h rs (Login.handle_request o h up w).1)

logged_in-cookie :
    {World : Type 0} (j : Jwt) (first now : World → ℕ) (o : Services World) (h : LoginHandler)
    (u : Bytes) (w : World)
    → IsJwt j
    → kept (set_cookie (logged_in (with_cookies j first now o) h u w))
      ≡ codes "jwt=" ++ generate_cookie j u (first w) (now w)
unfolding kept get_or
logged_in-cookie j first now o h u w law =
    let token = generate_cookie j u (first w) (now w) in
    let o' = with_cookies j first now o in
    let page = prepare_html_response o' h (codes "login_success.html") w in
    rw
      (
        get_or,
        lookup-put (codes "Set-Cookie") (codes "Set-Cookie")
            (codes "jwt=" ++ (token ++ codes "; Path=/")) page.headers,
        same_refl (codes "Set-Cookie"),
      )
      (ap (λ t. codes "jwt=" ++ t)
        (kept-append token (codes " Path=/") (token-IsCookieByte j u (first w) (now w) law)))

-- After a sign-up with a new name, any requests to the login handler and a login with that name and
-- password, a client sends what the answer sets as its cookie to a static handler, at any time. While
-- the token of the login is current, for two hours in whole seconds, it is answered as by a handler
-- without a login; at other times a handler with a login redirects it. The name is not
-- empty; neither name nor password has an `&`, an `=` or an end of a line. The table AUTH is there
-- before; sqlite, bcrypt and jwt-cpp behave as documented.
pub signed_in_visits :
    ⦃b : Boost⦄ {World : Type 0} (j : Jwt) (first now : World → ℕ) (o : Services World)
    (has_table : World → Bool) (view : World → Bytes → Option Bytes)
    (t : IsTable o.libraries has_table view) (h : LoginHandler) (up later : Request)
    (rs : List Request) (u p : Bytes) (w : World) (s : StaticHandler)
    (open_file : Bytes → Option Bytes) (time : ℕ) (r : Request)
    → IsJwt j
    → IsForm up u p
    → IsForm later u p
    → has_table w ≡ true
    → same u [] ≡ false
    → is_signup up ≡ true
    → is_signup later ≡ false
    → view w u ≡ none
    → lookup (codes "Cookie") r.headers
      ≡ some (kept (set_cookie (visited (with_cookies j first now o) h up rs later w).0))
    → Static.handle_request s (outside_at j open_file time) r ≡ (
        if not (length s.auth_path == 0)
          && not (
              is_current
                (first (visited (with_cookies j first now o) h up rs later w).1)
                (now (visited (with_cookies j first now o) h up rs later w).1)
                time)
        then prepare_redirect s
        else Static.handle_request (record s { auth_path = [] }) (outside_at j open_file time) r)
signed_in_visits j first now o has_table view t h up later rs u p w s open_file time r law f f'
      table named is_up is_in new sent =
    let o' = with_cookies j first now o in
    let (w', answered) =
      login_after_signup o' has_table view t h up later rs u p w table f f' named is_up is_in new in
    let token = generate_cookie j u (first w') (now w') in
    let sent_token : lookup (codes "Cookie") r.headers ≡ some (codes "jwt=" ++ token) =
      sent
      ∙ ap (λ x. some (kept (set_cookie x.0))) answered
      ∙ ap some (logged_in-cookie j first now o h u w' law) in
    with_token s (outside_at j open_file time) r token sent_token
      (token-IsCookieByte j u (first w') (now w') law)
    ∙ rw (verify_cookie-generate_cookie j u (first w') (now w') time law, answered) refl
