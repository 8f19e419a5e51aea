-- ===== src/Handlers/Login/Accounts.antt =====
-- The accounts that the handler makes and checks.

use foxy_4_web_server.Base.{
  if◌then◌else◌, Bool-cases, Option-cases, All, ◌≡◌, refl, ◌∙◌, inl, inr, Bool, true, false, not,
  ◌&&◌, Option, none, some, List, [], ◌∷◌, ◌++◌, arith,
}
use foxy_4_web_server.Base.Bytes.{Bytes, codes, same, same_refl}
use foxy_4_web_server.Base.Dict.{put}
use foxy_4_web_server.Http.{Method, Request, Response}
use foxy_4_web_server.Forms.{extract_username, extract_password}
use foxy_4_web_server.Forms.Fields.{IsFieldByte, form, extract-form}
use foxy_4_web_server.Database.{check_password, db_select_pass}
use foxy_4_web_server.Database.Table.{
  IsTable, insert_row, insert_row_new, insert_row-keeps, db_insert-view, db_insert_without_table,
  db_select_pass-view,
}
use foxy_4_web_server.Handlers.Login.{
  LoginHandler, Services, is_signup, prepare_html_response, compare_password, signup, handle_signup,
  handle_login, handle_method, handle_request,
}

-- The page of a successful login: its `Set-Cookie` holds the token of the user.
abbrev pub logged_in : {World : Type 0} → Services World → LoginHandler → Bytes → World → Response
logged_in o h u w =
    let page = prepare_html_response o h (codes "login_success.html") w in
    record page {
      headers =
          put (codes "Set-Cookie") (codes "jwt=" ++ (o.generate_cookie u w ++ codes "; Path=/"))
            page.headers;
    }

-- The world after a list of requests.
abbrev pub handle_all :
    {World : Type 0} → Services World → LoginHandler → List Request → World → World
handle_all o h [] w = w
handle_all o h (r ∷ rs) w = handle_all o h rs (handle_request o h r w).1

-- A form of a name and a password, either of which may be empty.
pub record IsForm (r : Request) (u p : Bytes) : Type 0 where
  pub method : r.method ≡ Method.post
  pub body : r.body ≡ form u p
  pub name_bytes : All IsFieldByte u
  pub word_bytes : All IsFieldByte p

-- Whether the page for a new account is sent.
abbrev pub is_welcome : Bytes → Bytes → Option Bytes → Bool
is_welcome u p none = not (same u []) && not (same p [])
is_welcome u p (some h) = false

abbrev pub signup_page : Bool → Bytes
signup_page true = codes "signup/signup_success.html"
signup_page false = codes "signup/signup_failure.html"

abbrev is_post : Method → Bool
is_post Method.post = true
is_post _ = false

-- The table after a request: a `POST` whose URI holds "signup" adds the name of its form, with the
-- hash, where the name is new; no other request changes a row.
abbrev pub rows_after : Request → Bytes → (Bytes → Option Bytes) → Bytes → Option Bytes
rows_after r hash table =
    if is_post r.method && is_signup r
    then insert_row (extract_username r.body) hash table
    else table

module _ {World : Type 0} (o : Services World) (has_table : World → Bool)
    (view : World → Bytes → Option Bytes) (t : IsTable o.libraries has_table view) where
  signup_test :
      (u p : Bytes) (w : World)
      → has_table w ≡ true
      → ((not (same u []) && not (same p [])) && (signup o u p w).0) ≡ is_welcome u p (view w u)
  unfolding signup same
  signup_test u p w table =
      let (code, kept, rows) = db_insert-view t u p w table in
      elim (Option-cases (view w u)) [
        | inl new ↦ rw (code, new) (ground arith)
        | inr (h, old) ↦ rw (code, old) (ground arith)
      ]

  abbrev after_signup : LoginHandler → World → Bool → Response × World
  after_signup h w welcome = (prepare_html_response o h (signup_page welcome) w, w)

  page_of :
      (h : LoginHandler) (w : World) (b : Bool)
      → (if b then after_signup h w true else after_signup h w false) ≡ after_signup h w b
  page_of h w true = refl
  page_of h w false = refl

  -- A call of the sign-up branch: the page, and the table.
  handle_signup_lem :
      (h : LoginHandler) (u p : Bytes) (w : World)
      → has_table w ≡ true
      → handle_signup o h u p w ≡ after_signup h (signup o u p w).1 (is_welcome u p (view w u))
  unfolding handle_signup
  handle_signup_lem h u p w table =
      rw (handle_signup, signup_test u p w table)
        (page_of h (signup o u p w).1 (is_welcome u p (view w u)))

  -- The table is there, and its rows are these.
  abbrev pub Holds : World → (Bytes → Option Bytes) → Type 0
  Holds w rows = (has_table w ≡ true) × ((v : Bytes) → view w v ≡ rows v)

  handle_signup-view :
      (h : LoginHandler) (u p : Bytes) (w : World)
      → has_table w ≡ true
      → Holds (handle_signup o h u p w).1 (insert_row u (o.libraries.generate_hash p w).0 (view w))
  unfolding signup
  handle_signup-view h u p w table =
      rw (handle_signup_lem h u p w table)
        (let (code, kept, rows) = db_insert-view t u p w table in (kept, rows))

  handle_login-view :
      (h : LoginHandler) (u p : Bytes) (w : World)
      → has_table w ≡ true
      → Holds (handle_login o h u p w).1 (view w)
  unfolding handle_login compare_password
  handle_login-view h u p w table =
      let (found, kept, rows) = db_select_pass-view t u [] w table in
      elim (Bool-cases (same u [])) [
        | inl empty ↦ rw (handle_login, empty) (table, λ v. refl)
        | inr named ↦ elim (Bool-cases (compare_password o u p w).0) [
          | inl right ↦ rw (handle_login, named, right) (kept, rows)
          | inr wrong ↦ rw (handle_login, named, wrong) (kept, rows)
        ]
      ]

  -- The password is right where it validates against the row of the user.
  handle_login_lem :
      (h : LoginHandler) (u p g : Bytes) (w : World)
      → has_table w ≡ true
      → same u [] ≡ false
      → view w u ≡ some g
      → o.libraries.validate_password p g ≡ true
      → (w' : World) × (handle_login o h u p w ≡ (logged_in o h u w', w'))
  unfolding handle_login compare_password check_password
  handle_login_lem h u p g w table named row valid =
      let (found, kept, rows) = db_select_pass-view t u [] w table in
      ((db_select_pass o.libraries u [] w).2, rw (handle_login, named, found, row, valid) refl)

  handle_method-view :
      (m : Method) (h : LoginHandler) (r : Request) (w : World)
      → has_table w ≡ true
      → Holds (handle_method o m h r w).1 (
          if is_post m && is_signup r
          then insert_row
              (extract_username r.body)
              (o.libraries.generate_hash (extract_password r.body) w).0
              (view w)
          else view w)
  unfolding handle_method
  handle_method-view Method.get h r w table = elim (Bool-cases (is_signup r)) [
    | inl up ↦ rw (handle_method, up) (table, λ v. refl)
    | inr in_page ↦ rw (handle_method, in_page) (table, λ v. refl)
  ]
  handle_method-view Method.post h r w table =
      let u = extract_username r.body in
      let p = extract_password r.body in
      elim (Bool-cases (is_signup r)) [
        | inl up ↦ rw (handle_method, up) (handle_signup-view h u p w table)
        | inr in_page ↦ rw (handle_method, in_page) (handle_login-view h u p w table)
      ]
  handle_method-view Method.put h r w table = (table, λ v. refl)
  handle_method-view Method.unknown h r w table = (table, λ v. refl)

  -- Every request leaves exactly the rows that it should: a sign-up by `POST` adds the name that its
  -- form gives, with the hash of its password, where the name is new; every other request, and a
  -- sign-up with a name that is there, leaves each row as it is. The table is there before and after.
  pub handle_request_refines :
      (h : LoginHandler) (r : Request) (w : World)
      → has_table w ≡ true
      → (has_table (handle_request o h r w).1 ≡ true)
        × ((v : Bytes)
            → view (handle_request o h r w).1 v
              ≡ rows_after r (o.libraries.generate_hash (extract_password r.body) w).0 (view w) v)
  handle_request_refines h r w table = handle_method-view r.method h r w table

  rows_after-keeps :
      (r : Request) (hash v g : Bytes) (table : Bytes → Option Bytes)
      → table v ≡ some g
      → rows_after r hash table v ≡ some g
  rows_after-keeps r hash v g table e = elim (Bool-cases (is_post r.method && is_signup r)) [
    | inl up ↦ rw up (insert_row-keeps (extract_username r.body) v hash g table e)
    | inr other ↦ rw other e
  ]

  handle_all-keeps :
      (h : LoginHandler) (rs : List Request) (w : World) (v g : Bytes)
      → has_table w ≡ true
      → view w v ≡ some g
      → (has_table (handle_all o h rs w) ≡ true) × (view (handle_all o h rs w) v ≡ some g)
  handle_all-keeps h [] w v g table e = (table, e)
  handle_all-keeps h (r ∷ rs) w v g table e =
      let (kept, rows) = handle_request_refines h r w table in
      handle_all-keeps h rs (handle_request o h r w).1 v g kept
        (rows v ∙ rows_after-keeps r _ v g (view w) e)

  handle_request_signup :
      (h : LoginHandler) (r : Request) (u p : Bytes) (w : World)
      → IsForm r u p
      → is_signup r ≡ true
      → handle_request o h r w ≡ handle_signup o h u p w
  unfolding handle_method
  handle_request_signup h r u p w f up =
      let (name, word) = extract-form u p f.name_bytes f.word_bytes in
      rw (f.method, handle_method, up, f.body, name, word)

  handle_request_login :
      (h : LoginHandler) (r : Request) (u p : Bytes) (w : World)
      → IsForm r u p
      → is_signup r ≡ false
      → handle_request o h r w ≡ handle_login o h u p w
  unfolding handle_method
  handle_request_login h r u p w f in_page =
      let (name, word) = extract-form u p f.name_bytes f.word_bytes in
      rw (f.method, handle_method, in_page, f.body, name, word)

  made_account :
      (h : LoginHandler) (u p : Bytes) (w : World)
      → has_table w ≡ true
      → view w u ≡ none
      → view (handle_signup o h u p w).1 u ≡ some (o.libraries.generate_hash p w).0
  made_account h u p w table new =
      ((handle_signup-view h u p w table).1 u
        ∙ insert_row_new u (o.libraries.generate_hash p w).0 (view w) u new
        ∙ rw (same_refl u) refl)

  -- A login with a password that validates against the row of the user.
  pub login_of_row :
      (h : LoginHandler) (later : Request) (rs : List Request) (u p g : Bytes) (w : World)
      → has_table w ≡ true
      → IsForm later u p
      → same u [] ≡ false
      → is_signup later ≡ false
      → view w u ≡ some g
      → o.libraries.validate_password p g ≡ true
      → (w' : World) × (handle_request o h later (handle_all o h rs w) ≡ (logged_in o h u w', w'))
  login_of_row h later rs u p g w table f named in_page row valid =
      let w2 = handle_all o h rs w in
      let (kept, still) = handle_all-keeps h rs w u g table row in
      let (w', logged) = handle_login_lem h u p g w2 kept named still valid in
      (w', handle_request_login h later u p w2 f in_page ∙ logged)

  -- A sign-up with a new name and a later login with the same name and password: whatever the
  -- requests between them, the login is answered by the page of a successful login with the token
  -- of the user. The name is not empty; neither name nor password has an `&`, an `=` or an end of a
  -- line. The table is there before.
  pub login_after_signup :
      (h : LoginHandler) (up later : Request) (rs : List Request) (u p : Bytes) (w : World)
      → has_table w ≡ true
      → IsForm up u p
      → IsForm later u p
      → same u [] ≡ false
      → is_signup up ≡ true
      → is_signup later ≡ false
      → view w u ≡ none
      → (w' : World) × (handle_request o h later (handle_all o h rs (handle_request o h up w).1)
          ≡ (logged_in o h u w', w'))
  login_after_signup h up later rs u p w table f f' named s s' new =
      rw (handle_request_signup h up u p w f s) (
        login_of_row h later rs u p _ (handle_signup o h u p w).1
          (handle_signup-view h u p w table).0 f' named s' (made_account h u p w table new)
          (t.validates p w))

  -- A sign-up by a form adds the account of a new name to the table and leaves a name that is there;
  -- the page is that of a success exactly where the name is new and neither it nor the password is
  -- empty. Name and password, either of which may be empty, have no `&`, no `=` and no end of a line.
  -- The table is there before; sqlite and bcrypt behave as documented.
  pub signup_refines :
      (h : LoginHandler) (r : Request) (u p : Bytes) (w : World)
      → has_table w ≡ true
      → IsForm r u p
      → is_signup r ≡ true
      → ((handle_request o h r w).0
          ≡ prepare_html_response o h
              (signup_page (is_welcome u p (view w u)))
              (handle_request o h r w).1)
        × ((v : Bytes)
            → view (handle_request o h r w).1 v
              ≡ insert_row u (o.libraries.generate_hash p w).0 (view w) v)
  signup_refines h r u p w table f s =
      rw (handle_request_signup h r u p w f s)
        (rw (handle_signup_lem h u p w table) refl, (handle_signup-view h u p w table).1)

  -- A sign-up with an empty password is answered by the page of a refused sign-up, and yet it makes
  -- the account of a new name. The table is there before.
  pub signup_without_password :
      (h : LoginHandler) (r : Request) (u : Bytes) (w : World)
      → has_table w ≡ true
      → IsForm r u []
      → is_signup r ≡ true
      → view w u ≡ none
      → ((handle_request o h r w).0
          ≡ prepare_html_response o h
              (codes "signup/signup_failure.html")
              (handle_request o h r w).1)
        × (view (handle_request o h r w).1 u ≡ some (o.libraries.generate_hash [] w).0)
  unfolding same
  signup_without_password h r u w table f s new =
      let refused : is_welcome u [] (view w u) ≡ false = rw new (ground arith) in
      rw (handle_request_signup h r u [] w f s)
        (rw (handle_signup_lem h u [] w table, refused) refl, made_account h u [] w table new)

  -- Without the table a sign-up with a name and a password that are not empty is answered by the
  -- page of a success, and yet the name gets no account.
  pub signup_without_table :
      (h : LoginHandler) (r : Request) (u p : Bytes) (w : World)
      → has_table w ≡ false
      → IsForm r u p
      → same u [] ≡ false
      → same p [] ≡ false
      → is_signup r ≡ true
      → ((handle_request o h r w).0
          ≡ prepare_html_response o h
              (codes "signup/signup_success.html")
              (handle_request o h r w).1)
        × (view (handle_request o h r w).1 u ≡ none)
  unfolding handle_signup signup
  signup_without_table h r u p w missing f named word s =
      let (code, rows) = db_insert_without_table t u p w missing in
      let nobody = rows u ∙ t.no_rows u w missing in
      rw (handle_request_signup h r u p w f s)
        (rw (handle_signup, named, word, code) refl, rw (handle_signup, named, word, code) nobody)
