-- ===== src/Tests/Accounts.antt =====
-- The login handler over a table in place of sqlite and bcrypt.
use foxy_4_web_server.Base.{
  if◌then◌else◌, Option-cases, All, ℕ, ◌≡◌, refl, ap, inl, inr, Bool, true, false, Option, none,
  some, List, [], ◌∷◌,
}
use foxy_4_web_server.Base.Bytes.{Bytes, codes, same, same_refl, starts_with, contains}
use foxy_4_web_server.Base.Dict.{Dict, lookup}
use foxy_4_web_server.Http.{Method, Request}
use foxy_4_web_server.Forms.{is_line_end, extract_username, extract_password}
use foxy_4_web_server.Forms.Fields.{IsFieldByte, form, extract-form}
use foxy_4_web_server.Database.{Libraries, create_sql, insert_sql, select_sql}
use foxy_4_web_server.Database.Table.{prepare_code, IsTable, insert_row}
use foxy_4_web_server.Handlers.Login.{LoginHandler, Services, prepare_html_response, handle_request}
use foxy_4_web_server.Handlers.Login.Accounts.{
  logged_in, handle_all, IsForm, is_welcome, signup_page, rows_after, handle_request_refines,
  login_after_signup, signup_refines, signup_without_password, signup_without_table,
}

-- The table AUTH, where there is one, as the hashes of its users.
abbrev pub Rows : Type 0
Rows = Option (Dict Bytes)

abbrev hash : Bytes → Bytes
hash p = b'#' ∷ p

abbrev pub has_table : Rows → Bool
has_table none = false
has_table (some d) = true

abbrev pub view_rows : Rows → Bytes → Option Bytes
view_rows none u = none
view_rows (some d) u = lookup u d

abbrev make_table : Rows → Rows
make_table none = some []
make_table (some d) = some d

unfoldable pub insert_into : Rows → List Bytes → List Bytes × ℕ × Rows
insert_into (some d) (u ∷ h ∷ []) = elim (lookup u d) [
  | none ↦ ([], 101, some ((u, h) ∷ d))
  | some g ↦ ([], 19, some d)
]
insert_into w _ = ([], 1, w)

unfoldable pub rows_of : Rows → List Bytes → List Bytes × ℕ × Rows
rows_of (some d) (u ∷ []) = elim (lookup u d) [
  | none ↦ ([], 101, some d)
  | some h ↦ (h ∷ [], 101, some d)
]
rows_of w _ = ([], 1, w)

-- The statement with its text: one that is neither the insertion nor the selection fails.
unfoldable pub run_text : Bytes → List Bytes → Rows → List Bytes × ℕ × Rows
run_text sql args w =
    if same sql insert_sql
    then insert_into w args
    else if same sql select_sql
    then rows_of w args
    else ([], 1, w)

insert_new :
    (u h : Bytes) (w : Rows)
    → has_table w ≡ true
    → view_rows w u ≡ none
    → ((insert_into w (u ∷ h ∷ [])).0 ≡ [])
      × ((insert_into w (u ∷ h ∷ [])).1 ≡ 101)
      × ((v : Bytes)
          → view_rows (insert_into w (u ∷ h ∷ [])).2 v
            ≡ (if same u v then some h else view_rows w v))
unfolding insert_into lookup
insert_new u h none table e = cc table
insert_new u h (some d) table e = rw (insert_into, e) (refl, refl, λ v. refl)

insert_old :
    (u h g : Bytes) (w : Rows)
    → has_table w ≡ true
    → view_rows w u ≡ some g
    → insert_into w (u ∷ h ∷ []) ≡ ([], 19, w)
unfolding insert_into
insert_old u h g none table e = cc table
insert_old u h g (some d) table e = rw (insert_into, e) refl

rows_none :
    (u : Bytes) (w : Rows) → has_table w ≡ true → view_rows w u ≡ none → (rows_of w (u ∷ [])).0 ≡ []
unfolding rows_of
rows_none u none table e = cc table
rows_none u (some d) table e = rw (rows_of, e) refl

rows_one :
    (u h : Bytes) (w : Rows)
    → has_table w ≡ true
    → view_rows w u ≡ some h
    → (rows_of w (u ∷ [])).0 ≡ h ∷ []
unfolding rows_of
rows_one u h none table e = cc table
rows_one u h (some d) table e = rw (rows_of, e) refl

rows_only : (u : Bytes) (w : Rows) → (rows_of w (u ∷ [])).2 ≡ w
unfolding rows_of
rows_only u none = refl
rows_only u (some d) = elim (Option-cases (lookup u d)) [
  | inl new ↦ rw (rows_of, new) refl
  | inr (h, old) ↦ rw (rows_of, old) refl
]

insert_keeps_table :
    (u h : Bytes) (w : Rows) → has_table (insert_into w (u ∷ h ∷ [])).2 ≡ has_table w
unfolding insert_into
insert_keeps_table u h none = refl
insert_keeps_table u h (some d) = elim (Option-cases (lookup u d)) [
  | inl new ↦ rw (insert_into, new) refl
  | inr (g, old) ↦ rw (insert_into, old) refl
]

abbrev pub tables : Libraries Rows
tables = record {
  exec = λ sql w. if same sql create_sql then (0, make_table w) else (1, w);
  prepare = λ sql w. if has_table w then 0 else 1;
  run = run_text;
  generate_hash = λ p w. (hash p, w);
  validate_password = λ p h. same (hash p) h;
}

no_rows_there : (v : Bytes) (w : Rows) → has_table w ≡ false → view_rows w v ≡ none
no_rows_there v none e = refl
no_rows_there v (some d) e = cc e

made_table : (w : Rows) → has_table (make_table w) ≡ true
made_table none = refl
made_table (some d) = refl

table_created : (v : Bytes) (w : Rows) → view_rows (make_table w) v ≡ view_rows w v
unfolding lookup
table_created v none = refl
table_created v (some d) = refl

prepared_code : (w : Rows) → (if has_table w then 0 else 1) ≡ prepare_code (has_table w)
prepared_code none = refl
prepared_code (some d) = refl

pub tables-IsTable : IsTable tables has_table view_rows
unfolding same run_text
tables-IsTable = record {
  no_rows = no_rows_there;
  makes_table = made_table;
  creates = table_created;
  prepares_insert = prepared_code;
  prepares_select = prepared_code;
  inserts = insert_new;
  refuses = λ u h g w table old. rw (insert_old u h g w table old) (refl, refl, λ v. refl);
  selects_none = rows_none;
  selects_one = rows_one;
  selects_only = λ u v w. ap (λ x. view_rows x v) (rows_only u w);
  hashes_only = λ p v w. refl;
  insert_keeps = insert_keeps_table;
  select_keeps = λ u w. ap has_table (rows_only u w);
  hash_keeps = λ p w. refl;
  validates = λ p w. same_refl (hash p);
  rejects_empty = λ p. refl;
}

abbrev pub services : Services Rows
services = record {
  libraries = tables;
  open_file =
      λ name w. if same name (codes "/w/login_success.html") then some (codes "in") else none;
  generate_cookie = λ u w. u;
}

abbrev pub pages : LoginHandler
pages = record { root = codes "/w/"; path = codes "/login/" }

abbrev pub sign_up : Request
sign_up = record {
  method = Method.post;
  uri = codes "/login/signup";
  http_version = codes "1.1";
  headers = [];
  body = form (codes "ann") (codes "pw");
}

abbrev pub sign_in : Request
sign_in = record sign_up { uri = codes "/login" }

abbrev no_password : Request
no_password = record sign_up { body = form (codes "ann") [] }

ann_bytes : All IsFieldByte (codes "ann")
unfolding is_line_end
ann_bytes = ((refl, refl, refl), ((refl, refl, refl), ((refl, refl, refl), tt)))

pw_bytes : All IsFieldByte (codes "pw")
unfolding is_line_end
pw_bytes = ((refl, refl, refl), ((refl, refl, refl), tt))

pub sign_up-IsForm : IsForm sign_up (codes "ann") (codes "pw")
sign_up-IsForm = record {
  method = refl;
  body = refl;
  name_bytes = ann_bytes;
  word_bytes = pw_bytes;
}

pub sign_in-IsForm : IsForm sign_in (codes "ann") (codes "pw")
sign_in-IsForm = record {
  method = refl;
  body = refl;
  name_bytes = ann_bytes;
  word_bytes = pw_bytes;
}

no_password-IsForm : IsForm no_password (codes "ann") []
no_password-IsForm = record { method = refl; body = refl; name_bytes = ann_bytes; word_bytes = tt }

login_after_signup_example :
    (w' : Rows) × (handle_request services pages sign_in (
        handle_all services pages
          (no_password ∷ [])
          (handle_request services pages sign_up (some [])).1)
      ≡ (logged_in services pages (codes "ann") w', w'))
unfolding contains starts_with lookup same
login_after_signup_example =
    login_after_signup services has_table view_rows tables-IsTable pages sign_up sign_in
      (no_password ∷ []) (codes "ann") (codes "pw") (some []) refl sign_up-IsForm sign_in-IsForm
      refl refl refl refl

-- A form without a name.
abbrev nameless : Request
nameless = record sign_up { body = form [] (codes "pw") }

nameless-IsForm : IsForm nameless [] (codes "pw")
nameless-IsForm = record { method = refl; body = refl; name_bytes = tt; word_bytes = pw_bytes }

signup_refines_example :
    ((handle_request services pages nameless (some [])).0
      ≡ prepare_html_response services pages
          (signup_page (is_welcome [] (codes "pw") none))
          (handle_request services pages nameless (some [])).1)
    × ((v : Bytes)
        → view_rows (handle_request services pages nameless (some [])).1 v
          ≡ insert_row [] (hash (codes "pw")) (view_rows (some [])) v)
unfolding contains starts_with lookup
signup_refines_example =
    signup_refines services has_table view_rows tables-IsTable pages nameless [] (codes "pw")
      (some []) refl nameless-IsForm refl

handle_request_refines_example :
    (has_table (handle_request services pages sign_up (some [])).1 ≡ true)
    × ((v : Bytes)
        → view_rows (handle_request services pages sign_up (some [])).1 v
          ≡ rows_after sign_up (hash (extract_password sign_up.body)) (view_rows (some [])) v)
handle_request_refines_example =
    handle_request_refines services has_table view_rows tables-IsTable pages sign_up (some []) refl

signup_without_password_example :
    ((handle_request services pages no_password (some [])).0
      ≡ prepare_html_response services pages
          (codes "signup/signup_failure.html")
          (handle_request services pages no_password (some [])).1)
    × (view_rows (handle_request services pages no_password (some [])).1 (codes "ann")
        ≡ some (hash []))
unfolding contains starts_with lookup
signup_without_password_example =
    signup_without_password services has_table view_rows tables-IsTable pages no_password
      (codes "ann") (some []) refl no_password-IsForm refl refl

signup_without_table_example :
    ((handle_request services pages sign_up none).0
      ≡ prepare_html_response services pages
          (codes "signup/signup_success.html")
          (handle_request services pages sign_up none).1)
    × (view_rows (handle_request services pages sign_up none).1 (codes "ann") ≡ none)
unfolding contains starts_with same
signup_without_table_example =
    signup_without_table services has_table view_rows tables-IsTable pages sign_up (codes "ann")
      (codes "pw") none refl sign_up-IsForm refl refl refl

extract-form_example :
    (extract_username (form (codes "ann") (codes "pw")) ≡ codes "ann")
    × (extract_password (form (codes "ann") (codes "pw")) ≡ codes "pw")
extract-form_example = extract-form (codes "ann") (codes "pw") ann_bytes pw_bytes
