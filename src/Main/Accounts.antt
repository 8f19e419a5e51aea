-- ===== src/Main/Accounts.antt =====
-- The accounts that are there when the program has started.
use foxy_4_web_server.Base.{ok, ◌≡◌, refl, ◌∙◌, Bool, true, false, Option, none, some, List}
use foxy_4_web_server.Base.Bytes.{Bytes, codes, same, same_refl}
use foxy_4_web_server.Boost.{Boost}
use foxy_4_web_server.Http.{Request}
use foxy_4_web_server.Database.{Libraries, db_create, db_insert}
use foxy_4_web_server.Database.Table.{
  IsTable, insert_row_new, insert_row-keeps, db_create-view, db_insert-view,
}
use foxy_4_web_server.HandlerGenerator.{HandlerMap}
use foxy_4_web_server.Handlers.Login.{LoginHandler, Services, is_signup, handle_request}
use foxy_4_web_server.Handlers.Login.Accounts.{logged_in, handle_all, IsForm, login_of_row}
use foxy_4_web_server.Main.{Listener, System, prepare_database, main, serves}
use foxy_4_web_server.Main.Starting.{main-prepared}

prepare_database-admin :
    {World : Type 0} (l : Libraries World) (has_table : World → Bool)
    (view : World → Bytes → Option Bytes)
    → IsTable l has_table view
    → (w : World) → view w (codes "admin") ≡ none
    → (has_table (prepare_database l w) ≡ true)
      × ((g : Bytes) × (view (prepare_database l w) (codes "admin") ≡ some g)
          × (l.validate_password (codes "admin") g ≡ true))
unfolding prepare_database
prepare_database-admin l has_table view t w new =
    let admin = codes "admin" in
    let w1 = (db_create l w).1 in
    let w2 = (db_insert l admin admin w1).1 in
    let h = (l.generate_hash admin w1).0 in
    let (made, kept) = db_create-view t w in
    let (code, still, rows) = db_insert-view t admin admin w1 made in
    let (code', last, rows') = db_insert-view t (codes "foxy") (codes "password") w2 still in
    let first : view w2 admin ≡ some h =
      rows admin
      ∙ insert_row_new admin h (view w1) admin (kept admin ∙ new)
      ∙ rw (same_refl admin) refl in
    (
      last,
      (
        h,
        rows' admin ∙ insert_row-keeps (codes "foxy") admin _ h (view w2) first,
        t.validates admin w1,
      ),
    )

-- When the program serves, on a database that had no account "admin" before, with or without the
-- table AUTH, then after any requests to the login handler a form that is posted to log in, with the
-- name "admin" and the password "admin", is answered by the page of a successful login with the token
-- of that user. The handler uses the program's libraries; sqlite and bcrypt behave as documented.
pub admin_logs_in :
    {World : Type 0} ⦃b : Boost⦄ (system : System World) (o : Services World)
    (has_table : World → Bool) (view : World → Bytes → Option Bytes) (args : List Bytes)
    (w w' : World) (dir : Bytes) (m : HandlerMap) (ls : List Listener) (h : LoginHandler)
    (rs : List Request) (r : Request)
    → IsTable system.libraries has_table view
    → o.libraries ≡ system.libraries
    → main system args w ≡ some (ok (serves dir m ls w'))
    → view w (codes "admin") ≡ none
    → IsForm r (codes "admin") (codes "admin")
    → is_signup r ≡ false
    → (w'' : World) × (handle_request o h r (handle_all o h rs w')
        ≡ (logged_in o h (codes "admin") w'', w''))
unfolding same
admin_logs_in system o has_table view args w w' dir m ls h rs r t shared started new form in_page =
    let prepared = main-prepared system args w w' dir m ls started in
    let (made, (g, row, valid)) = prepare_database-admin system.libraries has_table view t w new in
    let t' : IsTable o.libraries has_table view = rw shared t in
    login_of_row o has_table view t' h r rs (codes "admin") (codes "admin") g w' (rw prepared made)
      form refl in_page (rw prepared row) (rw shared valid)
