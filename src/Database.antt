-- ===== src/Database.antt =====
-- src/database.cc and src/password.cc: the table of the accounts, over the calls of sqlite and of
-- bcrypt.
pub mod Table
use foxy_4_web_server.Base.{◌==◌, if◌then◌else◌, ℕ, Bool, true, false, List, [], ◌∷◌, ◌++◌}
use foxy_4_web_server.Base.Bytes.{Bytes, codes}

-- The result codes of sqlite that the program names.
abbrev pub sqlite_ok : ℕ
sqlite_ok = 0

abbrev pub sqlite_constraint : ℕ
sqlite_constraint = 19

abbrev pub sqlite_row : ℕ
sqlite_row = 100

abbrev pub sqlite_done : ℕ
sqlite_done = 101

-- The calls of the two libraries, over what they keep outside the program (the file "auth.db", the
-- source of the salts).
pub record Libraries (World : Type 0) : Type 0 where
  -- `sqlite3_exec`: a statement without results.
  pub exec : Bytes → World → ℕ × World
  -- `sqlite3_prepare_v2`
  pub prepare : Bytes → World → ℕ
  -- The calls of `sqlite3_step` on a statement with its bound texts: the first columns of the rows,
  -- and the code that ends them.
  pub run : Bytes → List Bytes → World → List Bytes × ℕ × World
  -- `BCrypt::generateHash(password, WORKLOAD)`
  pub generate_hash : Bytes → World → Bytes × World
  -- `BCrypt::validatePassword`
  pub validate_password : Bytes → Bytes → Bool

abbrev pub create_sql : Bytes
create_sql =
    codes "CREATE TABLE IF NOT EXISTS AUTH("
    ++ codes "USER TEXT NOT NULL,"
    ++ codes "PASS TEXT NOT NULL,"
    ++ codes "PRIMARY KEY (USER));"

abbrev pub insert_sql : Bytes
insert_sql = codes "INSERT INTO AUTH(user,pass) " ++ codes "VALUES (?1, ?2);"

abbrev pub select_sql : Bytes
select_sql = codes "SELECT pass from AUTH WHERE user=?1"

-- What the first call of `sqlite3_step` returns.
abbrev pub first_code : List Bytes → ℕ → ℕ
first_code [] rc = rc
first_code (row ∷ rows) rc = sqlite_row

-- The loop over the rows keeps the last one.
unfoldable pub last_row : Bytes → List Bytes → Bytes
last_row found [] = found
last_row found (row ∷ rows) = last_row row rows

module _ {World : Type 0} (l : Libraries World) where
  unfoldable pub check_password : Bytes → Bytes → Bool
  check_password password hash = if l.validate_password password hash then true else false

  unfoldable pub db_create : World → ℕ × World
  db_create w = l.exec create_sql w

  -- The result code, and the world afterwards.
  unfoldable pub db_insert : Bytes → Bytes → World → ℕ × World
  db_insert user pass w =
      let (hashed_password, w') = l.generate_hash pass w in
      let rc = l.prepare insert_sql w' in
      let (rows, end, w'') = l.run insert_sql (user ∷ hashed_password ∷ []) w' in
      if rc == sqlite_ok then (first_code rows end, w'') else (rc, w')

  -- The result code, what `pass` holds afterwards, and the world.
  unfoldable pub db_select_pass : Bytes → Bytes → World → ℕ × Bytes × World
  unfolding last_row
  db_select_pass user pass w =
      let rc = l.prepare select_sql w in
      let (rows, end, w') = l.run select_sql (user ∷ []) w in
      if rc == sqlite_ok then (end, last_row [] rows, w') else (rc, pass, w)
