-- ===== src/Database/Table.antt =====
-- What the program relies on: the table is a map from users to hashes.

use foxy_4_web_server.Base.{
  Bool, arith, if◌then◌else◌, Option-cases, ℕ, ◌≡◌, refl, ◌∙◌, inl, inr, true, false, Option, none,
  some, [], ◌∷◌,
}
use foxy_4_web_server.Base.Bytes.{Bytes, codes, same, same_iff}
use foxy_4_web_server.Database.{
  sqlite_ok, sqlite_constraint, sqlite_done, Libraries, db_create, db_insert, db_select_pass,
}

-- `SQLITE_ERROR`
abbrev pub sqlite_error : ℕ
sqlite_error = 1

-- The code of preparing a statement on the table.
abbrev pub prepare_code : Bool → ℕ
prepare_code true = sqlite_ok
prepare_code false = sqlite_error

-- The three statements that the laws are about, in full: a table whose primary key is the user, an
-- insertion that fails where the key is there, and a selection by the key.
abbrev create_text : Bytes
create_text =
    codes
      "CREATE TABLE IF NOT EXISTS AUTH(USER TEXT NOT NULL,PASS TEXT NOT NULL,PRIMARY KEY (USER));"

abbrev insert_text : Bytes
insert_text = codes "INSERT INTO AUTH(user,pass) VALUES (?1, ?2);"

abbrev select_text : Bytes
select_text = codes "SELECT pass from AUTH WHERE user=?1"

-- The documented behaviour of the libraries, for a view of the world: whether there is the table
-- AUTH with its primary key, and the hash in the row of a user. The creation makes the table, empty
-- where there was none (whose view has no rows), and keeps the rows that there are. A statement on
-- the table is prepared exactly where the table is. On the table the primary key keeps a user's
-- first row, and a selection gives the row of the user. No statement drops the table. A hash
-- validates the password that it was made of and is not empty.
pub record IsTable {World : Type 0} (l : Libraries World) (has_table : World → Bool)
    (view : World → Bytes → Option Bytes) : Type 0 where
  pub no_rows : (v : Bytes) (w : World) → has_table w ≡ false → view w v ≡ none
  pub makes_table : (w : World) → has_table (l.exec create_text w).1 ≡ true
  pub creates : (v : Bytes) (w : World) → view (l.exec create_text w).1 v ≡ view w v
  pub prepares_insert : (w : World) → l.prepare insert_text w ≡ prepare_code (has_table w)
  pub prepares_select : (w : World) → l.prepare select_text w ≡ prepare_code (has_table w)
  pub inserts :
      (u h : Bytes) (w : World)
      → has_table w ≡ true
      → view w u ≡ none
      → ((l.run insert_text (u ∷ h ∷ []) w).0 ≡ [])
        × ((l.run insert_text (u ∷ h ∷ []) w).1 ≡ sqlite_done)
        × ((v : Bytes)
            → view (l.run insert_text (u ∷ h ∷ []) w).2 v ≡ (if same u v then some h else view w v))
  pub refuses :
      (u h g : Bytes) (w : World)
      → has_table w ≡ true
      → view w u ≡ some g
      → ((l.run insert_text (u ∷ h ∷ []) w).0 ≡ [])
        × ((l.run insert_text (u ∷ h ∷ []) w).1 ≡ sqlite_constraint)
        × ((v : Bytes) → view (l.run insert_text (u ∷ h ∷ []) w).2 v ≡ view w v)
  pub selects_none :
      (u : Bytes) (w : World)
      → has_table w ≡ true
      → view w u ≡ none
      → (l.run select_text (u ∷ []) w).0 ≡ []
  pub selects_one :
      (u h : Bytes) (w : World)
      → has_table w ≡ true
      → view w u ≡ some h
      → (l.run select_text (u ∷ []) w).0 ≡ h ∷ []
  pub selects_only : (u v : Bytes) (w : World) → view (l.run select_text (u ∷ []) w).2 v ≡ view w v
  pub hashes_only : (p v : Bytes) (w : World) → view (l.generate_hash p w).1 v ≡ view w v
  pub insert_keeps :
      (u h : Bytes) (w : World) → has_table (l.run insert_text (u ∷ h ∷ []) w).2 ≡ has_table w
  pub select_keeps :
      (u : Bytes) (w : World) → has_table (l.run select_text (u ∷ []) w).2 ≡ has_table w
  pub hash_keeps : (p : Bytes) (w : World) → has_table (l.generate_hash p w).1 ≡ has_table w
  pub validates : (p : Bytes) (w : World) → l.validate_password p (l.generate_hash p w).0 ≡ true
  pub rejects_empty : (p : Bytes) → l.validate_password p [] ≡ false

-- The abstract table after an insertion: the first one for a user counts.
abbrev pub insert_row : Bytes → Bytes → (Bytes → Option Bytes) → Bytes → Option Bytes
insert_row u h table v = elim (table u) [
  | none ↦ if same u v then some h else table v
  | some g ↦ table v
]

pub insert_row_new :
    (u h : Bytes) (table : Bytes → Option Bytes) (v : Bytes)
    → table u ≡ none
    → insert_row u h table v ≡ (if same u v then some h else table v)
insert_row_new u h table v e = rw (insert_row, e) refl

pub insert_row_old :
    (u h g : Bytes) (table : Bytes → Option Bytes) (v : Bytes)
    → table u ≡ some g
    → insert_row u h table v ≡ table v
insert_row_old u h g table v e = rw (insert_row, e) refl

pub insert_row-keeps :
    (u v h g : Bytes) (table : Bytes → Option Bytes)
    → table v ≡ some g
    → insert_row u h table v ≡ some g
insert_row-keeps u v h g table e = elim (Option-cases (table u)) [
  | inl new ↦ insert_row_new u h table v new ∙ ground (arith, same_iff u v)
  | inr (f, old) ↦ insert_row_old u h f table v old ∙ e
]

-- The code of an insertion: whether the user is new.
abbrev pub insert_code : Option Bytes → ℕ
insert_code none = sqlite_done
insert_code (some h) = sqlite_constraint

module _ {World : Type 0} {l : Libraries World} {has_table : World → Bool}
    {view : World → Bytes → Option Bytes} (t : IsTable l has_table view) where
  -- The creation of the table.
  pub db_create-view :
      (w : World)
      → (has_table (db_create l w).1 ≡ true) × ((v : Bytes) → view (db_create l w).1 v ≡ view w v)
  unfolding db_create
  db_create-view w = (t.makes_table w, λ v. t.creates v w)

  -- Without the table an insertion fails with its code, and the rows are as they were.
  pub db_insert_without_table :
      (u p : Bytes) (w : World)
      → has_table w ≡ false
      → ((db_insert l u p w).0 ≡ sqlite_error)
        × ((v : Bytes) → view (db_insert l u p w).1 v ≡ view w v)
  unfolding db_insert
  db_insert_without_table u p w missing =
      let code = t.prepares_insert (l.generate_hash p w).1 in
      let there = t.hash_keeps p w ∙ missing in
      (rw (code, there) refl, λ v. rw (code, there) (t.hashes_only p v w))

  pub db_insert-view :
      (u p : Bytes) (w : World)
      → has_table w ≡ true
      → ((db_insert l u p w).0 ≡ insert_code (view w u))
        × (has_table (db_insert l u p w).1 ≡ true)
        × ((v : Bytes)
            → view (db_insert l u p w).1 v ≡ insert_row u (l.generate_hash p w).0 (view w) v)
  unfolding db_insert
  db_insert-view u p w table =
      let h = (l.generate_hash p w).0 in
      let w' = (l.generate_hash p w).1 in
      let there = t.hash_keeps p w ∙ table in
      let prepared = t.prepares_insert w' in
      let kept = t.insert_keeps u h w' ∙ there in
      elim (Option-cases (view w u)) [
        | inl new ↦
            let (rows, code, after) = t.inserts u h w' there (t.hashes_only p u w ∙ new) in
            (
              rw (prepared, there, rows, code, new) refl,
              rw (prepared, there) kept,
              λ v.
                  rw (prepared, there, insert_row_new u h (view w) v new)
                    (rw (after v, t.hashes_only p v w) refl),
            )
        | inr (g, old) ↦
            let (rows, code, after) = t.refuses u h g w' there (t.hashes_only p u w ∙ old) in
            (
              rw (prepared, there, rows, code, old) refl,
              rw (prepared, there) kept,
              λ v.
                  rw (prepared, there, insert_row_old u h g (view w) v old)
                    (after v ∙ t.hashes_only p v w),
            )
      ]

  pub db_select_pass-view :
      (u pass : Bytes) (w : World)
      → has_table w ≡ true
      → ((db_select_pass l u pass w).1 ≡ elim (view w u) [ none ↦ [] | some h ↦ h ])
        × (has_table (db_select_pass l u pass w).2 ≡ true)
        × ((v : Bytes) → view (db_select_pass l u pass w).2 v ≡ view w v)
  unfolding db_select_pass
  db_select_pass-view u pass w table = (
    elim (Option-cases (view w u)) [
      | inl none_there ↦
          rw (t.prepares_select w, table, t.selects_none u w table none_there, none_there) refl
      | inr (h, there) ↦
          rw (t.prepares_select w, table, t.selects_one u h w table there, there) refl
    ],
    rw (t.prepares_select w, table) (t.select_keeps u w ∙ table),
    λ v. rw (t.prepares_select w, table) (t.selects_only u v w),
  )
