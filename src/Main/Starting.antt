-- ===== src/Main/Starting.antt =====
-- The start of the program: how it ends, and the database that it leaves.
use foxy_4_web_server.Base.{
  Bool-cases, Option-cases, Outcome, ok_of_bind, Outcome-cases, ok, throws, undefined, ◌≡◌, ◌≢◌,
  inl, inr, Bool, false, Option, none, some, List, [], ◌∷◌, arith,
}
use foxy_4_web_server.Base.Bytes.{Bytes}
use foxy_4_web_server.Boost.{Boost}
use foxy_4_web_server.Config.{Config}
use foxy_4_web_server.ConfigParser.Total.{parse_ends}
use foxy_4_web_server.HandlerGenerator.{HandlerMap}
use foxy_4_web_server.Main.{
  Listener, System, Start, parse_file, Settings, read_settings, create_servers, prepare_database,
  serve, caught, start_with, main, exits, serves, unwinds,
}
use foxy_4_web_server.Base.{
  Bool-cases, Option-cases, Outcome, ok_of_bind, Outcome-cases, ok, throws, undefined, ◌≡◌, ◌≢◌,
  inl, inr, Bool, false, Option, none, some, List, [], ◌∷◌, arith,
}
use foxy_4_web_server.Base.Bytes.{Bytes}
use foxy_4_web_server.Boost.{Boost}
use foxy_4_web_server.Config.{Config}
use foxy_4_web_server.ConfigParser.Total.{parse_ends}
use foxy_4_web_server.HandlerGenerator.{HandlerMap}
use foxy_4_web_server.Main.{
  Listener, System, Start, parse_file, Settings, read_settings, create_servers, prepare_database,
  serve, caught, start_with, main, exits, serves, unwinds,
}

parse_file_ends :
    (open_file : Bytes → Option Bytes) (file_name : Bytes) → parse_file open_file file_name ≢ none
unfolding parse_file
parse_file_ends open_file file_name e = elim (Option-cases (open_file file_name)) [
  | inl missing ↦
      let other : Option.some (Outcome.ok (false, Config.end)) ≡ none =
        rw (parse_file, missing) at e in
      cc other
  | inr (text, found) ↦ parse_ends text Config.end (rw (parse_file, found) at e)
]

module _ {World : Type 0} ⦃b : Boost⦄ (system : System World) where
  -- The start ends, whatever the arguments and the configuration are.
  pub main_ends : (args : List Bytes) (w : World) → main system args w ≢ none
  unfolding main
  main_ends [] w e = cc e
  main_ends (program ∷ []) w e = cc e
  main_ends (program ∷ file_name ∷ extra ∷ more) w e = cc e
  main_ends (program ∷ file_name ∷ []) w e =
      grind (arith, parse_file_ends system.open_file file_name)

  serve-prepared :
      (s : Settings) (w w' : World) (dir : Bytes) (m : HandlerMap) (ls : List Listener)
      → serve system s w ≡ ok (serves dir m ls w')
      → w' ≡ prepare_database system.libraries w
  unfolding serve
  serve-prepared s w w' dir m ls e =
      let ((all_made, made), created, ended) =
        ok_of_bind (create_servers system.can_listen s.hostname s.threads s.port_types []) _ e in
      elim (Bool-cases all_made) [
        | inl whole ↦
            let there : ok (serves s.dir s.map made (prepare_database system.libraries w))
                ≡ ok (serves dir m ls w') =
              rw whole at ended in
            cc there
        | inr stopped ↦
            let there : ok (unwinds made (prepare_database system.libraries w))
                ≡ ok (serves dir m ls w') =
              rw stopped at ended in
            cc there
      ]

  start_with-prepared :
      (parse_success : Bool) (config : Config) (w w' : World) (dir : Bytes) (m : HandlerMap)
      (ls : List Listener)
      → start_with system parse_success config w ≡ ok (serves dir m ls w')
      → w' ≡ prepare_database system.libraries w
  unfolding start_with
  start_with-prepared parse_success config w w' dir m ls e =
      let (settings, read, ended) = ok_of_bind (read_settings parse_success config) _ e in
      elim (Option-cases settings) [
        | inl invalid ↦
            let other : ok (exits 1 w) ≡ ok (serves dir m ls w') = rw invalid at ended in cc other
        | inr (s, valid) ↦ serve-prepared s w w' dir m ls (rw valid at ended)
      ]

  caught-serves :
      (w w' : World) (dir : Bytes) (m : HandlerMap) (ls : List Listener) (o : Outcome (Start World))
      → caught w o ≡ ok (serves dir m ls w')
      → o ≡ ok (serves dir m ls w')
  caught-serves w w' dir m ls (ok begun) e = e
  caught-serves w w' dir m ls (throws x) e = cc e
  caught-serves w w' dir m ls undefined e = cc e

  -- Where the program serves, its database was prepared.
  pub main-prepared :
      (args : List Bytes) (w w' : World) (dir : Bytes) (m : HandlerMap) (ls : List Listener)
      → main system args w ≡ some (ok (serves dir m ls w'))
      → w' ≡ prepare_database system.libraries w
  unfolding main
  main-prepared [] w w' dir m ls e = cc e
  main-prepared (program ∷ []) w w' dir m ls e = cc e
  main-prepared (program ∷ file_name ∷ extra ∷ more) w w' dir m ls e = cc e
  main-prepared (program ∷ file_name ∷ []) w w' dir m ls e =
      elim (Option-cases (parse_file system.open_file file_name)) [
        | inl stuck ↦
            let other : Option.none ≡ some (ok (serves dir m ls w')) = rw (main, stuck) at e in
            cc other
        | inr (parsed, ended) ↦ elim (Outcome-cases parsed) [
          | inl ((parse_success, config), whole) ↦
              let begun : Option.some (caught w (start_with system parse_success config w))
                  ≡ some (ok (serves dir m ls w')) =
                rw (main, ended, whole) at e in
              start_with-prepared parse_success config w w' dir m ls
                (caught-serves w w' dir m ls (start_with system parse_success config w) (cc begun))
          | inr (inl (x, fault)) ↦
              let other : Option.some (ok (exits 0 w)) ≡ some (ok (serves dir m ls w')) =
                rw (main, ended, fault) at e in
              cc other
          | inr (inr gone) ↦
              let other : Option.some undefined ≡ some (ok (serves dir m ls w')) =
                rw (main, ended, gone) at e in
              cc other
        ]
      ]
