-- ===== src/Main.antt =====
-- src/server_main.cc: the start of the program. Logging and signals are left out.
pub mod Starting
pub mod Accounts
pub mod Faults
use foxy_4_web_server.Base.{
  ◌>>=◌, if◌then◌else◌, Outcome, ok, throws, undefined, ℕ, Bool, true, false, ◌&&◌, Option, none,
  some, List, [], ◌∷◌, ◌++◌,
}
use foxy_4_web_server.Base.Int.{ℤ, pos}
use foxy_4_web_server.Base.Bytes.{Bytes, codes, same, drop_last}
use foxy_4_web_server.Boost.{Boost}
use foxy_4_web_server.Config.{end, Config, Ports, get_port, get_threads, get_dir, get_hostname}
use foxy_4_web_server.ConfigParser.{parse}
use foxy_4_web_server.Database.{Libraries, db_create, db_insert}
use foxy_4_web_server.HandlerGenerator.{HandlerMap, get_map}
use foxy_4_web_server.DataCollector.{new_collector}
use foxy_4_web_server.Server.{endpoint_port}

-- A server that was made: over TLS or by redirects, with the host for the redirects.
pub record Listener : Type 0 where
  pub secure : Bool
  pub port : ℕ
  pub threads : ℤ
  pub hostname : Bytes

-- What the program finds outside: the configuration file, the database, and whether a server can be
-- made beside those that there are (its port bound, its certificates read).
pub record System (World : Type 0) : Type 0 where
  pub open_file : Bytes → Option Bytes
  pub libraries : Libraries World
  pub can_listen : List Listener → Listener → Bool

-- How the start ends: with an exit code; with servers that run; or with a server that could not be
-- made, where those made before are destroyed, which waits for their threads.
pub data Start (World : Type 0) : Type 0 where
  exits : ℕ → World → Start World
  serves : Bytes → HandlerMap → List Listener → World → Start World
  unwinds : List Listener → World → Start World

-- `config_parser.Parse(file_name, &config)`
unfoldable pub parse_file : (Bytes → Option Bytes) → Bytes → Option (Outcome (Bool × Config))
unfolding parse
parse_file open_file file_name = elim (open_file file_name) [
  | none ↦ some (ok (false, end))
  | some text ↦ parse text end
]

-- What the configuration says.
pub record Settings : Type 0 where
  pub port_types : Ports
  pub dir : Bytes
  pub threads : ℤ
  pub hostname : Bytes
  pub map : HandlerMap

-- All of it is read, also of a configuration that was not parsed to its end. `none`: not valid.
unfoldable pub read_settings : ⦃b : Boost⦄ → Bool → Config → Outcome (Option Settings)
unfolding get_port get_dir get_threads get_hostname get_map
read_settings parse_success config = do
  (has_port, port_types) ← get_port config []
  (has_dir, dir) ← get_dir config []
  (has_threads, threads) ← get_threads config (pos 4)
  (has_hostname, hostname) ← get_hostname config []
  (has_map, map, collector) ← get_map config [] new_collector
  if parse_success && has_port && has_map && has_dir && has_hostname
      then ok (
          some (record {
            port_types = port_types;
            dir = dir;
            threads = threads;
            hostname = hostname;
            map = map;
          }))
      else ok none

-- `hostname_fixed.pop_back()`, undefined on an empty string.
unfoldable pub fixed_hostname : Bytes → Outcome Bytes
fixed_hostname [] = undefined
fixed_hostname (c ∷ s) = ok (drop_last (c ∷ s))

-- The servers that were made, and whether the last one could be.
abbrev pub Servers : Type 0
Servers = Bool × List Listener

-- The server for a pair of a port and a type; none for another type.
unfoldable pub listener_of : Bytes → ℤ → ℤ × Bytes → Outcome (Option Listener)
unfolding fixed_hostname endpoint_port
listener_of hostname threads (port, type) =
    if same type (codes "https")
    then ok (
        some
          (record { secure = true; port = endpoint_port port; threads = threads; hostname = [] }))
    else if same type (codes "http")
    then (do
      fixed ← fixed_hostname hostname
      ok (
          some (record {
            secure = false;
            port = endpoint_port port;
            threads = threads;
            hostname = fixed;
          })))
    else ok none

-- The loop over the ports.
unfoldable pub create_servers :
    (List Listener → Listener → Bool) → Bytes → ℤ → Ports → List Listener → Outcome Servers
unfolding listener_of
create_servers can_listen hostname threads [] made = ok (true, made)
create_servers can_listen hostname threads (port_type ∷ more) made = do
  found ← listener_of hostname threads port_type
  elim found [
    | none ↦ create_servers can_listen hostname threads more made
    | some l ↦ elim (can_listen made l) [
      | true ↦ create_servers can_listen hostname threads more (made ++ l ∷ [])
      | false ↦ ok (false, made)
    ]
  ]

-- `db_create`, and the accounts that are there from the start. Their result codes are not looked at.
unfoldable pub prepare_database : {World : Type 0} → Libraries World → World → World
unfolding db_create db_insert
prepare_database l w =
    let (created, w1) = db_create l w in
    let (first, w2) = db_insert l (codes "admin") (codes "admin") w1 in
    let (second, w3) = db_insert l (codes "foxy") (codes "password") w2 in w3

unfoldable pub serve : {World : Type 0} → System World → Settings → World → Outcome (Start World)
unfolding prepare_database create_servers
serve system s w = do
  (all_made, made) ← create_servers system.can_listen s.hostname s.threads s.port_types []
  let w' = prepare_database system.libraries w
  if all_made then ok (serves s.dir s.map made w') else ok (unwinds made w')

-- The `catch` prints the exception, and `main` returns 0.
abbrev pub caught : {World : Type 0} → World → Outcome (Start World) → Outcome (Start World)
caught w (ok begun) = ok begun
caught w (throws e) = ok (exits 0 w)
caught w undefined = undefined

unfoldable pub start_with :
    {World : Type 0} → ⦃b : Boost⦄ → System World → Bool → Config → World → Outcome (Start World)
unfolding read_settings serve
start_with system parse_success config w = do
  settings ← read_settings parse_success config
  elim settings [ none ↦ ok (exits 1 w) | some s ↦ serve system s w ]

-- `main(argc, argv)`
unfoldable pub main :
    {World : Type 0}
    → ⦃b : Boost⦄ → System World
    → List Bytes
    → World
    → Option (Outcome (Start World))
unfolding parse_file start_with
main system (program ∷ file_name ∷ []) w = elim (parse_file system.open_file file_name) [
  | none ↦ none
  | some (ok (parse_success, config)) ↦ some (caught w (start_with system parse_success config w))
  | some (throws e) ↦ some (ok (exits 0 w))
  | some undefined ↦ some undefined
]
main system _ w = some (ok (exits 1 w))
