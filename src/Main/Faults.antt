-- ===== src/Main/Faults.antt =====
-- Where the start of the program fails, on a configuration that can be read.
use foxy_4_web_server.Base.{Exception, ok, throws, undefined, ◌≡◌, refl, Bool, true, some, [], ◌∷◌}
use foxy_4_web_server.Base.Bytes.{Bytes, codes, same}
use foxy_4_web_server.Base.Int.{ℤ}
use foxy_4_web_server.Boost.{Boost}
use foxy_4_web_server.Config.{Config, Ports}
use foxy_4_web_server.ConfigParser.{parse}
use foxy_4_web_server.Main.{
  System, parse_file, Settings, read_settings, fixed_hostname, listener_of, create_servers, serve,
  start_with, main, exits,
}
use foxy_4_web_server.Base.{Exception, ok, throws, undefined, ◌≡◌, refl, Bool, true, some, [], ◌∷◌}
use foxy_4_web_server.Base.Int.{ℤ}
use foxy_4_web_server.Base.Bytes.{Bytes, codes, same}
use foxy_4_web_server.Boost.{Boost}
use foxy_4_web_server.Config.{Config, Ports}
use foxy_4_web_server.ConfigParser.{parse}
use foxy_4_web_server.Main.{
  System, parse_file, Settings, read_settings, fixed_hostname, listener_of, create_servers, serve,
  start_with, main, exits,
}

module _ {World : Type 0} ⦃b : Boost⦄ (system : System World) (program file_name text : Bytes)
    (config : Config) (w : World) (opened : system.open_file file_name ≡ some text) where
  -- A valid configuration whose first port is one for redirects and that names no host: the last
  -- byte of an empty string is removed, which is undefined.
  pub main_without_hostname :
      (s : Settings) (port : ℤ) (more : Ports)
      → parse text Config.end ≡ some (ok (true, config))
      → read_settings true config ≡ ok (some s)
      → s.hostname ≡ []
      → s.port_types ≡ (port, codes "http") ∷ more
      → main system (program ∷ file_name ∷ []) w ≡ some undefined
  unfolding main parse_file start_with serve create_servers listener_of fixed_hostname same
  main_without_hostname s port more parsed valid nameless ports =
      rw (main, parse_file, opened, parsed, valid, nameless, ports) refl

  -- Where reading the configuration throws, whether it was parsed to its end or not, the exit code
  -- is 0, and the database is not touched.
  pub main_throws :
      (parse_success : Bool) (x : Exception)
      → parse text Config.end ≡ some (ok (parse_success, config))
      → read_settings parse_success config ≡ throws x
      → main system (program ∷ file_name ∷ []) w ≡ some (ok (exits 0 w))
  unfolding main parse_file start_with
  main_throws parse_success x parsed fault = rw (main, parse_file, opened, parsed, fault) refl
