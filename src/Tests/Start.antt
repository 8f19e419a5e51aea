-- ===== src/Tests/Start.antt =====
-- The start of the program on a concrete configuration.
use foxy_4_web_server.Config
use foxy_4_web_server.Base.{
  if◌then◌else◌, All, ok, undefined, ◌≡◌, refl, true, false, none, some, List, [], ◌∷◌,
}
use foxy_4_web_server.Base.Int.{pos}
use foxy_4_web_server.Base.Text.{is_decimal, stoi}
use foxy_4_web_server.Base.Bytes.{Bytes, codes, same, starts_with, contains, last?, drop_last}
use foxy_4_web_server.Boost.{ends}
use foxy_4_web_server.Http.{Request}
use foxy_4_web_server.Config.{Config}
use foxy_4_web_server.ConfigParser.{
  token_step, token_loop, parse_token, pop, on_normal, turn, finish, parse_loop, parse,
}
use foxy_4_web_server.Main.{
  Listener, parse_file, start_with, serve, create_servers, listener_of, fixed_hostname, System,
  Settings, read_settings, prepare_database, main, serves,
}
use foxy_4_web_server.Main.Faults.{main_without_hostname}
use foxy_4_web_server.Main.Accounts.{admin_logs_in}
use foxy_4_web_server.Tests.Library.{string_tests}
use foxy_4_web_server.Tests.Accounts.{
  Rows, tables, has_table, view_rows, tables-IsTable, services, pages, sign_up, sign_in,
}
use foxy_4_web_server.Handlers.Login.{handle_request}
use foxy_4_web_server.Handlers.Login.Accounts.{logged_in, handle_all, IsForm}
use foxy_4_web_server.Forms.{is_line_end}
use foxy_4_web_server.Forms.Fields.{IsFieldByte, form}

abbrev config_text : Bytes
config_text = codes "hostname \"h\";\ndir \"w\";\nlisten http 65616;\nlisten https 443;\n"

abbrev listens : Config
listens =
    Config.next (Config.plain (codes "listen" ∷ codes "http" ∷ codes "65616" ∷ []))
      (Config.next (Config.plain (codes "listen" ∷ codes "https" ∷ codes "443" ∷ [])) Config.end)

abbrev config : Config
config =
    Config.next (Config.plain (codes "hostname" ∷ codes "\"h\"" ∷ []))
      (Config.next (Config.plain (codes "dir" ∷ codes "\"w\"" ∷ [])) listens)

abbrev settings : Settings
settings = record {
  port_types = (pos 65616, codes "http") ∷ (pos 443, codes "https") ∷ [];
  dir = codes "w/";
  threads = pos 4;
  hostname = codes "h/";
  map = [];
}

abbrev machine : System Rows
machine = record {
  open_file = λ name. if same name (codes "c") then some config_text else none;
  libraries = tables;
  can_listen = λ before l. true;
}

config_opens : machine.open_file (codes "c") ≡ some config_text
unfolding same
config_opens = refl

config_parses : parse config_text Config.end ≡ some (ok (true, config))
unfolding parse parse_loop turn parse_token token_loop token_step on_normal pop finish
config_parses = refl

settings_read : read_settings ⦃b = string_tests⦄ true config ≡ ok (some settings)
unfolding read_settings same is_decimal stoi starts_with ends last? drop_last
settings_read = refl

-- The two servers that the configuration asks for.
abbrev servers : List Listener
servers =
    record { secure = false; port = 80; threads = pos 4; hostname = codes "h" }
    ∷ record { secure = true; port = 443; threads = pos 4; hostname = [] }
    ∷ []

-- The start on a new database, which has no table yet.
started :
    main ⦃b = string_tests⦄ machine (codes "server" ∷ codes "c" ∷ []) none
    ≡ some (ok (serves (codes "w/") [] servers (prepare_database tables none)))
unfolding main parse_file start_with serve create_servers listener_of fixed_hostname same parse
    parse_loop turn parse_token token_loop token_step on_normal pop finish read_settings is_decimal
    stoi starts_with ends last? drop_last
started = refl

-- The same without the host.
abbrev nameless_text : Bytes
nameless_text = codes "listen http 65616;\nlisten https 443;\n"

abbrev nameless : System Rows
nameless = record machine {
  open_file = λ name. if same name (codes "c") then some nameless_text else none;
}

nameless_opens : nameless.open_file (codes "c") ≡ some nameless_text
unfolding same
nameless_opens = refl

nameless_parses : parse nameless_text Config.end ≡ some (ok (true, listens))
unfolding parse parse_loop turn parse_token token_loop token_step on_normal pop finish
nameless_parses = refl

nameless_read :
    read_settings ⦃b = string_tests⦄ true listens
    ≡ ok (some (record settings { dir = []; hostname = [] }))
unfolding read_settings same is_decimal stoi starts_with ends last? drop_last
nameless_read = refl

main_without_hostname_example :
    main ⦃b = string_tests⦄ nameless (codes "server" ∷ codes "c" ∷ []) none ≡ some undefined
main_without_hostname_example =
    main_without_hostname ⦃b = string_tests⦄ nameless (codes "server") (codes "c") nameless_text
      listens none nameless_opens (record settings { dir = []; hostname = [] }) (pos 65616)
      ((pos 443, codes "https") ∷ []) nameless_parses nameless_read refl refl

abbrev admin_form : Request
admin_form = record sign_in { body = form (codes "admin") (codes "admin") }

admin_bytes : All IsFieldByte (codes "admin")
unfolding is_line_end
admin_bytes = (
  (refl, refl, refl),
  ((refl, refl, refl), ((refl, refl, refl), ((refl, refl, refl), ((refl, refl, refl), tt)))),
)

admin_form-IsForm : IsForm admin_form (codes "admin") (codes "admin")
admin_form-IsForm = record {
  method = refl;
  body = refl;
  name_bytes = admin_bytes;
  word_bytes = admin_bytes;
}

admin_logs_in_example :
    (w : Rows) × (handle_request services pages admin_form
        (handle_all services pages (sign_up ∷ []) (prepare_database tables none))
      ≡ (logged_in services pages (codes "admin") w, w))
unfolding contains starts_with
admin_logs_in_example =
    admin_logs_in ⦃b = string_tests⦄ machine services has_table view_rows
      (codes "server" ∷ codes "c" ∷ []) none (prepare_database tables none) (codes "w/") [] servers
      pages (sign_up ∷ []) admin_form tables-IsTable refl started refl admin_form-IsForm refl
