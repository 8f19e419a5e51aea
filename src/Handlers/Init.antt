-- ===== src/Handlers/Init.antt =====
-- The `Init` functions of the handlers, and `createHandler` of src/request_handler_generator.cc.
use foxy_4_web_server.Boost.{Boost}
use foxy_4_web_server.Base.{◌+◌, Option, none, some, List, [], Outcome, ok, ◌>>=◌, if◌then◌else◌}
use foxy_4_web_server.Base.Bytes.{Bytes, codes, same, drop_last}
use foxy_4_web_server.Base.Int.{ℤ, pos}
use foxy_4_web_server.Base.Text.{stoi}
use foxy_4_web_server.Config.{Config, end, next, tokens_of, find_token, token_at}
use foxy_4_web_server.DataCollector.{DataCollector, add_handler}
use foxy_4_web_server.Utility.{is_quoted}

-- The subclasses of `RequestHandler` with their members.
pub data Handler : Type 0 where
  static : Bytes → Bytes → Bytes → Handler
  echo status not_found health : Handler
  proxy : Bytes → Bytes → ℤ → Handler
  login : Bytes → Bytes → Handler

-- What an `Init` returns, a null pointer as `none`, and the collector that it leaves.
abbrev Made : Type 0
Made = Outcome (Option Handler × DataCollector)

-- The token behind `word` where the statement has that word, and otherwise the value so far.
unfoldable pub read_word : Bytes → List Bytes → Bytes → Outcome Bytes
unfolding find_token token_at
read_word word tokens value = elim (find_token word tokens) [
  | none ↦ ok value
  | some i ↦ token_at tokens (i + 1)
]

-- The loop over the statements of the block: the last one that has the word counts.
unfoldable pub last_word : Bytes → Config → Bytes → Outcome Bytes
unfolding read_word
last_word word end value = ok value
last_word word (next s more) value = do
  value' ← read_word word (tokens_of s) value
  last_word word more value'

-- The loop of the static handler: `root` and `auth` of each statement, in this order.
unfoldable pub read_static : Config → Bytes → Bytes → Outcome (Bytes × Bytes)
unfolding read_word
read_static end root auth = ok (root, auth)
read_static (next s more) root auth = do
  root' ← read_word (codes "root") (tokens_of s) root
  auth' ← read_word (codes "auth") (tokens_of s) auth
  read_static more root' auth'

unfoldable pub static_init : ⦃b : Boost⦄ → Bytes → Config → DataCollector → Made
unfolding read_static is_quoted add_handler
static_init location_path config c = do
  let c' = add_handler location_path (codes "Static Request Handler") c
  (root, auth) ← read_static config [] []
  (quoted, root') ← is_quoted root
  if quoted
      then (do
        (auth_quoted, auth') ← is_quoted auth
        ok (some (static root' (if auth_quoted then auth' else []) location_path), c'))
      else ok (none, c')

unfoldable pub login_init : ⦃b : Boost⦄ → Bytes → Config → DataCollector → Made
unfolding last_word is_quoted add_handler
login_init location_path config c = do
  let c' = add_handler location_path (codes "Login Request Handler") c
  root ← last_word (codes "root") config []
  (quoted, root') ← is_quoted root
  ok ((if quoted then some (login root' location_path) else none), c')

-- `port = std::stoi(*(find_port + 1))` where the statement has the word.
unfoldable pub read_port : List Bytes → ℤ → Outcome ℤ
unfolding find_token token_at
read_port tokens port = elim (find_token (codes "port") tokens) [
  | none ↦ ok port
  | some i ↦ (do token ← token_at tokens (i + 1); stoi token)
]

-- The loop of the proxy handler.
unfoldable pub read_proxy : Config → Bytes → ℤ → Outcome (Bytes × ℤ)
unfolding read_word read_port
read_proxy end root port = ok (root, port)
read_proxy (next s more) root port = do
  root' ← read_word (codes "host") (tokens_of s) root
  port' ← read_port (tokens_of s) port
  read_proxy more root' port'

-- `is_quoted` leaves a root that ends in a slash, which is dropped again.
unfoldable pub proxy_init : ⦃b : Boost⦄ → Bytes → Config → DataCollector → Made
unfolding read_proxy is_quoted add_handler
proxy_init location_path config c = do
  let c' = add_handler location_path (codes "Proxy Request Handler") c
  (root, port) ← read_proxy config [] (pos 0)
  (quoted, root') ← is_quoted root
  ok ((if quoted then some (proxy (drop_last root') location_path port) else none), c')

unfoldable pub echo_init : Bytes → DataCollector → Made
unfolding add_handler
echo_init location_path c =
    ok (some echo, add_handler location_path (codes "Echo Request Handler") c)

unfoldable pub status_init : Bytes → DataCollector → Made
unfolding add_handler
status_init location_path c =
    ok (some status, add_handler location_path (codes "Status Request Handler") c)

unfoldable pub not_found_init : Bytes → DataCollector → Made
unfolding add_handler
not_found_init location_path c =
    ok (some not_found, add_handler location_path (codes "404 Not Found Request Handler") c)

unfoldable pub health_init : Bytes → DataCollector → Made
unfolding add_handler
health_init location_path c =
    ok (some health, add_handler location_path (codes "Health Request Handler") c)

unfoldable pub create_handler : ⦃b : Boost⦄ → Bytes → Bytes → Config → DataCollector → Made
unfolding static_init echo_init status_init not_found_init proxy_init health_init login_init
create_handler path method config c =
    if same method (codes "StaticHandler")
    then static_init path config c
    else if same method (codes "EchoHandler")
    then echo_init path c
    else if same method (codes "StatusHandler")
    then status_init path c
    else if same method (codes "NotFoundHandler")
    then not_found_init path c
    else if same method (codes "ProxyHandler")
    then proxy_init path config c
    else if same method (codes "HealthHandler")
    then health_init path c
    else if same method (codes "LoginHandler")
    then login_init path config c
    else ok (none, c)
