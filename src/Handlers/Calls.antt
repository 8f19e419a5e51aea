-- ===== src/Handlers/Calls.antt =====
-- include/request_handler.h: the call of `handle_request` by a pointer to the base class.
use foxy_4_web_server.Base.{ok, undefined, ◌>>=◌, none, some}
use foxy_4_web_server.Boost.{Boost}
use foxy_4_web_server.Session.{Handle}
use foxy_4_web_server.Handlers.Init.{static, echo, status, not_found, health, proxy, login}
use foxy_4_web_server.Handlers.Static.{StaticHandler, Outside}
use foxy_4_web_server.Handlers.Login.{LoginHandler, Services}
use foxy_4_web_server.Handlers.Proxy.Forward.{ProxyHandler, Upstream}
use foxy_4_web_server.Handlers.Echo
use foxy_4_web_server.Handlers.Health
use foxy_4_web_server.Handlers.NotFound
use foxy_4_web_server.Handlers.Status
use foxy_4_web_server.Handlers.Static
use foxy_4_web_server.Handlers.Login
use foxy_4_web_server.Handlers.Proxy.Forward

-- What the handlers ask of the outside, in a world of it: the files and the check of a cookie, the
-- services of the logins, and what comes of the connections of one request to the proxy.
pub record Platform (World : Type 0) : Type 0 where
  pub outside : World → Outside
  pub services : Services World
  pub upstream : World → Upstream × World

-- The class of the object decides. In place of the proxy's `none`, which stands for fuel that has run
-- out in the rewriting of links, there is `undefined`; the fuel is enough.
unfoldable pub handle_request : ⦃b : Boost⦄ → {World : Type 0} → Platform World → Handle World
handle_request p (static root auth_path path) c w r = ok (
  w,
  Static.handle_request (record { root = root; path = path; auth_path = auth_path }) (p.outside w)
      r,
)
handle_request p echo c w r = ok (w, Echo.handle_request r)
handle_request p status c w r = ok (w, Status.handle_request c r)
handle_request p not_found c w r = ok (w, NotFound.handle_request r)
handle_request p health c w r = ok (w, Health.handle_request r)
handle_request p (proxy root path port) c w r =
    let (upstream, w') = p.upstream w in
    elim (Forward.handle_request (record { root = root; path = path; port = port }) upstream r) [
      | none ↦ undefined
      | some o ↦ (do response ← o; ok (w', response))
    ]
handle_request p (login root path) c w r =
    let (response, w') =
      Login.handle_request p.services (record { root = root; path = path }) r w in
    ok (w', response)
