-- ===== src/Tests/Pages.antt =====
-- The responses and the static handler at concrete inputs.
use foxy_4_web_server.Base.{
  false, some, none, Option, List, [], ◌∷◌, ◌≡◌, refl, arith, ok, if◌then◌else◌,
}
use foxy_4_web_server.Base.Bytes.{Bytes, codes, same, starts_with, contains, last?, before_nul}
use foxy_4_web_server.DataCollector.{DataCollector, new_collector}
use foxy_4_web_server.DataCollector.Counts.{Event, record_all, count, tally, record_all-tally}
use foxy_4_web_server.Handlers.Echo
use foxy_4_web_server.Handlers.Framed.{handle_request-IsFramed}
use foxy_4_web_server.Handlers.Health
use foxy_4_web_server.Handlers.NotFound
use foxy_4_web_server.Handlers.Status
use foxy_4_web_server.HttpSession
use foxy_4_web_server.Handlers.Static.{StaticHandler, Outside, handle_request}
use foxy_4_web_server.Handlers.Static.Paths.{check_request_path, check_decoded}
use foxy_4_web_server.Handlers.Static.Decode.{url_decode}
use foxy_4_web_server.Handlers.Static.Safety.{
  IsChecked, check_request_path-IsChecked, handle_request_inside, with_files, IsBelow, AgreeInside,
}
use foxy_4_web_server.Http.{StatusCode, Request, new_request}
use foxy_4_web_server.ResponseGenerator.Stock.{IsFramed}
use foxy_4_web_server.Handlers.Login
use foxy_4_web_server.Tests.Accounts.{services, pages}
use foxy_4_web_server.Tests.Library.{string_tests}

abbrev log : List Event
log =
    (codes "/a", StatusCode.success)
    ∷ (codes "/b", StatusCode.not_found)
    ∷ (codes "/a", StatusCode.success)
    ∷ []

record_all-tally_example :
    (c : DataCollector) × (record_all log new_collector ≡ ok c)
    × ((uri status : Bytes) → count uri status c ≡ tally uri status log)
record_all-tally_example = record_all-tally log (omega arith)

check_request_path-IsChecked_example : IsChecked (codes "/a b/index.html")
unfolding check_request_path url_decode check_decoded contains last?
check_request_path-IsChecked_example =
    check_request_path-IsChecked (codes "/a%20b/") (codes "/a b/index.html") refl

abbrev files : StaticHandler
files = record { root = codes "/data/"; path = codes "/static/"; auth_path = [] }

abbrev outside : Outside
outside = record {
  open_file = λ name. if same name (codes "/data/x") then some (codes "hello") else none;
  verify_cookie = λ c. false;
}

abbrev elsewhere : Bytes → Option Bytes
elsewhere name =
    if same name (codes "/etc/passwd") then some (codes "secret") else outside.open_file name

abbrev wanted : Request
wanted = record new_request { uri = codes "/static/x" }

wanted-IsBelow : IsBelow files (codes "/static/x")
unfolding check_request_path url_decode check_decoded contains last? starts_with
wanted-IsBelow p e = rw (← ap_some _ _ e) refl
  where
    ap_some : (a b : Bytes) → some a ≡ some b → a ≡ b
    ap_some a b h = cc

agree : AgreeInside (codes "/data/") outside.open_file elsewhere
unfolding same before_nul
agree name (rest, e, clean) = rw e refl

handle_request_inside_example :
    handle_request ⦃b = string_tests⦄ files outside wanted
    ≡ handle_request ⦃b = string_tests⦄ files (with_files outside elsewhere) wanted
unfolding contains last?
handle_request_inside_example =
    handle_request_inside ⦃b = string_tests⦄ files outside elsewhere wanted (refl, refl)
      wanted-IsBelow agree

handle_request-IsFramed_example :
    IsFramed (Echo.handle_request wanted)
    × IsFramed (Health.handle_request wanted)
    × IsFramed (Status.handle_request new_collector wanted)
    × IsFramed (NotFound.handle_request wanted)
    × IsFramed (handle_request ⦃b = string_tests⦄ files outside wanted)
    × IsFramed (Login.handle_request services pages wanted (some [])).0
    × IsFramed (HttpSession.handle_request (codes "h") wanted)
handle_request-IsFramed_example =
    handle_request-IsFramed ⦃b = string_tests⦄ files outside new_collector (codes "h") services
      pages (some []) wanted
