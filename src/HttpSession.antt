-- ===== src/HttpSession.antt =====
-- src/http_session.cc: a session without TLS. It answers by a redirect to the host with TLS; its
-- reads and writes repeat those of src/session.cc.
pub mod Redirect
use foxy_4_web_server.Session
use foxy_4_web_server.Base.{◌==◌, if◌then◌else◌, Outcome, ℕ, Bool, Option, List, [], ◌∷◌, ◌++◌}
use foxy_4_web_server.Base.Bytes.{Bytes, codes}
use foxy_4_web_server.Handlers.Static.{redirect_to}
use foxy_4_web_server.Http.{Request, StatusCode, Response}
use foxy_4_web_server.ResponseGenerator.{stock_response}
use foxy_4_web_server.Session.{Read, Next, Session, Kind, send, deleted}

-- `s[0]`: 0 in an empty string.
abbrev pub first_char : Bytes → ℕ
first_char [] = 0
first_char (c ∷ s) = c

unfoldable pub handle_request : Bytes → Request → Response
handle_request hostname request =
    if first_char request.uri == b'/'
    then redirect_to (codes "https://" ++ hostname ++ request.uri)
    else stock_response StatusCode.bad_request

module _ {World : Type 0} where
  -- `handle_request`, `deep_copy_response`, `increment_request` and the write of the buffers.
  unfoldable pub respond : Bytes → Session World → Outcome (Session World × Next)
  respond hostname s = send (handle_request hostname s.request) s

  -- The socket is closed in the call, and the session is deleted, on an error of a write too.
  abbrev pub redirecting : Bytes → Kind World
  redirecting hostname = record { respond = respond hostname; closed = deleted }

  unfoldable pub handle_bad_request : Session World → Outcome (Session World × Next)
  handle_bad_request s = send (stock_response StatusCode.bad_request) s

  -- `handle_read(error, bytes_transferred)`
  unfoldable pub handle_read :
      Bytes → Bool → ℕ → List Read → Session World → Option (Outcome (Session World × Next))
  handle_read hostname = Session.handle_read (redirecting hostname)

  unfoldable pub handle_final_read : Bytes → Session World → Outcome (Session World × Next)
  handle_final_read hostname = Session.handle_final_read (redirecting hostname)

  unfoldable pub handle_write : Bytes → Bool → Session World → Session World × Next
  handle_write hostname = Session.handle_write (redirecting hostname)
