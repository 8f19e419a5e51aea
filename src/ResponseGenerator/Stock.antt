-- ===== src/ResponseGenerator/Stock.antt =====
-- The stock responses, and the headers that every handler writes.
use foxy_4_web_server.Base.{◌≤◌, some, ◌≡◌, refl, arith, length, take, drop, ok}
use foxy_4_web_server.Base.Bytes.{Bytes, codes, same}
use foxy_4_web_server.Base.Bytes.Order.{less}
use foxy_4_web_server.Base.Dict.{lookup, put}
use foxy_4_web_server.Base.Int.{pos}
use foxy_4_web_server.Base.Text.{to_string, int_max, stoi}
use foxy_4_web_server.Base.Text.RoundTrip.{stoi-to_string}
use foxy_4_web_server.DataCollector.{map_status_to_string}
use foxy_4_web_server.Http.{StatusCode, code_value, Response}
use foxy_4_web_server.ResponseGenerator.{content_headers, to_buffer, stock_reply, stock_response}
use foxy_4_web_server.Utility.{content_length_key}

-- A response whose headers give the size of its body.
abbrev pub IsFramed : Response → Type 0
IsFramed r = lookup content_length_key r.headers ≡ some (to_string (length r.body))

pub content_headers-length :
    (body type : Bytes)
    → lookup content_length_key (content_headers body type) ≡ some (to_string (length body))
unfolding content_headers put lookup same less
content_headers-length body type = refl

-- The status under which a response goes out: a number of no enumerator counts as 500.
abbrev pub shown : StatusCode → StatusCode
shown (StatusCode.other n) = StatusCode.internal_server_error
shown status = status

-- The status line holds `HTTP/1.` first, and the number of the status in decimal behind the
-- version, 500 for a status of no enumerator; the data collector counts the response under the
-- same text.
pub to_buffer-code :
    (status : StatusCode)
    → (take 7 (to_buffer status) ≡ codes "HTTP/1.")
      × (take 3 (drop 9 (to_buffer status)) ≡ to_string (code_value (shown status)))
      × (map_status_to_string status ≡ to_string (code_value (shown status)))
unfolding to_buffer map_status_to_string code_value to_string
to_buffer-code StatusCode.success = (refl, refl, refl)
to_buffer-code _ = (refl, refl, refl)

stock_reply-small : (status : StatusCode) → length (stock_reply status) ≤ int_max
unfolding stock_reply
stock_reply-small StatusCode.success = omega arith
stock_reply-small _ = omega arith

-- A stock response carries its status, and its `Content-Length` is read back as the size of its
-- body.
pub stock_response-IsFramed :
    (status : StatusCode)
    → ((stock_response status).code ≡ status)
      × IsFramed (stock_response status)
      × (stoi (to_string (length (stock_response status).body))
          ≡ ok (pos (length (stock_response status).body)))
unfolding stock_response
stock_response-IsFramed status = (
  refl,
  content_headers-length (stock_reply status) (codes "text/html"),
  stoi-to_string _ (stock_reply-small status),
)
