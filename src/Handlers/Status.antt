-- ===== src/Handlers/Status.antt =====
-- src/status_request_handler.cc: the page with the counts and the handlers.
use foxy_4_web_server.Base.{ℕ, [], ◌∷◌, ◌++◌}
use foxy_4_web_server.Base.Bytes.{Bytes, codes}
use foxy_4_web_server.Base.Dict.{Dict}
use foxy_4_web_server.Base.Text.{to_string}
use foxy_4_web_server.DataCollector.{DataCollector}
use foxy_4_web_server.Http.{Request, Response, StatusCode}
use foxy_4_web_server.ResponseGenerator.{content_headers}

-- The inner loop: the counts of one URI, by status.
unfoldable pub write_counts : Bytes → Bytes → Dict ℕ → Bytes
write_counts body uri [] = body
write_counts body uri ((status, n) ∷ m) =
    write_counts
      (body
        ++ codes "<p>Number of request received from URI "
        ++ uri
        ++ codes " with status code "
        ++ status
        ++ codes " : "
        ++ to_string n
        ++ codes "</p>")
      uri m

-- The outer loop.
unfoldable pub write_status_map : Bytes → Dict (Dict ℕ) → Bytes
unfolding write_counts
write_status_map body [] = body
write_status_map body ((uri, m) ∷ more) = write_status_map (write_counts body uri m) more

-- The loop over the handlers.
unfoldable pub write_handlers : Bytes → Dict Bytes → Bytes
write_handlers body [] = body
write_handlers body ((path, name) ∷ m) =
    write_handlers
      (body ++ codes "<p>URI prefix for " ++ name ++ codes " : " ++ path ++ codes "</p>") m

unfoldable pub create_body : DataCollector → Bytes
unfolding write_status_map write_handlers
create_body c =
    let top =
      codes "<!DOCTYPE html><html><body>"
      ++ codes "<head><title>Server Status</title></head>"
      ++ codes "<h1>Count for server's request and response</h1>" in
    let counted = write_status_map top c.status_map in
    write_handlers (counted ++ codes "<h1>Path to RequestHandler</h1>") c.uri_request_handler
    ++ codes "</body></html>"

unfoldable pub handle_request : DataCollector → Request → Response
unfolding create_body content_headers
handle_request c request = record {
  code = StatusCode.success;
  body = create_body c;
  headers = content_headers (create_body c) (codes "text/html");
}
