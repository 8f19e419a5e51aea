-- ===== src/Handlers/Echo.antt =====
-- src/echo_request_handler.cc
pub mod RoundTrip
pub mod Body
use foxy_4_web_server.Base.{[], ◌∷◌, ◌++◌, if◌then◌else◌}
use foxy_4_web_server.Base.Bytes.{Bytes, codes, same}
use foxy_4_web_server.Base.Dict.{Dict}
use foxy_4_web_server.Http.{Method, Request, Response, StatusCode}
use foxy_4_web_server.ResponseGenerator.{content_headers}

unfoldable pub method_name : Method → Bytes
method_name Method.get = codes "GET"
method_name Method.post = codes "POST"
method_name Method.put = codes "PUT"
method_name Method.unknown = codes "UNKNOWN"

-- The loop over the headers, onto `req`.
unfoldable pub write_headers : Bytes → Dict Bytes → Bytes
write_headers req [] = req
write_headers req ((k, v) ∷ m) =
    write_headers (if same v [] then req else req ++ k ++ codes ": " ++ v ++ codes "\r\n") m

unfoldable pub convert_to_rawbody : Request → Bytes
unfolding method_name write_headers
convert_to_rawbody request =
    write_headers
      (method_name request.method
        ++ codes " "
        ++ request.uri
        ++ codes " HTTP"
        ++ codes "/"
        ++ request.http_version
        ++ codes "\r\n")
      request.headers
    ++ codes "\r\n"
    ++ request.body

unfoldable pub handle_request : Request → Response
unfolding convert_to_rawbody content_headers
handle_request request = record {
  code = StatusCode.success;
  body = convert_to_rawbody request;
  headers = content_headers (convert_to_rawbody request) (codes "text/plain");
}
