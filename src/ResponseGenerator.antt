-- ===== src/ResponseGenerator.antt =====
-- src/response_generator.cc: the text of a response, and the stock responses.
pub mod Wire
pub mod Stock
use foxy_4_web_server.Base.{ℕ, List, [], ◌∷◌, ◌++◌, length}
use foxy_4_web_server.Base.Bytes.{Bytes, codes}
use foxy_4_web_server.Base.Dict.{Dict, put}
use foxy_4_web_server.Base.Text.{to_string}
use foxy_4_web_server.Http.{
  StatusCode, success, created, accepted, no_content, multiple_choices, moved_permanently,
  moved_temporarily, not_modified, bad_request, unauthorized, forbidden, not_found,
  internal_server_error, not_implemented, bad_gateway, service_unavailable, Response,
}

pub record ResponseGenerator : Type 0 where
  pub code : StatusCode
  pub headers : Dict Bytes
  pub body : Bytes

-- `status_string::to_buffer`
unfoldable pub to_buffer : StatusCode → Bytes
to_buffer success = codes "HTTP/1.1 200 OK\r\n"
to_buffer created = codes "HTTP/1.0 201 Created\r\n"
to_buffer accepted = codes "HTTP/1.0 202 Accepted\r\n"
to_buffer no_content = codes "HTTP/1.0 204 No Content\r\n"
to_buffer multiple_choices = codes "HTTP/1.0 300 Multiple Choices\r\n"
to_buffer moved_permanently = codes "HTTP/1.0 301 Moved Permanently\r\n"
to_buffer moved_temporarily = codes "HTTP/1.0 302 Moved Temporarily\r\n"
to_buffer not_modified = codes "HTTP/1.0 304 Not Modified\r\n"
to_buffer bad_request = codes "HTTP/1.1 400 Bad Request\r\n"
to_buffer unauthorized = codes "HTTP/1.0 401 Unauthorized\r\n"
to_buffer forbidden = codes "HTTP/1.0 403 Forbidden\r\n"
to_buffer not_found = codes "HTTP/1.0 404 Not Found\r\n"
to_buffer internal_server_error = codes "HTTP/1.0 500 Internal Server Error\r\n"
to_buffer not_implemented = codes "HTTP/1.0 501 Not Implemented\r\n"
to_buffer bad_gateway = codes "HTTP/1.0 502 Bad Gateway\r\n"
to_buffer service_unavailable = codes "HTTP/1.0 503 Service Unavailable\r\n"
to_buffer _ = codes "HTTP/1.0 500 Internal Server Error\r\n"

-- The loop of `init`: `headers_[it->first] = it->second`.
unfoldable pub copy_headers : Dict Bytes → Dict Bytes → Dict Bytes
copy_headers done [] = done
copy_headers done ((k, v) ∷ m) = copy_headers (put k v done) m

-- Whatever the generator holds is replaced.
unfoldable pub init : ResponseGenerator → Response → ResponseGenerator
unfolding copy_headers
init g response = record g {
  body = response.body;
  code = response.code;
  headers = copy_headers [] response.headers;
}

abbrev pub crlf : Bytes
crlf = codes "\r\n"

abbrev pub name_value_separator : Bytes
name_value_separator = codes ": "

unfoldable pub header_buffers : List Bytes → Dict Bytes → List Bytes
header_buffers buffers [] = buffers
header_buffers buffers ((k, v) ∷ m) =
    header_buffers (buffers ++ k ∷ name_value_separator ∷ v ∷ crlf ∷ []) m

unfoldable pub to_buffers : ResponseGenerator → List Bytes
unfolding to_buffer header_buffers
to_buffers g = header_buffers (to_buffer g.code ∷ []) g.headers ++ crlf ∷ g.body ∷ []

-- `stock_reply::to_string`
unfoldable pub stock_reply : StatusCode → Bytes
stock_reply success = []
stock_reply created =
    codes "<html><head><title>Created</title></head><body><h1>201 Created</h1></body></html>"
stock_reply accepted =
    codes "<html><head><title>Accepted</title></head><body><h1>202 Accepted</h1></body></html>"
stock_reply no_content =
    codes "<html><head><title>No Content</title></head><body><h1>204 Content</h1></body></html>"
stock_reply multiple_choices =
    codes
      "<html><head><title>Multiple Choices</title></head><body><h1>300 Multiple Choices</h1></body></html>"
stock_reply moved_permanently =
    codes
      "<html><head><title>Moved Permanently</title></head><body><h1>301 Moved Permanently</h1></body></html>"
stock_reply moved_temporarily =
    codes
      "<html><head><title>Moved Temporarily</title></head><body><h1>302 Moved Temporarily</h1></body></html>"
stock_reply not_modified =
    codes
      "<html><head><title>Not Modified</title></head><body><h1>304 Not Modified</h1></body></html>"
stock_reply bad_request =
    codes
      "<html><head><title>Bad Request</title></head><body><h1>400 Bad Request</h1></body></html>"
stock_reply unauthorized =
    codes
      "<html><head><title>Unauthorized</title></head><body><h1>401 Unauthorized</h1></body></html>"
stock_reply forbidden =
    codes "<html><head><title>Forbidden</title></head><body><h1>403 Forbidden</h1></body></html>"
stock_reply not_found =
    codes "<html><head><title>Not Found</title></head><body><h1>404 Not Found</h1></body></html>"
stock_reply internal_server_error =
    codes
      "<html><head><title>Internal Server Error</title></head><body><h1>500 Internal Server Error</h1></body></html>"
stock_reply not_implemented =
    codes
      "<html><head><title>Not Implemented</title></head><body><h1>501 Not Implemented</h1></body></html>"
stock_reply bad_gateway =
    codes
      "<html><head><title>Bad Gateway</title></head><body><h1>502 Bad Gateway</h1></body></html>"
stock_reply service_unavailable =
    codes
      "<html><head><title>Service Unavailable</title></head><body><h1>503 Service Unavailable</h1></body></html>"
stock_reply _ =
    codes
      "<html><head><title>Internal Server Error</title></head><body><h1>500 Internal Server Error</h1></body></html>"

abbrev content_type_key : Bytes
content_type_key = codes "Content-Type"

-- The headers that every handler writes: the size of the body and its type.
unfoldable pub content_headers : Bytes → Bytes → Dict Bytes
content_headers body type =
    put content_type_key type (put (codes "Content-Length") (to_string (length body)) [])

unfoldable pub stock_response : StatusCode → Response
unfolding stock_reply content_headers
stock_response status = record {
  code = status;
  body = stock_reply status;
  headers = content_headers (stock_reply status) (codes "text/html");
}
