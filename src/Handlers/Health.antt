-- ===== src/Handlers/Health.antt =====
-- src/health_request_handler.cc
use foxy_4_web_server.Base.Bytes.{codes}
use foxy_4_web_server.Http.{Request, Response, StatusCode}
use foxy_4_web_server.ResponseGenerator.{content_headers}

unfoldable pub handle_request : Request → Response
unfolding content_headers
handle_request request = record {
  code = StatusCode.success;
  body = codes "OK";
  headers = content_headers (codes "OK") (codes "text/plain");
}
