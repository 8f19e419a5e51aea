-- ===== src/Handlers/NotFound.antt =====
-- src/not_found_request_handler.cc
use foxy_4_web_server.Http.{Request, Response, StatusCode}
use foxy_4_web_server.ResponseGenerator.{stock_response}

unfoldable pub handle_request : Request → Response
unfolding stock_response
handle_request request = stock_response StatusCode.not_found
