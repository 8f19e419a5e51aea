-- ===== src/Http.antt =====
-- The data of the program: requests and responses (include/request.h, include/response.h).
use foxy_4_web_server.Base.{ℕ, []}
use foxy_4_web_server.Base.Bytes.{Bytes}
use foxy_4_web_server.Base.Dict.{Dict}

pub data Method : Type 0 where
  get put post unknown : Method

pub record Request : Type 0 where
  pub method : Method
  pub uri : Bytes
  pub http_version : Bytes
  pub headers : Dict Bytes
  pub body : Bytes

-- `Request()`: every member is value-initialised, and `GET` is the enumerator 0.
abbrev pub new_request : Request
new_request = record { method = Method.get; uri = []; http_version = []; headers = []; body = [] }

-- `status_code`. A cast of an integer can give a value that no enumerator has: `other`.
pub data StatusCode : Type 0 where
  success created accepted no_content : StatusCode
  multiple_choices moved_permanently moved_temporarily not_modified : StatusCode
  bad_request unauthorized forbidden not_found : StatusCode
  internal_server_error not_implemented bad_gateway service_unavailable : StatusCode
  other : ℕ → StatusCode

-- The value of the enumerator.
unfoldable pub code_value : StatusCode → ℕ
code_value success = 200
code_value created = 201
code_value accepted = 202
code_value no_content = 204
code_value multiple_choices = 300
code_value moved_permanently = 301
code_value moved_temporarily = 302
code_value not_modified = 304
code_value bad_request = 400
code_value unauthorized = 401
code_value forbidden = 403
code_value not_found = 404
code_value internal_server_error = 500
code_value not_implemented = 501
code_value bad_gateway = 502
code_value service_unavailable = 503
code_value (other n) = n

pub record Response : Type 0 where
  pub code : StatusCode
  pub headers : Dict Bytes
  pub body : Bytes
