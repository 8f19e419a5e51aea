-- ===== src/DataCollector.antt =====
-- src/data_collector.cc, include/data_collector.h: the counts that the status page shows. The
-- singleton is state that is passed on; the mutex makes each call one step.
pub mod Counts
use foxy_4_web_server.Base.{
  ℕ, ◌+◌, Option, none, some, [], ◌∷◌, Outcome, ok, undefined, ◌>>=◌, ltb, if◌then◌else◌,
}
use foxy_4_web_server.Base.Bytes.{Bytes, codes}
use foxy_4_web_server.Base.Dict.{Dict, lookup, put}
use foxy_4_web_server.Base.Text.{int_max}
use foxy_4_web_server.Http.{
  StatusCode, success, created, accepted, no_content, multiple_choices, moved_permanently,
  moved_temporarily, not_modified, bad_request, unauthorized, forbidden, not_found,
  internal_server_error, not_implemented, bad_gateway, service_unavailable,
}

pub record DataCollector : Type 0 where
  pub status_map : Dict (Dict ℕ)
  pub uri_request_handler : Dict Bytes

-- What `get_instance` makes at its first call.
abbrev pub new_collector : DataCollector
new_collector = record { status_map = []; uri_request_handler = [] }

unfoldable pub map_status_to_string : StatusCode → Bytes
map_status_to_string success = codes "200"
map_status_to_string created = codes "201"
map_status_to_string accepted = codes "202"
map_status_to_string no_content = codes "204"
map_status_to_string multiple_choices = codes "300"
map_status_to_string moved_permanently = codes "301"
map_status_to_string moved_temporarily = codes "302"
map_status_to_string not_modified = codes "304"
map_status_to_string bad_request = codes "400"
map_status_to_string unauthorized = codes "401"
map_status_to_string forbidden = codes "403"
map_status_to_string not_found = codes "404"
map_status_to_string internal_server_error = codes "500"
map_status_to_string not_implemented = codes "501"
map_status_to_string bad_gateway = codes "502"
map_status_to_string service_unavailable = codes "503"
map_status_to_string _ = codes "500"

-- `status_map_[uri][status]++` of an `int`, or 1 for a status that is not there.
unfoldable pub bump : Bytes → Dict ℕ → Outcome (Dict ℕ)
bump status m = elim (lookup status m) [
  | some n ↦ if ltb n int_max then ok (put status (n + 1) m) else undefined
  | none ↦ ok (put status 1 m)
]

unfoldable pub increment_request : Bytes → StatusCode → DataCollector → Outcome DataCollector
unfolding bump map_status_to_string
increment_request uri status_code c =
    let status = map_status_to_string status_code in
    elim (lookup uri c.status_map) [
      | some m ↦ (do m' ← bump status m; ok (record c { status_map = put uri m' c.status_map }))
      | none ↦ ok (record c { status_map = put uri (put status 1 []) c.status_map })
    ]

unfoldable pub add_handler : Bytes → Bytes → DataCollector → DataCollector
add_handler path handler_name c = record c {
  uri_request_handler = put path handler_name c.uri_request_handler;
}
