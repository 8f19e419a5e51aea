-- ===== src/Session.antt =====
-- src/session.cc, include/session.h: a connection of a client, as steps on its state.
pub mod Steps
pub mod KeepAlive
pub mod Counts
pub mod Serving
pub mod Locations
use foxy_4_web_server.Base.{
  ℕ, zero, suc, Bool, true, false, ◌||◌, Option, none, some, List, [], ◌∷◌, ◌++◌, length, drop,
  Outcome, ok, throws, undefined, ◌>>=◌, if◌then◌else◌,
}
use foxy_4_web_server.Base.Bytes.{Bytes, codes, same, c_str}
use foxy_4_web_server.Base.Dict.{Dict, insert, get_or}
use foxy_4_web_server.DataCollector.{DataCollector, increment_request}
use foxy_4_web_server.HandlerGenerator.{HandlerMap, dispatch_handler}
use foxy_4_web_server.Handlers.Init.{Handler}
use foxy_4_web_server.Http.{Request, new_request, StatusCode, Response}
use foxy_4_web_server.RequestParser.{
  ResultType, good, bad, indeterminate, missing_data, RequestParser, new_parser, reset, parse_data,
}
use foxy_4_web_server.ResponseGenerator.{ResponseGenerator, init, to_buffers, stock_response}
use foxy_4_web_server.Utility.{get_content_length}

-- The size of `data_` and of `buffer_`.
abbrev pub max_length : ℕ
max_length = 1024

-- `memset(a, 0, n)`
unfoldable pub zeros : ℕ → Bytes
zeros zero = []
zeros (suc n) = 0 ∷ zeros n

-- A read of some bytes into an array: what is behind them stays.
unfoldable pub fill : Bytes → Bytes → Bytes
fill array bytes = bytes ++ drop (length bytes) array

-- A blocking read: the bytes that came, and whether it set the error code.
abbrev pub Read : Type 0
Read = Bytes × Bool

-- What the session waits for when a call has returned: a read into one of the arrays, the end of
-- a write, the end of the shutdown, or nothing; or the session is deleted.
pub data Next : Type 0 where
  read_data read_buffer shut_down nothing deleted : Next
  write : List Bytes → Next

-- The loop in `handle_read` has ended: `failed` is the error code of its last read.
pub record Arrival : Type 0 where
  pub result : ResultType
  pub request_parser : RequestParser
  pub request : Request
  pub data_bytes : Bytes
  pub failed : Bool

abbrev is_indeterminate : ResultType → Bool
is_indeterminate indeterminate = true
is_indeterminate _ = false

-- `while (result == indeterminate)`, over the reads to come. `none`: the thread still waits. Every
-- turn parses the array again, with the number of bytes of the first read.
unfoldable pub read_loop : ℕ → List Read → Arrival → Option (Outcome Arrival)
read_loop n [] a = if is_indeterminate a.result then none else some (ok a)
read_loop n ((bytes, failed) ∷ reads) a =
    let array = fill a.data_bytes bytes in
    if is_indeterminate a.result
    then elim (parse_data a.request_parser a.request array n) [
      | ok (result, p, r) ↦
          let b : Arrival = record {
            result = result;
            request_parser = reset p;
            request = r;
            data_bytes = array;
            failed = failed;
          } in
          if failed then some (ok b) else read_loop n reads b
      | throws e ↦ some (Outcome.throws e)
      | undefined ↦ some Outcome.undefined
    ]
    else some (ok a)

-- The members of a session, and what it shares with the others: the collector and the world that
-- the handlers read and change.
pub record Session (World : Type 0) : Type 0 where
  pub request_parser : RequestParser
  pub response_generator : ResponseGenerator
  pub request : Request
  pub data_bytes : Bytes
  pub buffer : Bytes
  pub generator : HandlerMap
  pub collector : DataCollector
  pub world : World

-- `request_handler->handle_request(request_)`, the virtual function of include/request_handler.h.
abbrev pub Handle : Type 0 → Type 0
Handle World = Handler → DataCollector → World → Request → Outcome (World × Response)

-- In what the two classes of sessions differ: what they do with a request that is whole, and what
-- is left when they have closed their socket.
pub record Kind (World : Type 0) : Type 0 where
  pub respond : Session World → Outcome (Session World × Next)
  pub closed : Next

-- `headers_[key] == "close"`, the value of a key that may be missing.
abbrev pub wants_close : Bytes → Dict Bytes → Bool
wants_close key m = same (get_or key [] m) (codes "close")

module _ {World : Type 0} where
  -- `Session(...)`. The arrays are not initialised, so they hold what the memory held, as do the
  -- members of the response's generator and the method of the request.
  unfoldable pub new_session :
      Bytes
      → Bytes
      → ResponseGenerator
      → Request
      → HandlerMap
      → DataCollector
      → World
      → Session World
  new_session data_bytes buffer g r m c w = record {
    request_parser = new_parser;
    response_generator = g;
    request = r;
    data_bytes = data_bytes;
    buffer = buffer;
    generator = m;
    collector = c;
    world = w;
  }

  -- `handle_handshake(error)`
  unfoldable pub handle_handshake : Bool → Session World → Session World × Next
  handle_handshake error s = (s, if error then deleted else read_data)

  -- `deep_copy_response`, `increment_request` and the write of the buffers.
  unfoldable pub send : Response → Session World → Outcome (Session World × Next)
  send response s = do
    c ← increment_request s.request.uri response.code s.collector
    let g = init s.response_generator response
    ok (record s { response_generator = g; collector = c }, write (to_buffers g))

  -- The handler for the URI is looked up and called; a null pointer is undefined.
  unfoldable pub answer : Handle World → Session World → Outcome (Session World × Next)
  unfolding send
  answer handle s =
      let (handler, m) = dispatch_handler s.request.uri s.generator in
      elim handler [
        | none ↦ undefined
        | some h ↦ (do
          (w, response) ← handle h s.collector s.world s.request
          send response (record s { generator = m; world = w }))
      ]

  abbrev pub clear_data : Session World × Next → Session World × Next
  clear_data (s, next) = (record s { data_bytes = zeros max_length }, next)

  -- What follows the loop in `handle_read`.
  unfoldable pub on_result :
      Kind World → ResultType → Session World → Outcome (Session World × Next)
  unfolding send
  on_result k good s = do after ← k.respond s; ok (clear_data after)
  on_result k missing_data s = do
    (n, r) ← get_content_length s.request
    ok (record s { request = r }, read_buffer)
  on_result k bad s = do
    after ← send (stock_response StatusCode.bad_request) s
    ok (clear_data after)
  on_result k indeterminate s = ok (clear_data (s, nothing))

  unfoldable pub after_loop : Kind World → Session World → Arrival → Outcome (Session World × Next)
  unfolding on_result
  after_loop k s a =
      let s' = record s { request = a.request; data_bytes = a.data_bytes } in
      if a.failed
      then ok (record s' { request_parser = a.request_parser }, nothing)
      else on_result k a.result (record s' { request_parser = reset a.request_parser })

  -- `handle_read(error, bytes_transferred)`: `data_bytes` holds what was read.
  unfoldable pub handle_read :
      Kind World → Bool → ℕ → List Read → Session World → Option (Outcome (Session World × Next))
  unfolding read_loop after_loop
  handle_read k true n reads s = some (ok (s, deleted))
  handle_read k false n reads s = elim (parse_data s.request_parser new_request s.data_bytes n) [
    | throws e ↦ some (Outcome.throws e)
    | undefined ↦ some Outcome.undefined
    | ok (result, p, r) ↦
        let first : Arrival = record {
          result = result;
          request_parser = p;
          request = r;
          data_bytes = s.data_bytes;
          failed = false;
        } in
        elim (read_loop n reads first) [
          | none ↦ none
          | some arrival ↦ some (do a ← arrival; after_loop k s a)
        ]
  ]

  -- `handle_final_read`: the body is the string at `buffer_`, whatever the read gave.
  unfoldable pub handle_final_read : Kind World → Session World → Outcome (Session World × Next)
  handle_final_read k s = elim (c_str s.buffer) [
    | none ↦ undefined
    | some text ↦ (do
      (s', next) ← k.respond (record s { request = record s.request { body = text } })
      ok (record s' { data_bytes = zeros max_length; buffer = zeros max_length }, next))
  ]

  -- `handle_write(error)`. The object is deleted on an error: the source first starts a shutdown whose
  -- handler deletes the object once more, which is left out, as is the exception of
  -- `remote_endpoint()` on a connection that is gone.
  unfoldable pub handle_write : Kind World → Bool → Session World → Session World × Next
  handle_write k true s = (s, deleted)
  handle_write k false s =
      let h = s.request.headers in
      let h' = insert (codes "Connection") [] h in
      let h'' = insert (codes "connection") [] h' in
      if wants_close (codes "Connection") h
      then (record s { request = record s.request { headers = h' } }, k.closed)
      else if wants_close (codes "connection") h'
      then (record s { request = record s.request { headers = h'' } }, k.closed)
      else (record s { request = record s.request { headers = h'' } }, read_data)

  -- A session over TLS: the shutdown goes on after the call.
  abbrev pub over_tls : Handle World → Kind World
  over_tls handle = record { respond = answer handle; closed = shut_down }
