-- ===== src/Session/Steps.antt =====
-- The calls on a session in the order in which Boost makes them, and what they keep.
use foxy_4_web_server.Base.{
  ℕ, Bool, true, false, Option, none, some, List, [], ◌≡◌, refl, ◌∙◌, length, Outcome, ok, ◌>>=◌,
  ok_of_bind, of_ok, Option-cases, Outcome-cases, Bool-cases, inl, inr,
}
use foxy_4_web_server.Base.Bytes.{Bytes, codes, c_str}
use foxy_4_web_server.Base.Dict.{insert}
use foxy_4_web_server.DataCollector.{increment_request}
use foxy_4_web_server.HandlerGenerator.{dispatch_handler}
use foxy_4_web_server.Http.{new_request, Response, StatusCode}
use foxy_4_web_server.RequestParser.{
  ResultType, good, bad, indeterminate, missing_data, RequestParser, reset, parse_data,
}
use foxy_4_web_server.ResponseGenerator.{stock_response}
use foxy_4_web_server.Session.{
  max_length, zeros, fill, Read, Next, read_data, read_buffer, shut_down, nothing, clear_data,
  deleted, write, Arrival, read_loop, Session, Handle, Kind, over_tls, send, answer, on_result,
  after_loop, handle_read, handle_final_read, handle_write, wants_close,
}
use foxy_4_web_server.Utility.{get_content_length}

module _ {World : Type 0} where
  -- A session that can take a request: the parser is reset, whatever it did before, and the array
  -- is empty.
  pub record IsReady (s : Session World) : Type 0 where
    pub earlier : RequestParser
    pub parser : s.request_parser ≡ reset earlier
    pub empty : s.data_bytes ≡ zeros max_length

  -- A session between two calls: it is ready while a response is written and while it waits for a
  -- request; while it waits for a body, the parser is reset.
  abbrev pub IsSettled : Session World × Next → Type 0
  IsSettled (s, read_data) = IsReady s
  IsSettled (s, write b) = IsReady s
  IsSettled (s, read_buffer) = (q : RequestParser) × (s.request_parser ≡ reset q)
  IsSettled (s, shut_down) = Unit
  IsSettled (s, nothing) = Unit
  IsSettled (s, deleted) = Unit

  -- The session when a read has put these bytes into its array.
  abbrev pub with_data : Session World → Bytes → Session World
  with_data s text = record s { data_bytes = fill s.data_bytes text }

  abbrev pub with_buffer : Session World → Bytes → Session World
  with_buffer s text = record s { buffer = fill s.buffer text }

  -- A response has been sent, and the parser is as it was.
  abbrev pub IsSent : Session World → Session World × Next → Type 0
  IsSent s (s', next) = (s'.request_parser ≡ s.request_parser) × (b : List Bytes) × (next ≡ write b)

  pub send-IsSent :
      (response : Response) (s : Session World) (after : Session World × Next)
      → send response s ≡ ok after
      → IsSent s after
  unfolding send
  send-IsSent response s after e =
      let (c, counted, ended) =
        ok_of_bind (increment_request s.request.uri response.code s.collector) _ e in
      of_ok (IsSent s) ended (refl, _, refl)

  answer-IsSent :
      (handle : Handle World) (s : Session World) (after : Session World × Next)
      → answer handle s ≡ ok after
      → IsSent s after
  unfolding answer
  answer-IsSent handle s after e =
      let (handler, m) = dispatch_handler s.request.uri s.generator in
      elim (Option-cases handler) [
        | inl null ↦
            let refused : Outcome.undefined ≡ ok after = rw (answer, null) at e in cc refused
        | inr (h, found) ↦
            let ((w, response), answered, sent) =
              ok_of_bind (handle h s.collector s.world s.request) _ (rw (answer, found) at e) in
            send-IsSent response (record s { generator = m; world = w }) after sent
      ]

-- A kind of session: what it does with a request ends in the write of a response, and it waits
-- for no request and no body when it has closed its socket.
pub record IsKind {World : Type 0} (k : Kind World) : Type 0 where
  pub sends :
      (s : Session World) (after : Session World × Next) → k.respond s ≡ ok after → IsSent s after
  pub closes : (s : Session World) → IsSettled (s, k.closed)

pub over_tls-IsKind : {World : Type 0} (handle : Handle World) → IsKind (over_tls handle)
over_tls-IsKind handle = record { sends = answer-IsSent handle; closes = λ s. tt }

module _ {World : Type 0} where
  clear_data-IsSettled :
      (s : Session World) (after : Session World × Next) (q : RequestParser)
      → s.request_parser ≡ reset q
      → IsSent s after
      → IsSettled (clear_data after)
  clear_data-IsSettled s (s', next) q e (kept, b, waits) =
      rw waits (record { earlier = q; parser = kept ∙ e; empty = refl })

-- The calls on a session: a read has ended with some bytes or with an error, the rest of a body has
-- come, a write has ended or failed.
pub data Step {World : Type 0} (k : Kind World)
    : Session World × Next → Session World × Next → Type 0 where
  on_read :
      {s : Session World} {after : Session World × Next} (text : Bytes) (reads : List Read)
      → handle_read k false (length text) reads (with_data s text) ≡ some (ok after)
      → Step k (s, read_data) after
  on_read_error : {s : Session World} → Step k (s, read_data) (s, deleted)
  on_final_read :
      {s : Session World} {after : Session World × Next} (text : Bytes)
      → handle_final_read k (with_buffer s text) ≡ ok after
      → Step k (s, read_buffer) after
  on_write :
      {s : Session World} {b : List Bytes} (error : Bool)
      → Step k (s, write b) (handle_write k error s)

pub data Steps {World : Type 0} (k : Kind World)
    : Session World × Next → Session World × Next → Type 0 where
  stop : {a : Session World × Next} → Steps k a a
  go : {a b c : Session World × Next} → Step k a b → Steps k b c → Steps k a c

module _ {World : Type 0} (k : Kind World) (c : IsKind k) where
  on_result-IsSettled :
      (result : ResultType) (s : Session World) (after : Session World × Next) (q : RequestParser)
      → s.request_parser ≡ reset q
      → on_result k result s ≡ ok after
      → IsSettled after
  unfolding on_result
  on_result-IsSettled good s after q p e =
      let (sent, answered, ended) = ok_of_bind (k.respond s) _ e in
      of_ok IsSettled ended (clear_data-IsSettled s sent q p (c.sends s sent answered))
  on_result-IsSettled bad s after q p e =
      let response = stock_response StatusCode.bad_request in
      let (sent, wrote, ended) = ok_of_bind (send response s) _ e in
      of_ok IsSettled ended (clear_data-IsSettled s sent q p (send-IsSent response s sent wrote))
  on_result-IsSettled indeterminate s after q p e = of_ok IsSettled e tt
  on_result-IsSettled missing_data s after q p e =
      let ((n, r), length_found, ended) = ok_of_bind (get_content_length s.request) _ e in
      of_ok IsSettled ended (q, p)

  after_loop-IsSettled :
      (s : Session World) (a : Arrival) (after : Session World × Next)
      → after_loop k s a ≡ ok after
      → IsSettled after
  unfolding after_loop
  after_loop-IsSettled s a after e = elim (Bool-cases a.failed) [
    | inl failed ↦ of_ok IsSettled (rw failed at e) tt
    | inr passed ↦ on_result-IsSettled a.result _ after a.request_parser refl (rw passed at e)
  ]

  of_some : (a b : Outcome (Session World × Next)) → Option.some a ≡ some b → a ≡ b
  of_some a b e = cc

  loop-IsSettled :
      (n : ℕ) (reads : List Read) (s : Session World) (first : Arrival)
      (after : Session World × Next)
      → elim (read_loop n reads first) [
        | none ↦ none
        | some arrival ↦ some (do a ← arrival; after_loop k s a)
      ]
        ≡ some (ok after)
      → IsSettled after
  loop-IsSettled n reads s first after e = elim (Option-cases (read_loop n reads first)) [
    | inl waiting ↦ let other : Option.none ≡ some (ok after) = rw waiting at e in cc other
    | inr (arrival, arrived) ↦
        let (a, _, ended) = ok_of_bind arrival (after_loop k s) (of_some _ _ (rw arrived at e)) in
        after_loop-IsSettled s a after ended
  ]

  handle_read-IsSettled :
      (n : ℕ) (reads : List Read) (s : Session World) (after : Session World × Next)
      → handle_read k false n reads s ≡ some (ok after)
      → IsSettled after
  unfolding handle_read
  handle_read-IsSettled n reads s after e =
      elim (Outcome-cases (parse_data s.request_parser new_request s.data_bytes n)) [
        | inr (inl (x, thrown)) ↦
            let other : Option.some (Outcome.throws x) ≡ some (ok after) =
              rw (handle_read, thrown) at e in
            cc other
        | inr (inr lost) ↦
            let other : Option.some Outcome.undefined ≡ some (ok after) =
              rw (handle_read, lost) at e in
            cc other
        | inl ((result, p, r), parsed) ↦
            loop-IsSettled n reads s
              (record {
                result = result;
                request_parser = p;
                request = r;
                data_bytes = s.data_bytes;
                failed = false;
              })
              after (rw (handle_read, parsed) at e)
      ]

  handle_final_read-IsSettled :
      (s : Session World) (after : Session World × Next) (q : RequestParser)
      → s.request_parser ≡ reset q
      → handle_final_read k s ≡ ok after
      → IsSettled after
  unfolding handle_final_read
  handle_final_read-IsSettled s after q p e = elim (Option-cases (c_str s.buffer)) [
    | inl unended ↦
        let other : Outcome.undefined ≡ ok after = rw (handle_final_read, unended) at e in cc other
    | inr (text, found) ↦
        let whole : Session World = record s { request = record s.request { body = text } } in
        let ((s', next), answered, ended) =
          ok_of_bind (k.respond whole) _ (rw (handle_final_read, found) at e) in
        let (kept, b, waits) = c.sends whole (s', next) answered in
        of_ok IsSettled ended (rw waits (record { earlier = q; parser = kept ∙ p; empty = refl }))
  ]

  handle_write-IsSettled :
      (error : Bool) (s : Session World) → IsReady s → IsSettled (handle_write k error s)
  unfolding handle_write
  handle_write-IsSettled true s ready = tt
  handle_write-IsSettled false s ready =
      let h = s.request.headers in
      elim (Bool-cases (wants_close (codes "Connection") h)) [
        | inl close ↦ rw close (c.closes _)
        | inr keep ↦
            elim (Bool-cases
              (wants_close (codes "connection") (insert (codes "Connection") [] h))) [
                | inl close ↦ rw (keep, close) (c.closes _)
                | inr on ↦
                    rw (keep, on)
                      (record {
                        earlier = ready.earlier;
                        parser = ready.parser;
                        empty = ready.empty;
                      })
              ]
      ]

  Step-IsSettled : {a b : Session World × Next} → Step k a b → IsSettled a → IsSettled b
  Step-IsSettled (on_read {s} {after} text reads e) w =
      handle_read-IsSettled (length text) reads (with_data s text) after e
  Step-IsSettled on_read_error w = tt
  Step-IsSettled (on_final_read {s} {after} text e) (q, p) =
      handle_final_read-IsSettled (with_buffer s text) after q p e
  Step-IsSettled (on_write {s} error) w = handle_write-IsSettled error s w

  -- Whatever arrives and however often, and whatever the handlers answer: a session that is settled
  -- is settled after each of its steps. Where it writes a response or waits for a request, its
  -- parser is reset and its array empty; where it waits for a body, its parser is reset.
  pub Steps-IsSettled : {a b : Session World × Next} → Steps k a b → IsSettled a → IsSettled b
  Steps-IsSettled stop w = w
  Steps-IsSettled (go step steps) w = Steps-IsSettled steps (Step-IsSettled step w)
