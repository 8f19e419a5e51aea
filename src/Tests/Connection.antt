-- ===== src/Tests/Connection.antt =====
-- A connection at a concrete input.
use foxy_4_web_server.Base.{
  List, ◌++◌, ◌+◌, ◌==◌, false, some, [], ◌∷◌, ◌≡◌, refl, arith, length, ok,
}
use foxy_4_web_server.Base.Bytes.{Bytes, codes, same}
use foxy_4_web_server.Base.Bytes.Order.{less}
use foxy_4_web_server.Base.Dict.{insert, get_or, lookup, put}
use foxy_4_web_server.RequestParser.Chars.{refused, control, digit}
use foxy_4_web_server.Tests.Parser.{all-false}
use foxy_4_web_server.DataCollector.{new_collector}
use foxy_4_web_server.Handlers.Echo.{convert_to_rawbody, handle_request}
use foxy_4_web_server.Handlers.Init.{Handler}
use foxy_4_web_server.Http.{Method, StatusCode, Request, new_request, Response}
use foxy_4_web_server.RequestParser.{good, RequestParser, new_parser, reset}
use foxy_4_web_server.Session.{
  max_length, zeros, Handle, Session, read_data, write, handle_read, handle_write, send, on_result,
  over_tls,
}
use foxy_4_web_server.Session.KeepAlive.{IsPlain, seen, handle_read-Steps}
use foxy_4_web_server.Session.Counts.{send-count}
use foxy_4_web_server.DataCollector.Counts.{count, hit}
use foxy_4_web_server.ResponseGenerator.{to_buffer, crlf}
use foxy_4_web_server.ResponseGenerator.Wire.{wire, header_text}
use foxy_4_web_server.Session.Steps.{
  IsReady, with_data, Steps, IsSettled, Steps-IsSettled, over_tls-IsKind, stop, go, on_write,
}

abbrev echo_all : Handle (Unit {0})
echo_all h c w r = ok (w, handle_request r)

abbrev pub asked : Request
asked = record {
  method = Method.get;
  uri = codes "/a";
  http_version = codes "1.1";
  headers = (codes "Host", codes "x") ∷ [];
  body = [];
}

-- A session that writes the answer to an earlier request, with a parser that has counted bytes.
abbrev pub answering : Session (Unit {0})
answering = record {
  request_parser = reset (record new_parser { n_char_parsed = 7 });
  response_generator = record { code = StatusCode.success; headers = []; body = [] };
  request = new_request;
  data_bytes = zeros max_length;
  buffer = zeros max_length;
  generator = (codes "/", some Handler.echo) ∷ [];
  collector = new_collector;
  world = tt;
}

abbrev pub waiting : Session (Unit {0})
waiting = record answering {
  request = record new_request {
    headers = (codes "Connection", []) ∷ (codes "connection", []) ∷ [];
  };
}

pub answering-IsReady : IsReady answering
answering-IsReady = record {
  earlier = record new_parser { n_char_parsed = 7 };
  parser = refl;
  empty = refl;
}

written : handle_write (over_tls echo_all) false answering ≡ (waiting, read_data)
unfolding handle_write insert get_or lookup put same less
written = refl

then_waits : Steps (over_tls echo_all) (answering, write []) (waiting, read_data)
then_waits = rw (← written) (go (on_write {b = []} false) stop)

pub asked-IsPlain : IsPlain asked
unfolding refused control digit same less lookup convert_to_rawbody
asked-IsPlain = record {
  printable = record {
    known = λ e. cc;
    uri_bytes = ((refl, refl), ((refl, refl), tt));
    version = record {
      major_head = b'1';
      major_tail = [];
      minor_head = b'1';
      minor_tail = [];
      splits = refl;
      major_digits = (refl, tt);
      minor_digits = (refl, tt);
    };
    sorted = (tt, tt);
    header_bytes = ((all-false refused (codes "Host") refl, (refl, tt), refl), tt);
  };
  nonzero = all-false (λ c. c == 0) (convert_to_rawbody asked) refl;
  fits = omega arith;
  no_body = refl;
  no_length = refl;
}

Steps-IsSettled_example : IsSettled (waiting, read_data)
Steps-IsSettled_example =
    Steps-IsSettled (over_tls echo_all) (over_tls-IsKind echo_all) then_waits answering-IsReady

handle_read-Steps_example :
    (q : RequestParser) × (handle_read
        (over_tls echo_all)
        false
        (length (convert_to_rawbody asked))
        []
        (with_data waiting (convert_to_rawbody asked))
      ≡ some (
          on_result
            (over_tls echo_all)
            good
            (record (with_data waiting (convert_to_rawbody asked)) {
              request = seen asked;
              request_parser = reset q;
            })))
handle_read-Steps_example =
    handle_read-Steps (over_tls echo_all) (over_tls-IsKind echo_all) (answering, write []) waiting
      asked [] answering-IsReady then_waits asked-IsPlain

abbrev answer_page : Response
answer_page = record {
  code = StatusCode.success;
  headers = (codes "A", codes "1") ∷ (codes "B", codes "2") ∷ [];
  body = codes "hi";
}

send-count_example :
    (s' : Session (Unit {0})) × (b : List Bytes) × (send answer_page answering ≡ ok (s', write b))
    × (wire b
        ≡ to_buffer answer_page.code ++ header_text answer_page.headers ++ crlf ++ answer_page.body)
    × ((u status : Bytes)
        → count u status s'.collector
          ≡ count u status answering.collector + hit u status ([], StatusCode.success))
unfolding less lookup
send-count_example = send-count answer_page answering (refl, (tt, tt)) (omega arith)
