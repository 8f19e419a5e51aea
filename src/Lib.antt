-- ===== src/Lib.antt =====
-- Foxy 4 Web Server: a model of the server's own C++ code (src/*.cc, include/*.h) and what holds
-- of it.
--
-- The program and its model
--   * A session (src/session.cc) reads bytes into an array: Session has one function for each of its
--     calls, and Session/Steps the order in which Boost makes them. In what the two
--     classes of sessions differ is a `Kind`: HttpSession is the session without TLS
--     (src/http_session.cc), whose calls repeat those of the other, and HttpSession/Redirect what it
--     sends. Session/Serving and Session/Locations follow a request over TLS to a handler and back.
--   * Server is src/server.cc and src/http_server.cc: a server, its threads and the clients that it
--     accepts. Main is src/server_main.cc: the start, from the arguments to the servers.
--   * The bytes go to the request parser (src/request_parser.cc). RequestParser holds its states,
--     the members of the class as a record and `consume` as `consume_in`, one clause for each state;
--     `parse` is the template in include/request_parser.h, and `parse_data` the call that also
--     takes the body.
--     RequestParser/Chars has the tests on bytes; Runs, Pieces, Headers, Folded, Chunks, Clean and
--     Body have the lemmas on runs of the loop, on what it has read and on the body.
--   * The handler generator (src/request_handler_generator.cc) makes the handlers of a
--     configuration and finds the one for a URI: HandlerGenerator, with the `Init` functions of the
--     handlers in Handlers/Init. HandlerGenerator/Declared has the map of a configuration, and
--     HandlerGenerator/Configured goes from the text of a configuration to the handler of a URI.
--   * The handlers answer: Handlers/Echo, Health, NotFound, Status and Static, each after the file
--     of its name in src/. Handlers/Static/Decode is `url_decode`, Handlers/Static/Paths the other
--     tests and changes of paths; Encoding has a reference encoder, Files says which file
--     is sent. Handlers/Proxy has the proxy's texts: the request that is sent on,
--     the headers and the page that come back; Handlers/Proxy/Stream reads from the pieces in which
--     the bytes come, and Handlers/Proxy/Forward is `handle_request`; Pieces, Blocks, Reply, Rounds
--     and Delivery have the lemmas on a response that comes in pieces. Handlers/Login has the pages
--     and the accounts; Forms the two regular expressions of src/login_request_handler.cc, as
--     searches. MimeTypes is src/mime_types.cc. Handlers/Calls is the virtual function of
--     include/request_handler.h: the class of the handler decides.
--   * The response generator (src/response_generator.cc) writes a response into buffers and has the
--     stock responses: ResponseGenerator. Http has the records of requests and responses.
--   * The data collector (src/data_collector.cc) counts the requests: DataCollector. The calls of
--     `increment_request` hold one mutex, so the threads' calls come in some order: a list of them
--     is a history.
--   * The accounts (src/database.cc, src/password.cc) are Database; Database/Table states what sqlite
--     and bcrypt are relied on for: whether the table AUTH is there and which hash a user has, with the
--     laws on the three statements in full. The tokens of those who have signed in (src/cookie.cc) are Cookie;
--     Cookie/Lifetime states what jwt-cpp is relied on for, and Handlers/Visits joins the login, the
--     token and the static handler.
--   * The configuration (src/config.cc, src/config_statement.cc) is Config, and its parser
--     (src/config_parser.cc) ConfigParser: Lexing and Tokens have the lemmas on tokens, Statements those
--     on the last statement of a block; Rounds is the loop as a relation, Reads the rounds on the text
--     of a statement, Parsed and Reparse the invariant of what has been read. Utility is
--     src/utility.cc.
--   * Tests has runs at concrete inputs.
--
-- Conventions
--   * A byte is a code, a natural number that is below 256 in the program; where the source reads a
--     `char` as an `int`, the code is read as a signed byte. A string is a list of codes.
--   * A map is a list of entries in the order of the keys (Base/Dict), which `put` keeps.
--   * An exception is the outcome `throws`; what C++ leaves undefined (a read past the end, a null
--     pointer, the top of an empty stack, the overflow of an `int`) is the outcome `undefined`. The one
--     exception is `n_char_parsed`, an `int` that counts the bytes of a connection: it wraps modulo
--     2 ^ 32 where C++ leaves the overflow undefined.
--   * `std::stoi` and `std::to_string` are written out for decimals of an `int` (Base/Text), and
--     `strlen` as the bytes before the first 0.
--   * Boost's `starts_with`, `ends_with` and `split` are an interface with their laws (Boost). The
--     file system and the check of a login's token are functions that the static handler is given.
--     A session is given the handlers as one function over a world that they may change;
--     Handlers/Calls is that function for the handlers of the repository.
--   * sqlite, bcrypt and jwt-cpp are functions that the model is given (`Libraries`, `Services`, `Jwt`),
--     the first two over a world that they change. The system clock counts nanoseconds, as that of
--     GNU C++ does; the dates in a token are whole seconds. The upstream server of the proxy is a
--     function from the number of the connection, the host, the port and the text sent to the pieces
--     that come back: a list, so a stream without an end is left out.
--   * A blocking read takes the next of a list of reads; where none is left the thread waits.
--   * Two loops take fuel. The configuration parser's gets one unit for each byte and two more: each
--     turn but the last two reads a byte. That of the rewriting of links gets one for each byte and
--     one more: each round but the last drops a byte. The proxy follows at most five redirects.
--   * The number of a status line is read as an `unsigned int` of 32 bits, and the port of a server
--     is taken modulo 2 ^ 16.
--
-- Not modelled: `remote_endpoint()`, which the sessions call for the log and which throws on a
-- connection that is gone; the second `delete` of a session whose write fails; sockets, TLS and the scheduling of threads, which come in as the order of the calls;
-- the signal handler, logging, the calls of sqlite, of jwt-cpp and of bcrypt themselves, and the
-- vendored libraries.
pub mod Base
pub mod Http
pub mod Boost
pub mod Utility
pub mod RequestParser
pub mod ResponseGenerator
pub mod MimeTypes
pub mod DataCollector
pub mod Config
pub mod ConfigParser
pub mod HandlerGenerator
pub mod Handlers
pub mod Session
pub mod HttpSession
pub mod Forms
pub mod Server
pub mod Main
pub mod Cookie
pub mod Database
mod Tests
