-- ===== src/Server.antt =====
-- src/server.cc and src/http_server.cc: a server that listens on a port. The two classes differ in
-- the sessions that they make.
pub mod Accepting
use foxy_4_web_server.Base.{
  if◌then◌else◌, ℕ, zero, suc, ◌+◌, ◌-◌, ◌%◌, ◌^◌, Bool, List, [], ◌∷◌, ◌++◌,
}
use foxy_4_web_server.Base.Int.{ℤ, pos, negsuc}

-- `Server(io_service, short port, ...)`, with `tcp::endpoint(tcp::v4(), port)`: the `int` of the
-- configuration becomes a `short`, and that an `unsigned short`, each modulo 2 ^ 16.
unfoldable pub endpoint_port : ℤ → ℕ
endpoint_port (pos n) = n % 2 ^ 16
endpoint_port (negsuc n) = 2 ^ 16 - 1 - n % 2 ^ 16

-- The turns of `for (int i = 0; i < num_threads_; i++)`.
abbrev pub turns : ℤ → ℕ
turns (pos n) = n
turns (negsuc n) = 0

-- A server: its port, the threads that run the service, the session that waits for a client, and
-- those that were started.
pub record Server (Session : Type 0) : Type 0 where
  pub port : ℕ
  pub num_threads : ℤ
  pub threads : ℕ
  pub new_session : Session
  pub started : List Session

module _ {Session : Type 0} where
  -- `new Session(...)`, and the wait for a client.
  unfoldable pub start_accept : Session → Server Session → Server Session
  start_accept made s = record s { new_session = made }

  unfoldable pub handle_accept : Session → Bool → Server Session → Server Session
  unfolding start_accept
  handle_accept made error s =
      if error
      then start_accept made s
      else start_accept made (record s { started = s.started ++ s.new_session ∷ [] })

  -- The loop that makes the threads.
  unfoldable pub make_threads : ℕ → Server Session → Server Session
  make_threads zero s = s
  make_threads (suc n) s = make_threads n (record s { threads = s.threads + 1 })

  -- The constructor, where the port can be bound and the certificates can be read.
  unfoldable pub new_server : Session → ℤ → ℤ → Server Session
  unfolding endpoint_port start_accept make_threads
  new_server made port num_threads = make_threads (turns num_threads) (
      start_accept made (record {
        port = endpoint_port port;
        num_threads = num_threads;
        threads = 0;
        new_session = made;
        started = [];
      }))
