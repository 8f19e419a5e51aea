-- ===== src/Server/Accepting.antt =====
-- The clients that a server accepts.
use foxy_4_web_server.Base.{
  if◌then◌else◌, ℕ, zero, suc, ◌+◌, ◌<◌, ◌≡◌, refl, ◌∙◌, Bool, true, false, List, [], ◌∷◌, ◌++◌,
  append_assoc, append-nil, arith,
}
use foxy_4_web_server.Base.Int.{ℤ, pos, negsuc}
use foxy_4_web_server.Server.{
  endpoint_port, turns, Server, start_accept, handle_accept, make_threads, new_server,
}

-- The calls of `handle_accept`, each with its error code and the session that is made in it.
abbrev pub accept_all : {Session : Type 0} → List (Bool × Session) → Server Session → Server Session
accept_all [] s = s
accept_all ((error, made) ∷ calls) s = accept_all calls (handle_accept made error s)

-- The specification: every session is made for the next call, and started by it if that has no
-- error; `waiting` was made for the first one.
abbrev pub sessions_started : {Session : Type 0} → Session → List (Bool × Session) → List Session
sessions_started waiting [] = []
sessions_started waiting ((error, made) ∷ calls) =
    if error then sessions_started made calls else waiting ∷ sessions_started made calls

make_threads-adds :
    {Session : Type 0} (n : ℕ) (s : Server Session)
    → make_threads n s ≡ record s { threads = s.threads + n }
unfolding make_threads
make_threads-adds zero s = let e : s.threads + 0 ≡ s.threads = omega arith in rw e refl
make_threads-adds (suc n) s =
    let e : s.threads + 1 + n ≡ s.threads + suc n = omega arith in
    make_threads-adds n (record s { threads = s.threads + 1 }) ∙ rw e refl

accept_all-started :
    {Session : Type 0} (calls : List (Bool × Session)) (s : Server Session)
    → ((accept_all calls s).started ≡ s.started ++ sessions_started s.new_session calls)
      × ((accept_all calls s).port ≡ s.port)
      × ((accept_all calls s).threads ≡ s.threads)
unfolding handle_accept start_accept
accept_all-started [] s = (rw append-nil refl, refl, refl)
accept_all-started ((true, made) ∷ calls) s = accept_all-started calls (handle_accept made true s)
accept_all-started ((false, made) ∷ calls) s =
    let (a, b, c) = accept_all-started calls (handle_accept made false s) in
    (a ∙ append_assoc s.started _ _, b, c)

endpoint_port-bound : (port : ℤ) → endpoint_port port < 65536
unfolding endpoint_port
endpoint_port-bound (pos n) = omega arith
endpoint_port-bound (negsuc n) = omega arith

-- A server on whatever `int` the configuration names listens on the port that is that number modulo
-- 2 ^ 16, which is less than 65536, has as many threads as its argument says (none for a negative
-- number), and after any calls of `handle_accept` has started exactly the sessions that were waiting
-- when a client was accepted without an error, in this order, each once.
pub accept_all-new_server :
    {Session : Type 0} (calls : List (Bool × Session)) (made : Session) (port num_threads : ℤ)
    → ((accept_all calls (new_server made port num_threads)).started ≡ sessions_started made calls)
      × ((accept_all calls (new_server made port num_threads)).threads ≡ turns num_threads)
      × ((accept_all calls (new_server made port num_threads)).port ≡ endpoint_port port)
      × (endpoint_port port < 65536)
unfolding new_server start_accept
accept_all-new_server calls made port num_threads =
    let (sessions, ports, threads) = accept_all-started calls (new_server made port num_threads) in
    let n = turns num_threads in
    let added = make_threads-adds n (record {
      port = endpoint_port port;
      num_threads = num_threads;
      threads = 0;
      new_session = made;
      started = [];
    }) in
    let none_before : 0 + n ≡ n = omega arith in
    (
      sessions ∙ rw added refl,
      threads ∙ rw (added, none_before) refl,
      ports ∙ rw added refl,
      endpoint_port-bound port,
    )
