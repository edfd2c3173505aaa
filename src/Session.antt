-- ===== src/Session.antt =====
-- PostgresProxy/session.hpp and PostgresProxy/session.cpp: a session, which hands the messages of one
-- client on to the server and the server's to the client.
pub mod Steps
pub mod Stage
pub mod Buffer
pub mod Relay
pub mod Payload
pub mod Forward
pub mod Request
pub mod Response
pub mod Laws
pub mod Process
pub mod ShortRead
pub mod Sample
mod Tests
use cpp_tricks.Prelude.{
  ℕ, ◌+◌, Bool, true, false, not, ◌&&◌, ◌||◌, List, [], ◌∷◌, ◌++◌, Option, none, some, take, ltb,
  ◌==◌, if◌then◌else◌,
}
use cpp_tricks.Prelude.Int.{ℤ}
use cpp_tricks.Prelude.Text.{Text, codes, decimal}
use cpp_tricks.Sockets.{Link, TcpSocket, is_open, new_socket}
use cpp_tricks.Sockets
use cpp_tricks.Session.Steps.{
  Result, done, refused, spins, Action, pure, refuse_if, ◌>>=◌, ◌>>◌, get, modify,
}
use cpp_tricks.Session.Stage.{
  Session, Side, client, server, Junk, wait_for, fetch, load_payload, payload_size, log_query,
  send_to, count_request, with_socket,
}

module _ {N : Type 0} where
  -- `Session( client, server_ip, server_port, logger )`: `fresh` is what `::socket` returns, `connected`
  -- what `::connect` does.
  unfoldable pub start : TcpSocket N → ℤ × N → Bool × N → List Text → Session N
  unfolding Sockets.connect new_socket
  start k fresh connected log = record {
    client_ = k;
    server_ = (Sockets.connect (new_socket fresh) connected).1;
    processing_ = false;
    requests_processed_ = 0;
    req_buf = [];
    logger_ = log;
  }

  -- `operator=` of a session that is moved from; the log is a reference and stays.
  unfoldable pub assign : Session N → Session N → Session N × Session N
  unfolding Sockets.swap
  assign s rhs = (
    record s {
      client_ = (Sockets.swap s.client_ rhs.client_).0;
      server_ = (Sockets.swap s.server_ rhs.server_).0;
      processing_ = rhs.processing_;
      requests_processed_ = rhs.requests_processed_;
      req_buf = rhs.req_buf;
    },
    record rhs {
      client_ = (Sockets.swap s.client_ rhs.client_).1;
      server_ = (Sockets.swap s.server_ rhs.server_).1;
      requests_processed_ = s.requests_processed_;
      req_buf = s.req_buf;
    },
  )

  -- `operator bool`
  unfoldable pub is_alive : Session N → Bool
  is_alive s = is_open s.client_ && is_open s.server_

  unfoldable pub get_id : Session N → Text
  get_id s = s.client_.ip_ ++ (codes ":" ++ decimal s.client_.port_)

module _ {N : Type 0} (l : Link N) where
  -- The second socket is asked only if the first has nothing to read.
  unfoldable pub work_pending : Action (Session N) Bool
  work_pending = do ready ← wait_for l client; if ready then pure true else wait_for l server

  -- The end of both handlers: the type if it is to be sent, the size, and the payload, until one fails.
  unfoldable pub send_message : Side → Bool → Text → Text → ℕ → Action (Session N) Bool
  send_message side tagged type size_nbo size = do
    type_sent ← if tagged then send_to l side type else pure true
    let send_payload = do s ← get; send_to l side (take size s.req_buf)
    let send_rest = do
      size_sent ← send_to l side size_nbo
      if size_sent then send_payload else pure false
    if type_sent then send_rest else pure false

  -- `handle_client_request`, from the payload on.
  unfoldable pub finish_request : Text → Text → ℕ → Action (Session N) Bool
  finish_request type size_nbo size = do
    load_payload l client size
    log_query type size
    s ← get
    send_message server (ltb 1 s.requests_processed_) type size_nbo size

  -- `handle_client_request`, from the size on; `bytes` is what the variable holds.
  unfoldable pub read_request : Text → Text × ℕ → Action (Session N) Bool
  read_request type unread = do
    count_request
    head ← fetch l client 4 unread
    refuse_if (ltb head.1 4)
    finish_request type head.0 (payload_size head.0)

  -- `handle_client_request`, once there is something to read.
  unfoldable pub relay_request : Junk → Action (Session N) Bool
  relay_request junk = do
    let unread : Text × ℕ = (b'0' ∷ [], junk.bytes)
    s ← get
    type ← if ltb 0 s.requests_processed_ then fetch l client 1 unread else pure unread
    refuse_if (ltb 0 s.requests_processed_ && type.1 == 0)
    read_request type.0 (junk.size_nbo, type.1)

  -- `handle_server_response`, from the payload on.
  unfoldable pub finish_response : Text → Text → ℕ → Action (Session N) Bool
  finish_response type size_nbo size = do
    load_payload l server size
    send_message client true type size_nbo size

  -- `handle_server_response`, once there is something to read.
  unfoldable pub relay_response : Junk → Action (Session N) Bool
  relay_response junk = do
    type ← fetch l server 1 (junk.type ∷ [], junk.bytes)
    refuse_if (type.1 == 0)
    head ← fetch l server 4 (junk.size_nbo, type.1)
    refuse_if (ltb head.1 4)
    finish_response type.0 head.0 (payload_size head.0)

  -- `return false` inside a handler.
  abbrev pub or_false : Result Bool × Session N → Result Bool × Session N
  or_false (refused, s) = (done false, s)
  or_false (spins, s) = (spins, s)
  or_false (done ok, s) = (done ok, s)

  unfoldable pub handle_client_request : Junk → Action (Session N) Bool
  handle_client_request junk s =
      or_false ((do ready ← wait_for l client; if ready then relay_request junk else pure true) s)

  unfoldable pub handle_server_response : Junk → Action (Session N) Bool
  handle_server_response junk s =
      or_false ((do ready ← wait_for l server; if ready then relay_response junk else pure true) s)

  unfoldable pub close_both : Action (Session N) (Unit {0})
  unfolding Sockets.close
  close_both = modify λ (s : Session N). record s {
    client_ = Sockets.close l s.client_;
    server_ = Sockets.close l s.server_;
  }

  -- `process`; the guard resets `processing_` at the end.
  unfoldable pub process : Junk → Junk → Action (Session N) Bool
  process junk junk' = do
    sent ← handle_client_request junk
    ret ← if sent then handle_server_response junk' else pure false
    if ret then pure tt else close_both
    modify λ (s : Session N). record s { processing_ = false }
    pure ret
