-- ===== src/Sockets.antt =====
-- PostgresProxy/socket.hpp and PostgresProxy/socket.cpp: `TcpSocket`. The kernel's end of a connection is
-- a parameter: `N` is its state, and a `Link` says what the calls on it return. What `socket`,
-- `bind`, `listen`, `accept` and `connect` return comes as an argument.
pub mod Stream
pub mod Wire
mod Tests
use cpp_tricks.Prelude.{
  ℕ, zero, suc, Bool, true, false, not, [], Option, none, some, drop, length, if◌then◌else◌,
}
use cpp_tricks.Prelude.Int.{ℤ, pos, ltb_ℤ, same_ℤ}
use cpp_tricks.Prelude.Text.{Text, is_empty}

-- The calls on a connected descriptor.
pub record Link (N : Type 0) : Type 0 where
  -- `::recv` with a size; `none` is a negative result
  pub recv : N → ℕ → Option Text × N
  -- `::send` of a buffer: how many bytes were taken; `none` is a negative result
  pub send : N → Text → Option ℕ × N
  -- `::select` for reading, for writing, with a time: is the result positive?
  pub select : N → Bool → Bool → ℕ → Bool × N
  -- `::close`
  pub close : N → N

pub record TcpSocket (N : Type 0) : Type 0 where
  pub fd_ : ℤ
  pub port_ : ℕ
  pub ip_ : Text
  pub link : N

module _ {N : Type 0} where
  -- `TcpSocket( fd, ip, port )`
  unfoldable pub of_fd : ℤ → Text → ℕ → N → TcpSocket N
  of_fd fd ip port n = record { fd_ = fd; port_ = port; ip_ = ip; link = n }

  -- `TcpSocket()`, with the descriptor that `::socket` returns.
  unfoldable pub new_socket : ℤ × N → TcpSocket N
  new_socket (fd, n) = record { fd_ = fd; port_ = 0; ip_ = []; link = n }

  -- `operator bool`
  unfoldable pub is_open : TcpSocket N → Bool
  is_open s = ltb_ℤ (pos 0) s.fd_

  -- `s.swap( rhs )` exchanges the descriptors, and the connections with them, and nothing else.
  unfoldable pub swap : TcpSocket N → TcpSocket N → TcpSocket N × TcpSocket N
  swap s rhs =
      (record s { fd_ = rhs.fd_; link = rhs.link }, record rhs { fd_ = s.fd_; link = s.link })

  -- `TcpSocket( std::move( rhs ) )`: the new socket, and what is left of `rhs`.
  unfoldable pub move : TcpSocket N → TcpSocket N × TcpSocket N
  move rhs = (rhs, record { fd_ = pos 0; port_ = 0; ip_ = []; link = rhs.link })

  -- `bind` and `listen`, whose system calls succeed or not.
  unfoldable pub bind : Bool → TcpSocket N → Bool
  unfolding is_open
  bind succeeds s = if not (is_open s) then false else succeeds

  unfoldable pub listen : Bool → TcpSocket N → Bool
  unfolding is_open
  listen succeeds s = if not (is_open s) then false else succeeds

  -- `accept`: `none` is a negative result of `::accept`; else the descriptor, the peer's address and its
  -- port. `fresh` is what `::socket` returns for a `TcpSocket()`.
  unfoldable pub accept : TcpSocket N → Option (ℤ × Text × ℕ × N) → ℤ × N → TcpSocket N
  unfolding is_open new_socket of_fd
  accept s result fresh =
      let accepted : TcpSocket N = elim result [
        | none ↦ new_socket fresh
        | some (fd, ip, port, n) ↦ of_fd fd ip port n
      ] in
      if not (is_open s) then new_socket fresh else accepted

  -- `connect`, on a connection that `::connect` changes to `n` and that it reports as made or not.
  unfoldable pub connect : TcpSocket N → Bool × N → Bool × TcpSocket N
  unfolding is_open
  connect s (succeeds, n) =
      if not (is_open s) then (false, s) else (succeeds, record s { link = n })

module _ {N : Type 0} (l : Link N) where
  unfoldable pub close : TcpSocket N → TcpSocket N
  unfolding is_open
  close s = if is_open s then record s { fd_ = pos 0; link = l.close s.link } else s

  -- `s = std::move( rhs )`: the test is on the descriptor itself, not on its sign.
  unfoldable pub assign : TcpSocket N → TcpSocket N → TcpSocket N × TcpSocket N
  unfolding close
  assign s rhs = (rhs, if same_ℤ s.fd_ (pos 0) then s else close s)

  -- `receive( buf, size, bytes )`: `none` where it returns false; else what it writes to the start of
  -- `buf`, whose length is `bytes`.
  unfoldable pub receive : TcpSocket N → ℕ → Option Text × TcpSocket N
  unfolding is_open
  receive s size =
      let r = l.recv s.link size in
      if not (is_open s) then (none, s) else (r.0, record s { link = r.1 })

  -- The rest of a round of `send`, after `::send`; `again` is the next round.
  unfoldable pub after_send : (N → Text → Option Bool × N) → Text → Option ℕ × N → Option Bool × N
  after_send again buf (none, n) = (some false, n)
  after_send again buf (some k, n) =
      if is_empty (drop k buf) then (some true, n) else again n (drop k buf)

  -- The loop of `send`, with fuel; `none` means that it ran out.
  unfoldable pub send_loop : ℕ → N → Text → Option Bool × N
  unfolding after_send
  send_loop zero n buf = (none, n)
  send_loop (suc f) n buf = after_send (λ m rest. send_loop f m rest) buf (l.send n buf)

  -- `send( buf, size )`, for the bytes of `buf`. Every round but the last sends a byte at least, or the
  -- loop goes on for ever.
  unfoldable pub send : TcpSocket N → Text → Option Bool × TcpSocket N
  unfolding is_open send_loop
  send s buf =
      let r = send_loop (suc (length buf)) s.link buf in
      if not (is_open s) then (some false, s) else (r.0, record s { link = r.1 })

  unfoldable pub wait : TcpSocket N → Bool → Bool → ℕ → Bool × TcpSocket N
  unfolding is_open
  wait s read write sec =
      let r = l.select s.link read write sec in
      if not (is_open s) then (false, s) else (r.0, record s { link = r.1 })
