-- ===== src/LocalSocket.antt =====
-- ipc/unix_sockets/local_socket.cpp and local_socket.hpp: `LocalSocket`. The calls of the system are a parameter;
-- `N` is the state that they share.
pub mod Laws
mod Tests
use cpp_tricks.Prelude.{
  ℕ, suc, Bool, true, false, not, ◌&&◌, ◌||◌, [], Option, none, some, length, leb, ltb,
  if◌then◌else◌,
}
use cpp_tricks.Prelude.Int.{ℤ, pos, negsuc, ltb_ℤ, same_ℤ}
use cpp_tricks.Prelude.Text.{Text}
use cpp_tricks.Sockets.{Link, send_loop}

pub record Calls (N : Type 0) : Type 0 where
  -- AF_UNIX, SOCK_STREAM
  pub socket : N → ℤ × N
  -- does it return 0 or set ENOENT?
  pub remove_file : Text → N → Bool × N
  pub bind : ℤ → Text → N → Bool × N
  pub listen : ℤ → ℕ → N → Bool × N
  -- the descriptor or -1, and what it writes to `sun_path`, which is empty before
  pub accept : ℤ → N → ℤ × Text × N
  pub connect : ℤ → Text → N → Bool × N
  -- `none` is a negative result
  pub recv : ℤ → ℕ → N → Option Text × N
  pub send : ℤ → Text → N → Option ℕ × N
  pub select : ℤ → Bool → Bool → ℕ → N → Bool × N
  -- SO_PEERCRED: the process, the user and the group
  pub peer_credentials : ℤ → N → Option (ℕ × ℕ × ℕ)
  pub close : ℤ → N → N

pub record LocalSocket : Type 0 where
  pub fd_ : ℤ
  pub path_ : Text

unfoldable pub is_open : LocalSocket → Bool
is_open s = ltb_ℤ (pos 0) s.fd_

-- `sizeof(sockaddr_un::sun_path) - 1`
abbrev pub path_limit : ℕ
path_limit = 107

module _ {N : Type 0} (sys : Calls N) where
  -- `LocalSocket()`
  unfoldable pub new_socket : N → LocalSocket × N
  new_socket n = let (fd, m) = sys.socket n in (record { fd_ = fd; path_ = [] }, m)

  -- `LocalSocket( path, fd )`: `remove` is called, and then `socket`, only if the tests before succeed.
  unfoldable pub of_fd : Text → ℤ → N → LocalSocket × N
  of_fd path fd n =
      let kept : LocalSocket = record { fd_ = fd; path_ = path } in
      let (removed, m) = sys.remove_file path n in
      let (made, m') = sys.socket m in
      if not (same_ℤ fd (negsuc 0) && leb (length path) path_limit)
      then (kept, n)
      else if not removed
      then (kept, m)
      else (record { fd_ = made; path_ = path }, m')

  -- `close`, and the destructor: the descriptor stays as it is.
  unfoldable pub close : LocalSocket → N → N
  unfolding is_open
  close s n = if is_open s then sys.close s.fd_ n else n

  unfoldable pub bind : LocalSocket → N → Bool × N
  unfolding is_open
  bind s n = if not (is_open s) then (false, n) else sys.bind s.fd_ s.path_ n

  unfoldable pub listen : ℕ → LocalSocket → N → Bool × N
  unfolding is_open
  listen backlog s n = if not (is_open s) then (false, n) else sys.listen s.fd_ backlog n

  unfoldable pub accept : LocalSocket → N → LocalSocket × N
  unfolding is_open new_socket of_fd
  accept s n =
      let (fd, path, m) = sys.accept s.fd_ n in
      if not (is_open s) then new_socket n else of_fd path fd m

  unfoldable pub connect : Text → LocalSocket → N → Bool × LocalSocket × N
  unfolding is_open
  connect path s n =
      let (ok, m) = sys.connect s.fd_ path n in
      if not (is_open s) || ltb path_limit (length path)
      then (false, s, n)
      else if not ok
      then (false, s, m)
      else (true, record s { path_ = path }, m)

  -- `none` where it returns false; else the bytes.
  unfoldable pub receive : ℕ → LocalSocket → N → Option Text × N
  unfolding is_open
  receive size s n = if not (is_open s) then (none, n) else sys.recv s.fd_ size n

  -- The calls on a connection, for a descriptor.
  abbrev pub link : ℤ → Link N
  link fd = record {
    recv = λ n size. sys.recv fd size n;
    send = λ n b. sys.send fd b n;
    select = λ n read write sec. sys.select fd read write sec n;
    close = λ n. sys.close fd n;
  }

  -- The loop is that of `TcpSocket::send`: `Sockets.send_loop`, where `none` means that the fuel ran out.
  unfoldable pub send : Text → LocalSocket → N → Option Bool × N
  unfolding is_open
  send b s n =
      if not (is_open s) then (some false, n) else send_loop (link s.fd_) (suc (length b)) n b

  unfoldable pub wait : Bool → Bool → ℕ → LocalSocket → N → Bool × N
  unfolding is_open
  wait read write sec s n =
      if not (is_open s) then (false, n) else sys.select s.fd_ read write sec n

  unfoldable pub peer_credentials : LocalSocket → N → Option (ℕ × ℕ × ℕ)
  peer_credentials s n = sys.peer_credentials s.fd_ n
