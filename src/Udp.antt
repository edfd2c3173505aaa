-- ===== src/Udp.antt =====
-- ipc/udp_socket/udp_ttl.cpp: the class `UDP`. The calls on a socket are a parameter; `N` is what they change.
-- A result `none` is `exit(1)`.
pub mod Laws
mod Tests
use cpp_tricks.Prelude.{
  ℕ, Bool, true, false, not, ◌||◌, Option, none, some, length, ltb, ◌==◌, if◌then◌else◌,
}
use cpp_tricks.Prelude.Int.{ℤ, pos, ltb_ℤ, same_ℤ}
use cpp_tricks.Prelude.Text.{Text}

-- What `recvfrom` with MSG_PEEK returns: EAGAIN, another error, or bytes and the address of the sender.
pub data Peeked : Type 0 where
  again error : Peeked
  message : Text → ℕ → Peeked

pub record Datagrams (N : Type 0) : Type 0 where
  -- for a socket that blocks or does not
  pub socket : Bool → N → ℤ × N
  -- SO_REUSEADDR: does it succeed?
  pub setsockopt : N → Bool × N
  pub close : ℤ → N → N
  -- to any address, with a port
  pub bind : ℤ → ℕ → N → Bool × N
  pub inet_pton : Text → Option ℕ
  pub inet_ntop : ℕ → Text
  pub sendto : ℤ → Text → ℕ → ℕ → N → Option ℕ × N
  pub peek : ℤ → ℕ → N → Peeked × N
  -- `recvfrom` without a flag, whose result is not used
  pub recvfrom : ℤ → ℕ → N → N

pub record Udp : Type 0 where
  pub fd_ : ℤ
  pub port_ : ℕ

module _ {N : Type 0} (sys : Datagrams N) where
  unfoldable pub new_udp : ℕ → Bool → N → Option (Udp × N)
  new_udp port blocking n =
      let (fd, m) = sys.socket blocking n in
      let (reused, m') = sys.setsockopt m in
      if ltb_ℤ fd (pos 0)
      then none
      else if not reused
      then none
      else some (record { fd_ = fd; port_ = port }, m')

  unfoldable pub destroy : Udp → N → N
  destroy u n = if same_ℤ u.fd_ (pos 0) then n else sys.close u.fd_ n

  unfoldable pub bind : Udp → N → Bool × N
  bind u n = sys.bind u.fd_ u.port_ n

  unfoldable pub after_sendto : Text → Option ℕ × N → Option (Bool × N)
  after_sendto b (none, n) = none
  after_sendto b (some k, n) = some (k == length b, n)

  unfoldable pub send : Text → Text → Udp → N → Option (Bool × N)
  unfolding after_sendto
  send ip b u n = elim (sys.inet_pton ip) [
    | none ↦ some (false, n)
    | some a ↦ after_sendto b (sys.sendto u.fd_ b a u.port_ n)
  ]

  -- The rest of `receive`, after the look at the first message: none within is the result false, else the
  -- bytes and the text of the sender's address.
  unfoldable pub after_peek : ℕ → Udp → Peeked × N → Option (Option (Text × Text) × N)
  after_peek size u (again, n) = some (none, n)
  after_peek size u (error, n) = none
  after_peek size u (message b a, n) =
      if ltb (length b) size
      then some (none, n)
      else some (some (b, sys.inet_ntop a), sys.recvfrom u.fd_ size n)

  unfoldable pub receive : ℕ → Udp → N → Option (Option (Text × Text) × N)
  unfolding after_peek
  receive size u n = after_peek size u (sys.peek u.fd_ size n)
