-- ===== src/LocalSocket/Tests.antt =====
-- A system on which no client ever connects; its state is the list of the descriptors that have been closed.
use cpp_tricks.Prelude.{◌≡◌, refl, true, false, List, [], ◌∷◌, none, some, length}
use cpp_tricks.Prelude.Int.{ℤ, pos, negsuc}
use cpp_tricks.Prelude.Text.{codes}
use cpp_tricks.LocalSocket.{Calls, LocalSocket, is_open, new_socket, of_fd, accept, close, send}
use cpp_tricks.Sockets.Wire.{Wire, wire}

abbrev silent : Calls (List ℤ)
silent = record {
  socket = λ n. (pos 4, n);
  remove_file = λ path n. (true, n);
  bind = λ fd path n. (true, n);
  listen = λ fd backlog n. (true, n);
  accept = λ fd n. (negsuc 0, [], n);
  connect = λ fd path n. (false, n);
  recv = λ fd size n. (none, n);
  send = λ fd b n. (some (length b), n);
  select = λ fd read write sec n. (false, n);
  peer_credentials = λ fd n. none;
  close = λ fd n. fd ∷ n;
}

abbrev listening : LocalSocket
listening = record { fd_ = pos 3; path_ = codes "/tmp/s" }

-- Nothing is accepted, and the socket that `accept` returns is open, with a descriptor of `socket`.
accepts_nothing : (accept silent listening []).0 ≡ record { fd_ = pos 4; path_ = [] }
unfolding accept of_fd new_socket is_open
accepts_nothing = refl

-- `close` does not reset the descriptor, so the destructor closes it again.
closed_twice : close silent listening (close silent listening []) ≡ pos 3 ∷ pos 3 ∷ []
unfolding close is_open
closed_twice = refl

-- A connection that takes at most three bytes at a time.
abbrev slow : Calls Wire
slow = record {
  socket = λ n. (pos 4, n);
  remove_file = λ path n. (true, n);
  bind = λ fd path n. (true, n);
  listen = λ fd backlog n. (true, n);
  accept = λ fd n. (negsuc 0, [], n);
  connect = λ fd path n. (true, n);
  recv = λ fd size n. (wire 5).recv n size;
  send = λ fd b n. (wire 5).send n b;
  select = λ fd read write sec n. (wire 5).select n read write sec;
  peer_credentials = λ fd n. none;
  close = λ fd n. n;
}
