-- ===== src/Session/Sample.antt =====
-- Sessions over texts, for tests.
use cpp_tricks.Prelude.{ℕ, true, [], ◌∷◌}
use cpp_tricks.Prelude.Int.{pos}
use cpp_tricks.Prelude.Text.{Text, codes}
use cpp_tricks.Sockets.{TcpSocket}
use cpp_tricks.Sockets.Wire.{Wire}
use cpp_tricks.Session.Stage.{Session, Junk}

abbrev pub socket_of : Wire → TcpSocket Wire
socket_of n = record { fd_ = pos 3; port_ = 5000; ip_ = codes "127.0.0.1"; link = n }

abbrev pub session_of : ℕ → Text → Text → Session Wire
session_of requests from_client from_server = record {
  client_ = socket_of (from_client, []);
  server_ = socket_of (from_server, []);
  processing_ = true;
  requests_processed_ = requests;
  req_buf = [];
  logger_ = [];
}

abbrev pub junk : Junk
junk = record { type = 0; bytes = 17; size_nbo = 1 ∷ 2 ∷ 3 ∷ 4 ∷ [] }
