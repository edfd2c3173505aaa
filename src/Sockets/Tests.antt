-- ===== src/Sockets/Tests.antt =====
-- Sockets over texts.
use cpp_tricks.Prelude.{◌≡◌, refl, true, some, arith}
use cpp_tricks.Prelude.Int.{pos}
use cpp_tricks.Prelude.Text.{codes}
use cpp_tricks.Sockets.{TcpSocket, is_open, send}
use cpp_tricks.Sockets.Stream.{send_all}
use cpp_tricks.Sockets.Wire.{Wire, wire, wire_stream}

abbrev connected : TcpSocket Wire
connected = record {
  fd_ = pos 3;
  port_ = 5432;
  ip_ = codes "127.0.0.1";
  link = (codes "in", codes "out ");
}

send_all_example :
    (m : Wire) × (send (wire 5) connected (codes "hello, world")
      ≡ (some true, record connected { link = m }))
    × (m.1 ≡ codes "out hello, world")
    × (m.0 ≡ codes "in")
unfolding is_open
send_all_example =
    send_all (wire 5) (wire_stream 5 (omega arith)) connected (codes "hello, world") refl
