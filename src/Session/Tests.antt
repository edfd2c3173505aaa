-- ===== src/Session/Tests.antt =====
-- A session over connections that hold texts.
use cpp_tricks.Prelude.{
  ◌≡◌, refl, sym, ap, ◌∙◌, true, false, [], ◌∷◌, ◌++◌, take, drop, length, length-take, arith,
}
use cpp_tricks.Prelude.Int.{pos}
use cpp_tricks.Prelude.Text.{Text, codes}
use cpp_tricks.Sockets.{is_open}
use cpp_tricks.Sockets.Wire.{Wire, wire, least, wire_stream}
use cpp_tricks.Session.Steps.{done}
use cpp_tricks.Session.Stage.{Session, client, of_bytes}
use cpp_tricks.Session.Forward.{message}
use cpp_tricks.Session.Request.{ReadsFields}
use cpp_tricks.Session.Relay.{at}
use cpp_tricks.Session.{process, is_alive}
use cpp_tricks.Session.Sample.{socket_of, session_of, junk}
use cpp_tricks.Session.Process.{Ended, exchange, process-Ended}
use cpp_tricks.Session.ShortRead.{split_size}

wire-ReadsFields : ReadsFields (wire 5) (wire_stream 5 (omega arith))
wire-ReadsFields n m size b h g e =
    let small : least size 5 ≡ size = ground arith in
    let same : take size n.0 ≡ b = ap (λ c. take c n.0) (sym small) ∙ cc (ap (λ x. x.0) e) in
    sym (ap length same) ∙ length-take size n.0 g

-- A query and its answer.
abbrev asking : Session Wire
asking =
    session_of 1 (message true b'Q' (codes "select 1") ++ codes "X")
      (message true b'T' (codes "one"))

exchange_example :
    (c v : Wire) × (buf : Text) × (process (wire 5) junk junk asking ≡ (
      done true,
      record (at asking client c v 2 buf (codes "select 1" ∷ [])) { processing_ = false },
    ))
    × (c.0 ≡ codes "X")
    × (v.0 ≡ [])
    × (c.1 ≡ message true b'T' (codes "one"))
    × (v.1 ≡ message true b'Q' (codes "select 1"))
unfolding is_alive is_open of_bytes
exchange_example =
    exchange (wire 5) (wire_stream 5 (omega arith)) asking junk junk b'Q' b'T' (codes "select 1")
      (codes "one") (codes "X") [] wire-ReadsFields refl refl refl refl refl (omega arith)
      (omega arith) (omega arith)

process-Ended_example : Ended (wire 2) (process (wire 2) junk junk asking)
process-Ended_example = process-Ended (wire 2) asking junk junk

-- The first message of a client, over a connection that gives two bytes at a time.
abbrev starting : Session Wire
starting = session_of 0 (message false 0 (codes "user")) []

split_size_example : process (wire 2) junk junk starting ≡ (
  done false,
  record starting {
    client_ = record (socket_of (drop 2 (message false 0 (codes "user")), [])) { fd_ = pos 0 };
    server_ = record (socket_of ([], [])) { fd_ = pos 0 };
    processing_ = false;
    requests_processed_ = 1;
  },
)
unfolding is_alive is_open
split_size_example =
    split_size (wire 2) starting junk junk (0 ∷ 0 ∷ []) (message false 0 (codes "user"), [])
      (drop 2 (message false 0 (codes "user")), []) refl refl refl refl (omega arith)
