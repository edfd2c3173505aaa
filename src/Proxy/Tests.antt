-- ===== src/Proxy/Tests.antt =====
-- Runs of the proxy over texts.
use cpp_tricks.Prelude.{◌≡◌, refl, true, false, [], ◌∷◌}
use cpp_tricks.Prelude.Text.{codes}
use cpp_tricks.Sockets.Wire.{Wire, wire}
use cpp_tricks.Session.Stage.{Session}
use cpp_tricks.Session.Sample.{socket_of, session_of}
use cpp_tricks.Sockets.{TcpSocket}
use cpp_tricks.Prelude.Int.{pos}
use cpp_tricks.Prelude.{List, map, count_if}
use cpp_tricks.Proxy.{
  Proxy, adding, blocked, calling, entering, paused, started, scan, Reach, here, next, go_on,
  accept, see_connection, hold, call, lock, see_hold, interrupt,
}
use cpp_tricks.Proxy.Laws.{holds, worker_owns}
use cpp_tricks.Proxy.Hold.{adding_alone}
use cpp_tricks.Proxy.Stuck.{stay, run, asleep, lost_wakeup}
use cpp_tricks.Proxy.Scan.{scan_lem, after_round, filter_if, stays, is_ready}

-- A session that is being processed, one that is closed, and two that are idle.
abbrev four : List (Session Wire)
four =
    let idle : Session Wire = record (session_of 3 [] []) { processing_ = false } in
    session_of 2 (codes "x") []
    ∷ record idle { client_ = record (socket_of ([], [])) { fd_ = pos 0 } }
    ∷ idle
    ∷ record idle { server_ = socket_of (codes "answer", []) }
    ∷ []

scan_lem_example : scan (wire 4) four ≡ (
  map (after_round (wire 4)) (filter_if (stays (wire 4)) four),
  count_if (is_ready (wire 4)) four,
)
scan_lem_example = scan_lem (wire 4) four

abbrev peer : TcpSocket Wire
peer = socket_of (codes "hello", [])

abbrev adding_one : Proxy Wire
adding_one = record started {
  main = adding peer;
  worker = calling;
  new_connection = true;
  worker_on_hold = true;
  session_mtx = true;
}

abbrev one_added : Proxy Wire
one_added = record adding_one { worker = entering }

Reach-one_added : Reach (wire 4) started one_added
Reach-one_added =
    let a = next (next here (go_on refl refl)) (accept peer refl refl) in
    let b = next (next a (see_connection refl refl)) (hold refl) in
    next (next (next b (lock peer refl refl)) (see_hold peer refl refl)) (call refl)

adding_alone_example :
    (one_added.session_mtx ≡ true)
    × (one_added.new_connection ≡ true)
    × (holds one_added.worker ≡ true)
    × (worker_owns one_added.worker ≡ false)
adding_alone_example = adding_alone (wire 4) Reach-one_added refl

lost_wakeup_example :
    Reach (wire 4) started (asleep peer) × (blocked peer ≡ blocked peer) × (paused ≡ paused)
lost_wakeup_example =
    lost_wakeup (wire 4) peer (record (asleep peer) { stop = true }) (run stay (interrupt refl))
