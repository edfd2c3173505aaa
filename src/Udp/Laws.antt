-- ===== src/Udp/Laws.antt =====
-- `receive` on a socket that keeps messages in order.
use cpp_tricks.Prelude.{
  ℕ, zero, suc, ◌≤◌, ◌<◌, ◌≡◌, refl, false, List, [], ◌∷◌, Option, none, some, take, take_all,
  length, length-take, ltb, lt→ltb, le→ltb, arith,
}
use cpp_tricks.Prelude.Chain.{◌>>=◌}
use cpp_tricks.Prelude.Int.{ℤ}
use cpp_tricks.Prelude.Text.{Text}
use cpp_tricks.Udp.{again, message, Datagrams, Udp, receive}

-- What recvfrom(2) documents of a datagram socket that does not block: a look leaves the messages as they are
-- and shows no more than asked for; a receive takes the first one away, all of it.
pub record IsQueue {N : Type 0} (sys : Datagrams N) : Type 0 where
  pub queue : N → List (Text × ℕ)
  pub peek_none :
      (fd : ℤ) (size : ℕ) (n : N)
      → queue n ≡ []
      → (m : N) × (sys.peek fd size n ≡ (again, m)) × (queue m ≡ [])
  pub peek_first :
      (fd : ℤ) (size : ℕ) (n : N) (d : Text) (a : ℕ) (q : List (Text × ℕ))
      → queue n ≡ (d, a) ∷ q
      → (m : N) × (sys.peek fd size n ≡ (message (take size d) a, m)) × (queue m ≡ (d, a) ∷ q)
  pub recvfrom_lem :
      (fd : ℤ) (size : ℕ) (n : N) (d : Text) (a : ℕ) (q : List (Text × ℕ))
      → queue n ≡ (d, a) ∷ q
      → queue (sys.recvfrom fd size n) ≡ q

module _ {N : Type 0} (sys : Datagrams N) (w : IsQueue sys) (u : Udp) where
  open w use {queue}

  -- A first message of the size at least is received, cut to the size, and taken away.
  pub receive_whole :
      (size : ℕ) (n : N) (d : Text) (a : ℕ) (q : List (Text × ℕ))
      → queue n ≡ (d, a) ∷ q
      → size ≤ length d
      → (m : N) × (receive sys size u n ≡ some (some (take size d, sys.inet_ntop a), m))
        × (queue m ≡ q)
  unfolding receive
  receive_whole size n d a q e fits =
      let (m, p, same) = w.peek_first u.fd_ size n d a q e in
      let enough : ltb (length (take size d)) size ≡ false =
        le→ltb size (length (take size d)) (omega (arith, length-take size d fits)) in
      (sys.recvfrom u.fd_ size m, rw (p, enough), w.recvfrom_lem u.fd_ size m d a q same)

  -- A first message that is shorter is not, and stays the first.
  receive_part :
      (size : ℕ) (n : N) (d : Text) (a : ℕ) (q : List (Text × ℕ))
      → queue n ≡ (d, a) ∷ q
      → length d < size
      → (m : N) × (receive sys size u n ≡ some (none, m)) × (queue m ≡ (d, a) ∷ q)
  unfolding receive
  receive_part size n d a q e short =
      let (m, p, same) = w.peek_first u.fd_ size n d a q e in
      let all : take size d ≡ d = take_all d size (omega arith) in
      (m, rw (p, all, lt→ltb (length d) size short), same)

  -- So many calls of `receive`, one after the other: what they give.
  pub receives : ℕ → ℕ → N → Option (List (Option (Text × Text)) × N)
  receives zero size n = some ([], n)
  receives (suc k) size n =
      receive sys size u n >>= λ r. receives k size r.1 >>= λ l. some (r.0 ∷ l.0, l.1)

  abbrev pub refusals : ℕ → List (Option (Text × Text))
  refusals zero = []
  refusals (suc k) = none ∷ refusals k

  -- Once the first message is shorter than the size, every `receive` of the size returns false, however often it is
  -- called, and neither that message nor one behind it is ever received.
  pub receives_nothing :
      (k size : ℕ) (n : N) (d : Text) (a : ℕ) (q : List (Text × ℕ))
      → queue n ≡ (d, a) ∷ q
      → length d < size
      → (m : N) × (receives k size n ≡ some (refusals k, m)) × (queue m ≡ (d, a) ∷ q)
  unfolding receives
  receives_nothing zero size n d a q e short = (n, refl, e)
  receives_nothing (suc k) size n d a q e short =
      let (m, p, same) = receive_part size n d a q e short in
      let (m', p', same') = receives_nothing k size m d a q same short in (m', rw (p, p'), same')
