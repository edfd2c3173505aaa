-- ===== src/Session/ShortRead.antt =====
-- A field of a header that one call of `recv` does not return whole.
use cpp_tricks.Prelude.{ℕ, ◌<◌, ◌≡◌, refl, ap, true, false, [], ◌∷◌, some, length, arith, ltb}
use cpp_tricks.Prelude.Int.{pos}
use cpp_tricks.Prelude.Text.{Text}
use cpp_tricks.Sockets.{Link, is_open, close, receive, wait}
use cpp_tricks.Session.Steps.{done, refused}
use cpp_tricks.Session.Stage.{Session, Junk, wait_for, fetch, stored, receive_from, count_request}
use cpp_tricks.Session.Relay.{open_link}
use cpp_tricks.Session.Laws.{alive_open}
use cpp_tricks.Session.{
  is_alive, relay_request, read_request, handle_client_request, process, close_both,
}

module _ {N : Type 0} (l : Link N) where
  -- A first message whose size comes in parts.
  read_request_short :
      (s : Session N) (type : Text) (unread : Text × ℕ) (b : Text) (m : N)
      → is_open s.client_ ≡ true
      → l.recv s.client_.link 4 ≡ (some b, m)
      → length b < 4
      → s.requests_processed_ ≡ 0
      → read_request l type unread s
        ≡ (refused, record s { client_ = record s.client_ { link = m }; requests_processed_ = 1 })
  unfolding read_request count_request fetch stored receive_from receive
  read_request_short s type unread b m h e d z =
      let short : ltb (length b) 4 ≡ true = ground arith in rw (h, e, short, z) refl

  relay_request_short :
      (s : Session N) (junk : Junk) (b : Text) (m : N)
      → is_open s.client_ ≡ true
      → l.recv s.client_.link 4 ≡ (some b, m)
      → length b < 4
      → s.requests_processed_ ≡ 0
      → relay_request l junk s
        ≡ (refused, record s { client_ = record s.client_ { link = m }; requests_processed_ = 1 })
  unfolding relay_request
  relay_request_short s junk b m h e d z =
      let first : ltb 0 s.requests_processed_ ≡ false = ap (λ n. ltb 0 n) z in
      rw first (read_request_short s (b'0' ∷ []) (junk.size_nbo, junk.bytes) b m h e d z)

  handle_short :
      (s : Session N) (junk : Junk) (b : Text) (m m' : N)
      → is_open s.client_ ≡ true
      → l.select s.client_.link true false 0 ≡ (true, m)
      → l.recv m 4 ≡ (some b, m')
      → length b < 4
      → s.requests_processed_ ≡ 0
      → handle_client_request l junk s ≡ (
        done false,
        record s { client_ = record s.client_ { link = m' }; requests_processed_ = 1 },
      )
  unfolding handle_client_request wait_for wait
  handle_short s junk b m m' h ready e d z =
      let r =
        relay_request_short (record s { client_ = record s.client_ { link = m } }) junk b m'
          (open_link s.client_ m h) e d z in
      rw (h, ready, r) refl

  -- When a client's first message is readable and `recv` returns fewer than the four bytes of its size,
  -- `process` returns false, has sent nothing, and has closed both connections.
  pub split_size :
      (s : Session N) (junk junk' : Junk) (b : Text) (m m' : N)
      → s.requests_processed_ ≡ 0
      → is_alive s ≡ true
      → l.select s.client_.link true false 0 ≡ (true, m)
      → l.recv m 4 ≡ (some b, m')
      → length b < 4
      → process l junk junk' s ≡ (
        done false,
        record s {
          client_ = record s.client_ { fd_ = pos 0; link = l.close m' };
          server_ = record s.server_ { fd_ = pos 0; link = l.close s.server_.link };
          processing_ = false;
          requests_processed_ = 1;
        },
      )
  unfolding process close_both close
  split_size s junk junk' b m m' z alive ready e d =
      let (h, k) = alive_open s alive in
      rw (handle_short s junk b m m' h ready e d z, open_link s.client_ m' h, k) refl
