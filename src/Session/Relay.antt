-- ===== src/Session/Relay.antt =====
-- The stages of a handler on working connections.
use cpp_tricks.Prelude.{
  ℕ, ◌≤◌, ◌<◌, ◌≡◌, refl, sym, ap, ◌∙◌, true, false, List, [], ◌++◌, append-nil, some, drop, length,
  length-append, drop_all, arith,
}
use cpp_tricks.Prelude.Text.{Text}
use cpp_tricks.Sockets.{Link, TcpSocket, is_open}
use cpp_tricks.Sockets.Stream.{IsStream, send_all, receive_part, wait_lem}
use cpp_tricks.Session.Steps.{done, pure, then_do}
use cpp_tricks.Session.Stage.{
  Session, Side, client, server, wait_for, receive_from, send_to, fetch, stored, write_buf,
  overwrite, socket, with_socket, sent_or, resize,
}
use cpp_tricks.Session.Buffer.{append_split, resized, length-resized}

abbrev pub other : Side → Side
other client = server
other server = client

module _ {N : Type 0} where
  -- The session with these connections of a side and of the other, and with this counter, buffer and log.
  abbrev pub at : Session N → Side → N → N → ℕ → Text → List Text → Session N
  at s client m o n buf log = record s {
    client_ = record s.client_ { link = m };
    server_ = record s.server_ { link = o };
    requests_processed_ = n;
    req_buf = buf;
    logger_ = log;
  }
  at s server m o n buf log = record s {
    client_ = record s.client_ { link = o };
    server_ = record s.server_ { link = m };
    requests_processed_ = n;
    req_buf = buf;
    logger_ = log;
  }

  pub write_buf_lem :
      (side : Side) (s : Session N) (m o : N) (n : ℕ) (buf : Text) (log : List Text) (off : ℕ)
      (b : Text)
      → write_buf off b (at s side m o n buf log)
        ≡ (done tt, at s side m o n (overwrite off b buf) log)
  unfolding write_buf
  write_buf_lem client s m o n buf log off b = refl
  write_buf_lem server s m o n buf log off b = refl

  pub resize_lem :
      (side : Side) (s : Session N) (m o : N) (n : ℕ) (buf : Text) (log : List Text) (size : ℕ)
      → (buf' : Text) × (resize size (at s side m o n buf log)
          ≡ (done tt, at s side m o n buf' log))
        × (size ≤ length buf')
  unfolding resize
  resize_lem client s m o n buf log size = (resized size buf, refl, length-resized size buf)
  resize_lem server s m o n buf log size = (resized size buf, refl, length-resized size buf)

  pub open_link :
      (k : TcpSocket N) (m : N) → is_open k ≡ true → is_open (record k { link = m }) ≡ true
  unfolding is_open
  open_link k m o = o

module _ {N : Type 0} (l : Link N) (w : IsStream l) where
  open w use {pending, sent}

  pub receive_from_lem :
      (side : Side) (s : Session N) (m o : N) (n : ℕ) (buf : Text) (log : List Text) (size : ℕ)
      → is_open (socket side s) ≡ true
      → 0 < size
      → 0 < length (pending m)
      → (b : Text) × (m' : N) × (receive_from l side size (at s side m o n buf log)
          ≡ (done (some b), at s side m' o n buf log))
        × (l.recv m size ≡ (some b, m'))
        × (pending m ≡ b ++ pending m')
        × (0 < length b)
        × (length b ≤ size)
        × (sent m' ≡ sent m)
  unfolding receive_from
  receive_from_lem client s m o n buf log size h g k =
      let r = receive_part l w (record s.client_ { link = m }) size (open_link s.client_ m h) g k in
      (
        r.0,
        r.1,
        ap (λ x. (done x.0, with_socket client x.1 (at s client m o n buf log))) r.2,
        r.3,
        r.4,
        r.5,
        r.6,
        r.7,
      )
  receive_from_lem server s m o n buf log size h g k =
      let r = receive_part l w (record s.server_ { link = m }) size (open_link s.server_ m h) g k in
      (
        r.0,
        r.1,
        ap (λ x. (done x.0, with_socket server x.1 (at s server m o n buf log))) r.2,
        r.3,
        r.4,
        r.5,
        r.6,
        r.7,
      )

  -- To the side that is not read.
  pub send_to_lem :
      (side : Side) (s : Session N) (m o : N) (n : ℕ) (buf : Text) (log : List Text) (b : Text)
      → is_open (socket (other side) s) ≡ true
      → (o' : N) × (send_to l (other side) b (at s side m o n buf log)
          ≡ (done true, at s side m o' n buf log))
        × (sent o' ≡ sent o ++ b)
        × (pending o' ≡ pending o)
  unfolding send_to
  send_to_lem client s m o n buf log b h =
      let r = send_all l w (record s.server_ { link = o }) b (open_link s.server_ o h) in
      (
        r.0,
        ap (λ x. (sent_or l x.0, with_socket server x.1 (at s client m o n buf log))) r.1,
        r.2,
        r.3,
      )
  send_to_lem server s m o n buf log b h =
      let r = send_all l w (record s.client_ { link = o }) b (open_link s.client_ o h) in
      (
        r.0,
        ap (λ x. (sent_or l x.0, with_socket client x.1 (at s server m o n buf log))) r.1,
        r.2,
        r.3,
      )

  pub wait_for_lem :
      (side : Side) (s : Session N) (m o : N) (n : ℕ) (buf : Text) (log : List Text)
      → is_open (socket side s) ≡ true
      → let r = l.select m true false 0 in
        wait_for l side (at s side m o n buf log) ≡ (done r.0, at s side r.1 o n buf log)
  unfolding wait_for
  wait_for_lem client s m o n buf log h =
      ap (λ x. (done x.0, with_socket client x.1 (at s client m o n buf log)))
        (wait_lem l w (record s.client_ { link = m }) true false 0 (open_link s.client_ m h))
  wait_for_lem server s m o n buf log h =
      ap (λ x. (done x.0, with_socket server x.1 (at s server m o n buf log)))
        (wait_lem l w (record s.server_ { link = m }) true false 0 (open_link s.server_ m h))

  -- A variable of `size` bytes that one call of `receive` fills.
  pub fetch_lem :
      (side : Side) (s : Session N) (m o : N) (n : ℕ) (buf : Text) (log : List Text) (v : Text × ℕ)
      (t rest : Text)
      → is_open (socket side s) ≡ true
      → 0 < length t
      → length v.0 ≡ length t
      → pending m ≡ t ++ rest
      → ((b : Text) (m' : N) → l.recv m (length t) ≡ (some b, m') → length b ≡ length t)
      → (m' : N) × (fetch l side (length t) v (at s side m o n buf log)
          ≡ (done (t, length t), at s side m' o n buf log))
        × (pending m' ≡ rest)
        × (sent m' ≡ sent m)
  unfolding fetch stored
  fetch_lem side s m o n buf log v t rest h g same p whole =
      let long : 0 < length (pending m) = omega (arith, ap length p, length-append {0} t rest) in
      let (b, m', e, c, q, gb, le, u) = receive_from_lem side s m o n buf log (length t) h g long in
      let full = whole b m' c in
      let (bt, rt) = append_split b (pending m') t rest full (sym q ∙ p) in
      let filled : drop (length b) v.0 ≡ [] = drop_all v.0 (length b) (omega (arith, full)) in
      (
        m',
        ap (then_do (λ r. pure (stored v r))) e
            ∙ ap (λ x. (done x, at s side m' o n buf log))
                (ap (λ d. (b ++ d, length b)) filled
                  ∙ ap (λ x. (x, length b)) (append-nil b)
                  ∙ ap (λ x. (x, length x)) bt),
        rt,
        u,
      )
