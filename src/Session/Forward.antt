-- ===== src/Session/Forward.antt =====
-- What the handlers hand on.
use cpp_tricks.Prelude.{
  ℕ, suc, ◌+◌, ◌/◌, ◌%◌, ◌<◌, ◌≡◌, refl, ap, ◌∙◌, Bool, true, false, List, [], ◌∷◌, ◌++◌,
  append_assoc, take, length, arith, ltb, ◌==◌, if◌then◌else◌,
}
use cpp_tricks.Prelude.Text.{Text}
use cpp_tricks.Sockets.{Link, is_open}
use cpp_tricks.Sockets.Stream.{IsStream}
use cpp_tricks.Session.Steps.{done, then_do, get, ◌>>=◌, ◌>>◌}
use cpp_tricks.Session.Stage.{
  Session, Side, client, server, payload_loop, payload_size, of_bytes, u32_mod, socket, log_query,
  load_payload,
}
use cpp_tricks.Session.Payload.{payload_loop_lem}
use cpp_tricks.Session.Relay.{at, other, send_to_lem, resize_lem}
use cpp_tricks.Session.{send_message, finish_request}

-- The size field of a message with this many bytes of payload: it counts itself, and has the most
-- significant byte first.
abbrev pub size_field : ℕ → Text
size_field n =
    let k = n + 4 in (k / 16777216 % 256) ∷ (k / 65536 % 256) ∷ (k / 256 % 256) ∷ (k % 256) ∷ []

pub payload_size-size_field : (n : ℕ) → n + 4 < u32_mod → payload_size (size_field n) ≡ n
unfolding payload_size of_bytes
payload_size-size_field n h = omega arith

-- A message of the protocol: its type, if it has one, its size and its payload.
abbrev pub message : Bool → ℕ → Text → Text
message tagged type payload =
    (if tagged then type ∷ [] else []) ++ (size_field (length payload) ++ payload)

-- What the filter logs: the payload of a message of type 'Q'.
abbrev pub logged : Text → Text → List Text → List Text
logged type payload log = if of_bytes 0 type == b'Q' then log ++ (payload ∷ []) else log

module _ {N : Type 0} where
  buf_at :
      (side : Side) (s : Session N) (m o : N) (n : ℕ) (buf : Text) (log : List Text)
      → (at s side m o n buf log).req_buf ≡ buf
  buf_at client s m o n buf log = refl
  buf_at server s m o n buf log = refl

module _ {N : Type 0} (l : Link N) (w : IsStream l) where
  open w use {pending, sent}

  send_untagged :
      (side : Side) (s : Session N) (m o : N) (n : ℕ) (buf : Text) (log : List Text)
      (type head : Text) (size : ℕ)
      → is_open (socket (other side) s) ≡ true
      → (o' : N) × (send_message l (other side) false type head size (at s side m o n buf log)
          ≡ (done true, at s side m o' n buf log))
        × (sent o' ≡ sent o ++ (head ++ take size buf))
        × (pending o' ≡ pending o)
  unfolding send_message
  send_untagged side s m o n buf log type head size h =
      let (o1, e1, t1, p1) = send_to_lem l w side s m o n buf log head h in
      let (o2, e2, t2, p2) = send_to_lem l w side s m o1 n buf log (take size buf) h in
      (
        o2,
        rw e1 (rw (buf_at side s m o1 n buf log) e2),
        t2 ∙ ap (λ t. t ++ take size buf) t1 ∙ append_assoc (sent o) head (take size buf),
        p2 ∙ p1,
      )

  pub send_tagged :
      (side : Side) (s : Session N) (m o : N) (n : ℕ) (buf : Text) (log : List Text)
      (type head : Text) (size : ℕ)
      → is_open (socket (other side) s) ≡ true
      → (o' : N) × (send_message l (other side) true type head size (at s side m o n buf log)
          ≡ (done true, at s side m o' n buf log))
        × (sent o' ≡ sent o ++ (type ++ (head ++ take size buf)))
        × (pending o' ≡ pending o)
  unfolding send_message
  send_tagged side s m o n buf log type head size h =
      let (o1, e1, t1, p1) = send_to_lem l w side s m o n buf log type h in
      let (o2, e2, t2, p2) = send_untagged side s m o1 n buf log type head size h in
      (
        o2,
        rw e1 e2,
        t2
            ∙ ap (λ t. t ++ (head ++ take size buf)) t1
            ∙ append_assoc (sent o) type (head ++ take size buf),
        p2 ∙ p1,
      )

  send_type :
      (side : Side) (s : Session N) (m o : N) (n : ℕ) (buf : Text) (log : List Text)
      (type head : Text) (tagged : Bool) (size : ℕ)
      → is_open (socket (other side) s) ≡ true
      → (o' : N) × (send_message l (other side) tagged type head size (at s side m o n buf log)
          ≡ (done true, at s side m o' n buf log))
        × (sent o' ≡ sent o ++ ((if tagged then type else []) ++ (head ++ take size buf)))
        × (pending o' ≡ pending o)
  send_type side s m o n buf log type head true size h =
      send_tagged side s m o n buf log type head size h
  send_type side s m o n buf log type head false size h =
      send_untagged side s m o n buf log type head size h

  -- The payload is in the buffer once the loop has ended.
  pub load_lem :
      (side : Side) (s : Session N) (m o : N) (n : ℕ) (buf : Text) (log : List Text)
      (payload rest : Text)
      → is_open (socket side s) ≡ true
      → pending m ≡ payload ++ rest
      → length payload < u32_mod
      → let size = length payload in
        (m' : N) × (buf' : Text) × (load_payload l side size (at s side m o n buf log)
          ≡ (done tt, at s side m' o n buf' log))
        × (take size buf' ≡ payload)
        × (pending m' ≡ rest)
        × (sent m' ≡ sent m)
  unfolding load_payload
  load_lem side s m o n buf log payload rest h p d =
      let size = length payload in
      let (buf1, e1, c1) = resize_lem side s m o n buf log size in
      let (m2, buf2, e2, v2, c2, p2, u2) =
        payload_loop_lem l w (suc size) side s m o n buf1 log size 0 payload rest h p (omega arith)
          c1 d (omega arith) in
      (m2, buf2, ap (then_do (λ _. payload_loop l (suc size) side size 0)) e1 ∙ e2, v2, p2, u2)

  pub finish_request_lem :
      (s : Session N) (m o : N) (n : ℕ) (buf : Text) (log : List Text)
      (type head payload rest : Text)
      → is_open s.client_ ≡ true
      → is_open s.server_ ≡ true
      → pending m ≡ payload ++ rest
      → length payload < u32_mod
      → (m' o' : N) × (buf' : Text) × (finish_request l type head
            (length payload)
            (at s client m o n buf log)
          ≡ (done true, at s client m' o' n buf' (logged type payload log)))
        × (pending m' ≡ rest)
        × (sent m' ≡ sent m)
        × (sent o' ≡ sent o ++ ((if ltb 1 n then type else []) ++ (head ++ payload)))
        × (pending o' ≡ pending o)
  unfolding finish_request log_query
  finish_request_lem s m o n buf log type head payload rest h k p d =
      let size = length payload in
      let (m2, buf2, e2, v2, p2, u2) = load_lem client s m o n buf log payload rest h p d in
      let (o3, e3, t3, p3) =
        send_type client s m2 o n buf2 (logged type payload log) type head (ltb 1 n)
          (length payload) k in
      let log' = logged type payload log in
      let logs : log_query type size (at s client m2 o n buf2 log)
          ≡ (done tt, at s client m2 o n buf2 log') =
        ap (λ t. (done tt, at s client m2 o n buf2 (logged type t log))) v2 in
      let sends : (get >>= λ (s : Session N).
      send_message l server (ltb 1 s.requests_processed_) type head size)
            (at s client m2 o n buf2 log')
          ≡ (done true, at s client m2 o3 n buf2 log') =
        e3 in
      (
        m2,
        o3,
        buf2,
        ap
              (then_do (λ _.
                log_query type size
                >> (get >>= λ (s : Session N).
                    send_message l server (ltb 1 s.requests_processed_) type head size)))
              e2
            ∙ ap
                (then_do (λ _. get >>= λ (s : Session N).
                  send_message l server (ltb 1 s.requests_processed_) type head size))
                logs
            ∙ sends,
        p2,
        u2,
        t3 ∙ ap (λ t. sent o ++ ((if ltb 1 n then type else []) ++ (head ++ t))) v2,
        p3,
      )
