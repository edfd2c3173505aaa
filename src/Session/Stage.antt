-- ===== src/Session/Stage.antt =====
-- The state of a session, and what its two handlers do in turn.
use cpp_tricks.Prelude.{
  ℕ, zero, suc, ◌+◌, ◌-◌, ◌*◌, ◌%◌, Bool, true, false, List, [], ◌∷◌, ◌++◌, Option, none, some,
  take, drop, length, ltb, ◌==◌, if◌then◌else◌,
}
use cpp_tricks.Prelude.Text.{Text, is_empty}
use cpp_tricks.Sockets.{Link, TcpSocket, receive, send, wait}
use cpp_tricks.Session.Steps.{
  Result, done, spins, Action, pure, refuse, ◌>>=◌, ◌>>◌, modify, then_do,
}

abbrev pub u32_mod : ℕ
u32_mod = 4294967296

-- `logger_` is what has been logged, the first line first.
pub record Session (N : Type 0) : Type 0 where
  pub client_ : TcpSocket N
  pub server_ : TcpSocket N
  pub processing_ : Bool
  pub requests_processed_ : ℕ
  pub req_buf : Text
  pub logger_ : List Text

pub data Side : Type 0 where
  client server : Side

-- What local variables hold before they are written: `bytes`, and the four bytes of the size.
pub record Junk : Type 0 where
  pub type : ℕ
  pub bytes : ℕ
  pub size_nbo : Text

-- The payload's size in the four bytes of the header, most significant first: `ntohl`, less the size of
-- the header itself.
unfoldable pub of_bytes : ℕ → Text → ℕ
of_bytes acc [] = acc
of_bytes acc (b ∷ bs) = of_bytes (acc * 256 + b) bs

unfoldable pub payload_size : Text → ℕ
unfolding of_bytes
payload_size size_nbo = (of_bytes 0 size_nbo + u32_mod - 4) % u32_mod

abbrev pub zeros : ℕ → Text
zeros zero = []
zeros (suc n) = 0 ∷ zeros n

-- A write into a buffer, from an offset on.
abbrev pub overwrite : ℕ → Text → Text → Text
overwrite off b buf = take off buf ++ (b ++ drop (off + length b) buf)

-- A variable and `bytes` after a call of `receive` on them.
unfoldable pub stored : Text × ℕ → Option Text → Text × ℕ
stored v none = v
stored v (some b) = (b ++ drop (length b) v.0, length b)

module _ {N : Type 0} where
  abbrev pub socket : Side → Session N → TcpSocket N
  socket client s = s.client_
  socket server s = s.server_

  abbrev pub with_socket : Side → TcpSocket N → Session N → Session N
  with_socket client k s = record s { client_ = k }
  with_socket server k s = record s { server_ = k }

  -- `if ( req_buf.size() < size ) req_buf.resize( size )`
  unfoldable pub resize : ℕ → Action (Session N) (Unit {0})
  resize size = modify λ (s : Session N). record s {
    req_buf =
        if ltb (length s.req_buf) size
        then s.req_buf ++ zeros (size - length s.req_buf)
        else s.req_buf;
  }

  unfoldable pub write_buf : ℕ → Text → Action (Session N) (Unit {0})
  write_buf off b = modify λ (s : Session N). record s { req_buf = overwrite off b s.req_buf }

  -- The counter has 32 bits.
  unfoldable pub count_request : Action (Session N) (Unit {0})
  count_request =
      modify
        λ (s : Session N). record s { requests_processed_ = (s.requests_processed_ + 1) % u32_mod }

  -- The filter of requests.
  unfoldable pub log_query : Text → ℕ → Action (Session N) (Unit {0})
  log_query type size = modify λ (s : Session N). record s {
    logger_ =
        if of_bytes 0 type == b'Q' then s.logger_ ++ (take size s.req_buf ∷ []) else s.logger_;
  }

module _ {N : Type 0} (l : Link N) where
  unfoldable pub wait_for : Side → Action (Session N) Bool
  wait_for side s =
      let r = wait l (socket side s) true false 0 in (done r.0, with_socket side r.1 s)

  unfoldable pub receive_from : Side → ℕ → Action (Session N) (Option Text)
  receive_from side size s =
      let r = receive l (socket side s) size in (done r.0, with_socket side r.1 s)

  abbrev pub sent_or : Option Bool → Result Bool
  sent_or none = spins
  sent_or (some ok) = done ok

  unfoldable pub send_to : Side → Text → Action (Session N) Bool
  send_to side b s = let r = send l (socket side s) b in (sent_or r.0, with_socket side r.1 s)

  -- `receive( &v, size, bytes )`, for a variable `v` and `bytes` with these values.
  unfoldable pub fetch : Side → ℕ → Text × ℕ → Action (Session N) (Text × ℕ)
  unfolding receive_from stored
  fetch side size v = do r ← receive_from side size; pure (stored v r)

  -- The rest of a round of the loop that reads the payload.
  unfoldable pub payload_step :
      (ℕ → Action (Session N) (Unit {0})) → ℕ → Option Text → Action (Session N) (Unit {0})
  unfolding write_buf
  payload_step again read none = refuse
  payload_step again read (some b) =
      if is_empty b then refuse else (write_buf read b >> again ((read + length b) % u32_mod))

  -- The loop, with fuel.
  unfoldable pub payload_loop : ℕ → Side → ℕ → ℕ → Action (Session N) (Unit {0})
  unfolding receive_from payload_step
  payload_loop zero side size read s = (spins, s)
  payload_loop (suc f) side size read s =
      let step : Option Text → Action (Session N) (Unit {0}) =
        payload_step (λ n. payload_loop f side size n) read in
      let round = then_do step (receive_from side (size - read) s) in
      if ltb read size then round else (done tt, s)

  -- "3. read payload". Every round but a refused one receives a byte at least, so the fuel is enough.
  unfoldable pub load_payload : Side → ℕ → Action (Session N) (Unit {0})
  unfolding resize payload_loop
  load_payload side size = do resize size; payload_loop (suc size) side size 0
