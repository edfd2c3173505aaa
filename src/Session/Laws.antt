-- ===== src/Session/Laws.antt =====
-- The two handlers, on connections that work.
use cpp_tricks.Prelude.{
  ℕ, ◌+◌, ◌<◌, ◌≡◌, refl, ap, ◌∙◌, Bool, true, false, ◌&&◌, List, [], ◌∷◌, ◌++◌, length, arith, ltb,
  if◌then◌else◌,
}
use cpp_tricks.Prelude.Text.{Text}
use cpp_tricks.Sockets.{Link, is_open}
use cpp_tricks.Sockets.Stream.{IsStream}
use cpp_tricks.Session.Steps.{done}
use cpp_tricks.Session.Stage.{Session, Side, client, server, Junk, wait_for, u32_mod, socket}
use cpp_tricks.Session.Relay.{at, wait_for_lem}
use cpp_tricks.Session.Forward.{message, logged}
use cpp_tricks.Session.Request.{ReadsFields, relay_request_lem}
use cpp_tricks.Session.Response.{relay_response_lem}
use cpp_tricks.Session.{is_alive, handle_client_request, handle_server_response}

and_split : (a b : Bool) → (a && b) ≡ true → (a ≡ true) × (b ≡ true)
and_split true b h = (refl, h)
and_split false b h = cc

pub message_pos :
    (tagged : Bool) (type : ℕ) (payload rest t : Text)
    → t ≡ message tagged type payload ++ rest
    → 0 < length t
message_pos true type payload rest t h = omega (arith, ap length h)
message_pos false type payload rest t h = omega (arith, ap length h)

module _ {N : Type 0} where
  pub alive_open :
      (s : Session N) → is_alive s ≡ true → (is_open s.client_ ≡ true) × (is_open s.server_ ≡ true)
  unfolding is_alive
  alive_open s h = and_split (is_open s.client_) (is_open s.server_) h

module _ {N : Type 0} (l : Link N) (w : IsStream l) where
  open w use {pending, sent}

  -- A side that has bytes to read.
  pub ready_lem :
      (side : Side) (s : Session N) (m o : N) (n : ℕ) (buf : Text) (log : List Text)
      → is_open (socket side s) ≡ true
      → 0 < length (pending m)
      → (m' : N) × (wait_for l side (at s side m o n buf log)
          ≡ (done true, at s side m' o n buf log))
        × (pending m' ≡ pending m)
        × (sent m' ≡ sent m)
  ready_lem side s m o n buf log h g =
      let (p, u) = w.select_lem m true false 0 in
      (
        (l.select m true false 0).1,
        wait_for_lem l w side s m o n buf log h
            ∙ ap (λ b. (done b, at s side (l.select m true false 0).1 o n buf log))
                (w.select_ready m 0 g),
        p,
        u,
      )

  pub handle_client_request_lem :
      (s : Session N) (junk : Junk) (type : ℕ) (payload rest : Text)
      → ReadsFields l w
      → is_alive s ≡ true
      → length junk.size_nbo ≡ 4
      → let n = s.requests_processed_ in
        pending s.client_.link ≡ message (ltb 0 n) type payload ++ rest
        → length payload + 4 < u32_mod
        → n + 1 < u32_mod
        → (c v : N) × (buf : Text) × (handle_client_request l junk s ≡ (
          done true,
          at s client c v
              (n + 1)
              buf
              (if ltb 0 n then logged (type ∷ []) payload s.logger_ else s.logger_),
        ))
          × (pending c ≡ rest)
          × (sent c ≡ sent s.client_.link)
          × (sent v ≡ sent s.server_.link ++ message (ltb 0 n) type payload)
          × (pending v ≡ pending s.server_.link)
  unfolding handle_client_request
  handle_client_request_lem s junk type payload rest whole alive e p d g =
      let n = s.requests_processed_ in
      let (h, k) = alive_open s alive in
      let (m1, e1, p1, u1) =
        ready_lem client s s.client_.link s.server_.link n s.req_buf s.logger_ h
          (message_pos (ltb 0 n) type payload rest (pending s.client_.link) p) in
      let (m2, o2, buf2, e2, p2, u2, t2, q2) =
        relay_request_lem l w whole s m1 s.server_.link n s.req_buf s.logger_ junk type payload rest
          h k e (p1 ∙ p) d g in
      (m2, o2, buf2, rw (e1, e2), p2, u2 ∙ u1, t2, q2)

  pub handle_server_response_lem :
      (s : Session N) (junk : Junk) (type : ℕ) (payload rest : Text)
      → ReadsFields l w
      → is_alive s ≡ true
      → length junk.size_nbo ≡ 4
      → pending s.server_.link ≡ message true type payload ++ rest
      → length payload + 4 < u32_mod
      → (v c : N) × (buf : Text) × (handle_server_response l junk s
          ≡ (done true, at s server v c s.requests_processed_ buf s.logger_))
        × (pending v ≡ rest)
        × (sent v ≡ sent s.server_.link)
        × (sent c ≡ sent s.client_.link ++ message true type payload)
        × (pending c ≡ pending s.client_.link)
  unfolding handle_server_response
  handle_server_response_lem s junk type payload rest whole alive e p d =
      let n = s.requests_processed_ in
      let (h, k) = alive_open s alive in
      let (m1, e1, p1, u1) =
        ready_lem server s s.server_.link s.client_.link n s.req_buf s.logger_ k
          (message_pos true type payload rest (pending s.server_.link) p) in
      let (m2, o2, buf2, e2, p2, u2, t2, q2) =
        relay_response_lem l w s m1 s.client_.link n s.req_buf s.logger_ junk type payload rest
          whole k h e (p1 ∙ p) d in
      (m2, o2, buf2, rw (e1, e2), p2, u2 ∙ u1, t2, q2)
