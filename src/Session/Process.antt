-- ===== src/Session/Process.antt =====
-- `process`: the request, then the response, and both sockets closed if one of them fails.
use cpp_tricks.Prelude.{
  ℕ, ◌+◌, ◌<◌, ◌≡◌, refl, ap, ◌∙◌, inl, inr, Bool, true, false, List, [], ◌∷◌, ◌++◌, length, ltb,
  if◌then◌else◌, Bool-cases,
}
use cpp_tricks.Prelude.Int.{pos}
use cpp_tricks.Prelude.Text.{Text}
use cpp_tricks.Sockets.{Link, TcpSocket, is_open, close}
use cpp_tricks.Sockets.Stream.{IsStream}
use cpp_tricks.Session.Steps.{
  Result, done, refused, spins, Action, pure, then_do, modify, ◌>>=◌, ◌>>◌,
}
use cpp_tricks.Session.Stage.{Session, client, server, Junk, wait_for, u32_mod}
use cpp_tricks.Session.Relay.{at}
use cpp_tricks.Session.Forward.{message, logged}
use cpp_tricks.Session.Request.{ReadsFields}
use cpp_tricks.Session.Laws.{handle_client_request_lem, handle_server_response_lem}
use cpp_tricks.Session.{
  is_alive, handle_client_request, handle_server_response, process, close_both, or_false,
  relay_request, relay_response,
}

module _ {N : Type 0} where
  shut : (k : TcpSocket N) (n : N) → is_open (record k { fd_ = pos 0; link = n }) ≡ false
  unfolding is_open
  shut k n = refl

  alive_at :
      (s : Session N) (c v : N) (n : ℕ) (buf : Text) (log : List Text)
      → is_alive s ≡ true
      → is_alive (at s client c v n buf log) ≡ true
  unfolding is_alive is_open
  alive_at s c v n buf log h = h

module _ {N : Type 0} (l : Link N) where
  closed : (k : TcpSocket N) → is_open (close l k) ≡ false
  unfolding close
  closed k = elim (Bool-cases (is_open k)) [
    | inl t ↦ rw t (shut k (l.close k.link))
    | inr f ↦ rw (f, f)
  ]

  abbrev pub BothClosed : Session N → Type 0
  BothClosed s = (is_open s.client_ ≡ false) × (is_open s.server_ ≡ false)

  close_both-BothClosed : (s : Session N) → BothClosed (close_both l s).1
  unfolding close_both
  close_both-BothClosed s = (closed s.client_, closed s.server_)

  -- What `process` guarantees when it returns `ok` and leaves the session `s`.
  abbrev pub Ended : Result Bool × Session N → Type 0
  Ended (done true, s) = s.processing_ ≡ false
  Ended (done false, s) = (s.processing_ ≡ false) × BothClosed s
  Ended (refused, s) = ⊥
  Ended (spins, s) = Unit {0}

  -- `process`, from the result of the last handler on.
  last_step : Bool → Action (Session N) Bool
  last_step ret = do
    if ret then pure tt else close_both l
    modify λ (s : Session N). record s { processing_ = false }
    pure ret

  last_step_lem : (r : Result Bool × Session N) → Ended (then_do last_step (or_false l r))
  unfolding last_step close_both
  last_step_lem (done true, s) = refl
  last_step_lem (done false, s) = (refl, close_both-BothClosed s)
  last_step_lem (refused, s) = (refl, close_both-BothClosed s)
  last_step_lem (spins, s) = tt

  response_step_lem :
      (junk : Junk) (r : Result Bool × Session N)
      → Ended (
          then_do
            (λ sent. (if sent then handle_server_response l junk else pure false) >>= last_step)
            (or_false l r))
  unfolding handle_server_response
  response_step_lem junk (done true, s) =
      last_step_lem (
        then_do (λ ready. if ready then relay_response l junk else pure true) (wait_for l server s))
  response_step_lem junk (done false, s) = last_step_lem (done false, s)
  response_step_lem junk (refused, s) = last_step_lem (done false, s)
  response_step_lem junk (spins, s) = tt

  -- Whatever the connections do, `process` leaves the flag `processing_` reset when it returns, and both
  -- sockets closed when it returns false.
  pub process-Ended : (s : Session N) (junk junk' : Junk) → Ended (process l junk junk' s)
  unfolding process handle_client_request last_step
  process-Ended s junk junk' =
      response_step_lem junk'
        (then_do (λ ready. if ready then relay_request l junk else pure true) (wait_for l client s))

module _ {N : Type 0} (l : Link N) (w : IsStream l) where
  open w use {pending, sent}

  -- When both sockets of a session are open and work, a message of the client and one of the server are to
  -- come, each with a payload whose size fits its field, and one call of `recv` reads a field of a header,
  -- then `process` returns true: it has sent exactly the client's message to the server and the server's to
  -- the client, has left what follows them unread, has logged the payload if the type is 'Q', and has
  -- counted the request. The first message of a client has no type. The counter is below its maximum.
  pub exchange :
      (s : Session N) (junk junk' : Junk) (type type' : ℕ) (payload payload' rest rest' : Text)
      → ReadsFields l w
      → is_alive s ≡ true
      → length junk.size_nbo ≡ 4
      → length junk'.size_nbo ≡ 4
      → let n = s.requests_processed_ in
        pending s.client_.link ≡ message (ltb 0 n) type payload ++ rest
        → pending s.server_.link ≡ message true type' payload' ++ rest'
        → length payload + 4 < u32_mod
        → length payload' + 4 < u32_mod
        → n + 1 < u32_mod
        → (c v : N) × (buf : Text) × (process l junk junk' s ≡ (
          done true,
          record (at s client c v
              (n + 1)
              buf
              (if ltb 0 n then logged (type ∷ []) payload s.logger_ else s.logger_)) {
                processing_ = false;
              },
        ))
          × (pending c ≡ rest)
          × (pending v ≡ rest')
          × (sent c ≡ sent s.client_.link ++ message true type' payload')
          × (sent v ≡ sent s.server_.link ++ message (ltb 0 n) type payload)
  unfolding process
  exchange s junk junk' type type' payload payload' rest rest' whole alive e e' p p' d d' g =
      let n = s.requests_processed_ in
      let log = if ltb 0 n then logged (type ∷ []) payload s.logger_ else s.logger_ in
      let (c1, v1, buf1, e1, p1, u1, t1, q1) =
        handle_client_request_lem l w s junk type payload rest whole alive e p d g in
      let s1 : Session N = at s client c1 v1 (n + 1) buf1 log in
      let alive1 : is_alive s1 ≡ true = alive_at s c1 v1 (n + 1) buf1 log alive in
      let (v2, c2, buf2, e2, p2, u2, t2, q2) =
        handle_server_response_lem l w s1 junk' type' payload' rest' whole alive1 e' (q1 ∙ p') d' in
      (
        c2,
        v2,
        buf2,
        rw (e1, e2),
        q2 ∙ p1,
        p2,
        t2 ∙ ap (λ t. t ++ message true type' payload') u1,
        u2 ∙ t1,
      )
