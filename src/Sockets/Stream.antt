-- ===== src/Sockets/Stream.antt =====
-- What a connection does with bytes, and `receive` and `send` on it.
use cpp_tricks.Prelude.{
  ℕ, zero, suc, ◌≤◌, ◌<◌, ◌≡◌, refl, sym, ap, ◌∙◌, Bool, true, false, [], ◌∷◌, ◌++◌, append_assoc,
  append-nil, some, drop, take, length, take-append-drop, length-drop, arith, if◌then◌else◌, inl,
  inr, Bool-cases,
}
use cpp_tricks.Prelude.Text.{Text, is_empty}
use cpp_tricks.Sockets.{Link, TcpSocket, is_open, receive, send, send_loop, after_send, wait}

-- A working connection, as `recv(2)` and `send(2)` document it for a blocking stream socket. `pending`
-- is what the peer sends and the program has not received yet; `sent` is what the program has sent.
pub record IsStream {N : Type 0} (l : Link N) : Type 0 where
  pub pending : N → Text
  pub sent : N → Text
  -- while bytes are to come, `recv` waits for some of them, and returns no more than asked for
  pub recv_lem :
      (n : N) (size : ℕ)
      → 0 < size
      → 0 < length (pending n)
      → (b : Text) × (m : N) × (l.recv n size ≡ (some b, m))
        × (pending n ≡ b ++ pending m)
        × (0 < length b)
        × (length b ≤ size)
        × (sent m ≡ sent n)
  -- `send` takes a prefix of the buffer, which is not empty if the buffer is not
  pub send_lem :
      (n : N) (b : Text)
      → (k : ℕ) × (m : N) × (l.send n b ≡ (some k, m))
        × (k ≤ length b)
        × (0 < length b → 0 < k)
        × (sent m ≡ sent n ++ take k b)
        × (pending m ≡ pending n)
  -- `select` neither sends nor receives
  pub select_lem :
      (n : N) (read write : Bool) (sec : ℕ)
      → let m = (l.select n read write sec).1 in (pending m ≡ pending n) × (sent m ≡ sent n)
  -- and finds a connection readable while bytes are to come
  pub select_ready :
      (n : N) (sec : ℕ) → 0 < length (pending n) → (l.select n true false sec).0 ≡ true

empty_nil : (s : Text) → is_empty s ≡ true → s ≡ []
empty_nil [] h = refl
empty_nil (c ∷ s) h = cc

not_empty : (s : Text) → is_empty s ≡ false → 0 < length s
not_empty [] h = cc
not_empty (c ∷ s) h = omega arith

module _ {N : Type 0} (l : Link N) (w : IsStream l) where
  open w use {pending, sent}

  -- The loop of `send` ends, and it has sent the whole buffer.
  pub send_loop_lem :
      (f : ℕ) (n : N) (b : Text)
      → length b < f
      → (m : N) × (send_loop l f n b ≡ (some true, m))
        × (sent m ≡ sent n ++ b)
        × (pending m ≡ pending n)
  unfolding send_loop
  send_loop_lem zero n b h = absurd (omega arith)
  send_loop_lem (suc f) n b h =
      let (k, m, e, le, go, s, p) = w.send_lem n b in
      let whole = take-append-drop k b in
      let next : send_loop l (suc f) n b
          ≡ (if is_empty (drop k b) then (some true, m) else send_loop l f m (drop k b)) =
        ap (after_send l (λ m rest. send_loop l f m rest) b) e in
      elim (Bool-cases (is_empty (drop k b))) [
        | inl done ↦ (
          m,
          next ∙ rw done,
          s
              ∙ ap (λ t. sent n ++ t)
                  (sym (append-nil (take k b))
                    ∙ ap (λ t. take k b ++ t) (sym (empty_nil (drop k b) done))
                    ∙ whole),
          p,
        )
        | inr more ↦
            let shorter = length-drop k b in
            let left = not_empty (drop k b) more in
            let (m', e', s', p') =
              send_loop_lem f m (drop k b) (omega (arith, shorter, left, go)) in
            (
              m',
              next ∙ rw (more, e'),
              s'
                  ∙ ap (λ t. t ++ drop k b) s
                  ∙ append_assoc (sent n) (take k b) (drop k b)
                  ∙ ap (λ t. sent n ++ t) whole,
              p' ∙ p,
            )
      ]

  -- On an open socket whose connection works, `send` returns true and has sent the whole buffer, and nothing else.
  pub send_all :
      (s : TcpSocket N) (b : Text)
      → is_open s ≡ true
      → (m : N) × (send l s b ≡ (some true, record s { link = m }))
        × (sent m ≡ sent s.link ++ b)
        × (pending m ≡ pending s.link)
  unfolding send is_open
  send_all s b o =
      let (m, e, t, p) = send_loop_lem (suc (length b)) s.link b (omega arith) in
      (m, rw (o, e), t, p)

  -- On an open socket whose connection works, while bytes are to come, `receive` returns some of them.
  pub receive_part :
      (s : TcpSocket N) (size : ℕ)
      → is_open s ≡ true
      → 0 < size
      → 0 < length (pending s.link)
      → (b : Text) × (m : N) × (receive l s size ≡ (some b, record s { link = m }))
        × (l.recv s.link size ≡ (some b, m))
        × (pending s.link ≡ b ++ pending m)
        × (0 < length b)
        × (length b ≤ size)
        × (sent m ≡ sent s.link)
  unfolding receive is_open
  receive_part s size o h k =
      let (b, m, e, p, g, le, t) = w.recv_lem s.link size h k in (b, m, rw (o, e), e, p, g, le, t)

  pub wait_lem :
      (s : TcpSocket N) (read write : Bool) (sec : ℕ)
      → is_open s ≡ true
      → wait l s read write sec ≡ (
        (l.select s.link read write sec).0,
        record s { link = (l.select s.link read write sec).1 },
      )
  unfolding wait is_open
  wait_lem s read write sec o = rw o
