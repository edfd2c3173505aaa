-- ===== src/Session/Payload.antt =====
-- The loop that reads a payload, on a working connection.
use cpp_tricks.Prelude.{
  ℕ, zero, suc, ◌+◌, ◌-◌, ◌%◌, ◌≤◌, ◌<◌, ◌≡◌, refl, sym, ap, ◌∙◌, true, false, List, [], ◌∷◌, ◌++◌,
  append-nil, some, take, drop, length, length-drop, arith, ltb,
}
use cpp_tricks.Prelude.Text.{Text}
use cpp_tricks.Sockets.{Link, is_open}
use cpp_tricks.Sockets.Stream.{IsStream}
use cpp_tricks.Session.Steps.{done, Action, then_do}
use cpp_tricks.Session.Stage.{
  Session, Side, receive_from, payload_loop, payload_step, write_buf, overwrite, u32_mod, socket,
}
use cpp_tricks.Session.Buffer.{split_prefix, not_empty, length-overwrite, take-overwrite, grown}
use cpp_tricks.Session.Relay.{at, write_buf_lem, receive_from_lem}

module _ {N : Type 0} (l : Link N) (w : IsStream l) where
  open w use {pending, sent}

  -- A round that receives some bytes.
  payload_round :
      (f : ℕ) (side : Side) (s : Session N) (m m1 o : N) (n : ℕ) (buf : Text) (log : List Text)
      (size read : ℕ) (b : Text)
      → receive_from l side (size - read) (at s side m o n buf log)
        ≡ (done (some b), at s side m1 o n buf log)
      → 0 < length b
      → length b ≤ size - read
      → size < u32_mod
      → payload_loop l (suc f) side size read (at s side m o n buf log)
        ≡ payload_loop l f side size (read + length b) (at s side m1 o n (overwrite read b buf) log)
  unfolding payload_loop payload_step write_buf
  payload_round f side s m m1 o n buf log size read b r gb le d =
      let go : ltb read size ≡ true = ground arith in
      let next : (read + length b) % u32_mod ≡ read + length b = omega arith in
      let again : ℕ → Action (Session N) (Unit {0}) = λ k. payload_loop l f side size k in
      let step : payload_step l again read (some b) (at s side m1 o n buf log)
          ≡ again ((read + length b) % u32_mod) (at s side m1 o n (overwrite read b buf) log) =
        rw (not_empty b gb) (
          ap (then_do (λ _. again ((read + length b) % u32_mod)))
            (write_buf_lem side s m1 o n buf log read b)) in
      rw go (
        ap (then_do (payload_step l again read)) r
        ∙ step
        ∙ ap (λ k. again k (at s side m1 o n (overwrite read b buf) log)) next)

  pub payload_loop_lem :
      (f : ℕ) (side : Side) (s : Session N) (m o : N) (n : ℕ) (buf : Text) (log : List Text)
      (size read : ℕ) (t rest : Text)
      → is_open (socket side s) ≡ true
      → pending m ≡ t ++ rest
      → length t + read ≡ size
      → size ≤ length buf
      → size < u32_mod
      → length t < f
      → (m' : N) × (buf' : Text) × (payload_loop l f side size read (at s side m o n buf log)
          ≡ (done tt, at s side m' o n buf' log))
        × (take size buf' ≡ take read buf ++ t)
        × (size ≤ length buf')
        × (pending m' ≡ rest)
        × (sent m' ≡ sent m)
  unfolding payload_loop
  payload_loop_lem zero side s m o n buf log size read t rest h p e c d k = absurd (omega arith)
  payload_loop_lem (suc f) side s m o n buf log size read [] rest h p e c d k =
      let end : ltb read size ≡ false = ground arith in
      (
        m,
        buf,
        rw end,
        ap (λ x. take x buf) (sym (omega arith)) ∙ sym (append-nil (take read buf)),
        c,
        p,
        refl,
      )
  payload_loop_lem (suc f) side s m o n buf log size read (x ∷ t) rest h p e c d k =
      let long : 0 < length (pending m) = omega (arith, ap length p) in
      let (b, m1, r, r', q, gb, le, u) =
        receive_from_lem l w side s m o n buf log (size - read) h (omega arith) long in
      let t1 = drop (length b) (x ∷ t) in
      let (xb, rb) = split_prefix b (pending m1) (x ∷ t) rest (omega (arith, le)) (sym q ∙ p) in
      let short : length t1 ≡ suc (length t) - length b = length-drop (length b) (x ∷ t) in
      let fits : read + length b ≤ length buf = omega (arith, le) in
      let (m2, buf2, r2, v2, c2, p2, u2) =
        payload_loop_lem f side s m1 o n (overwrite read b buf) log size (read + length b) t1 rest h
          rb (omega (arith, short, le)) (rw (length-overwrite read b buf fits) c) d
          (omega (arith, short, gb)) in
      (
        m2,
        buf2,
        payload_round f side s m m1 o n buf log size read b r gb le d ∙ r2,
        v2 ∙ grown (take read buf) b t1 (x ∷ t) xb (take-overwrite read b buf fits),
        c2,
        p2,
        u2 ∙ u,
      )
