-- ===== src/Session/Request.antt =====
-- A request that is handed on, from the first call of `wait` to the last of `send`.
use cpp_tricks.Prelude.{
  ℕ, zero, suc, ◌+◌, ◌%◌, ◌≤◌, ◌<◌, ◌≡◌, refl, ap, ◌∙◌, true, List, [], ◌∷◌, ◌++◌, append_assoc,
  some, length, length-append, arith, ltb, if◌then◌else◌,
}
use cpp_tricks.Prelude.Text.{Text}
use cpp_tricks.Sockets.{Link, is_open}
use cpp_tricks.Sockets.Stream.{IsStream}
use cpp_tricks.Session.Steps.{done}
use cpp_tricks.Session.Stage.{
  Session, Side, client, Junk, fetch, of_bytes, u32_mod, socket, count_request,
}
use cpp_tricks.Session.Relay.{at, fetch_lem}
use cpp_tricks.Session.Forward.{
  size_field, payload_size-size_field, message, logged, finish_request_lem,
}
use cpp_tricks.Session.{read_request, relay_request}

-- One call of `recv` returns all the bytes of a field of a header, once they are to come. It is what the
-- handlers count on; `recv(2)` promises no more than one byte.
abbrev pub ReadsFields : {N : Type 0} (l : Link N) → IsStream l → Type 0
ReadsFields {N} l w =
    (n m : N) (size : ℕ) (b : Text)
    → size ≤ 4
    → size ≤ length (w.pending n)
    → l.recv n size ≡ (some b, m)
    → length b ≡ size

module _ {N : Type 0} (l : Link N) (w : IsStream l) (whole : ReadsFields l w) where
  open w use {pending, sent}

  pub fetch_field :
      (side : Side) (s : Session N) (m o : N) (n : ℕ) (buf : Text) (log : List Text) (v : Text × ℕ)
      (t rest : Text)
      → is_open (socket side s) ≡ true
      → 0 < length t
      → length t ≤ 4
      → length v.0 ≡ length t
      → pending m ≡ t ++ rest
      → (m' : N) × (fetch l side (length t) v (at s side m o n buf log)
          ≡ (done (t, length t), at s side m' o n buf log))
        × (pending m' ≡ rest)
        × (sent m' ≡ sent m)
  fetch_field side s m o n buf log v t rest h g le e p =
      fetch_lem l w side s m o n buf log v t rest h g e p (λ b m' c.
        whole m m' (length t) b le (omega (arith, ap length p, length-append {0} t rest)) c)

  read_request_lem :
      (s : Session N) (m o : N) (n : ℕ) (buf : Text) (log : List Text) (type payload rest : Text)
      (unread : Text × ℕ)
      → is_open s.client_ ≡ true
      → is_open s.server_ ≡ true
      → length unread.0 ≡ 4
      → pending m ≡ size_field (length payload) ++ (payload ++ rest)
      → length payload + 4 < u32_mod
      → let n' = (n + 1) % u32_mod in
        (m' o' : N) × (buf' : Text) × (read_request l type unread (at s client m o n buf log)
          ≡ (done true, at s client m' o' n' buf' (logged type payload log)))
        × (pending m' ≡ rest)
        × (sent m' ≡ sent m)
        × (sent o'
            ≡ sent o
              ++ ((if ltb 1 n' then type else []) ++ (size_field (length payload) ++ payload)))
        × (pending o' ≡ pending o)
  unfolding read_request count_request
  read_request_lem s m o n buf log type payload rest unread h k e p d =
      let n' = (n + 1) % u32_mod in
      let field = size_field (length payload) in
      let (m1, e1, p1, u1) =
        fetch_field client s m o n' buf log unread field (payload ++ rest) h (omega arith)
          (omega arith) e p in
      let (m2, o2, buf2, e2, p2, u2, t2, q2) =
        finish_request_lem l w s m1 o n' buf log type field payload rest h k p1 (omega arith) in
      (m2, o2, buf2, rw (e1, payload_size-size_field (length payload) d, e2), p2, u2 ∙ u1, t2, q2)

  pub relay_request_lem :
      (s : Session N) (m o : N) (n : ℕ) (buf : Text) (log : List Text) (junk : Junk) (type : ℕ)
      (payload rest : Text)
      → is_open s.client_ ≡ true
      → is_open s.server_ ≡ true
      → length junk.size_nbo ≡ 4
      → pending m ≡ message (ltb 0 n) type payload ++ rest
      → length payload + 4 < u32_mod
      → n + 1 < u32_mod
      → (m' o' : N) × (buf' : Text) × (relay_request l junk (at s client m o n buf log) ≡ (
        done true,
        at s client m' o' (n + 1) buf' (if ltb 0 n then logged (type ∷ []) payload log else log),
      ))
        × (pending m' ≡ rest)
        × (sent m' ≡ sent m)
        × (sent o' ≡ sent o ++ message (ltb 0 n) type payload)
        × (pending o' ≡ pending o)
  unfolding relay_request of_bytes
  relay_request_lem s m o zero buf log junk type payload rest h k e p d c =
      read_request_lem s m o 0 buf log (b'0' ∷ []) payload rest (junk.size_nbo, junk.bytes) h k e
        (p ∙ append_assoc (size_field (length payload)) payload rest) d
  relay_request_lem s m o (suc n) buf log junk type payload rest h k e p d c =
      let tagged : ltb 0 (suc n) ≡ true = ground arith in
      let tail = append_assoc (size_field (length payload)) payload rest in
      let (m1, e1, p1, u1) =
        fetch_field client s m o (suc n) buf log (b'0' ∷ [], junk.bytes) (type ∷ [])
          (size_field (length payload) ++ (payload ++ rest)) h (omega arith) (omega arith) refl
          (p ∙ ap (λ x. message x type payload ++ rest) tagged ∙ ap (λ t. type ∷ t) tail) in
      let (m2, o2, buf2, e2, p2, u2, t2, q2) =
        read_request_lem s m1 o (suc n) buf log (type ∷ []) payload rest (junk.size_nbo, 1) h k e p1
          d in
      let fits : (suc n + 1) % u32_mod ≡ suc n + 1 = omega arith in
      let later : ltb 1 ((suc n + 1) % u32_mod) ≡ true = ap (λ x. ltb 1 x) fits ∙ ground arith in
      rw tagged (
        m2,
        o2,
        buf2,
        rw e1 (
            e2
            ∙ ap (λ x. (done true, at s client m2 o2 x buf2 (logged (type ∷ []) payload log)))
                fits),
        p2,
        u2 ∙ u1,
        t2
            ∙ ap
                (λ x.
                  sent o
                  ++ ((if x then type ∷ [] else []) ++ (size_field (length payload) ++ payload)))
                later,
        q2,
      )
