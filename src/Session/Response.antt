-- ===== src/Session/Response.antt =====
-- A response that is handed on.
use cpp_tricks.Prelude.{
  ℕ, ◌+◌, ◌<◌, ◌≡◌, refl, ap, ◌∙◌, true, List, [], ◌∷◌, ◌++◌, append_assoc, length, arith,
}
use cpp_tricks.Prelude.Text.{Text}
use cpp_tricks.Sockets.{Link, is_open}
use cpp_tricks.Sockets.Stream.{IsStream}
use cpp_tricks.Session.Steps.{done}
use cpp_tricks.Session.Stage.{Session, server, Junk, u32_mod}
use cpp_tricks.Session.Relay.{at}
use cpp_tricks.Session.Forward.{size_field, payload_size-size_field, message, load_lem, send_tagged}
use cpp_tricks.Session.Request.{ReadsFields, fetch_field}
use cpp_tricks.Session.{finish_response, relay_response}

module _ {N : Type 0} (l : Link N) (w : IsStream l) where
  open w use {pending, sent}

  finish_response_lem :
      (s : Session N) (m o : N) (n : ℕ) (buf : Text) (log : List Text)
      (type head payload rest : Text)
      → is_open s.server_ ≡ true
      → is_open s.client_ ≡ true
      → pending m ≡ payload ++ rest
      → length payload < u32_mod
      → (m' o' : N) × (buf' : Text) × (finish_response l type head
            (length payload)
            (at s server m o n buf log)
          ≡ (done true, at s server m' o' n buf' log))
        × (pending m' ≡ rest)
        × (sent m' ≡ sent m)
        × (sent o' ≡ sent o ++ (type ++ (head ++ payload)))
        × (pending o' ≡ pending o)
  unfolding finish_response
  finish_response_lem s m o n buf log type head payload rest h k p d =
      let (m2, buf2, e2, v2, p2, u2) = load_lem l w server s m o n buf log payload rest h p d in
      let (o3, e3, t3, p3) =
        send_tagged l w server s m2 o n buf2 log type head (length payload) k in
      (m2, o3, buf2, rw (e2, e3), p2, u2, t3 ∙ ap (λ t. sent o ++ (type ++ (head ++ t))) v2, p3)

  pub relay_response_lem :
      (s : Session N) (m o : N) (n : ℕ) (buf : Text) (log : List Text) (junk : Junk) (type : ℕ)
      (payload rest : Text)
      → ReadsFields l w
      → is_open s.server_ ≡ true
      → is_open s.client_ ≡ true
      → length junk.size_nbo ≡ 4
      → pending m ≡ message true type payload ++ rest
      → length payload + 4 < u32_mod
      → (m' o' : N) × (buf' : Text) × (relay_response l junk (at s server m o n buf log)
          ≡ (done true, at s server m' o' n buf' log))
        × (pending m' ≡ rest)
        × (sent m' ≡ sent m)
        × (sent o' ≡ sent o ++ message true type payload)
        × (pending o' ≡ pending o)
  unfolding relay_response
  relay_response_lem s m o n buf log junk type payload rest whole h k e p d =
      let field = size_field (length payload) in
      let tail = append_assoc field payload rest in
      let (m1, e1, p1, u1) =
        fetch_field l w whole server s m o n buf log (junk.type ∷ [], junk.bytes) (type ∷ [])
          (field ++ (payload ++ rest)) h (omega arith) (omega arith) refl
          (p ∙ ap (λ t. type ∷ t) tail) in
      let (m2, e2, p2, u2) =
        fetch_field l w whole server s m1 o n buf log (junk.size_nbo, 1) field (payload ++ rest) h
          (omega arith) (omega arith) e p1 in
      let (m3, o3, buf3, e3, p3, u3, t3, q3) =
        finish_response_lem s m2 o n buf log (type ∷ []) field payload rest h k p2 (omega arith) in
      (
        m3,
        o3,
        buf3,
        rw (e1, e2, payload_size-size_field (length payload) d, e3),
        p3,
        u3 ∙ u2 ∙ u1,
        t3,
        q3,
      )
