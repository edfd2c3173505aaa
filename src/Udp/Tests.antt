-- ===== src/Udp/Tests.antt =====
-- A socket that is the list of its messages.
use cpp_tricks.Prelude.{ℕ, ◌≡◌, refl, true, List, [], ◌∷◌, some, take, length, arith}
use cpp_tricks.Prelude.Int.{pos}
use cpp_tricks.Prelude.Text.{Text, codes}
use cpp_tricks.Udp.{Peeked, again, message, Datagrams, Udp}
use cpp_tricks.Udp.Laws.{IsQueue, receives, refusals, receives_nothing}

abbrev first : ℕ → List (Text × ℕ) → Peeked
first size [] = again
first size ((d, a) ∷ q) = message (take size d) a

abbrev rest : List (Text × ℕ) → List (Text × ℕ)
rest [] = []
rest (x ∷ q) = q

abbrev messages : Datagrams (List (Text × ℕ))
messages = record {
  socket = λ b q. (pos 3, q);
  setsockopt = λ q. (true, q);
  close = λ fd q. q;
  bind = λ fd port q. (true, q);
  inet_pton = λ s. some 1;
  inet_ntop = λ a. codes "127.0.0.1";
  sendto = λ fd b a port q. (some (length b), q);
  peek = λ fd size q. (first size q, q);
  recvfrom = λ fd size q. rest q;
}

are_messages : IsQueue messages
are_messages = record {
  queue = λ q. q;
  peek_none = λ fd size q e. (q, rw e, e);
  peek_first = λ fd size n d a q e. (n, rw e, e);
  recvfrom_lem = λ fd size n d a q e. rw e;
}

abbrev link : Udp
link = record { fd_ = pos 3; port_ = 4555 }

receives_nothing_example :
    (m : List (Text × ℕ)) × (receives messages are_messages link 3 5
        ((codes "no", 1) ∷ (codes "tests", 1) ∷ [])
      ≡ some (refusals messages are_messages link 3, m))
    × (m ≡ (codes "no", 1) ∷ (codes "tests", 1) ∷ [])
unfolding are_messages
receives_nothing_example =
    receives_nothing messages are_messages link 3 5 ((codes "no", 1) ∷ (codes "tests", 1) ∷ [])
      (codes "no") 1 ((codes "tests", 1) ∷ []) refl (omega arith)
