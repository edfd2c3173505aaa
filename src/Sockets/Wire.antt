-- ===== src/Sockets/Wire.antt =====
-- A connection that holds two texts, for tests.
use cpp_tricks.Prelude.{
  ℕ, zero, suc, ◌≤◌, ◌<◌, ◌≡◌, refl, sym, true, not, [], ◌∷◌, ◌++◌, some, take, drop, length,
  take-append-drop, arith, ltb, if◌then◌else◌,
}
use cpp_tricks.Prelude.Text.{Text, is_empty}
use cpp_tricks.Sockets.{Link}
use cpp_tricks.Sockets.Stream.{IsStream}

-- What is to come, and what has been sent. At most `k` bytes are received at once, and 3 are sent.
abbrev pub Wire : Type 0
Wire = Text × Text

abbrev pub least : ℕ → ℕ → ℕ
least n m = if ltb n m then n else m

abbrev pub wire : ℕ → Link Wire
wire k = record {
  recv = λ n size. (some (take (least size k) n.0), (drop (least size k) n.0, n.1));
  send = λ n b. (some (least (length b) 3), (n.0, n.1 ++ take (least (length b) 3) b));
  select = λ n read write sec. (not (is_empty n.0), n);
  close = λ n. n;
}

pub take_short : (n : ℕ) (s : Text) → length (take n s) ≤ n
take_short zero s = omega arith
take_short (suc n) [] = omega arith
take_short (suc n) (x ∷ s) = omega (arith, take_short n s)

pub take_some : (n : ℕ) (s : Text) → 0 < n → 0 < length s → 0 < length (take n s)
take_some zero s h k = absurd (omega arith)
take_some (suc n) [] h k = absurd (omega arith)
take_some (suc n) (x ∷ s) h k = omega arith

pub long_not_empty : (s : Text) → 0 < length s → not (is_empty s) ≡ true
long_not_empty [] h = absurd (omega arith)
long_not_empty (x ∷ s) h = refl

abbrev pub wire_stream : (k : ℕ) → 0 < k → IsStream (wire k)
wire_stream k h = record {
  pending = λ n. n.0;
  sent = λ n. n.1;
  recv_lem = λ n size g long.
      let c = least size k in
      (
        take c n.0,
        (drop c n.0, n.1),
        refl,
        sym (take-append-drop c n.0),
        take_some c n.0 (ground arith) long,
        ground (arith, take_short c n.0),
        refl,
      );
  send_lem = λ n b. (
    least (length b) 3,
    (n.0, n.1 ++ take (least (length b) 3) b),
    refl,
    ground arith,
    λ g. ground arith,
    refl,
    refl,
  );
  select_lem = λ n read write sec. (refl, refl);
  select_ready = λ n sec long. long_not_empty n.0 long;
}
