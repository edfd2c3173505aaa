-- ===== src/Concurrent/Tests.antt =====
-- The theorems on the container at concrete states.
use cpp_tricks.Prelude.{ℕ, ◌≤◌, ◌≡◌, refl, false, [], ◌∷◌, one_if, count_if, arith}
use cpp_tricks.Concurrent.{
  Container, outside, reading, writing, checking, IsAt, Reach, here, next, call_get, go,
}
use cpp_tricks.Concurrent.Laws.{reads, owns, Reach-IsValid, reader_meets_writer}

-- `ConcurrentContainer<int> cc( 5 )`, with two threads.
abbrev fresh : Container ℕ
fresh = record { data_ = 5; readers_ = 0; write_flag_ = false; threads = outside ∷ outside ∷ [] }

Reach-IsValid_example :
    let t = go fresh 0 checking in
    (t.readers_ ≡ count_if reads t.threads)
    × (count_if owns t.threads ≤ 1)
    × (one_if t.write_flag_ ≡ count_if owns t.threads)
Reach-IsValid_example =
    Reach-IsValid fresh (go fresh 0 checking) (record { counted = refl; owned = refl })
      (next here (call_get 0 refl))

reader_meets_writer_example :
    (t : Container ℕ) × Reach fresh t × IsAt t 0 reading × IsAt t 1 (writing 7)
reader_meets_writer_example = reader_meets_writer fresh 0 1 7 (omega arith) refl refl refl refl
