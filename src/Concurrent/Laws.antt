-- ===== src/Concurrent/Laws.antt =====
-- What the two atomic variables guarantee, and what they do not.
use cpp_tricks.Prelude.{
  ℕ, ◌+◌, ◌≤◌, ◌≡◌, sym, ◌∙◌, ◌≢◌, Bool, true, false, arith, set, one_if, count_if, count_if-set,
  get_elem?-set_self, get_elem?-set_ne,
}
use cpp_tricks.Concurrent.{
  Place, outside, checking, counting, reading, claiming, draining, writing, written, Container, go,
  IsAt, Step, call_get, see_no_writer, count_in, count_out, call_set, claim, see_no_readers, store,
  release_write, Reach, here, next,
}

-- Holds the read lock.
abbrev pub reads : {T : Type 0} → Place T → Bool
reads reading = true
reads p = false

-- Holds the write flag.
abbrev pub owns : {T : Type 0} → Place T → Bool
owns (draining v) = true
owns (writing v) = true
owns written = true
owns p = false

module _ {T : Type 0} where
  pub record IsValid (s : Container T) : Type 0 where
    pub counted : s.readers_ ≡ count_if reads s.threads
    pub owned : one_if s.write_flag_ ≡ count_if owns s.threads

  Step-IsValid : {s t : Container T} → Step s t → IsValid s → IsValid t
  Step-IsValid {s} (call_get i h) v =
      let r = count_if-set reads s.threads i checking h in
      let w = count_if-set owns s.threads i checking h in
      record { counted = omega arith; owned = omega arith }
  Step-IsValid {s} (see_no_writer i h f) v =
      let r = count_if-set reads s.threads i counting h in
      let w = count_if-set owns s.threads i counting h in
      record { counted = omega arith; owned = omega arith }
  Step-IsValid {s} (count_in i h) v =
      let r = count_if-set reads s.threads i reading h in
      let w = count_if-set owns s.threads i reading h in
      record { counted = omega arith; owned = omega arith }
  Step-IsValid {s} (count_out i h) v =
      let r = count_if-set reads s.threads i outside h in
      let w = count_if-set owns s.threads i outside h in
      record { counted = omega arith; owned = omega arith }
  Step-IsValid {s} (call_set i x h) v =
      let r = count_if-set reads s.threads i (claiming x) h in
      let w = count_if-set owns s.threads i (claiming x) h in
      record { counted = omega arith; owned = omega arith }
  Step-IsValid {s} (claim i x h f) v =
      let r = count_if-set reads s.threads i (draining x) h in
      let w = count_if-set owns s.threads i (draining x) h in
      record { counted = omega arith; owned = let o = rw f at v.owned in omega arith }
  Step-IsValid {s} (see_no_readers i x h z) v =
      let r = count_if-set reads s.threads i (writing x) h in
      let w = count_if-set owns s.threads i (writing x) h in
      record { counted = omega arith; owned = omega arith }
  Step-IsValid {s} (store i x h) v =
      let r = count_if-set reads s.threads i written h in
      let w = count_if-set owns s.threads i written h in
      record { counted = omega arith; owned = omega arith }
  Step-IsValid {s} (release_write i h) v =
      let r = count_if-set reads s.threads i outside h in
      let w = count_if-set owns s.threads i outside h in
      record { counted = omega arith; owned = ground arith }

  -- In every state that a valid one leads to, `readers_` is the number of threads that hold the read
  -- lock, at most one thread holds the write flag, and the flag is up exactly when one does.
  pub Reach-IsValid :
      (s t : Container T)
      → IsValid s
      → Reach s t
      → (t.readers_ ≡ count_if reads t.threads)
        × (count_if owns t.threads ≤ 1)
        × (one_if t.write_flag_ ≡ count_if owns t.threads)
  Reach-IsValid s t v r = let w = along r in (w.counted, bound t.write_flag_ _ w.owned, w.owned)
    where
      along : {u : Container T} → Reach s u → IsValid u
      along here = v
      along (next p q) = Step-IsValid q (along p)

      bound : (b : Bool) (n : ℕ) → one_if b ≡ n → n ≤ 1
      bound true n h = omega arith
      bound false n h = omega arith

  -- The locks do not exclude one another: a reader counts itself in after it saw the flag down, and in
  -- between a writer can raise the flag and see no reader. From every state with the flag down, no
  -- readers and two threads in neither method, one thread can come to read while the other writes any value.
  pub reader_meets_writer :
      (s : Container T) (i j : ℕ) (v : T)
      → i ≢ j
      → IsAt s i outside
      → IsAt s j outside
      → s.write_flag_ ≡ false
      → s.readers_ ≡ 0
      → (t : Container T) × Reach s t × IsAt t i reading × IsAt t j (writing v)
  reader_meets_writer s i j v n hi hj f z =
      let s₁ = go s i checking in
      let a₁ = get_elem?-set_self s.threads i checking hi in
      let b₁ = get_elem?-set_ne s.threads checking n ∙ hj in
      let s₂ = go s₁ i counting in
      let a₂ = get_elem?-set_self s₁.threads i counting a₁ in
      let b₂ = get_elem?-set_ne s₁.threads counting n ∙ b₁ in
      let s₃ = go s₂ j (claiming v) in
      let a₃ = get_elem?-set_ne s₂.threads (claiming v) m ∙ a₂ in
      let b₃ = get_elem?-set_self s₂.threads j (claiming v) b₂ in
      let ts₄ = set s₃.threads j (draining v) in
      let a₄ = get_elem?-set_ne s₃.threads (draining v) m ∙ a₃ in
      let b₄ = get_elem?-set_self s₃.threads j (draining v) b₃ in
      let ts₅ = set ts₄ j (writing v) in
      let a₅ = get_elem?-set_ne ts₄ (writing v) m ∙ a₄ in
      let b₅ = get_elem?-set_self ts₄ j (writing v) b₄ in
      let ts₆ = set ts₅ i reading in
      (
        record s { write_flag_ = true; readers_ = s.readers_ + 1; threads = ts₆ },
        next
            (next
              (next
                (next (next (next here (call_get i hi)) (see_no_writer i a₁ f)) (call_set j v b₂))
                (claim j v b₃ f))
              (see_no_readers j v b₄ z))
            (count_in i a₅),
        get_elem?-set_self ts₅ i reading a₅,
        get_elem?-set_ne ts₅ reading n ∙ b₅,
      )
    where
      m : j ≢ i
      m e = n (sym e)
