-- ===== src/Average/Laws.antt =====
-- What the window holds, and what `get` makes of it.
use cpp_tricks.Prelude.{
  ℕ, suc, ◌+◌, ◌-◌, ◌/◌, ◌%◌, ◌^◌, ◌≤◌, ◌<◌, ◌≡◌, refl, ap, ◌∙◌, List, [], ◌∷◌, ◌++◌, some,
  Bool-cases, inl, inr, arith, length, length-append, drop, length-drop, ltb, append_assoc,
  append-nil,
}
use native.Mathlib.Nat.{div-le_self}
use cpp_tricks.Average.{
  Average, new, put, pop_front, slide, divisor, quotient, sum_unsigned, get_unsigned,
}

module _ {T : Type 0} where
  -- The samples after each other.
  unfoldable pub put_all : Average T → List T → Average T
  put_all s [] = s
  put_all s (v ∷ vs) = put_all (put s v) vs

  drop_front :
      (k : ℕ) (xs : List T) (v : T) (vs : List T)
      → drop k (pop_front (xs ++ (v ∷ [])) ++ vs) ≡ drop (suc k) (xs ++ (v ∷ vs))
  unfolding pop_front
  drop_front k [] v vs = refl
  drop_front k (x ∷ xs) v vs = ap (drop k) (append_assoc xs (v ∷ []) vs)

  length-pop_front : (xs : List T) (v : T) → length (pop_front (xs ++ (v ∷ []))) ≡ length xs
  unfolding pop_front
  length-pop_front [] v = refl
  length-pop_front (x ∷ xs) v = omega (arith, length-append xs (v ∷ []))

  slide_cases :
      (w : ℕ) (xs : List T) (v : T) (vs : List T)
      → length xs ≤ w
      → let ys = slide w (xs ++ (v ∷ [])) in
        (length ys ≤ w)
        × (drop (length ys + length vs - w) (ys ++ vs)
            ≡ drop (length xs + suc (length vs) - w) (xs ++ (v ∷ vs)))
  unfolding slide
  slide_cases w xs v vs h =
      let n = length-append xs (v ∷ []) in
      let p = length-pop_front xs v in
      elim (Bool-cases (ltb w (length (xs ++ (v ∷ []))))) [
        | inl e ↦
            let full : length xs ≡ w = ground (arith, n) in
            let q : length (pop_front (xs ++ (v ∷ []))) + length vs - w ≡ length vs =
              omega (arith, p) in
            let q' : suc (length vs) ≡ length xs + suc (length vs) - w = omega arith in
            rw e (
              omega (arith, p),
              ap (λ k. drop k (pop_front (xs ++ (v ∷ [])) ++ vs)) q
                  ∙ drop_front (length vs) xs v vs
                  ∙ ap (λ k. drop k (xs ++ (v ∷ vs))) q',
            )
        | inr e ↦
            let q : length (xs ++ (v ∷ [])) + length vs - w ≡ length xs + suc (length vs) - w =
              omega (arith, n) in
            rw e (
              ground arith,
              ap (λ k. drop k ((xs ++ (v ∷ [])) ++ vs)) q
                  ∙ ap (drop (length xs + suc (length vs) - w)) (append_assoc xs (v ∷ []) vs),
            )
      ]

  items-put_all :
      (s : Average T) (vs : List T)
      → length s.items_ ≤ s.window_size_
      → (put_all s vs).items_ ≡ drop (length s.items_ + length vs - s.window_size_) (s.items_ ++ vs)
  unfolding put_all put
  items-put_all s [] h =
      let q : length s.items_ + 0 - s.window_size_ ≡ 0 = omega arith in rw (q, append-nil)
  items-put_all s (v ∷ vs) h =
      let c = slide_cases s.window_size_ s.items_ v vs h in items-put_all (put s v) vs c.0 ∙ c.1

  -- After any samples, put into a new average one after another, the window holds the latest of them,
  -- in their order: as many as its size, or all where there are fewer.
  pub window_lem : (w : ℕ) (vs : List T) → (put_all (new w) vs).items_ ≡ drop (length vs - w) vs
  unfolding new
  window_lem w vs =
      let q : 0 + length vs - w ≡ length vs - w = omega arith in
      items-put_all (new w) vs (omega arith) ∙ ap (λ k. drop k vs) q

  window_size-put_all : (s : Average T) (vs : List T) → (put_all s vs).window_size_ ≡ s.window_size_
  unfolding put_all put
  window_size-put_all s [] = refl
  window_size-put_all s (v ∷ vs) = window_size-put_all (put s v) vs

-- The sum, without wrap-around.
abbrev pub sum : List ℕ → ℕ
sum [] = 0
sum (x ∷ xs) = x + sum xs

sum_unsigned_lem :
    (ret : ℕ) (xs : List ℕ) → ret + sum xs < 2 ^ 32 → sum_unsigned ret xs ≡ ret + sum xs
unfolding sum_unsigned
sum_unsigned_lem ret [] h = omega arith
sum_unsigned_lem ret (x ∷ xs) h =
    let q : (ret + x) % 2 ^ 32 ≡ ret + x = omega arith in
    rw q (omega (arith, sum_unsigned_lem (ret + x) xs (omega arith)))

-- The divisor is the number of samples in a window that is not empty.
divisor_lem :
    (s : Average ℕ)
    → 0 < length s.items_
    → length s.items_ ≤ s.window_size_
    → divisor s ≡ length s.items_
unfolding divisor
divisor_lem s h k = ground arith

quotient_lem : (n ret : ℕ) → 0 < n → ret < 2 ^ 32 → quotient n ret ≡ some (ret / n)
unfolding quotient
quotient_lem n ret h k = ground (arith, div-le_self ret n)

-- After at least one sample, `get` for `unsigned` is the mean, rounded down, of the latest samples: of
-- as many as the window's size, or of all where there are fewer. The window's size must not be 0, and
-- the sum of these samples must stay below 2^32.
pub get_unsigned_lem :
    (w : ℕ) (vs : List ℕ)
    → 0 < w
    → 0 < length vs
    → sum (drop (length vs - w) vs) < 2 ^ 32
    → get_unsigned (put_all (new w) vs)
      ≡ some (sum (drop (length vs - w) vs) / length (drop (length vs - w) vs))
unfolding get_unsigned new
get_unsigned_lem w vs h k b =
    let t = put_all (new w) vs in
    let xs = drop (length vs - w) vs in
    let i : t.items_ ≡ xs = window_lem w vs in
    let z : t.window_size_ ≡ w = window_size-put_all (new w) vs in
    let n : length xs ≡ length vs - (length vs - w) = length-drop (length vs - w) vs in
    let m : length t.items_ ≡ length xs = ap length i in
    let d : divisor t ≡ length xs =
      divisor_lem t (omega (arith, m, n)) (omega (arith, m, n, z)) ∙ m in
    let u : sum_unsigned 0 t.items_ ≡ sum xs =
      ap (sum_unsigned 0) i ∙ sum_unsigned_lem 0 xs (omega arith) ∙ omega arith in
    ap (λ k. quotient k (sum_unsigned 0 t.items_)) d
    ∙ ap (quotient (length xs)) u
    ∙ quotient_lem (length xs) (sum xs) (omega (arith, n)) b
