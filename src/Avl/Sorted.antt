-- ===== src/Avl/Sorted.antt =====
-- The abstract view of the tree: a list of values in order, each with its counter.
use cpp_tricks.Prelude.{
  ℕ, ◌-◌, ◌≡◌, refl, ap, ◌≢◌, Bool, true, false, ◌&&◌, List, [], ◌∷◌, ◌++◌, arith, ltb, All,
  All-imp, append-All, if◌then◌else◌,
}
use cpp_tricks.Order.{Less, lt, asym, lt_of_lt_le}
use cpp_tricks.Avl.Node.{inc32}

module _ {K : Type 0} ⦃o : Less K⦄ where
  -- All values of the list are above `v`, or below it.
  abbrev pub AllAbove : K → List (K × ℕ) → Type 0
  AllAbove v xs = All (λ e. lt v e.0 ≡ true) xs

  abbrev pub AllBelow : K → List (K × ℕ) → Type 0
  AllBelow v xs = All (λ e. lt e.0 v ≡ true) xs

  abbrev pub IsSorted : List (K × ℕ) → Type 0
  IsSorted [] = Unit
  IsSorted (x ∷ xs) = AllAbove x.0 xs × IsSorted xs

  -- One more occurrence of `v`.
  unfoldable pub put : K → List (K × ℕ) → List (K × ℕ)
  put v [] = (v, 1) ∷ []
  put v ((w, r) ∷ xs) =
      if lt v w
      then (v, 1) ∷ (w, r) ∷ xs
      else if lt w v
      then (w, r) ∷ put v xs
      else (w, inc32 r) ∷ xs

  -- One occurrence less, or none at all.
  unfoldable pub take_out : K → Bool → List (K × ℕ) → List (K × ℕ)
  take_out v ref [] = []
  take_out v ref ((w, r) ∷ xs) =
      if lt v w
      then (w, r) ∷ xs
      else if lt w v
      then (w, r) ∷ take_out v ref xs
      else if ref && ltb 1 r
      then (w, r - 1) ∷ xs
      else xs

  unfoldable pub count : K → List (K × ℕ) → ℕ
  count v [] = 0
  count v ((w, r) ∷ xs) = if lt v w then 0 else if lt w v then count v xs else r

  Above-trans : (v w : K) (xs : List (K × ℕ)) → lt v w ≡ true → AllAbove w xs → AllAbove v xs
  Above-trans v w xs h = All-imp (λ e k. o.trans v w e.0 h k) xs

  -- The values of a sorted list around one of its entries.
  pub split-IsSorted :
      (xs : List (K × ℕ)) (v : K) (r : ℕ) (ys : List (K × ℕ))
      → IsSorted (xs ++ (v, r) ∷ ys)
      → AllBelow v xs × AllAbove v ys × IsSorted xs × IsSorted ys
  split-IsSorted [] v r ys h = (tt, h.0, tt, h.1)
  split-IsSorted (x ∷ xs) v r ys h =
      let m = split-IsSorted xs v r ys h.1 in
      let p = append-All (λ (e : K × ℕ). lt x.0 e.0 ≡ true) xs ((v, r) ∷ ys) h.0 in
      ((p.1.0, m.0), m.1, (p.0, m.2), m.3)

  pub put-append_lt :
      (v w : K) (r : ℕ) (xs ys : List (K × ℕ))
      → AllBelow w xs
      → lt v w ≡ true
      → put v (xs ++ (w, r) ∷ ys) ≡ put v xs ++ (w, r) ∷ ys
  unfolding put
  put-append_lt v w r [] ys h k = rw k
  put-append_lt v w r ((x, s) ∷ xs) ys h k = ground (arith, put-append_lt v w r xs ys h.1 k)

  pub put-append_ge :
      (v w : K) (r : ℕ) (xs ys : List (K × ℕ))
      → AllBelow w xs
      → lt v w ≡ false
      → put v (xs ++ (w, r) ∷ ys) ≡ xs ++ put v ((w, r) ∷ ys)
  unfolding put
  put-append_ge v w r [] ys h k = refl
  put-append_ge v w r ((x, s) ∷ xs) ys h k =
      let e = lt_of_lt_le x w v h.0 k in
      rw (asym x v e, e) (ap (λ (l : List (K × ℕ)). (x, s) ∷ l) (put-append_ge v w r xs ys h.1 k))

  pub take_out-append_lt :
      (v : K) (ref : Bool) (w : K) (r : ℕ) (xs ys : List (K × ℕ))
      → AllBelow w xs
      → lt v w ≡ true
      → take_out v ref (xs ++ (w, r) ∷ ys) ≡ take_out v ref xs ++ (w, r) ∷ ys
  unfolding take_out
  take_out-append_lt v ref w r [] ys h k = rw k
  take_out-append_lt v ref w r ((x, s) ∷ xs) ys h k =
      ground (arith, take_out-append_lt v ref w r xs ys h.1 k)

  pub take_out-append_ge :
      (v : K) (ref : Bool) (w : K) (r : ℕ) (xs ys : List (K × ℕ))
      → AllBelow w xs
      → lt v w ≡ false
      → take_out v ref (xs ++ (w, r) ∷ ys) ≡ xs ++ take_out v ref ((w, r) ∷ ys)
  unfolding take_out
  take_out-append_ge v ref w r [] ys h k = refl
  take_out-append_ge v ref w r ((x, s) ∷ xs) ys h k =
      let e = lt_of_lt_le x w v h.0 k in
      rw (asym x v e, e)
        (ap (λ (l : List (K × ℕ)). (x, s) ∷ l) (take_out-append_ge v ref w r xs ys h.1 k))

  pub count-append_lt :
      (v w : K) (r : ℕ) (xs ys : List (K × ℕ))
      → lt v w ≡ true
      → count v (xs ++ (w, r) ∷ ys) ≡ count v xs
  unfolding count
  count-append_lt v w r [] ys k = rw k
  count-append_lt v w r ((x, s) ∷ xs) ys k = ground (arith, count-append_lt v w r xs ys k)

  pub count-append_ge :
      (v w : K) (r : ℕ) (xs ys : List (K × ℕ))
      → AllBelow w xs
      → lt v w ≡ false
      → count v (xs ++ (w, r) ∷ ys) ≡ count v ((w, r) ∷ ys)
  unfolding count
  count-append_ge v w r [] ys h k = refl
  count-append_ge v w r ((x, s) ∷ xs) ys h k =
      let e = lt_of_lt_le x w v h.0 k in rw (asym x v e, e) (count-append_ge v w r xs ys h.1 k)

  put-AllAbove :
      (u v : K) (xs : List (K × ℕ)) → lt u v ≡ true → AllAbove u xs → AllAbove u (put v xs)
  unfolding put
  put-AllAbove u v [] h k = (h, tt)
  put-AllAbove u v ((w, r) ∷ xs) h k = ground (arith, put-AllAbove u v xs h k.1)

  -- `put` keeps a list sorted.
  pub put-IsSorted : (v : K) (xs : List (K × ℕ)) → IsSorted xs → IsSorted (put v xs)
  unfolding put
  put-IsSorted v [] h = (tt, tt)
  put-IsSorted v ((w, r) ∷ xs) h =
      ground (arith, put-IsSorted v xs h.1, put-AllAbove w v xs, Above-trans v w xs)

  take_out-AllAbove :
      (u v : K) (ref : Bool) (xs : List (K × ℕ)) → AllAbove u xs → AllAbove u (take_out v ref xs)
  unfolding take_out
  take_out-AllAbove u v ref [] k = tt
  take_out-AllAbove u v ref ((w, r) ∷ xs) k = ground (arith, take_out-AllAbove u v ref xs k.1)

  -- `take_out` keeps a list sorted.
  pub take_out-IsSorted :
      (v : K) (ref : Bool) (xs : List (K × ℕ)) → IsSorted xs → IsSorted (take_out v ref xs)
  unfolding take_out
  take_out-IsSorted v ref [] h = tt
  take_out-IsSorted v ref ((w, r) ∷ xs) h =
      ground (arith, take_out-IsSorted v ref xs h.1, take_out-AllAbove w v ref xs h.0)

  -- A value below a list does not occur in it.
  count_below : (v : K) (xs : List (K × ℕ)) → AllAbove v xs → count v xs ≡ 0
  unfolding count
  count_below v [] h = refl
  count_below v ((w, r) ∷ xs) h = rw h.0

  pub count-put_self : (v : K) (xs : List (K × ℕ)) → count v (put v xs) ≡ inc32 (count v xs)
  unfolding count put
  count-put_self v [] = rw o.irrefl
  count-put_self v ((w, r) ∷ xs) = ground (arith, count-put_self v xs, o.irrefl v)

  pub count-put_ne : (v u : K) (xs : List (K × ℕ)) → u ≢ v → count u (put v xs) ≡ count u xs
  unfolding count put
  count-put_ne v u [] n = ground (arith, o.connex u v)
  count-put_ne v u ((w, r) ∷ xs) n =
      ground (arith, count-put_ne v u xs n, o.connex u v, o.trans u v w, o.connex v w)

  pub count-take_out_self :
      (v : K) (ref : Bool) (xs : List (K × ℕ))
      → IsSorted xs
      → count v (take_out v ref xs) ≡ (if ref then count v xs - 1 else 0)
  unfolding count take_out
  count-take_out_self v true [] h = refl
  count-take_out_self v false [] h = refl
  count-take_out_self v ref ((w, r) ∷ xs) h =
      ground (arith, count-take_out_self v ref xs h.1, count_below w xs h.0, o.connex v w)

  pub count-take_out_ne :
      (v u : K) (ref : Bool) (xs : List (K × ℕ))
      → IsSorted xs
      → u ≢ v
      → count u (take_out v ref xs) ≡ count u xs
  unfolding count take_out
  count-take_out_ne v u ref [] h n = refl
  count-take_out_ne v u ref ((w, r) ∷ xs) h n = ground (
    arith,
    count-take_out_ne v u ref xs h.1 n,
    count_below u xs,
    Above-trans u w xs,
    o.connex u w,
    o.connex v w,
  )
