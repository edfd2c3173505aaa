-- ===== src/Avl/Totals.antt =====
-- Numbers of entries and of occurrences, which the counters of the class follow.
use cpp_tricks.Prelude.{
  ℕ, ◌+◌, ◌%◌, ◌≡◌, refl, inl, inr, Bool, true, false, not, ◌&&◌, List, [], ◌∷◌, ◌++◌, length,
  arith, ltb, if◌then◌else◌, Bool-cases,
}
use cpp_tricks.Order.{Less, lt, asym, lt_of_lt_le}
use cpp_tricks.Avl.Node.{Tree, leaf, node, insert, remove, inc32, u32_mod}
use cpp_tricks.Avl.Sorted.{IsSorted, AllBelow, put, take_out, count, split-IsSorted}
use cpp_tricks.Avl.Refine.{entries}

-- The sum of the counters.
unfoldable pub total : {K : Type 0} → List (K × ℕ) → ℕ
total [] = 0
total (x ∷ xs) = x.1 + total xs

module _ {K : Type 0} ⦃o : Less K⦄ where
  -- Does `take_out` remove an entry?
  unfoldable pub goes : K → Bool → List (K × ℕ) → Bool
  goes v ref [] = false
  goes v ref ((w, r) ∷ xs) =
      if lt v w then false else if lt w v then goes v ref xs else not (ref && ltb 1 r)

  pub total-put : (v : K) (xs : List (K × ℕ)) → total (put v xs) % u32_mod ≡ inc32 (total xs)
  unfolding total put
  total-put v [] = refl
  total-put v ((w, r) ∷ xs) = ground (arith, total-put v xs)

  pub length-put :
      (v : K) (xs : List (K × ℕ))
      → length (put v xs) ≡ (if goes v false xs then length xs else length xs + 1)
  unfolding put goes
  length-put v [] = refl
  length-put v ((w, r) ∷ xs) = ground (arith, length-put v xs)

  pub length-take_out :
      (v : K) (ref : Bool) (xs : List (K × ℕ))
      → length (take_out v ref xs) + (if goes v ref xs then 1 else 0) ≡ length xs
  unfolding take_out goes
  length-take_out v ref [] = refl
  length-take_out v ref ((w, r) ∷ xs) = ground (arith, length-take_out v ref xs)

  pub total-take_out_ref :
      (v : K) (xs : List (K × ℕ))
      → total (take_out v true xs) + (if ltb 0 (count v xs) then 1 else 0) ≡ total xs
  unfolding take_out total count
  total-take_out_ref v [] = refl
  total-take_out_ref v ((w, r) ∷ xs) = ground (arith, total-take_out_ref v xs)

  pub total-take_out_all :
      (v : K) (xs : List (K × ℕ)) → total (take_out v false xs) + count v xs ≡ total xs
  unfolding take_out total count
  total-take_out_all v [] = refl
  total-take_out_all v ((w, r) ∷ xs) = ground (arith, total-take_out_all v xs)

  goes-append_lt :
      (v : K) (ref : Bool) (w : K) (r : ℕ) (xs ys : List (K × ℕ))
      → lt v w ≡ true
      → goes v ref (xs ++ (w, r) ∷ ys) ≡ goes v ref xs
  unfolding goes
  goes-append_lt v ref w r [] ys k = rw k
  goes-append_lt v ref w r ((x, s) ∷ xs) ys k = ground (arith, goes-append_lt v ref w r xs ys k)

  goes-append_ge :
      (v : K) (ref : Bool) (w : K) (r : ℕ) (xs ys : List (K × ℕ))
      → AllBelow w xs
      → lt v w ≡ false
      → goes v ref (xs ++ (w, r) ∷ ys) ≡ goes v ref ((w, r) ∷ ys)
  unfolding goes
  goes-append_ge v ref w r [] ys h k = refl
  goes-append_ge v ref w r ((x, s) ∷ xs) ys h k =
      let e = lt_of_lt_le x w v h.0 k in rw (asym x v e, e) (goes-append_ge v ref w r xs ys h.1 k)

  -- `insert` reports whether the value is new.
  pub insert_reports :
      (t : Tree K) (v : K) → IsSorted (entries t) → (insert t v).1 ≡ not (goes v false (entries t))
  unfolding insert goes
  insert_reports leaf v h = refl
  insert_reports (node w d r a b) v h =
      let m = split-IsSorted (entries a) w r (entries b) h in
      let i = insert_reports a v m.2 in
      let j = insert_reports b v m.3 in
      elim (Bool-cases (lt v w)) [
        | inl e ↦ rw (goes-append_lt v false w r (entries a) (entries b) e, e) i
        | inr e ↦
            rw (goes-append_ge v false w r (entries a) (entries b) m.0 e, e)
              (elim (Bool-cases (lt w v)) [ inl f ↦ rw f j | inr f ↦ rw f ])
      ]

  -- `remove` reports whether a node was removed.
  pub remove_reports :
      (t : Tree K) (v : K) (ref : Bool)
      → IsSorted (entries t)
      → (remove t v ref).1 ≡ goes v ref (entries t)
  unfolding remove goes
  remove_reports leaf v ref h = refl
  remove_reports (node w d r a b) v ref h =
      let m = split-IsSorted (entries a) w r (entries b) h in
      let i = remove_reports a v ref m.2 in
      let j = remove_reports b v ref m.3 in
      elim (Bool-cases (lt v w)) [
        | inl e ↦ rw (goes-append_lt v ref w r (entries a) (entries b) e, e) i
        | inr e ↦
            rw (goes-append_ge v ref w r (entries a) (entries b) m.0 e, e)
              (elim (Bool-cases (lt w v)) [
                | inl f ↦ rw f j
                | inr f ↦ rw f (elim (Bool-cases (ref && ltb 1 r)) [ inl g ↦ rw g | inr g ↦ rw g ])
              ])
      ]
