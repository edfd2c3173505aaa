-- ===== src/Avl/Refine.antt =====
-- The tree refines the sorted list of its entries.
use cpp_tricks.Prelude.{
  ℕ, ◌+◌, ◌≡◌, refl, sym, ap, ◌∙◌, inl, inr, Bool, false, ◌&&◌, List, [], ◌∷◌, ◌++◌, append_assoc,
  append-nil, ltb, Bool-cases,
}
use cpp_tricks.Prelude.Int.{pos, negsuc, ltb_ℤ}
use cpp_tricks.Order.{Less, lt}
use cpp_tricks.Avl.Node.{
  Tree, leaf, node, max_depth, balance, rotate_left, rotate_right, remove_left, remove_right,
  balance_remove, insert_left, insert_right, balance_insert, insert, detach, remove, find, min_node,
  least_value,
}
use cpp_tricks.Avl.Sorted.{
  IsSorted, put, take_out, count, split-IsSorted, put-append_lt, put-append_ge, take_out-append_lt,
  take_out-append_ge, count-append_lt, count-append_ge,
}

module _ {K : Type 0} where
  -- In order, from the left.
  abbrev pub entries : Tree K → List (K × ℕ)
  entries leaf = []
  entries (node v d r a b) = entries a ++ ((v, r) ∷ entries b)

  entries-rotate_left : (t : Tree K) → entries (rotate_left t) ≡ entries t
  unfolding rotate_left
  entries-rotate_left leaf = refl
  entries-rotate_left (node v d r a leaf) = refl
  entries-rotate_left (node v d r a (node w e s b c)) = simp append_assoc

  entries-rotate_right : (t : Tree K) → entries (rotate_right t) ≡ entries t
  unfolding rotate_right
  entries-rotate_right leaf = refl
  entries-rotate_right (node v d r leaf b) = refl
  entries-rotate_right (node v d r (node w e s a b) c) = simp append_assoc

  entries-remove_left : (t : Tree K) → entries (remove_left t) ≡ entries t
  unfolding remove_left
  entries-remove_left t = elim (Bool-cases (ltb_ℤ (balance t) (pos 0))) [
    | inl e ↦ rw e (entries-rotate_left t)
    | inr e ↦ rw e
  ]

  entries-remove_right : (t : Tree K) → entries (remove_right t) ≡ entries t
  unfolding remove_right
  entries-remove_right t = elim (Bool-cases (ltb_ℤ (pos 0) (balance t))) [
    | inl e ↦ rw e (entries-rotate_right t)
    | inr e ↦ rw e
  ]

  entries-balance_remove :
      (v : K) (r : ℕ) (a b : Tree K)
      → entries (balance_remove v r a b) ≡ entries a ++ ((v, r) ∷ entries b)
  unfolding balance_remove
  entries-balance_remove v r a b =
      let n = node v (max_depth a b + 1) r a b in
      elim (Bool-cases (ltb_ℤ (pos 1) (balance n))) [
        | inl e ↦ rw e (rw (entries-rotate_right, entries-remove_left))
        | inr e ↦ rw e (elim (Bool-cases (ltb_ℤ (balance n) (negsuc 0))) [
          | inl f ↦ rw f (rw (entries-rotate_left, entries-remove_right))
          | inr f ↦ rw f
        ])
      ]

  -- `min_node` is the first entry.
  entries-min_node :
      (v : K) (d r : ℕ) (a b : Tree K)
      → (rest : List (K × ℕ)) × (entries (node v d r a b) ≡ min_node v r a ∷ rest)
  unfolding min_node
  entries-min_node v d r leaf b = (entries b, refl)
  entries-min_node v d r (node w e s a c) b =
      let (rest, h) = entries-min_node w e s a c in (rest ++ ((v, r) ∷ entries b), rw h)

module _ {K : Type 0} ⦃o : Less K⦄ where
  entries-insert_left : (v : K) (t : Tree K) → entries (insert_left v t) ≡ entries t
  unfolding insert_left
  entries-insert_left v leaf = refl
  entries-insert_left v (node w e s a b) = elim (Bool-cases (lt w v)) [
    | inl h ↦ rw h (entries-rotate_left (node w e s a b))
    | inr h ↦ rw h
  ]

  entries-insert_right : (v : K) (t : Tree K) → entries (insert_right v t) ≡ entries t
  unfolding insert_right
  entries-insert_right v leaf = refl
  entries-insert_right v (node w e s a b) = elim (Bool-cases (lt v w)) [
    | inl h ↦ rw h (entries-rotate_right (node w e s a b))
    | inr h ↦ rw h
  ]

  entries-balance_insert :
      (v w : K) (r : ℕ) (a b : Tree K)
      → entries (balance_insert v w r a b) ≡ entries a ++ ((w, r) ∷ entries b)
  unfolding balance_insert
  entries-balance_insert v w r a b =
      let n = node w (max_depth a b + 1) r a b in
      elim (Bool-cases (ltb_ℤ (pos 1) (balance n))) [
        | inl e ↦ rw e (rw (entries-rotate_right, entries-insert_left))
        | inr e ↦ rw e (elim (Bool-cases (ltb_ℤ (balance n) (negsuc 0))) [
          | inl f ↦ rw f (rw (entries-rotate_left, entries-insert_right))
          | inr f ↦ rw f
        ])
      ]

  -- On a tree whose entries, from left to right, are in strictly increasing order, `insert` adds one
  -- occurrence of the value to them: a new entry at its place in the order, or one more, modulo 2^32,
  -- on the counter of the old entry.
  pub entries-insert :
      (t : Tree K) (v : K) → IsSorted (entries t) → entries (insert t v).0 ≡ put v (entries t)
  unfolding insert put
  entries-insert leaf v h = refl
  entries-insert (node w d r a b) v h =
      let m = split-IsSorted (entries a) w r (entries b) h in
      let i = entries-insert a v m.2 in
      let j = entries-insert b v m.3 in
      elim (Bool-cases (lt v w)) [
        | inl e ↦
            rw (put-append_lt v w r (entries a) (entries b) m.0 e)
              (rw e (rw (entries-balance_insert, i)))
        | inr e ↦ rw (put-append_ge v w r (entries a) (entries b) m.0 e) (
            rw e (elim (Bool-cases (lt w v)) [
              | inl f ↦ rw f (rw (entries-balance_insert, j))
              | inr f ↦ rw f
            ]))
      ]

  -- Without its first entry, a list is what `take_out` leaves of it.
  take_out_head : (e : K × ℕ) (xs : List (K × ℕ)) → take_out e.0 false (e ∷ xs) ≡ xs
  unfolding take_out
  take_out_head (v, r) xs = rw o.irrefl

  entries-detach :
      (w : K) (a b rest : Tree K)
      → entries rest ≡ take_out (least_value w b) false (entries b)
      → entries (detach a b rest) ≡ entries a ++ entries b
  unfolding detach
  entries-detach w leaf leaf rest h = refl
  entries-detach w (node x e s a c) leaf rest h =
      rw (entries-balance_remove x s a c, append-nil (entries a ++ ((x, s) ∷ entries c)))
  entries-detach w leaf (node x e s a c) rest h = entries-balance_remove x s a c
  entries-detach w (node x e s a c) (node y e' t a' c') rest h =
      let n = min_node y t a' in
      let (tail, k) = entries-min_node y e' t a' c' in
      let g : entries rest ≡ tail = h ∙ (ap (take_out n.0 false) k ∙ take_out_head n tail) in
      entries-balance_remove n.0 n.1 (node x e s a c) rest
      ∙ ap (λ (l : List (K × ℕ)). entries (node x e s a c) ++ l)
          (ap (λ (l : List (K × ℕ)). n ∷ l) g ∙ sym k)

  -- On a tree whose entries, from left to right, are in strictly increasing order, `remove` takes the
  -- value out of them and keeps all others: one occurrence if it is to count down and there are more,
  -- and otherwise the whole entry.
  pub entries-remove :
      (t : Tree K) (v : K) (ref : Bool)
      → IsSorted (entries t)
      → entries (remove t v ref).0 ≡ take_out v ref (entries t)
  unfolding remove take_out
  entries-remove leaf v ref h = refl
  entries-remove (node w d r a b) v ref h =
      let m = split-IsSorted (entries a) w r (entries b) h in
      let i = entries-remove a v ref m.2 in
      let j = entries-remove b v ref m.3 in
      let l = entries-remove b (least_value w b) false m.3 in
      elim (Bool-cases (lt v w)) [
        | inl e ↦
            rw (take_out-append_lt v ref w r (entries a) (entries b) m.0 e)
              (rw e (rw (entries-balance_remove, i)))
        | inr e ↦ rw (take_out-append_ge v ref w r (entries a) (entries b) m.0 e) (
            rw e (elim (Bool-cases (lt w v)) [
              | inl f ↦ rw f (rw (entries-balance_remove, j))
              | inr f ↦ rw f (elim (Bool-cases (ref && ltb 1 r)) [
                | inl g ↦ rw g
                | inr g ↦ rw g (entries-detach w a b _ l)
              ])
            ]))
      ]

  -- `find` counts in the entries.
  pub find_refines : (t : Tree K) (v : K) → IsSorted (entries t) → find t v ≡ count v (entries t)
  unfolding find count
  find_refines leaf v h = refl
  find_refines (node w d r a b) v h =
      let m = split-IsSorted (entries a) w r (entries b) h in
      let i = find_refines a v m.2 in
      let j = find_refines b v m.3 in
      elim (Bool-cases (lt v w)) [
        | inl e ↦ rw (count-append_lt v w r (entries a) (entries b) e, e) i
        | inr e ↦
            rw (count-append_ge v w r (entries a) (entries b) m.0 e, e)
              (elim (Bool-cases (lt w v)) [ inl f ↦ rw f j | inr f ↦ rw f ])
      ]
