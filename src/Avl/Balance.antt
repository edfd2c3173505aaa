-- ===== src/Avl/Balance.antt =====
-- `insert` and `remove` keep the tree balanced, and its depth fields exact.
use native.Mathlib.Decide.{dec_lt}
use cpp_tricks.Prelude.{
  ℕ, ◌+◌, ◌≤◌, ◌<◌, ◌≡◌, refl, ◌⊎◌, inl, inr, Bool, true, false, ◌&&◌, arith, ltb, lt→ltb, le→ltb,
  Bool-cases,
}
use cpp_tricks.Order.{Less, lt, asym}
use cpp_tricks.Avl.Node.{
  Tree, leaf, node, depth_of, max_depth, settle, rotate_left, rotate_right, remove_left,
  remove_right, balance_remove, insert_left, insert_right, balance_insert, insert, detach, remove,
  min_node, least_value,
}
use cpp_tricks.Avl.Rotation.{
  IsAvl, IsEven, TurnedLeft, TurnedRight, max_depth_lem, left_test, right_test, remove_even,
  remove_leans_left, remove_leans_right, rotate_right-Rotated, rotate_left-Rotated,
  remove_left-TurnedLeft, remove_right-TurnedRight,
}

depth_cases :
    (m n : ℕ) → m ≤ n + 2 → n ≤ m + 2 → (m ≡ n + 2) ⊎ ((n ≡ m + 2) ⊎ (m ≤ n + 1) × (n ≤ m + 1))
depth_cases m n h k = grind arith

module _ {K : Type 0} where
  -- The balance check of a removal, for children that differ by two at most.
  balance_remove-IsAvl :
      (v : K) (r : ℕ) (a b : Tree K)
      → IsAvl a
      → IsAvl b
      → depth_of a ≤ depth_of b + 2
      → depth_of b ≤ depth_of a + 2
      → let t = balance_remove v r a b in
        IsAvl t
        × (depth_of t ≤ max_depth a b + 1)
        × (max_depth a b ≤ depth_of t)
        × ((depth_of t ≡ max_depth a b + 1)
            ⊎ ((depth_of a ≡ depth_of b + 2) ⊎ (depth_of b ≡ depth_of a + 2)))
  balance_remove-IsAvl v r a b p q h k = elim (depth_cases (depth_of a) (depth_of b) h k) [
    | inl e ↦
        let m =
          rotate_right-Rotated v (max_depth a b + 1) r a (remove_left a) b p q e
            (remove_left-TurnedLeft a p (omega arith)) in
        rw (remove_leans_left v r a b e) (
          m.0,
          omega (arith, max_depth_lem a b, m.1),
          omega (arith, max_depth_lem a b, m.2),
          inr (inl e),
        )
    | inr (inl e) ↦
        let m =
          rotate_left-Rotated v (max_depth a b + 1) r b (remove_right b) a q p e
            (remove_right-TurnedRight b q (omega arith)) in
        rw (remove_leans_right v r a b e) (
          m.0,
          omega (arith, max_depth_lem a b, m.1),
          omega (arith, max_depth_lem a b, m.2),
          inr (inr e),
        )
    | inr (inr e) ↦
        rw (remove_even v r a b e.0 e.1)
          ((refl, e.0, e.1, p, q), omega arith, omega arith, inl refl)
  ]

  detach-IsAvl :
      (w : K) (d r : ℕ) (a b rest : Tree K)
      → IsAvl (node w d r a b)
      → IsAvl rest
      → depth_of rest ≤ depth_of b
      → depth_of b ≤ depth_of rest + 1
      → let t = detach a b rest in IsAvl t × (depth_of t ≤ d) × (d ≤ depth_of t + 1)
  unfolding detach
  detach-IsAvl w d r leaf leaf rest p q h k =
      (tt, omega (arith, max_depth_lem), omega (arith, max_depth_lem))
  detach-IsAvl w d r (node x e s a c) leaf rest p q h k =
      let m = balance_remove-IsAvl x s a c p.3.3 p.3.4 (omega arith) (omega arith) in
      (m.0, omega (arith, max_depth_lem), omega (arith, max_depth_lem))
  detach-IsAvl w d r leaf (node x e s a c) rest p q h k =
      let m = balance_remove-IsAvl x s a c p.4.3 p.4.4 (omega arith) (omega arith) in
      (m.0, omega (arith, max_depth_lem), omega (arith, max_depth_lem))
  detach-IsAvl w d r (node x e s a c) (node y e' t a' c') rest p q h k =
      let n = min_node y t a' in
      let m =
        balance_remove-IsAvl n.0 n.1 (node x e s a c) rest p.3 q (omega arith) (omega arith) in
      let f = m.3 in (m.0, omega (arith, max_depth_lem), omega (arith, max_depth_lem))

  -- A child that lost at most one level.
  shrink_left-IsAvl :
      (w : K) (d r : ℕ) (a b a' : Tree K)
      → IsAvl (node w d r a b)
      → IsAvl a'
      → depth_of a' ≤ depth_of a
      → depth_of a ≤ depth_of a' + 1
      → let t = balance_remove w r a' b in IsAvl t × (depth_of t ≤ d) × (d ≤ depth_of t + 1)
  shrink_left-IsAvl w d r a b a' p q h k =
      let m = balance_remove-IsAvl w r a' b q p.4 (omega arith) (omega arith) in
      let f = m.3 in (m.0, omega (arith, max_depth_lem), omega (arith, max_depth_lem))

  shrink_right-IsAvl :
      (w : K) (d r : ℕ) (a b b' : Tree K)
      → IsAvl (node w d r a b)
      → IsAvl b'
      → depth_of b' ≤ depth_of b
      → depth_of b ≤ depth_of b' + 1
      → let t = balance_remove w r a b' in IsAvl t × (depth_of t ≤ d) × (d ≤ depth_of t + 1)
  shrink_right-IsAvl w d r a b b' p q h k =
      let m = balance_remove-IsAvl w r a b' p.3 q (omega arith) (omega arith) in
      let f = m.3 in (m.0, omega (arith, max_depth_lem), omega (arith, max_depth_lem))

module _ {K : Type 0} ⦃o : Less K⦄ where
  -- On a balanced tree with exact depths `remove`, with or without counting down, returns a balanced
  -- tree with exact depths, which is as deep or one level less.
  pub remove-IsAvl :
      (t : Tree K) (v : K) (ref : Bool)
      → IsAvl t
      → let u = (remove t v ref).0 in
        IsAvl u × (depth_of u ≤ depth_of t) × (depth_of t ≤ depth_of u + 1)
  unfolding remove
  remove-IsAvl leaf v ref p = (tt, omega arith, omega arith)
  remove-IsAvl (node w d r a b) v ref p =
      let i = remove-IsAvl a v ref p.3 in
      let j = remove-IsAvl b v ref p.4 in
      let l = remove-IsAvl b (least_value w b) false p.4 in
      elim (Bool-cases (lt v w)) [
        | inl e ↦ rw e (shrink_left-IsAvl w d r a b _ p i.0 i.1 i.2)
        | inr e ↦ rw e (elim (Bool-cases (lt w v)) [
          | inl f ↦ rw f (shrink_right-IsAvl w d r a b _ p j.0 j.1 j.2)
          | inr f ↦ rw f (elim (Bool-cases (ref && ltb 1 r)) [
            | inl g ↦ rw g (p, omega arith, omega arith)
            | inr g ↦ rw g (detach-IsAvl w d r a b _ p l.0 l.1 l.2)
          ])
        ])
      ]

  -- Where an insertion made a tree higher: the value went to the deeper side of the root.
  Leans : K → Tree K → Type 0
  Leans v leaf = ⊥
  Leans v (node x e s a b) =
      (lt v x ≡ true) × (depth_of a ≡ depth_of b + 1)
      ⊎ ((lt x v ≡ true) × (depth_of b ≡ depth_of a + 1) ⊎ (depth_of a ≡ 0) × (depth_of b ≡ 0))

  insert_even :
      (v w : K) (r : ℕ) (a b : Tree K)
      → depth_of a ≤ depth_of b + 1
      → depth_of b ≤ depth_of a + 1
      → balance_insert v w r a b ≡ settle w r a b
  unfolding balance_insert
  insert_even v w r a b h k = rw (left_test, right_test, le→ltb _ _ h, le→ltb _ _ k)

  insert_leans_left :
      (v w : K) (r : ℕ) (a b : Tree K)
      → depth_of a ≡ depth_of b + 2
      → balance_insert v w r a b ≡ rotate_right (node w (max_depth a b + 1) r (insert_left v a) b)
  unfolding balance_insert
  insert_leans_left v w r a b h = rw (left_test, lt→ltb (depth_of b + 1) (depth_of a) (omega arith))

  insert_leans_right :
      (v w : K) (r : ℕ) (a b : Tree K)
      → depth_of b ≡ depth_of a + 2
      → balance_insert v w r a b ≡ rotate_left (node w (max_depth a b + 1) r a (insert_right v b))
  unfolding balance_insert
  insert_leans_right v w r a b h = rw (
    left_test,
    right_test,
    le→ltb (depth_of a) (depth_of b + 1) (omega arith),
    lt→ltb (depth_of a + 1) (depth_of b) (omega arith),
  )

  -- A child that leans is turned the right way, and is not even.
  insert_left-TurnedLeft :
      (v : K) (a : Tree K)
      → IsAvl a
      → 1 < depth_of a
      → Leans v a
      → TurnedLeft a (insert_left v a) × ¬ IsEven a
  unfolding insert_left Leans
  insert_left-TurnedLeft v leaf p h l = elim l [ ]
  insert_left-TurnedLeft v (node x e s a c) p h (inl l) =
      (inl (rw (asym v x l.0), omega arith), omega arith)
  insert_left-TurnedLeft v (node x e s a c) p h (inr (inl l)) =
      (inr (rw l.0, omega arith), omega arith)
  insert_left-TurnedLeft v (node x e s a c) p h (inr (inr l)) =
      absurd (omega (arith, max_depth_lem a c))

  insert_right-TurnedRight :
      (v : K) (b : Tree K)
      → IsAvl b
      → 1 < depth_of b
      → Leans v b
      → TurnedRight b (insert_right v b) × ¬ IsEven b
  unfolding insert_right Leans
  insert_right-TurnedRight v leaf p h l = elim l [ ]
  insert_right-TurnedRight v (node x e s c b) p h (inl l) = (inr (rw l.0, omega arith), omega arith)
  insert_right-TurnedRight v (node x e s c b) p h (inr (inl l)) =
      (inl (rw (asym x v l.0), omega arith), omega arith)
  insert_right-TurnedRight v (node x e s c b) p h (inr (inr l)) =
      absurd (omega (arith, max_depth_lem c b))

  -- A child that grew by at most one level.
  grow_left-IsAvl :
      (v w : K) (d r : ℕ) (a b a' : Tree K)
      → lt v w ≡ true
      → IsAvl (node w d r a b)
      → IsAvl a'
      → depth_of a ≤ depth_of a'
      → depth_of a' ≤ depth_of a + 1
      → (depth_of a' ≡ depth_of a + 1 → Leans v a')
      → let t = balance_insert v w r a' b in
        IsAvl t × (d ≤ depth_of t) × (depth_of t ≤ d + 1) × (depth_of t ≡ d + 1 → Leans v t)
  unfolding Leans
  grow_left-IsAvl v w d r a b a' e p q h k l = elim (dec_lt (depth_of b + 1) (depth_of a')) [
    | yes f ↦
        let t = insert_left-TurnedLeft v a' q (omega arith) (l (omega arith)) in
        let m =
          rotate_right-Rotated w (max_depth a' b + 1) r a' (insert_left v a') b q p.4 (omega arith)
            t.0 in
        rw (insert_leans_left v w r a' b (omega arith)) (
          m.0,
          omega (arith, max_depth_lem a b, m.2),
          omega (arith, max_depth_lem a b, m.1),
          elim m.3 [
            | inl g ↦ λ x. absurd (omega (arith, max_depth_lem a b))
            | inr g ↦ absurd (t.1 g)
          ],
        )
    | no f ↦ rw (insert_even v w r a' b (omega arith) (omega arith)) (
      (refl, omega arith, omega arith, q, p.4),
      omega (arith, max_depth_lem),
      omega (arith, max_depth_lem),
      λ x. inl (e, omega (arith, max_depth_lem)),
    )
  ]

  grow_right-IsAvl :
      (v w : K) (d r : ℕ) (a b b' : Tree K)
      → lt w v ≡ true
      → IsAvl (node w d r a b)
      → IsAvl b'
      → depth_of b ≤ depth_of b'
      → depth_of b' ≤ depth_of b + 1
      → (depth_of b' ≡ depth_of b + 1 → Leans v b')
      → let t = balance_insert v w r a b' in
        IsAvl t × (d ≤ depth_of t) × (depth_of t ≤ d + 1) × (depth_of t ≡ d + 1 → Leans v t)
  unfolding Leans
  grow_right-IsAvl v w d r a b b' e p q h k l = elim (dec_lt (depth_of a + 1) (depth_of b')) [
    | yes f ↦
        let t = insert_right-TurnedRight v b' q (omega arith) (l (omega arith)) in
        let m =
          rotate_left-Rotated w (max_depth a b' + 1) r b' (insert_right v b') a q p.3 (omega arith)
            t.0 in
        rw (insert_leans_right v w r a b' (omega arith)) (
          m.0,
          omega (arith, max_depth_lem a b, m.2),
          omega (arith, max_depth_lem a b, m.1),
          elim m.3 [
            | inl g ↦ λ x. absurd (omega (arith, max_depth_lem a b))
            | inr g ↦ absurd (t.1 g)
          ],
        )
    | no f ↦ rw (insert_even v w r a b' (omega arith) (omega arith)) (
      (refl, omega arith, omega arith, p.3, q),
      omega (arith, max_depth_lem),
      omega (arith, max_depth_lem),
      λ x. inr (inl (e, omega (arith, max_depth_lem))),
    )
  ]

  insert_grows :
      (t : Tree K) (v : K)
      → IsAvl t
      → let u = (insert t v).0 in
        IsAvl u
        × (depth_of t ≤ depth_of u)
        × (depth_of u ≤ depth_of t + 1)
        × (depth_of u ≡ depth_of t + 1 → Leans v u)
  unfolding insert Leans
  insert_grows leaf v p = (
    (omega (arith, max_depth_lem {K = K} leaf leaf), omega arith, omega arith, tt, tt),
    omega arith,
    omega arith,
    λ x. inr (inr (refl, refl)),
  )
  insert_grows (node w d r a b) v p =
      let i = insert_grows a v p.3 in
      let j = insert_grows b v p.4 in
      elim (Bool-cases (lt v w)) [
        | inl e ↦ rw e (grow_left-IsAvl v w d r a b _ e p i.0 i.1 i.2 i.3)
        | inr e ↦ rw e (elim (Bool-cases (lt w v)) [
          | inl f ↦ rw f (grow_right-IsAvl v w d r a b _ f p j.0 j.1 j.2 j.3)
          | inr f ↦ rw f (p, omega arith, omega arith, λ x. absurd (omega arith))
        ])
      ]

  -- On a balanced tree with exact depths `insert` returns a balanced tree with exact depths, which is
  -- as deep or one level more.
  pub insert-IsAvl :
      (t : Tree K) (v : K)
      → IsAvl t
      → let u = (insert t v).0 in
        IsAvl u × (depth_of t ≤ depth_of u) × (depth_of u ≤ depth_of t + 1)
  insert-IsAvl t v p = let m = insert_grows t v p in (m.0, m.1, m.2)
