-- ===== src/Avl/Rotation.antt =====
-- The balance of the tree: the depth fields are exact, and two siblings differ by one at most.
use Prim.Native.Nat.{max}
use native.Mathlib.Decide.{dec_lt}
use cpp_tricks.Prelude.{refl, ℕ, ◌+◌, ◌≤◌, ◌<◌, ◌≡◌, ◌⊎◌, inl, inr, arith, ltb, lt→ltb, le→ltb}
use cpp_tricks.Prelude.Int.{pos, negsuc, ltb_ℤ}
use cpp_tricks.Avl.Node.{
  Tree, leaf, node, depth_of, max_depth, settle, rotate_left, rotate_right, remove_left,
  remove_right, balance_remove, balance,
}

module _ {K : Type 0} where
  abbrev pub IsAvl : Tree K → Type 0
  IsAvl leaf = Unit
  IsAvl (node v d r a b) =
      (d ≡ max_depth a b + 1)
      × (depth_of a ≤ depth_of b + 1)
      × (depth_of b ≤ depth_of a + 1)
      × IsAvl a
      × IsAvl b

  -- What a balance check makes of two children that differ by two at most.
  abbrev pub Settled : Tree K → Tree K → Tree K → Type 0
  Settled a b t = IsAvl t × (depth_of t ≤ max_depth a b + 1) × (max_depth a b ≤ depth_of t)

  pub max_depth_lem : (a b : Tree K) → max_depth a b ≡ max (depth_of a) (depth_of b)
  unfolding max_depth
  max_depth_lem a b = ground arith

  -- The two tests on `balance`, in terms of the depths.
  pub left_test :
      (v : K) (d r : ℕ) (a b : Tree K)
      → ltb_ℤ (pos 1) (balance (node v (d + 1) r a b)) ≡ ltb (depth_of b + 1) (depth_of a)
  unfolding balance
  left_test v d r a b = ground arith

  pub right_test :
      (v : K) (d r : ℕ) (a b : Tree K)
      → ltb_ℤ (balance (node v (d + 1) r a b)) (negsuc 0) ≡ ltb (depth_of a + 1) (depth_of b)
  unfolding balance
  right_test v d r a b = ground arith

  -- The balance check leaves siblings alone that differ by one at most.
  pub remove_even :
      (v : K) (r : ℕ) (a b : Tree K)
      → depth_of a ≤ depth_of b + 1
      → depth_of b ≤ depth_of a + 1
      → balance_remove v r a b ≡ settle v r a b
  unfolding balance_remove
  remove_even v r a b h k = rw (left_test, right_test, le→ltb _ _ h, le→ltb _ _ k)

  pub remove_leans_left :
      (v : K) (r : ℕ) (a b : Tree K)
      → depth_of a ≡ depth_of b + 2
      → balance_remove v r a b ≡ rotate_right (node v (max_depth a b + 1) r (remove_left a) b)
  unfolding balance_remove
  remove_leans_left v r a b h = rw (left_test, lt→ltb (depth_of b + 1) (depth_of a) (omega arith))

  pub remove_leans_right :
      (v : K) (r : ℕ) (a b : Tree K)
      → depth_of b ≡ depth_of a + 2
      → balance_remove v r a b ≡ rotate_left (node v (max_depth a b + 1) r a (remove_right b))
  unfolding balance_remove
  remove_leans_right v r a b h = rw (
    left_test,
    right_test,
    le→ltb (depth_of a) (depth_of b + 1) (omega arith),
    lt→ltb (depth_of a + 1) (depth_of b) (omega arith),
  )

  -- A single rotation to the right, of a child that does not lean to the right.
  once_right :
      (v : K) (r : ℕ) (x : K) (s : ℕ) (a c b : Tree K)
      → IsAvl a
      → IsAvl c
      → IsAvl b
      → max (depth_of a) (depth_of c) ≡ depth_of b + 1
      → depth_of c ≤ depth_of a
      → depth_of a ≤ depth_of c + 1
      → let t = settle x s a (settle v r c b) in
        IsAvl t × (depth_of t ≤ depth_of b + 3) × (depth_of b + 2 ≤ depth_of t)
  once_right v r x s a c b p q w h k l = (
    (
      refl,
      omega (arith, max_depth_lem a, max_depth_lem c),
      omega (arith, max_depth_lem),
      p,
      (refl, omega arith, omega arith, q, w),
    ),
    omega (arith, max_depth_lem),
    omega (arith, max_depth_lem),
  )

  -- A double rotation to the right, of a child that leans to the right.
  twice_right :
      (v : K) (r : ℕ) (x : K) (s : ℕ) (y : K) (t : ℕ) (a c e b : Tree K)
      → IsAvl a
      → IsAvl c
      → IsAvl e
      → IsAvl b
      → max (depth_of c) (depth_of e) ≡ depth_of b
      → depth_of c ≤ depth_of e + 1
      → depth_of e ≤ depth_of c + 1
      → depth_of a ≡ depth_of b
      → let n = settle y t (settle x s a c) (settle v r e b) in
        IsAvl n × (depth_of n ≡ depth_of b + 2)
  twice_right v r x s y t a c e b p q w z h k l m = (
    (
      refl,
      omega (arith, max_depth_lem),
      omega (arith, max_depth_lem),
      (refl, omega arith, omega arith, p, q),
      (refl, omega arith, omega arith, w, z),
    ),
    omega (arith, max_depth_lem),
  )

  -- The mirror images.
  once_left :
      (v : K) (r : ℕ) (x : K) (s : ℕ) (b c a : Tree K)
      → IsAvl b
      → IsAvl c
      → IsAvl a
      → max (depth_of b) (depth_of c) ≡ depth_of a + 1
      → depth_of c ≤ depth_of b
      → depth_of b ≤ depth_of c + 1
      → let t = settle x s (settle v r a c) b in
        IsAvl t × (depth_of t ≤ depth_of a + 3) × (depth_of a + 2 ≤ depth_of t)
  once_left v r x s b c a p q w h k l = (
    (
      refl,
      omega (arith, max_depth_lem),
      omega (arith, max_depth_lem),
      (refl, omega arith, omega arith, w, q),
      p,
    ),
    omega (arith, max_depth_lem),
    omega (arith, max_depth_lem),
  )

  twice_left :
      (v : K) (r : ℕ) (x : K) (s : ℕ) (y : K) (t : ℕ) (b c e a : Tree K)
      → IsAvl b
      → IsAvl c
      → IsAvl e
      → IsAvl a
      → max (depth_of c) (depth_of e) ≡ depth_of a
      → depth_of c ≤ depth_of e + 1
      → depth_of e ≤ depth_of c + 1
      → depth_of b ≡ depth_of a
      → let n = settle y t (settle v r a c) (settle x s e b) in
        IsAvl n × (depth_of n ≡ depth_of a + 2)
  twice_left v r x s y t b c e a p q w z h k l m = (
    (
      refl,
      omega (arith, max_depth_lem),
      omega (arith, max_depth_lem),
      (refl, omega arith, omega arith, z, q),
      (refl, omega arith, omega arith, w, p),
    ),
    omega (arith, max_depth_lem),
  )

  -- The inner tests of a removal.
  inner_test :
      (v : K) (d r : ℕ) (a b : Tree K)
      → (ltb_ℤ (balance (node v (d + 1) r a b)) (pos 0) ≡ ltb (depth_of a) (depth_of b))
        × (ltb_ℤ (pos 0) (balance (node v (d + 1) r a b)) ≡ ltb (depth_of b) (depth_of a))
  unfolding balance
  inner_test v d r a b = (ground arith, ground arith)

  remove_left_stays :
      (v : K) (d r : ℕ) (a b : Tree K)
      → depth_of b ≤ depth_of a
      → remove_left (node v (d + 1) r a b) ≡ node v (d + 1) r a b
  unfolding remove_left
  remove_left_stays v d r a b h = rw ((inner_test v d r a b).0, le→ltb _ _ h)

  remove_left_turns :
      (v : K) (d r : ℕ) (a b : Tree K)
      → depth_of a < depth_of b
      → remove_left (node v (d + 1) r a b) ≡ rotate_left (node v (d + 1) r a b)
  unfolding remove_left
  remove_left_turns v d r a b h = rw ((inner_test v d r a b).0, lt→ltb _ _ h)

  remove_right_stays :
      (v : K) (d r : ℕ) (a b : Tree K)
      → depth_of a ≤ depth_of b
      → remove_right (node v (d + 1) r a b) ≡ node v (d + 1) r a b
  unfolding remove_right
  remove_right_stays v d r a b h = rw ((inner_test v d r a b).1, le→ltb _ _ h)

  remove_right_turns :
      (v : K) (d r : ℕ) (a b : Tree K)
      → depth_of b < depth_of a
      → remove_right (node v (d + 1) r a b) ≡ rotate_right (node v (d + 1) r a b)
  unfolding remove_right
  remove_right_turns v d r a b h = rw ((inner_test v d r a b).1, lt→ltb _ _ h)

  -- The child `t` of a rotation to the right, as the rotation finds it: left alone, or rotated
  -- itself because it leans to the inner side.
  abbrev pub TurnedLeft : Tree K → Tree K → Type 0
  TurnedLeft leaf u = ⊥
  TurnedLeft (node x e s a c) u =
      (u ≡ node x e s a c) × (depth_of c ≤ depth_of a)
      ⊎ (u ≡ rotate_left (node x e s a c)) × (depth_of c ≡ depth_of a + 1)

  abbrev pub TurnedRight : Tree K → Tree K → Type 0
  TurnedRight leaf u = ⊥
  TurnedRight (node x e s c b) u =
      (u ≡ node x e s c b) × (depth_of c ≤ depth_of b)
      ⊎ (u ≡ rotate_right (node x e s c b)) × (depth_of c ≡ depth_of b + 1)

  -- The children are of one depth.
  abbrev pub IsEven : Tree K → Type 0
  IsEven leaf = Unit
  IsEven (node x e s a c) = depth_of a ≡ depth_of c

  -- The tree after a rotation whose other child has depth `n`.
  abbrev pub Rotated : Tree K → ℕ → Tree K → Type 0
  Rotated a n t =
      IsAvl t × (depth_of t ≤ n + 3) × (n + 2 ≤ depth_of t) × ((depth_of t ≡ n + 2) ⊎ IsEven a)

  pub rotate_right-Rotated :
      (v : K) (d r : ℕ) (a u b : Tree K)
      → IsAvl a
      → IsAvl b
      → depth_of a ≡ depth_of b + 2
      → TurnedLeft a u
      → Rotated a (depth_of b) (rotate_right (node v d r u b))
  unfolding rotate_right rotate_left
  rotate_right-Rotated v d r leaf u b p q h k = elim k [ ]
  rotate_right-Rotated v d r (node x e s a c) u b p q h (inl k) =
      let m = once_right v r x s a c b p.3 p.4 q (omega (arith, max_depth_lem a c)) k.1 p.1 in
      rw (k.0, rotate_right) (m.0, m.1, m.2, omega (arith, max_depth_lem))
  rotate_right-Rotated v d r (node x e s a leaf) u b p q h (inr k) = absurd (omega arith)
  rotate_right-Rotated v d r (node x e s a (node y e' t c1 c2)) u b p q h (inr k) =
      let m =
        twice_right v r x s y t a c1 c2 b p.3 p.4.3 p.4.4 q (omega (arith, max_depth_lem)) p.4.1
          p.4.2 (omega (arith, max_depth_lem)) in
      rw (k.0, rotate_right) (m.0, omega (arith, m.1), omega (arith, m.1), inl m.1)

  pub rotate_left-Rotated :
      (v : K) (d r : ℕ) (b u a : Tree K)
      → IsAvl b
      → IsAvl a
      → depth_of b ≡ depth_of a + 2
      → TurnedRight b u
      → Rotated b (depth_of a) (rotate_left (node v d r a u))
  unfolding rotate_right rotate_left
  rotate_left-Rotated v d r leaf u a p q h k = elim k [ ]
  rotate_left-Rotated v d r (node x e s c b) u a p q h (inl k) =
      let m = once_left v r x s b c a p.4 p.3 q (omega (arith, max_depth_lem c b)) k.1 p.2 in
      rw (k.0, rotate_left) (m.0, m.1, m.2, omega (arith, max_depth_lem))
  rotate_left-Rotated v d r (node x e s leaf b) u a p q h (inr k) = absurd (omega arith)
  rotate_left-Rotated v d r (node x e s (node y e' t c1 c2) b) u a p q h (inr k) =
      let m =
        twice_left v r x s y t b c1 c2 a p.4 p.3.3 p.3.4 q (omega (arith, max_depth_lem)) p.3.1
          p.3.2 (omega (arith, max_depth_lem)) in
      rw (k.0, rotate_left) (m.0, omega (arith, m.1), omega (arith, m.1), inl m.1)

  pub remove_left-TurnedLeft :
      (a : Tree K) → IsAvl a → 0 < depth_of a → TurnedLeft a (remove_left a)
  remove_left-TurnedLeft leaf p h = elim h [ ]
  remove_left-TurnedLeft (node x e s a c) p h = elim (dec_lt (depth_of a) (depth_of c)) [
    | yes k ↦ inr (rw p.0 (remove_left_turns x (max_depth a c) s a c k), omega arith)
    | no k ↦ inl (rw p.0 (remove_left_stays x (max_depth a c) s a c (omega arith)), omega arith)
  ]

  pub remove_right-TurnedRight :
      (b : Tree K) → IsAvl b → 0 < depth_of b → TurnedRight b (remove_right b)
  remove_right-TurnedRight leaf p h = elim h [ ]
  remove_right-TurnedRight (node x e s c b) p h = elim (dec_lt (depth_of b) (depth_of c)) [
    | yes k ↦ inr (rw p.0 (remove_right_turns x (max_depth c b) s c b k), omega arith)
    | no k ↦ inl (rw p.0 (remove_right_stays x (max_depth c b) s c b (omega arith)), omega arith)
  ]
