-- ===== src/Avl/Node.antt =====
-- `AVL<T>::Node` of data_structures/AVL/avl.cpp. A `shared_ptr` to a node is a `Tree`, the null
-- pointer is `leaf`, and a static method that changes `n` returns the new `n`.
--
-- `depth` does not wrap: it is at most the number of nodes in memory. `ref` is a 32-bit counter
-- that the program lets grow with every insertion of the same value, so it wraps.
use cpp_tricks.Prelude.{ℕ, ◌+◌, ◌-◌, ◌%◌, Bool, true, false, ◌&&◌, ltb, ◌==◌, if◌then◌else◌}
use cpp_tricks.Prelude.Int.{ℤ, pos, negsuc, sub_ℕ, ltb_ℤ}
use cpp_tricks.Order.{Less, lt}

abbrev pub u32_mod : ℕ
u32_mod = 4294967296

-- `x++` and `x -= y` on a 32-bit `unsigned`.
abbrev pub inc32 : ℕ → ℕ
inc32 x = (x + 1) % u32_mod

abbrev pub sub32 : ℕ → ℕ → ℕ
sub32 x y = (x + u32_mod - y % u32_mod) % u32_mod

-- value, depth, ref, left, right
pub data Tree (K : Type 0) : Type 0 where
  leaf : Tree K
  node : K → ℕ → ℕ → Tree K → Tree K → Tree K

module _ {K : Type 0} where
  -- The constructor of `Node`.
  abbrev pub new_node : K → Tree K
  new_node v = node v 1 1 leaf leaf

  -- `p ? p->depth : 0`
  abbrev pub depth_of : Tree K → ℕ
  depth_of leaf = 0
  depth_of (node v d r a b) = d

  -- The larger depth of the two children.
  unfoldable pub max_depth : Tree K → Tree K → ℕ
  max_depth a b = if ltb (depth_of b) (depth_of a) then depth_of a else depth_of b

  -- `n->depth = max_depth( *n ) + 1`, for a node with these other fields.
  abbrev pub settle : K → ℕ → Tree K → Tree K → Tree K
  settle v r a b = node v (max_depth a b + 1) r a b

  -- A rotation reads through the child that moves up. Where that child is null the program would
  -- fail; the model then leaves the tree as it is. The balance checks rotate only towards a deeper
  -- child, which is not null.
  unfoldable pub rotate_left : Tree K → Tree K
  rotate_left (node v d r a (node w e s b c)) = settle w s (settle v r a b) c
  rotate_left t = t

  unfoldable pub rotate_right : Tree K → Tree K
  rotate_right (node v d r (node w e s a b) c) = settle w s a (settle v r b c)
  rotate_right t = t

  -- `depth ? (int)(l - r) : 0`
  unfoldable pub balance : Tree K → ℤ
  balance leaf = pos 0
  balance (node v d r a b) = if d == 0 then pos 0 else sub_ℕ (depth_of a) (depth_of b)

  -- The value and the counter of the node that `min_node` ends at, from a node with this value,
  -- this counter and this left child.
  unfoldable pub min_node : K → ℕ → Tree K → K × ℕ
  min_node v r leaf = (v, r)
  min_node v r (node w e s a b) = min_node w s a

  -- The end of `remove`: its balance check, after the depth was updated.
  unfoldable pub remove_left : Tree K → Tree K
  unfolding balance rotate_left
  remove_left a = if ltb_ℤ (balance a) (pos 0) then rotate_left a else a

  unfoldable pub remove_right : Tree K → Tree K
  unfolding balance rotate_right
  remove_right b = if ltb_ℤ (pos 0) (balance b) then rotate_right b else b

  unfoldable pub balance_remove : K → ℕ → Tree K → Tree K → Tree K
  balance_remove v r a b =
      let d = max_depth a b + 1 in
      let n = node v d r a b in
      if ltb_ℤ (pos 1) (balance n)
      then rotate_right (node v d r (remove_left a) b)
      else if ltb_ℤ (balance n) (negsuc 0)
      then rotate_left (node v d r a (remove_right b))
      else n

  -- The branches of `remove` at the node that holds the value, where it is to go. `rest` is the
  -- right child without its smallest node.
  unfoldable pub detach : Tree K → Tree K → Tree K → Tree K
  unfolding balance_remove min_node
  detach leaf leaf rest = leaf
  detach (node w e s a b) leaf rest = balance_remove w s a b
  detach leaf (node w e s a b) rest = balance_remove w s a b
  detach (node w e s a b) (node w' e' s' a' b') rest =
      let (least, count) = min_node w' s' a' in balance_remove least count (node w e s a b) rest

  -- The smallest value of a right child; `v` stands where there is none.
  abbrev pub least_value : K → Tree K → K
  least_value v leaf = v
  least_value v (node w e s a b) = (min_node w s a).0

module _ {K : Type 0} ⦃o : Less K⦄ where
  -- The inner rotations of `insert`: the child is rotated first if `v` went to its far side.
  unfoldable pub insert_left : K → Tree K → Tree K
  insert_left v leaf = leaf
  insert_left v (node w e s a b) = if lt w v then rotate_left (node w e s a b) else node w e s a b

  unfoldable pub insert_right : K → Tree K → Tree K
  insert_right v leaf = leaf
  insert_right v (node w e s a b) = if lt v w then rotate_right (node w e s a b) else node w e s a b

  -- The end of `insert`: the depth is updated, and the balance checked.
  unfoldable pub balance_insert : K → K → ℕ → Tree K → Tree K → Tree K
  balance_insert v w r a b =
      let d = max_depth a b + 1 in
      let n = node w d r a b in
      if ltb_ℤ (pos 1) (balance n)
      then rotate_right (node w d r (insert_left v a) b)
      else if ltb_ℤ (balance n) (negsuc 0)
      then rotate_left (node w d r a (insert_right v b))
      else n

  -- `Node::insert`. The case of `leaf` is its callers' `reset( new Node( v ) )`.
  unfoldable pub insert : Tree K → K → Tree K × Bool
  insert leaf v = (new_node v, true)
  insert (node w d r a b) v =
      let left = insert a v in
      let right = insert b v in
      if lt v w
      then (balance_insert v w r left.0 b, left.1)
      else if lt w v
      then (balance_insert v w r a right.0, right.1)
      else (node w d (inc32 r) a b, false)

  -- `Node::remove`; `ref` asks to count down before a node is removed.
  unfoldable pub remove : Tree K → K → Bool → Tree K × Bool
  unfolding detach
  remove leaf v ref = (leaf, false)
  remove (node w d r a b) v ref =
      let left = remove a v ref in
      let right = remove b v ref in
      let rest = remove b (least_value w b) false in
      if lt v w
      then (balance_remove w r left.0 b, left.1)
      else if lt w v
      then (balance_remove w r a right.0, right.1)
      else if ref && ltb 1 r
      then (node w d (r - 1) a b, false)
      else (detach a b rest.0, true)

  -- `AVL::find` walks down from the root; the loop ends with a null child or an equal value.
  unfoldable pub find : Tree K → K → ℕ
  find leaf v = 0
  find (node w d r a b) v =
      let left = find a v in
      let right = find b v in if lt v w then left else if lt w v then right else r
