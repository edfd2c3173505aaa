-- ===== src/Avl/Traverse.antt =====
-- `AVL::traverse` of data_structures/AVL/avl.cpp against the levels of the tree. The callback is a
-- function on a state of its own, which also says whether to stop.
use cpp_tricks.Prelude.{
  ℕ, zero, suc, ◌+◌, ◌-◌, ◌%◌, ◌≤◌, ◌≡◌, refl, sym, ap, ◌∙◌, inl, inr, Bool, true, false, List, [],
  ◌∷◌, ◌++◌, Option, none, some, length, append_assoc, append-nil, arith, ◌==◌, if◌then◌else◌,
  Bool-cases,
}
use cpp_tricks.Avl.Node.{Tree, leaf, node, u32_mod}
use cpp_tricks.Avl.Container.{Avl}

module _ {K : Type 0} where
  -- What a child pointer pushes.
  abbrev pub subtrees : Tree K → List (Tree K)
  subtrees leaf = []
  subtrees (node v d r a b) = node v d r a b ∷ []

  abbrev pub child_list : Tree K → List (Tree K)
  child_list leaf = []
  child_list (node v d r a b) = subtrees a ++ subtrees b

  abbrev pub total_nodes : Tree K → ℕ
  total_nodes leaf = 0
  total_nodes (node v d r a b) = suc (total_nodes a + total_nodes b)

module _ {K S : Type 0} (cb : S → K → ℕ → ℕ → S × Bool) where
  -- The inner loop, `i` rounds before its end: the queue after it, or `none` where the callback has
  -- said stop. No null pointer is in the queue.
  unfoldable pub level_loop : ℕ → List (Tree K) → ℕ → S → Option (List (Tree K)) × S
  level_loop zero q d s = (some q, s)
  level_loop (suc i) [] d s = (some [], s)
  level_loop (suc i) (leaf ∷ q) d s = level_loop i q d s
  level_loop (suc i) (node v e r a b ∷ q) d s =
      let m = cb s v d r in
      let rest = level_loop i (q ++ (subtrees a ++ subtrees b)) d m.0 in
      if m.1 then (none, m.0) else rest

  -- The test of `stop` after the inner loop.
  unfoldable pub go_on : (List (Tree K) → S → Option S) → Option (List (Tree K)) × S → Option S
  go_on more (none, s) = some s
  go_on more (some q, s) = more q s

  -- The outer loop, with fuel; `none` means that it ran out.
  unfoldable pub traverse_loop : ℕ → List (Tree K) → ℕ → S → Option S
  unfolding level_loop go_on
  traverse_loop zero q d s = none
  traverse_loop (suc f) q d s =
      let d' = (d + 1) % u32_mod in
      let next = go_on (λ q' s'. traverse_loop f q' d' s') (level_loop (length q) q d' s) in
      if length q == 0 then some s else next

  -- The callback on one entry after another, until it says stop; does it?
  unfoldable pub visit_until : List (K × ℕ × ℕ) → S → S × Bool
  visit_until [] s = (s, false)
  visit_until ((v, d, r) ∷ es) s =
      let m = cb s v d r in let rest = visit_until es m.0 in if m.1 then (m.0, true) else rest

-- `AVL::traverse`; the callback may be empty.
unfoldable pub traverse : {K S : Type 0} → Option (S → K → ℕ → ℕ → S × Bool) → Avl K → S → Option S
unfolding traverse_loop
traverse none t s = some s
traverse (some cb) t s = elim t.data_ [
  | leaf ↦ some s
  | node v d r a b ↦ traverse_loop cb (suc (total_nodes t.data_)) (t.data_ ∷ []) 0 s
]

module _ {K : Type 0} where
  -- Value, depth and counter of the nodes of one level.
  unfoldable pub level : ℕ → List (Tree K) → List (K × ℕ × ℕ)
  level d [] = []
  level d (leaf ∷ ts) = level d ts
  level d (node v e r a b ∷ ts) = (v, d, r) ∷ level d ts

  unfoldable pub next_nodes : List (Tree K) → List (Tree K)
  next_nodes [] = []
  next_nodes (t ∷ ts) = child_list t ++ next_nodes ts

  -- The first `h` levels, from depth `d` on.
  unfoldable pub level_order : ℕ → ℕ → List (Tree K) → List (K × ℕ × ℕ)
  unfolding level next_nodes
  level_order zero d ts = []
  level_order (suc h) d ts = level d ts ++ level_order h ((d + 1) % u32_mod) (next_nodes ts)

  -- An upper bound for the number of levels.
  weight : List (Tree K) → ℕ
  weight [] = 0
  weight (t ∷ ts) = suc (total_nodes t - 1) + weight ts

  weight-append : (ts us : List (Tree K)) → weight (ts ++ us) ≡ weight ts + weight us
  unfolding weight
  weight-append [] us = omega arith
  weight-append (t ∷ ts) us = omega (arith, weight-append ts us)

  weight-subtrees : (t : Tree K) → weight (subtrees t) ≡ total_nodes t
  unfolding weight
  weight-subtrees leaf = refl
  weight-subtrees (node v d r a b) = omega arith

  weight-next : (ts : List (Tree K)) → weight ts ≡ length ts + weight (next_nodes ts)
  unfolding weight next_nodes
  weight-next [] = omega arith
  weight-next (leaf ∷ ts) = omega (arith, weight-next ts)
  weight-next (node v d r a b ∷ ts) = omega (
    arith,
    weight-next ts,
    weight-append (subtrees a ++ subtrees b) (next_nodes ts),
    weight-append (subtrees a) (subtrees b),
    weight-subtrees a,
    weight-subtrees b,
  )

  heavy : (t : Tree K) (ts : List (Tree K)) → ¬ (weight (t ∷ ts) ≤ 0)
  unfolding weight
  heavy t ts k = omega arith

  light :
      (v : K) (d r : ℕ) (a b : Tree K)
      → weight (node v d r a b ∷ []) ≤ suc (total_nodes a + total_nodes b)
  unfolding weight
  light v d r a b = omega arith

  fewer_nodes :
      (h : ℕ) (t : Tree K) (ts : List (Tree K))
      → weight (t ∷ ts) ≤ suc h
      → weight (next_nodes (t ∷ ts)) ≤ h
  unfolding weight next_nodes
  fewer_nodes h t ts k = omega (arith, weight-next (t ∷ ts))

  level_order-nil : (h d : ℕ) → level_order h d [] ≡ []
  unfolding level_order level next_nodes
  level_order-nil zero d = refl
  level_order-nil (suc h) d = level_order-nil h ((d + 1) % u32_mod)

module _ {K S : Type 0} (cb : S → K → ℕ → ℕ → S × Bool) where
  visit_until-append :
      (xs ys : List (K × ℕ × ℕ)) (s : S)
      → visit_until cb (xs ++ ys) s
        ≡ (let r = visit_until cb xs s in if r.1 then (r.0, true) else visit_until cb ys r.0)
  unfolding visit_until
  visit_until-append [] ys s = refl
  visit_until-append ((v, d, r) ∷ xs) ys s = elim (Bool-cases (cb s v d r).1) [
    | inl h ↦ rw h
    | inr h ↦ rw h (visit_until-append xs ys (cb s v d r).0)
  ]

  -- The inner loop on the rest of a level; `us` are the children that it has queued so far.
  level_lem :
      (ts us : List (Tree K)) (d : ℕ) (s : S)
      → level_loop cb (length ts) (ts ++ us) d s ≡ (
          let r = visit_until cb (level d ts) s in
          (if r.1 then none else some (us ++ next_nodes ts), r.0))
  unfolding level_loop visit_until level next_nodes
  level_lem [] us d s = ap (λ q. (some q, s)) (sym (append-nil us))
  level_lem (leaf ∷ ts) us d s = level_lem ts us d s
  level_lem (node v e r a b ∷ ts) us d s =
      let m = cb s v d r in
      let ks = subtrees a ++ subtrees b in
      elim (Bool-cases m.1) [
        | inl h ↦ rw h
        | inr h ↦ rw h (
            ap (λ q. level_loop cb (length ts) q d m.0) (append_assoc ts us ks)
            ∙ level_lem ts (us ++ ks) d m.0
            ∙ ap
                (λ l.
                  let n = visit_until cb (level d ts) m.0 in (if n.1 then none else some l, n.0))
                (append_assoc us ks (next_nodes ts)))
      ]

  level_end :
      (ts : List (Tree K)) (d : ℕ) (s : S)
      → level_loop cb (length ts) ts d s ≡ (
          let r = visit_until cb (level d ts) s in
          (if r.1 then none else some (next_nodes ts), r.0))
  level_end ts d s =
      ap (λ q. level_loop cb (length ts) q d s) (sym (append-nil ts)) ∙ level_lem ts [] d s

  loop_step :
      (h : ℕ) (t : Tree K) (ts : List (Tree K)) (d : ℕ) (s : S)
      → traverse_loop cb (suc h) (t ∷ ts) d s
        ≡ go_on cb
            (λ q' s'. traverse_loop cb h q' ((d + 1) % u32_mod) s')
            (level_loop cb (length (t ∷ ts)) (t ∷ ts) ((d + 1) % u32_mod) s)
  unfolding traverse_loop
  loop_step h t ts d s = let full : (suc (length ts) == 0) ≡ false = ground arith in rw full

  traverse_loop_lem :
      (h : ℕ) (ts : List (Tree K)) (d : ℕ) (s : S)
      → weight ts ≤ h
      → traverse_loop cb (suc h) ts d s
        ≡ some (visit_until cb (level_order h ((d + 1) % u32_mod) ts) s).0
  unfolding traverse_loop level_order visit_until go_on
  traverse_loop_lem h [] d s k = rw (level_order-nil h ((d + 1) % u32_mod))
  traverse_loop_lem zero (t ∷ ts) d s k = absurd (heavy t ts k)
  traverse_loop_lem (suc h) (t ∷ ts) d s k =
      let d' = (d + 1) % u32_mod in
      let r = visit_until cb (level d' (t ∷ ts)) s in
      let next : List (Tree K) → S → Option S = λ q s'. traverse_loop cb (suc h) q d' s' in
      let visited =
        visit_until-append (level d' (t ∷ ts))
          (level_order h ((d' + 1) % u32_mod) (next_nodes (t ∷ ts))) s in
      loop_step (suc h) t ts d s
      ∙ ap (go_on cb next) (level_end (t ∷ ts) d' s)
      ∙ rw visited (elim (Bool-cases r.1) [
        | inl e ↦ rw e
        | inr e ↦ rw e (traverse_loop_lem h (next_nodes (t ∷ ts)) d' r.0 (fewer_nodes h t ts k))
      ])

  -- `traverse` ends, and it calls the callback on the value, the level and the counter of every node:
  -- level by level from the root, whose level is 1, each level from left to right, until the callback
  -- says stop. There are at most as many levels as nodes.
  pub traverse_lem :
      (t : Avl K) (s : S)
      → traverse (some cb) t s
        ≡ some (visit_until cb (level_order (total_nodes t.data_) 1 (subtrees t.data_)) s).0
  unfolding traverse level_order visit_until
  traverse_lem t s = go t.data_
    where
      go :
          (n : Tree K)
          → (elim n as (λ x. Option S) [
            | leaf ↦ some s
            | node v d r a b ↦ traverse_loop cb (suc (total_nodes n)) (n ∷ []) 0 s
          ])
            ≡ some (visit_until cb (level_order (total_nodes n) 1 (subtrees n)) s).0
      go leaf = refl
      go (node v d r a b) =
          traverse_loop_lem (suc (total_nodes a + total_nodes b)) (node v d r a b ∷ []) 0 s
            (light v d r a b)
