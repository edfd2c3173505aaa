-- ===== src/Elements/Breadth.antt =====
-- `bfs` of data_structures/tree/tree.cpp against the levels of the tree. The callback is modelled as in
-- `Elements.Traverse`.
use cpp_tricks.Prelude.{
  ℕ, zero, suc, ◌+◌, ◌%◌, ◌≤◌, ◌≡◌, refl, sym, ap, ◌∙◌, inl, inr, Bool, List, [], ◌∷◌, ◌++◌, Option,
  none, some, length, append_assoc, append-nil, arith, if◌then◌else◌, Bool-cases,
}
use cpp_tricks.Prelude.Text.{Text, is_empty}
use cpp_tricks.Elements.Node.{Element, Children, element, nil, cons, children}
use cpp_tricks.Elements.Traverse.{Item, separator, at, u32_mod, visit, visit-append}

abbrev pub elements : Children → List Element
elements nil = []
elements (cons e cs) = e ∷ elements cs

-- Elements as they stand in the queue.
abbrev pub queued : List Element → List Item
queued [] = []
queued (e ∷ es) = at e ∷ queued es

-- The children of these elements, from the first to the last.
unfoldable pub kids : List Element → List Element
kids [] = []
kids (e ∷ es) = elements (children e) ++ kids es

-- All elements below.
mutual
  pub size : Element → ℕ
  size (element n cs) = suc (sizes cs)

  pub sizes : Children → ℕ
  sizes nil = 0
  sizes (cons e cs) = size e + sizes cs

-- Fuel for the rounds of the loop on `h` levels.
unfoldable pub level_rounds : ℕ → List Element → ℕ
unfolding kids
level_rounds zero es = 1
level_rounds (suc h) es = length es + suc (level_rounds h (kids es))

module _ {S : Type 0} (cb : S → Element → ℕ → S × Bool) where
  -- The loop, with fuel; `none` means that it ran out. The queue is never empty there.
  unfoldable pub bfs_loop : ℕ → List Item → ℕ → S → Option S
  bfs_loop zero q d s = none
  bfs_loop (suc f) [] d s = none
  bfs_loop (suc f) (separator ∷ []) d s = some s
  bfs_loop (suc f) (separator ∷ (i ∷ q)) d s =
      bfs_loop f ((i ∷ q) ++ (separator ∷ [])) ((d + 1) % u32_mod) s
  bfs_loop (suc f) (at e ∷ q) d s =
      let r = cb s e d in
      let rest = bfs_loop f (q ++ queued (elements (children e))) d r.0 in
      if r.1 then rest else some r.0

  -- The start of `bfs`: an element with a name is visited itself.
  unfoldable pub bfs : Element → S → Option S
  unfolding bfs_loop level_rounds sizes
  bfs (element n cs) s =
      let r = cb s (element n cs) 0 in
      let q = queued (elements cs) ++ (separator ∷ []) in
      let f = level_rounds (sizes cs) (elements cs) in
      let named = bfs_loop f q 1 r.0 in
      let nameless = bfs_loop f q 0 s in
      if is_empty n then nameless else if r.1 then named else some r.0

-- Elements with one depth.
unfoldable pub row : ℕ → List Element → List (Element × ℕ)
row d [] = []
row d (e ∷ es) = (e, d) ∷ row d es

-- The first `h` levels: these elements, then their children, and so on.
unfoldable pub levels : ℕ → ℕ → List Element → List (Element × ℕ)
unfolding row kids
levels zero d es = []
levels (suc h) d es = row d es ++ levels h ((d + 1) % u32_mod) (kids es)

-- All that `bfs` is to visit: there are no more levels than elements.
unfoldable pub bfs_order : Element → List (Element × ℕ)
unfolding levels sizes
bfs_order (element n cs) =
    if is_empty n
    then levels (sizes cs) 0 (elements cs)
    else (element n cs, 0) ∷ levels (sizes cs) 1 (elements cs)

sum_sizes : List Element → ℕ
sum_sizes [] = 0
sum_sizes (e ∷ es) = size e + sum_sizes es

sum_sizes-append : (es fs : List Element) → sum_sizes (es ++ fs) ≡ sum_sizes es + sum_sizes fs
unfolding sum_sizes
sum_sizes-append [] fs = omega arith
sum_sizes-append (e ∷ es) fs = omega (arith, sum_sizes-append es fs)

sum_sizes-elements : (cs : Children) → sum_sizes (elements cs) ≡ sizes cs
unfolding sum_sizes sizes
sum_sizes-elements nil = refl
sum_sizes-elements (cons e cs) = ap (λ k. size e + k) (sum_sizes-elements cs)

sum_sizes-kids : (es : List Element) → sum_sizes es ≡ length es + sum_sizes (kids es)
unfolding sum_sizes kids size
sum_sizes-kids [] = omega arith
sum_sizes-kids (element n cs ∷ es) =
    omega
      (arith, sum_sizes-kids es, sum_sizes-append (elements cs) (kids es), sum_sizes-elements cs)

nonempty : (n : Text) (cs : Children) (es : List Element) → ¬ (sum_sizes (element n cs ∷ es) ≤ 0)
unfolding sum_sizes size
nonempty n cs es h = omega arith

fewer : (h : ℕ) (es : List Element) → sum_sizes es ≤ suc h → sum_sizes (kids es) ≤ h
unfolding sum_sizes kids
fewer h [] k = omega arith
fewer h (e ∷ es) k = omega (arith, sum_sizes-kids (e ∷ es))

queued-append : (es fs : List Element) → queued (es ++ fs) ≡ queued es ++ queued fs
queued-append [] fs = refl
queued-append (e ∷ es) fs = ap (λ q. at e ∷ q) (queued-append es fs)

module _ {S : Type 0} (cb : S → Element → ℕ → S × Bool) where
  -- The loop on the rest of a level; `fs` are the children that it has queued so far.
  row_lem :
      (es fs : List Element) (f d : ℕ) (s : S)
      → bfs_loop cb (length es + f) (queued es ++ (separator ∷ queued fs)) d s ≡ (
          let r = visit cb (row d es) s in
          if r.1 then bfs_loop cb f (separator ∷ queued (fs ++ kids es)) d r.0 else some r.0)
  unfolding bfs_loop visit row kids
  row_lem [] fs f d s =
      ap (λ k. bfs_loop cb k (separator ∷ queued fs) d s) (omega arith)
      ∙ ap (λ q. bfs_loop cb f (separator ∷ queued q) d s) (sym (append-nil fs))
  row_lem (e ∷ es) fs f d s =
      let p : suc (length es) + f ≡ suc (length es + f) = omega arith in
      let ks = elements (children e) in
      let r = cb s e d in
      ap (λ k. bfs_loop cb k (at e ∷ (queued es ++ (separator ∷ queued fs))) d s) p
      ∙ elim (Bool-cases r.1) [
        | inl h ↦ rw h (
            ap (λ q. bfs_loop cb (length es + f) q d r.0)
              (append_assoc (queued es) (separator ∷ queued fs) (queued ks)
                ∙ ap (λ q. queued es ++ (separator ∷ q)) (sym (queued-append fs ks)))
            ∙ row_lem es (fs ++ ks) f d r.0
            ∙ ap
                (λ l.
                  let v = visit cb (row d es) r.0 in
                  if v.1 then bfs_loop cb f (separator ∷ queued l) d v.0 else some v.0)
                (append_assoc fs ks (kids es)))
        | inr h ↦ rw h
      ]

  levels-nil : (h d : ℕ) → levels h d [] ≡ []
  unfolding levels row kids
  levels-nil zero d = refl
  levels-nil (suc h) d = levels-nil h ((d + 1) % u32_mod)

  -- From the separator on, where the levels that come next are known to be visited.
  next_level :
      (h : ℕ) (ks : List Element) (d : ℕ) (s : S)
      → ((d : ℕ) (s : S)
          → bfs_loop cb (level_rounds h ks) (queued ks ++ (separator ∷ [])) d s
            ≡ some (visit cb (levels h d ks) s).0)
      → bfs_loop cb (suc (level_rounds h ks)) (separator ∷ queued ks) d s
        ≡ some (visit cb (levels h ((d + 1) % u32_mod) ks) s).0
  unfolding bfs_loop visit
  next_level h [] d s go = rw (levels-nil h ((d + 1) % u32_mod))
  next_level h (k ∷ ks) d s go = go ((d + 1) % u32_mod) s

  levels_lem :
      (h : ℕ) (es : List Element) (d : ℕ) (s : S)
      → sum_sizes es ≤ h
      → bfs_loop cb (level_rounds h es) (queued es ++ (separator ∷ [])) d s
        ≡ some (visit cb (levels h d es) s).0
  unfolding level_rounds levels bfs_loop visit
  levels_lem zero [] d s k = refl
  levels_lem zero (element n cs ∷ es) d s k = absurd (nonempty n cs es k)
  levels_lem (suc h) es d s k =
      let m = visit cb (row d es) s in
      row_lem es [] (suc (level_rounds h (kids es))) d s
      ∙ rw (visit-append cb (row d es) (levels h ((d + 1) % u32_mod) (kids es)) s)
          (elim (Bool-cases m.1) [
            | inl e ↦ rw e (
                next_level h (kids es) d m.0 (λ d' s'. levels_lem h (kids es) d' s' (fewer h es k)))
            | inr e ↦ rw e
          ])

  -- `bfs` ends, and it calls the callback on the elements of the tree level by level, each level from the
  -- first child to the last, with their depths modulo 2^32, until the callback says stop; an element
  -- without a name is not visited where the traversal starts.
  pub bfs_lem : (e : Element) (s : S) → bfs cb e s ≡ some (visit cb (bfs_order e) s).0
  unfolding bfs bfs_order visit
  bfs_lem (element n cs) s = elim (Bool-cases (is_empty n)) [
    | inl h ↦ rw h (start 0 s)
    | inr h ↦ rw h (elim (Bool-cases (cb s (element n cs) 0).1) [
      | inl k ↦ rw k (start 1 (cb s (element n cs) 0).0)
      | inr k ↦ rw k
    ])
  ]
    where
      start :
          (d : ℕ) (t : S)
          → bfs_loop cb
              (level_rounds (sizes cs) (elements cs))
              (queued (elements cs) ++ (separator ∷ []))
              d
              t
            ≡ some (visit cb (levels (sizes cs) d (elements cs)) t).0
      start d t = levels_lem (sizes cs) (elements cs) d t (omega (arith, sum_sizes-elements cs))
