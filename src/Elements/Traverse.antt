-- ===== src/Elements/Traverse.antt =====
-- `dfs` of data_structures/tree/tree.cpp against the preorder of the tree. The callback is a function
-- on a state of its own, which also says whether to go on; it does not change the tree.
use cpp_tricks.Prelude.{
  ℕ, zero, suc, ◌+◌, ◌-◌, ◌%◌, ◌<◌, ◌≡◌, refl, ap, ◌∙◌, inl, inr, Bool, true, false, List, [], ◌∷◌,
  ◌++◌, Option, none, some, arith, if◌then◌else◌, Bool-cases,
}
use cpp_tricks.Prelude.Text.{is_empty}
use cpp_tricks.Elements.Node.{Element, Children, element, nil, cons}

abbrev pub u32_mod : ℕ
u32_mod = 4294967296

-- What stands on the stack: the separator, or an element.
pub data Item : Type 0 where
  separator : Item
  at : Element → Item

-- The pushes in reverse order leave the first child on top.
unfoldable pub push_all : Children → List Item → List Item
push_all nil st = st
push_all (cons e cs) st = at e ∷ push_all cs st

-- Fuel for the rounds of the loop that a list of siblings takes, and `f` rounds more.
unfoldable pub rounds : Children → ℕ → ℕ
rounds nil f = f
rounds (cons (element n nil) cs) f = suc (rounds cs f)
rounds (cons (element n (cons d ds)) cs) f = suc (rounds (cons d ds) (suc (rounds cs f)))

module _ {S : Type 0} (cb : S → Element → ℕ → S × Bool) where
  -- The loop, with fuel; `none` means that it ran out.
  unfoldable pub dfs_loop : ℕ → List Item → ℕ → S → Option S
  dfs_loop zero st d s = none
  dfs_loop (suc f) [] d s = some s
  dfs_loop (suc f) (separator ∷ st) d s = dfs_loop f st ((d + u32_mod - 1) % u32_mod) s
  dfs_loop (suc f) (at (element n nil) ∷ st) d s =
      let r = cb s (element n nil) d in
      let rest = dfs_loop f st d r.0 in if r.1 then rest else some r.0
  dfs_loop (suc f) (at (element n (cons e cs)) ∷ st) d s =
      let r = cb s (element n (cons e cs)) d in
      let rest = dfs_loop f (push_all (cons e cs) (separator ∷ st)) ((d + 1) % u32_mod) r.0 in
      if r.1 then rest else some r.0

  -- The start of `dfs`: an element with a name is visited itself.
  unfoldable pub dfs : Element → S → Option S
  unfolding dfs_loop push_all rounds
  dfs (element n cs) s =
      let r = cb s (element n cs) 0 in
      let named = dfs_loop (rounds cs 2) (push_all cs (separator ∷ [])) 1 r.0 in
      let nameless = dfs_loop (rounds cs 2) (push_all cs (separator ∷ [])) 0 s in
      if is_empty n then nameless else if r.1 then named else some r.0

  -- The callback on one element after another, until it says stop.
  unfoldable pub visit : List (Element × ℕ) → S → S × Bool
  visit [] s = (s, true)
  visit ((e, d) ∷ es) s =
      let r = cb s e d in let rest = visit es r.0 in if r.1 then rest else (r.0, false)

-- The siblings at depth `d` and all below them, each element before its children, with their depths.
unfoldable pub preorder : ℕ → Children → List (Element × ℕ)
preorder d nil = []
preorder d (cons (element n ds) cs) =
    (element n ds, d) ∷ (preorder ((d + 1) % u32_mod) ds ++ preorder d cs)

-- All that `dfs` is to visit.
unfoldable pub dfs_order : Element → List (Element × ℕ)
unfolding preorder
dfs_order (element n cs) = if is_empty n then preorder 0 cs else (element n cs, 0) ∷ preorder 1 cs

module _ {S : Type 0} (cb : S → Element → ℕ → S × Bool) where
  pub visit-append :
      (xs ys : List (Element × ℕ)) (s : S)
      → visit cb (xs ++ ys) s
        ≡ (let r = visit cb xs s in if r.1 then visit cb ys r.0 else (r.0, false))
  unfolding visit
  visit-append [] ys s = refl
  visit-append ((e, d) ∷ xs) ys s = elim (Bool-cases (cb s e d).1) [
    | inl h ↦ rw h (visit-append xs ys (cb s e d).0)
    | inr h ↦ rw h
  ]

  -- After a list of siblings the loop goes on with what stood below them, if the callback did not stop.
  dfs_loop_lem :
      (cs : Children) (f : ℕ) (st : List Item) (d : ℕ) (s : S)
      → d < u32_mod
      → dfs_loop cb (rounds cs f) (push_all cs st) d s
        ≡ (let r = visit cb (preorder d cs) s in if r.1 then dfs_loop cb f st d r.0 else some r.0)
  unfolding dfs_loop rounds push_all preorder visit
  dfs_loop_lem nil f st d s h = refl
  dfs_loop_lem (cons (element n nil) cs) f st d s h = elim (Bool-cases (cb s (element n nil) d).1) [
    | inl e ↦ rw e (dfs_loop_lem cs f st d (cb s (element n nil) d).0 h)
    | inr e ↦ rw e
  ]
  dfs_loop_lem (cons (element n (cons c ds)) cs) f st d s h =
      let m = cb s (element n (cons c ds)) d in
      let d' = (d + 1) % u32_mod in
      let back : (d' + u32_mod - 1) % u32_mod ≡ d = omega arith in
      let q = visit cb (preorder d' (cons c ds)) m.0 in
      elim (Bool-cases m.1) [
        | inl e ↦ rw e (
            dfs_loop_lem (cons c ds) (suc (rounds cs f)) (separator ∷ push_all cs st) d' m.0
              (omega arith)
            ∙ rw (visit-append (preorder d' (cons c ds)) (preorder d cs) m.0)
                (elim (Bool-cases q.1) [
                  | inl k ↦ rw k (
                      ap (λ x. dfs_loop cb (rounds cs f) (push_all cs st) x q.0) back
                      ∙ dfs_loop_lem cs f st d q.0 h)
                  | inr k ↦ rw k
                ]))
        | inr e ↦ rw e
      ]

  -- `dfs` ends, and it calls the callback on the elements of the tree in preorder, with their depths
  -- modulo 2^32, until the callback says stop; an element without a name is not visited where the
  -- traversal starts.
  pub dfs_lem : (e : Element) (s : S) → dfs cb e s ≡ some (visit cb (dfs_order e) s).0
  unfolding dfs dfs_order visit dfs_loop
  dfs_lem (element n cs) s = elim (Bool-cases (is_empty n)) [
    | inl h ↦ rw h (start 0 s (omega arith))
    | inr h ↦ rw h (elim (Bool-cases (cb s (element n cs) 0).1) [
      | inl k ↦ rw k (start 1 (cb s (element n cs) 0).0 (omega arith))
      | inr k ↦ rw k
    ])
  ]
    where
      start :
          (d : ℕ) (t : S)
          → d < u32_mod
          → dfs_loop cb (rounds cs 2) (push_all cs (separator ∷ [])) d t
            ≡ some (visit cb (preorder d cs) t).0
      start d t h =
          dfs_loop_lem cs 2 (separator ∷ []) d t h
          ∙ elim (Bool-cases (visit cb (preorder d cs) t).1) [ inl k ↦ rw k | inr k ↦ rw k ]
