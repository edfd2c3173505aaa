-- ===== src/Elements/Sample.antt =====
-- Chained calls of `add` and `parent`, and the tree that `main` of data_structures/tree/tree.cpp
-- builds with them.
use mathlib.Core.Option
use cpp_tricks.Prelude.{◌≡◌, ap, subst, List, [], ◌∷◌, Option, none, some}
use cpp_tricks.Prelude.Text.{Text, codes}
use cpp_tricks.Elements.Node.{Element, Pointer, element, nil, add, add_all, get, parent}
use cpp_tricks.Elements.Shape.{IsTree, add_lem}

infixl 10 ◌>>=◌
abbrev ◌>>=◌ : {A B : Type 0} → Option A → (A → Option B) → Option B
none >>= f = none
some a >>= f = f a

-- `.add( name )` and `.parent()`
pub data Link : Type 0 where
  adds : Text → Link
  up : Link

-- A chain of calls, from the element that a pointer points to; `none` where it dereferences the null
-- back link of the root.
unfoldable pub run_chain : Element → Pointer → List Link → Option Element
unfolding add parent
run_chain root p [] = some root
run_chain root p (adds n ∷ links) = let r = add root p n in run_chain r.0 r.1 links
run_chain root p (up ∷ links) = elim (parent p) [ none ↦ none | some q ↦ run_chain root q links ]

-- `tree.get( path )->add( { ... } )`; `none` where `get` gives a null pointer.
unfoldable pub add_at : Element → Text → List Text → Option Element
unfolding get add_all
add_at root s ns = elim (get root [] s) [ none ↦ none | some p ↦ some (add_all root p ns).0 ]

-- `tree.get( path )` and a chain of calls on it.
unfoldable pub chain_at : Element → Text → List Link → Option Element
unfolding get run_chain
chain_at root s links = elim (get root [] s) [ none ↦ none | some p ↦ run_chain root p links ]

-- `.add( name ).add( "value" ).parent().add( "type" ).parent().parent()`, before more links.
abbrev pub branch : Text → List Link → List Link
branch n links = adds n ∷ adds (codes "value") ∷ up ∷ adds (codes "type") ∷ up ∷ up ∷ links

-- The tree that `main` builds.
unfoldable pub sample : Option Element
unfolding add_all add_at chain_at
sample = do
  let t =
      (add_all (element [] nil) [] (codes "say" ∷ codes "show" ∷ codes "get" ∷ codes "work" ∷ [])).0
  t ← add_at t (codes "show") (codes "usage" ∷ codes "time" ∷ codes "dir" ∷ [])
  t ← add_at t (codes "show/dir") (codes "binary" ∷ codes "working" ∷ [])
  chain_at t (codes "get") (branch (codes "x") (branch (codes "y") (branch (codes "z") [])))

-- Where a chain of `add` and `parent` does not dereference the null back link of the root, it keeps the
-- names of all children distinct and in order.
pub run_chain-IsTree :
    (root t : Element) (p : Pointer) (links : List Link)
    → IsTree root
    → run_chain root p links ≡ some t
    → IsTree t
unfolding run_chain
run_chain-IsTree root t p [] h e =
    subst IsTree (ap (λ (o : Option Element). Option.get_or o root) e) h
run_chain-IsTree root t p (adds n ∷ links) h e =
    run_chain-IsTree (add root p n).0 t (add root p n).1 links (add_lem root p n [] h).0 e
run_chain-IsTree root t [] (up ∷ links) h e = absurd (cc e)
run_chain-IsTree root t (m ∷ p) (up ∷ links) h e = run_chain-IsTree root t p links h e
