-- ===== src/Elements/Tests.antt =====
-- Tests of the tree of elements, and its theorems at concrete trees.
use cpp_tricks.Prelude.{ℕ, ◌≡◌, refl, List, true, Bool, [], ◌∷◌, ◌++◌, none, some, suc, ltb, arith}
use cpp_tricks.Prelude.Text.{Text, codes}
use cpp_tricks.Order.{lex}
use cpp_tricks.Elements.Node.{
  Element, Children, name, element, nil, cons, add, add_all, emplace, emplace_all, modify,
  modify_child, get, path, path_loop, find_child, descend, parent,
}
use cpp_tricks.Elements.Shape.{IsTree, has}
use cpp_tricks.Elements.Lookup.{slashed, get-path}
use cpp_tricks.Elements.Breadth.{bfs, bfs_order, bfs_lem}
use cpp_tricks.Elements.Sample.{adds, up, run_chain, sample}
use cpp_tricks.Elements.Traverse.{dfs, visit, dfs_order, dfs_lem}

-- `tree.add( { "say", "show", "get" } )` and `tree.get( "show" )->add( { "usage", "dir" } )`.
abbrev shows : Children
shows = cons (element (codes "dir") nil) (cons (element (codes "usage") nil) nil)

abbrev tree : Element
tree = element [] (
    cons (element (codes "get") nil)
      (cons (element (codes "say") nil) (cons (element (codes "show") shows) nil)))

built : Element
unfolding add_all emplace emplace_all modify modify_child lex
built =
    let t = (add_all (element [] nil) [] (codes "say" ∷ codes "show" ∷ codes "get" ∷ [])).0 in
    (add_all t (codes "show" ∷ []) (codes "usage" ∷ codes "dir" ∷ [])).0

built-tree : built ≡ tree
unfolding built
built-tree = refl

found : get tree [] (codes "show//dir/") ≡ some (codes "dir" ∷ codes "show" ∷ [])
unfolding get
found = refl

missed : get tree [] (codes "show/none") ≡ none
unfolding get
missed = refl

-- The root's back link is null.
parents : (parent (codes "dir" ∷ codes "show" ∷ []) ≡ some (codes "show" ∷ [])) × (parent [] ≡ none)
unfolding parent
parents = (refl, refl)

tree-IsTree : IsTree tree
unfolding lex
tree-IsTree = ground arith

get-path_example :
    get tree [] (slashed b'/' (path (codes "dir" ∷ codes "show" ∷ [])))
    ≡ some (codes "dir" ∷ codes "show" ∷ [])
unfolding path path_loop has descend find_child
get-path_example = get-path tree (codes "dir" ∷ codes "show" ∷ []) refl (ground arith)

-- The callback that counts, and stops at the third element.
abbrev third : ℕ → Element → ℕ → ℕ × Bool
third n e d = (suc n, ltb (suc n) 3)

dfs_lem_example : dfs third tree 0 ≡ some (visit third (dfs_order tree) 0).0
dfs_lem_example = dfs_lem third tree 0

dfs_stops : dfs third tree 0 ≡ some 3
unfolding dfs
dfs_stops = refl

-- A child with the children `type` and `value`.
abbrev typed : Text → Element
typed n = element n (cons (element (codes "type") nil) (cons (element (codes "value") nil) nil))

abbrev show_dir : Element
show_dir =
    element (codes "dir")
      (cons (element (codes "binary") nil) (cons (element (codes "working") nil) nil))

sample_tree :
    sample
    ≡ some (
        element [] (
          cons
            (element
              (codes "get")
              (cons (typed (codes "x")) (cons (typed (codes "y")) (cons (typed (codes "z")) nil))))
            (cons (element (codes "say") nil) (
              cons
                (element (codes "show") (
                  cons show_dir
                    (cons (element (codes "time") nil) (cons (element (codes "usage") nil) nil))))
                (cons (element (codes "work") nil) nil)))))
unfolding sample lex emplace emplace_all modify modify_child
sample_tree = refl

abbrev grown : Element
grown = (add tree (codes "show" ∷ []) (codes "time")).0

grows : run_chain tree (codes "show" ∷ []) (adds (codes "time") ∷ up ∷ []) ≡ some grown
unfolding run_chain
grows = refl

-- Notes the elements that are visited.
abbrev notes : List (Text × ℕ) → Element → ℕ → List (Text × ℕ) × Bool
notes seen e d = (seen ++ ((name e, d) ∷ []), true)

bfs_visits :
    bfs notes tree []
    ≡ some (
        (codes "get", 0)
        ∷ (codes "say", 0)
        ∷ (codes "show", 0)
        ∷ (codes "dir", 1)
        ∷ (codes "usage", 1)
        ∷ [])
unfolding bfs
bfs_visits = refl

bfs_lem_example : bfs notes tree [] ≡ some (visit notes (bfs_order tree) []).0
bfs_lem_example = bfs_lem notes tree []
