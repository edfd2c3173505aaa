-- ===== src/Avl/Tests.antt =====
-- Tests of the AVL tree, and its theorems at concrete trees.
use cpp_tricks.Prelude.{ℕ, ◌+◌, ◌≡◌, refl, Bool, zero, suc, List, [], ◌∷◌, ◌++◌, some, ltb, length}
use cpp_tricks.Order.{nat_less}
use cpp_tricks.Avl.Node.{Tree, leaf, node, depth_of}
use cpp_tricks.Avl.Node
use cpp_tricks.Avl.Container.{Avl, empty, find, insert, remove, drop, depth}
use cpp_tricks.Avl.Traverse.{
  subtrees, total_nodes, traverse, visit_until, level_order, traverse_lem,
}
use cpp_tricks.Avl.Invariant.{
  IsValid, Call, inserts, removes, drops, run, tally, empty-IsValid, run-IsValid, run_refines,
}

-- The calls of the program's `main`: 1 to 19, four of them again, and some removals.
from : ℕ → ℕ → List (Call ℕ)
from n zero = []
from n (suc k) = inserts n ∷ from (n + 1) k

abbrev growth : List (Call ℕ)
growth = inserts 1 ∷ inserts 2 ∷ inserts 12 ∷ inserts 12 ∷ []

abbrev removals : List (Call ℕ)
removals = removes 2 ∷ removes 7 ∷ removes 8 ∷ drops 12 ∷ []

filled : Avl ℕ
unfolding run from empty insert Node.insert Node.balance_insert Node.balance Node.max_depth
    Node.rotate_left Node.rotate_right Node.insert_left Node.insert_right Node.find find depth
filled = run (run empty (from 1 19)) growth

thinned : Avl ℕ
unfolding filled remove drop Node.remove Node.detach Node.min_node Node.balance_remove
    Node.remove_left Node.remove_right
thinned = run filled removals

-- What `main` checks.
filled_counts : (depth filled ≡ 5) × (filled.nodes ≡ 23) × (filled.unique_nodes ≡ 19)
unfolding filled
filled_counts = (refl, refl, refl)

filled_finds : (find filled 2 ≡ 2) × (find filled 12 ≡ 3) × (find filled 20 ≡ 0)
unfolding filled
filled_finds = (refl, refl, refl)

thinned_counts : (depth thinned ≡ 5) × (thinned.nodes ≡ 17) × (thinned.unique_nodes ≡ 16)
unfolding thinned
thinned_counts = (refl, refl, refl)

thinned_finds :
    (find thinned 1 ≡ 2) × (find thinned 2 ≡ 1) × (find thinned 7 ≡ 0) × (find thinned 12 ≡ 0)
unfolding thinned
thinned_finds = (refl, refl, refl, refl)

abbrev small_tree : Tree ℕ
small_tree = node 4 2 1 (node 2 1 3 leaf leaf) (node 9 1 1 leaf leaf)

run-IsValid_example :
    IsValid {K = ℕ} (run empty (inserts 3 ∷ inserts 1 ∷ inserts 2 ∷ removes 3 ∷ drops 1 ∷ []))
run-IsValid_example =
    run-IsValid empty (inserts 3 ∷ inserts 1 ∷ inserts 2 ∷ removes 3 ∷ drops 1 ∷ []) empty-IsValid

run_refines_example :
    find {K = ℕ} (run empty (inserts 3 ∷ inserts 3 ∷ removes 3 ∷ []))
    ≡ tally (find empty) (inserts 3 ∷ inserts 3 ∷ removes 3 ∷ [])
run_refines_example = run_refines empty (inserts 3 ∷ inserts 3 ∷ removes 3 ∷ []) empty-IsValid

-- Notes what is visited, and stops after two nodes.
abbrev notes : List (ℕ × ℕ × ℕ) → ℕ → ℕ → ℕ → List (ℕ × ℕ × ℕ) × Bool
notes seen v d r = (seen ++ ((v, d, r) ∷ []), ltb 1 (length seen + 1))

abbrev small : Avl ℕ
small = record { data_ = small_tree; nodes = 5; unique_nodes = 3 }

traverse_stops : traverse (some notes) small [] ≡ some ((4, 1, 1) ∷ (2, 2, 3) ∷ [])
unfolding traverse
traverse_stops = refl

traverse_lem_example :
    traverse (some notes) small []
    ≡ some (visit_until notes (level_order (total_nodes small_tree) 1 (subtrees small_tree)) []).0
traverse_lem_example = traverse_lem notes small []
