-- ===== src/Avl/Container.antt =====
-- The class `AVL` of data_structures/AVL/avl.cpp: a root and two counters.
use cpp_tricks.Prelude.{ℕ, true, false, ltb, if◌then◌else◌}
use cpp_tricks.Order.{Less}
use cpp_tricks.Avl.Node.{Tree, leaf, new_node, depth_of, u32_mod, inc32, sub32}
use cpp_tricks.Avl.Node

pub record Avl (K : Type 0) : Type 0 where
  pub data_ : Tree K
  pub nodes : ℕ
  pub unique_nodes : ℕ

module _ {K : Type 0} where
  unfoldable pub empty : Avl K
  empty = record { data_ = leaf; nodes = 0; unique_nodes = 0 }

  -- The constructor from a value.
  unfoldable pub singleton : K → Avl K
  singleton v = record { data_ = new_node v; nodes = 1; unique_nodes = 1 }

  unfoldable pub clear : Avl K → Avl K
  clear t = record t { data_ = leaf }

  unfoldable pub depth : Avl K → ℕ
  depth t = depth_of t.data_

module _ {K : Type 0} ⦃o : Less K⦄ where
  unfoldable pub find : Avl K → K → ℕ
  find t v = Node.find t.data_ v

  -- On an empty tree the program makes the root and counts it itself, as `Node.insert` on `leaf`.
  unfoldable pub insert : Avl K → K → Avl K
  insert t v =
      let m = Node.insert t.data_ v in
      record {
        data_ = m.0;
        nodes = inc32 t.nodes;
        unique_nodes = if m.1 then inc32 t.unique_nodes else t.unique_nodes;
      }

  unfoldable pub remove : Avl K → K → Avl K
  unfolding find
  remove t v =
      let m = Node.remove t.data_ v true in
      record {
        data_ = m.0;
        nodes = sub32 t.nodes (if ltb 0 (find t v) then 1 else 0);
        unique_nodes = if m.1 then sub32 t.unique_nodes 1 else t.unique_nodes;
      }

  unfoldable pub drop : Avl K → K → Avl K
  unfolding find
  drop t v =
      let m = Node.remove t.data_ v false in
      record {
        data_ = m.0;
        nodes = sub32 t.nodes (find t v);
        unique_nodes = if m.1 then sub32 t.unique_nodes 1 else t.unique_nodes;
      }
