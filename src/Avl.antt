-- ===== src/Avl.antt =====
-- data_structures/AVL/avl.cpp: an AVL tree that counts how often each value was inserted.
pub mod Node
pub mod Rotation
pub mod Balance
pub mod Sorted
pub mod Refine
pub mod Totals
pub mod Container
pub mod Invariant
pub mod Traverse
mod Tests
