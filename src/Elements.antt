-- ===== src/Elements.antt =====
-- data_structures/tree/tree.cpp: a tree of named elements with ordered children and back links.
pub mod Node
pub mod Shape
pub mod Lookup
pub mod Traverse
pub mod Sample
pub mod Breadth
mod Tests
