-- ===== src/Autocomplete/Elements.antt =====
-- `Autocomplete::Element` of autocomplete/autocomplete.cpp is the same text as `struct Element` of
-- data_structures/tree/tree.cpp: its operations are those of `Elements`, under their own names.
use cpp_tricks.Prelude.{ℕ, Bool, List, Option}
use cpp_tricks.Prelude.Text.{Text}
use cpp_tricks.Elements.Node
use cpp_tricks.Elements.Traverse
use cpp_tricks.Elements.Breadth
use cpp_tricks.Elements.Sample

abbrev pub Element : Type 0
Element = Node.Element

abbrev pub Pointer : Type 0
Pointer = Node.Pointer

abbrev pub add : Element → Pointer → Text → Element × Pointer
add = Node.add

abbrev pub add_all : Element → Pointer → List Text → Element × Pointer
add_all = Node.add_all

abbrev pub parent : Pointer → Option Pointer
parent = Node.parent

abbrev pub get : Element → Pointer → Text → Option Pointer
get = Node.get

abbrev pub path : Pointer → List Text
path = Node.path

abbrev pub dfs : {S : Type 0} → (S → Element → ℕ → S × Bool) → Element → S → Option S
dfs cb = Traverse.dfs cb

abbrev pub bfs : {S : Type 0} → (S → Element → ℕ → S × Bool) → Element → S → Option S
bfs cb = Breadth.bfs cb

-- `MyAutocomplete::build` makes the calls of the other program's `main`.
abbrev pub build : Option Element
build = Sample.sample
