-- ===== src/Elements/Node.antt =====
-- `struct Element` of data_structures/tree/tree.cpp; `Autocomplete::Element` of
-- autocomplete/autocomplete.cpp is the same text. The nodes of a `std::set` do not move, so an
-- `Element*` is modelled by the way that its back links give: the names from the element up to the
-- root, `[]` for the root itself, whose back link is null.
use mathlib.Core.List.{reverse}
use cpp_tricks.Prelude.{ℕ, List, [], ◌∷◌, ◌++◌, Option, none, some, ◌==◌, if◌then◌else◌}
use cpp_tricks.Prelude.Text.{Text, is_empty, same_text}
use cpp_tricks.Order.{lt, nat_less, list_less}

-- The children stand in the order of the set, by name.
mutual
  pub data Element : Type 0 where
    element : Text → Children → Element

  pub data Children : Type 0 where
    nil : Children
    cons : Element → Children → Children

abbrev pub name : Element → Text
name (element n cs) = n

abbrev pub children : Element → Children
children (element n cs) = cs

abbrev pub Pointer : Type 0
Pointer = List Text

-- `children.emplace( name, this )`: a name that is there stays as it is.
unfoldable pub emplace : Text → Children → Children
emplace n nil = cons (element n nil) nil
emplace n (cons (element m ds) cs) =
    if lt n m
    then cons (element n nil) (cons (element m ds) cs)
    else if lt m n
    then cons (element m ds) (emplace n cs)
    else cons (element m ds) cs

-- `std::find_if( children.begin(), children.end(), pred )`
unfoldable pub find_child : Text → Children → Option Element
find_child n nil = none
find_child n (cons (element m ds) cs) =
    if same_text n m then some (element m ds) else find_child n cs

-- The element that names lead to, from the root down.
unfoldable pub descend : List Text → Element → Option Element
descend [] e = some e
descend (m ∷ down) (element n cs) = elim (find_child m cs) [ none ↦ none | some c ↦ descend down c ]

-- A change of the children of the first child of this name.
unfoldable pub modify_child : Text → (Children → Children) → Children → Children
modify_child m f nil = nil
modify_child m f (cons (element n ds) cs) =
    if same_text m n then cons (element n (f ds)) cs else cons (element n ds) (modify_child m f cs)

-- A change of the children of the element that names lead to.
unfoldable pub modify : List Text → (Children → Children) → Children → Children
modify [] f cs = f cs
modify (m ∷ down) f cs = modify_child m (modify down f) cs

abbrev pub with_children : (Children → Children) → Element → Element
with_children f (element m cs) = element m (f cs)

-- `ptr->add( name )` changes the tree, and gives the child's pointer.
unfoldable pub add : Element → Pointer → Text → Element × Pointer
add root up n = (with_children (modify (reverse up) (emplace n)) root, n ∷ up)

unfoldable pub emplace_all : List Text → Children → Children
emplace_all [] cs = cs
emplace_all (n ∷ ns) cs = emplace_all ns (emplace n cs)

-- `ptr->add( { ... } )`
unfoldable pub add_all : Element → Pointer → List Text → Element × Pointer
add_all root up ns = (with_children (modify (reverse up) (emplace_all ns)) root, up)

-- `ptr->parent()`: `none` is the null back link of the root, which the program dereferences.
unfoldable pub parent : Pointer → Option Pointer
parent [] = none
parent (n ∷ up) = some up

-- `ptr->path()`: the loop pushes each name to the front and follows the back link.
unfoldable pub path_loop : List Text → Pointer → List Text
path_loop out [] = out
path_loop out (n ∷ up) = path_loop (n ∷ out) up

unfoldable pub path : Pointer → List Text
path up = path_loop [] up

-- The items that `getline( stream, item, c )` reads one after another; `item` holds what the
-- current call has read. At the end of the text a call that has read nothing fails.
unfoldable pub getlines : ℕ → Text → Text → List Text
getlines c item [] = if is_empty item then [] else item ∷ []
getlines c item (d ∷ s) = if d == c then item ∷ getlines c [] s else getlines c (item ++ (d ∷ [])) s

-- The loop of `get`, at the element `e`, which `ptr` points to.
unfoldable pub get_loop : Element → Pointer → List Text → Option Pointer
get_loop e ptr [] = some ptr
get_loop (element n cs) ptr (item ∷ items) =
    if is_empty item
    then get_loop (element n cs) ptr items
    else elim (find_child item cs) [ none ↦ none | some c ↦ get_loop c (item ∷ ptr) items ]

-- `ptr->get( path )`; a null pointer is `none`.
unfoldable pub get : Element → Pointer → Text → Option Pointer
unfolding getlines get_loop descend find_child
get root up s = elim (descend (reverse up) root) [
  | none ↦ none
  | some e ↦ get_loop e up (getlines b'/' [] s)
]
