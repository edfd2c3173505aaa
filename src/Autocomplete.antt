-- ===== src/Autocomplete.antt =====
-- autocomplete/autocomplete.cpp: completion of a command line from the tree of elements. The
-- environment variables come as arguments; `none` is a variable that is not set.
pub mod Laws
pub mod Elements
pub mod Options
mod Tests
use mathlib.Core.List.{reverse}
use mathlib.Core.Option
use cpp_tricks.Prelude.{
  ℕ, zero, suc, ◌+◌, ◌-◌, Bool, true, false, ◌||◌, not, List, [], ◌∷◌, ◌++◌, Option, none, some,
  ◌==◌, if◌then◌else◌,
}
use cpp_tricks.Prelude.Text.{Text, is_empty}
use cpp_tricks.Elements.Node.{
  Element, Children, element, nil, cons, Pointer, descend, getlines, get, children,
}

-- `strtol( comp_type, nullptr, 10 )` is the library's: its value comes as an argument.
unfoldable pub is_autocomplete : (Text → ℕ) → Option Text → Bool
is_autocomplete strtol none = false
is_autocomplete strtol (some s) = strtol s == 9 || strtol s == b'?'

-- The suffix from the first space on: `find( ' ' )`; `[]` stands for `npos`.
unfoldable pub from_space : Text → Text
from_space [] = []
from_space (c ∷ s) = if c == 32 then c ∷ s else from_space s

-- The suffix from the first character that is no space: `find_first_not_of( " ", … )`.
unfoldable pub skip_spaces : Text → Text
skip_spaces [] = []
skip_spaces (c ∷ s) = if c == 32 then skip_spaces s else c ∷ s

-- The command line without the command; it is empty where `n` is `npos`.
unfoldable pub arguments : Text → Text
unfolding from_space skip_spaces
arguments line = skip_spaces (from_space line)

-- `rfind( ' ' )`: what stands before the last space, and what stands behind it.
unfoldable pub split_last : Text → Option (Text × Text)
split_last [] = none
split_last (c ∷ s) = elim (split_last s) [
  | some (a, b) ↦ some (c ∷ a, b)
  | none ↦ if c == 32 then some ([], s) else none
]

-- `complete_args` and `pending_arg`.
unfoldable pub split_args : Text → Text × Text
unfolding split_last
split_args line = elim (split_last line) [ none ↦ ([], line) | some (a, b) ↦ (a, b) ]

-- The loop that builds `arg_path`.
unfoldable pub add_items : Text → List Text → Text
add_items out [] = out
add_items out (item ∷ items) = add_items (if is_empty item then out else out ++ (b'/' ∷ item)) items

unfoldable pub arg_path : Text → Text
unfolding add_items getlines
arg_path args = add_items [] (getlines 32 [] args)

-- `str.find( beginning ) == 0`
unfoldable pub starts_with : Text → Text → Bool
starts_with s [] = true
starts_with [] (d ∷ t) = false
starts_with (c ∷ s) (d ∷ t) = if c == d then starts_with s t else false

-- The names that are printed.
unfoldable pub options : Text → Children → List Text
unfolding starts_with
options pending nil = []
options pending (cons (element n ds) cs) =
    if starts_with n pending then n ∷ options pending cs else options pending cs

-- The children of what a pointer points to.
unfoldable pub children_of : Element → Option Pointer → Option Children
children_of root none = none
children_of root (some up) = Option.map children (descend (reverse up) root)

-- What is printed for `complete_args` and `pending_arg`; nothing where `get` gives a null pointer.
unfoldable pub offer : Element → Text × Text → List Text
unfolding arg_path options children_of
offer root r = elim (children_of root (get root [] (arg_path r.0))) [
  | none ↦ []
  | some cs ↦ options r.1 cs
]

-- What `autocomplete` prints for a command line, with these elements.
unfoldable pub complete : Element → Text → List Text
unfolding arguments split_args offer
complete root line = offer root (split_args (arguments line))

-- `autocomplete`: whether the call was a completion, and what it prints. `build` gives the elements.
unfoldable pub autocomplete : (Text → ℕ) → Element → Option Text → Text → Bool × List Text
unfolding is_autocomplete complete
autocomplete strtol root comp_type comp_line =
    if is_autocomplete strtol comp_type then (true, complete root comp_line) else (false, [])
