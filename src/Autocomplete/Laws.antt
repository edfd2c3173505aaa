-- ===== src/Autocomplete/Laws.antt =====
-- What a completion offers, for a command line of words between single spaces.
use mathlib.Core.List.{reverse, reverse-reverse}
use mathlib.Core.Option
use cpp_tricks.Prelude.{
  ◌≡◌, refl, sym, ap, ◌∙◌, append_assoc, append-nil, inl, inr, false, List, [], ◌∷◌, ◌++◌, Option,
  none, some, Option-cases, All, ◌==◌,
}
use cpp_tricks.Prelude.Text.{Text, is_empty}
use cpp_tricks.Elements.Node.{Element, Children, Pointer, descend, getlines, get, children}
use cpp_tricks.Elements.Shape.{has, is_some}
use cpp_tricks.Elements.Lookup.{IsName, slashed, getlines-append, getlines-slashed, get_lem}
use cpp_tricks.Autocomplete.{
  from_space, skip_spaces, arguments, split_last, split_args, add_items, arg_path, options,
  children_of, offer, complete,
}
use cpp_tricks.Autocomplete.Options.{child_names, prefixed, options-prefixed}

-- No space in it.
abbrev pub IsWord : Text → Type 0
IsWord s = All (λ d. (d == 32) ≡ false) s

-- The command, each argument behind a space, and the word to complete behind a space.
abbrev pub command_line : Text → List Text → Text → Text
command_line command args pending = command ++ (slashed 32 args ++ (32 ∷ pending))

from_space_lem : (s r : Text) → IsWord s → from_space (s ++ (32 ∷ r)) ≡ 32 ∷ r
unfolding from_space
from_space_lem [] r h = refl
from_space_lem (c ∷ s) r h = rw h.0 (from_space_lem s r h.1)

skip_word : (s r : Text) → IsWord s → is_empty s ≡ false → skip_spaces (s ++ r) ≡ s ++ r
unfolding skip_spaces
skip_word [] r h k = cc
skip_word (c ∷ s) r h k = rw h.0

skip_pending : (s : Text) → IsWord s → skip_spaces s ≡ s
unfolding skip_spaces
skip_pending [] h = refl
skip_pending (c ∷ s) h = rw h.0

split_last_word : (s : Text) → IsWord s → split_last s ≡ none
unfolding split_last
split_last_word [] h = refl
split_last_word (c ∷ s) h = rw (split_last_word s h.1, h.0, split_last)

split_last_lem : (a s : Text) → IsWord s → split_last (a ++ (32 ∷ s)) ≡ some (a, s)
unfolding split_last
split_last_lem [] s h = rw (split_last_word s h, split_last)
split_last_lem (c ∷ a) s h = rw (split_last_lem a s h, split_last)

add_items_lem :
    (out : Text) (ns : List Text) → All (IsName b'/') ns → add_items out ns ≡ out ++ slashed b'/' ns
unfolding add_items slashed
add_items_lem out [] h = sym (append-nil out)
add_items_lem out (n ∷ ns) h =
    rw h.0.0
      (add_items_lem (out ++ (b'/' ∷ n)) ns h.1 ∙ append_assoc out (b'/' ∷ n) (slashed b'/' ns))

-- The arguments with single spaces between them.
abbrev words : List Text → Text
words [] = []
words (n ∷ ns) = n ++ slashed 32 ns

arguments_lem :
    (command pending : Text) (ns : List Text)
    → IsWord command
    → IsWord pending
    → All (IsName 32) ns
    → split_args (arguments (command_line command ns pending)) ≡ (words ns, pending)
unfolding arguments split_args slashed
arguments_lem command pending [] h k p =
    ap (λ (t : Text). split_args (skip_spaces t)) (from_space_lem command pending h)
    ∙ (ap (λ (t : Text). split_args t) (skip_space pending ∙ skip_pending pending k)
        ∙ rw (split_last_word pending k, split_args))
  where
    skip_space : (s : Text) → skip_spaces (32 ∷ s) ≡ skip_spaces s
    skip_space s = unfold skip_spaces in refl
arguments_lem command pending (n ∷ ns) h k p =
    ap (λ (t : Text). split_args (skip_spaces t)) (from_space_lem command rest h)
    ∙ (ap (λ (t : Text). split_args t) (skip_space rest ∙ skip_first)
        ∙ rw (split_last_lem (n ++ slashed 32 ns) pending k, split_args))
  where
    rest : Text
    rest = (n ++ slashed 32 ns) ++ (32 ∷ pending)

    skip_space : (s : Text) → skip_spaces (32 ∷ s) ≡ skip_spaces s
    skip_space s = unfold skip_spaces in refl

    skip_first : skip_spaces rest ≡ rest
    skip_first =
        ap skip_spaces (append_assoc n (slashed 32 ns) (32 ∷ pending))
        ∙ (skip_word n (slashed 32 ns ++ (32 ∷ pending)) p.0.1 p.0.0
            ∙ sym (append_assoc n (slashed 32 ns) (32 ∷ pending)))

arg_path-words :
    (ns : List Text)
    → All (IsName 32) ns
    → All (IsName b'/') ns
    → arg_path (words ns) ≡ slashed b'/' ns
unfolding arg_path
arg_path-words [] h k = unfold slashed getlines add_items in refl
arg_path-words (n ∷ ns) h k =
    rw (getlines-append 32 [] n (slashed 32 ns) h.0.1, getlines-slashed 32 n ns h.0.0 h.1)
      (add_items_lem [] (n ∷ ns) k)

-- For a command, arguments and a last word with single spaces between them, where no word has a space,
-- the arguments are not empty and have no slashes, and the last word may be empty, `complete` prints the names with that word for a prefix, in order, of the children of the
-- element that the arguments lead to; it prints nothing if they lead to none.
pub complete_lem :
    (root : Element) (command pending : Text) (ns : List Text)
    → IsWord command
    → IsWord pending
    → All (IsName 32) ns
    → All (IsName b'/') ns
    → complete root (command_line command ns pending)
      ≡ elim (descend ns root) [ none ↦ [] | some e ↦ prefixed pending (child_names (children e)) ]
unfolding complete
complete_lem root command pending ns h k p q =
    ap (offer root) (arguments_lem command pending ns h k p)
    ∙ (ap (λ (t : Text). from_pointer (get root [] t)) (arg_path-words ns p q)
        ∙ (ap from_pointer (get_lem root root [] ns at_root q)
            ∙ elim (Option-cases (descend ns root)) [
              | inl e ↦ rw (has-descend e, e)
              | inr (c, e) ↦
                  rw (has-descend e, e) (reversed c e ∙ options-prefixed pending (children c))
            ]))
  where
    from_pointer : Option Pointer → List Text
    from_pointer o = elim (children_of root o) [ none ↦ [] | some cs ↦ options pending cs ]

    at_root : descend [] root ≡ some root
    at_root = unfold descend in refl

    has-descend : {o : Option Element} → descend ns root ≡ o → has root ns ≡ is_some o
    has-descend e = unfold has in ap is_some e

    child_list :
        (c : Element)
        → descend ns root ≡ some c
        → children_of root (some (reverse ns)) ≡ some (children c)
    child_list c e =
        unfold children_of in
        ap (λ (l : List Text). Option.map children (descend l root)) (reverse-reverse ns)
        ∙ ap (Option.map children) e

    reversed :
        (c : Element)
        → descend ns root ≡ some c
        → from_pointer (some (reverse ns ++ [])) ≡ options pending (children c)
    reversed c e =
        ap from_pointer (ap some (append-nil (reverse ns)))
        ∙ ap (λ (o : Option Children). elim o [ none ↦ [] | some cs ↦ options pending cs ])
            (child_list c e)
