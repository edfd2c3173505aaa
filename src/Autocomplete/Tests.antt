-- ===== src/Autocomplete/Tests.antt =====
-- Tests of the completion, and its theorem at a concrete command line.
use cpp_tricks.Prelude.{◌≡◌, refl, true, false, [], ◌∷◌, none, some, arith}
use cpp_tricks.Prelude.Text.{codes}
use cpp_tricks.Elements.Node.{Element, element, nil, cons, descend, children, get}
use cpp_tricks.Autocomplete.{complete, autocomplete}
use cpp_tricks.Autocomplete.Options.{child_names, prefixed}
use cpp_tricks.Autocomplete.Laws.{command_line, complete_lem}

abbrev root : Element
root = element [] (
    cons (element (codes "get") nil) (
      cons (element (codes "say") nil)
        (cons (element (codes "show") (cons (element (codes "dir") nil) nil)) nil)))

completes_first : complete root (codes "prog s") ≡ codes "say" ∷ codes "show" ∷ []
unfolding complete get
completes_first = refl

completes_next : complete root (codes "prog show ") ≡ codes "dir" ∷ []
unfolding complete get
completes_next = refl

completes_unknown : complete root (codes "prog none ") ≡ []
unfolding complete get
completes_unknown = refl

not_asked : autocomplete (λ s. 9) root none (codes "prog s") ≡ (false, [])
unfolding autocomplete get
not_asked = refl

asked : autocomplete (λ s. 9) root (some (codes "9")) (codes "prog g") ≡ (true, codes "get" ∷ [])
unfolding autocomplete get
asked = refl

complete_lem_example :
    complete root (command_line (codes "prog") (codes "show" ∷ []) (codes "d"))
    ≡ elim (descend (codes "show" ∷ []) root) [
      | none ↦ []
      | some e ↦ prefixed (codes "d") (child_names (children e))
    ]
complete_lem_example =
    complete_lem root (codes "prog") (codes "d") (codes "show" ∷ []) (ground arith) (ground arith)
      (ground arith) (ground arith)
