-- ===== src/Errors/Laws.antt =====
-- What the error and the stack promise.
use mathlib.Core.List.{reverse, reverse-cons, reverse-reverse}
use cpp_tricks.Prelude.{
  ℕ, suc, ◌+◌, ◌≡◌, refl, sym, ap, ◌∙◌, ◌↔◌, true, false, List, [], ◌∷◌, ◌++◌, append_assoc, length,
  length-append, arith,
}
use cpp_tricks.Prelude.Text.{Text, codes, is_empty, eq_of_same_text, same_text_refl}
use cpp_tricks.Errors.Error.{Error, equal}
use cpp_tricks.Errors.Error
use cpp_tricks.Errors.Stack.{ErrorStack, new, push, clear, top, back, size, line, lines, to_string}
use cpp_tricks.Errors.Stack

-- Two errors are equal for `operator==` exactly when their codes and their tags are equal; the
-- descriptions are not compared.
pub equal_iff : (a b : Error) → (equal a b ≡ true) ↔ ((a.code_ ≡ b.code_) × (a.tag_ ≡ b.tag_))
unfolding equal
equal_iff a b = (
  (λ h. ground (arith, eq_of_same_text a.tag_ b.tag_)),
  (λ h. ground (arith, same_text_refl b.tag_)),
)

-- `to_string` against a description of its own: the lines, numbered from 1, with separators between.
unfoldable pub numbered : ℕ → List Error → List Text
numbered n [] = []
numbered n (e ∷ es) = line n e ∷ numbered (n + 1) es

unfoldable pub join : Text → List Text → Text
join sep [] = []
join sep (t ∷ []) = t
join sep (t ∷ (u ∷ r)) = t ++ (sep ++ join sep (u ∷ r))

is_empty-append : (s t : Text) → is_empty t ≡ false → is_empty (s ++ t) ≡ false
is_empty-append [] t h = h
is_empty-append (c ∷ s) t h = refl

line-ne-nil : (n : ℕ) (e : Error) → is_empty (line n e) ≡ false
unfolding line
line-ne-nil n e = refl

join-cons :
    (sep t : Text) (n : ℕ) (e : Error) (es : List Error)
    → join sep (t ∷ numbered n (e ∷ es)) ≡ t ++ (sep ++ join sep (numbered n (e ∷ es)))
unfolding join numbered
join-cons sep t n e es = refl

lines-join :
    (out : Text) (n : ℕ) (es : List Error)
    → is_empty out ≡ false
    → lines out n es ≡ join (codes "\n") (out ∷ numbered n es)
unfolding lines join numbered
lines-join out n [] h = refl
lines-join out n (e ∷ []) h = rw (h, append_assoc)
lines-join out n (e ∷ (f ∷ es)) h =
    let m = line n e in
    let out' = (out ++ codes "\n") ++ m in
    rw h (
      lines-join out' (n + 1) (f ∷ es) (is_empty-append (out ++ codes "\n") m (line-ne-nil n e))
      ∙ (append_assoc (out ++ codes "\n") m _ ∙ append_assoc out (codes "\n") _))

-- The text of a stack is the lines of its items from the bottom to the top, each with its number
-- from 1 in brackets, separated by newlines.
pub to_string_lem : (s : ErrorStack) → to_string s ≡ join (codes "\n") (numbered 1 s.items_)
unfolding to_string lines numbered join
to_string_lem s = go s.items_
  where
    go : (es : List Error) → lines [] 1 es ≡ join (codes "\n") (numbered 1 es)
    go [] = refl
    go (e ∷ es) = lines-join (line 1 e) (1 + 1) es (line-ne-nil 1 e)

-- The calls that change a stack, one after another.
pub data Call : Type 0 where
  pushes : Error → Call
  clears : Call

unfoldable pub run : ErrorStack → List Call → ErrorStack
unfolding push clear
run s [] = s
run s (pushes e ∷ cs) = run (push s e) cs
run s (clears ∷ cs) = run (clear s) cs

-- The errors that are left of a history, whose latest call stands first: those pushed since the
-- latest `clear`, the newest first, and `es` if there was none.
unfoldable pub latest : List Error → List Call → List Error
latest es [] = es
latest es (pushes e ∷ cs) = e ∷ latest es cs
latest es (clears ∷ cs) = []

-- What a client sees of a stack that holds these errors, the newest first.
abbrev pub Sees : ErrorStack → List Error → Type 0
Sees s [] = (Stack.empty s ≡ true) × (size s ≡ 0) × (top s ≡ Error.none_error)
Sees s (e ∷ es) = (Stack.empty s ≡ false) × (size s ≡ suc (length es)) × (top s ≡ e)

run-append : (s : ErrorStack) (cs ds : List Call) → run s (cs ++ ds) ≡ run (run s cs) ds
unfolding run
run-append s [] ds = refl
run-append s (pushes e ∷ cs) ds = run-append (push s e) cs ds
run-append s (clears ∷ cs) ds = run-append (clear s) cs ds

items-run :
    (s : ErrorStack) (cs : List Call)
    → (run s (reverse cs)).items_ ≡ reverse (latest (reverse s.items_) cs)
unfolding run latest push clear
items-run s [] = sym (reverse-reverse s.items_)
items-run s (pushes e ∷ cs) = rw (reverse-cons, run-append) (rw (items-run s cs, reverse-cons))
items-run s (clears ∷ cs) = rw (reverse-cons, run-append)

back-append : (e f : Error) (es : List Error) → back e (es ++ (f ∷ [])) ≡ f
unfolding back
back-append e f [] = refl
back-append e f (g ∷ es) = back-append g f es

length-reverse : (es : List Error) → length (reverse es) ≡ length es
length-reverse [] = refl
length-reverse (e ∷ es) =
    rw (reverse-cons e es) (omega (arith, length-append (reverse es) (e ∷ []), length-reverse es))

snoc_view :
    (s : ErrorStack) (xs : List Error) (e : Error)
    → s.items_ ≡ xs ++ (e ∷ [])
    → (Stack.empty s ≡ false) × (size s ≡ suc (length xs)) × (top s ≡ e)
unfolding Stack.empty size top
snoc_view s [] e h = (rw (h, Stack.empty), rw (h, size), rw (h, top, back))
snoc_view s (x ∷ xs) e h = (
  rw (h, Stack.empty),
  rw (h, size) (omega (arith, length-append xs (e ∷ []))),
  rw (h, top) (back-append x e xs),
)

Sees-items : (s : ErrorStack) (es : List Error) → s.items_ ≡ reverse es → Sees s es
unfolding Stack.empty size top
Sees-items s [] h = (rw (h, Stack.empty), rw (h, size), rw (h, top))
Sees-items s (e ∷ es) h =
    let m = snoc_view s (reverse es) e (h ∙ reverse-cons e es) in
    (m.0, m.1 ∙ ap suc (length-reverse es), m.2)

-- After any history of pushes and clears on a new stack, `empty`, `size` and `top` show the errors
-- pushed since the latest clear: `size` counts them, `top` is the newest of them, and where there is
-- none `empty` is true and `top` is the empty error. (The history is listed latest call first.)
pub run-Sees : (cs : List Call) → Sees (run new (reverse cs)) (latest [] cs)
unfolding new
run-Sees cs = Sees-items (run new (reverse cs)) (latest [] cs) (items-run new cs)
