-- ===== src/Elements/Lookup.antt =====
-- `get` finds what `path` names.
use mathlib.Core.List.{reverse, reverse-cons, reverse-reverse}
use cpp_tricks.Prelude.{
  ℕ, ◌≡◌, refl, sym, ap, ◌∙◌, append_assoc, append-nil, inl, inr, true, false, List, [], ◌∷◌, ◌++◌,
  none, some, Option-cases, All, All-imp, arith, ◌==◌, if◌then◌else◌,
}
use cpp_tricks.Prelude.Text.{Text, is_empty}
use cpp_tricks.Elements.Node.{
  Element, element, Pointer, find_child, descend, getlines, get_loop, get, path,
}
use cpp_tricks.Elements.Shape.{has, is_some, path_lem}

-- A name that `get` can look up: not empty, and without the separator.
abbrev pub IsName : ℕ → Text → Type 0
IsName c n = (is_empty n ≡ false) × All (λ d. (d == c) ≡ false) n

-- Each name behind a separator.
unfoldable pub slashed : ℕ → List Text → Text
slashed c [] = []
slashed c (n ∷ ns) = c ∷ (n ++ slashed c ns)

pub getlines-append :
    (c : ℕ) (item n s : Text)
    → All (λ d. (d == c) ≡ false) n
    → getlines c item (n ++ s) ≡ getlines c (item ++ n) s
unfolding getlines
getlines-append c item [] s h = ap (λ (t : Text). getlines c t s) (sym (append-nil item))
getlines-append c item (d ∷ n) s h = rw h.0 (
    getlines-append c (item ++ (d ∷ [])) n s h.1
    ∙ ap (λ (t : Text). getlines c t s) (append_assoc item (d ∷ []) n))

pub getlines-slashed :
    (c : ℕ) (n : Text) (ns : List Text)
    → is_empty n ≡ false
    → All (IsName c) ns
    → getlines c n (slashed c ns) ≡ n ∷ ns
unfolding getlines slashed
getlines-slashed c n [] h k = rw h
getlines-slashed c n (m ∷ ns) h k = rw (self c) (
    ap (λ (l : List Text). n ∷ l)
      (getlines-append c [] m (slashed c ns) k.0.1 ∙ getlines-slashed c m ns k.0.0 k.1))
  where
    self : (d : ℕ) → (d == d) ≡ true
    self d = ground arith

-- Splitting at the separators gives the names back, behind an empty item.
pub getlines_lem :
    (c : ℕ) (n : Text) (ns : List Text)
    → All (IsName c) (n ∷ ns)
    → getlines c [] (slashed c (n ∷ ns)) ≡ [] ∷ n ∷ ns
unfolding getlines slashed
getlines_lem c n ns h = rw (self c) (
    ap (λ (l : List Text). [] ∷ l)
      (getlines-append c [] n (slashed c ns) h.0.1 ∙ getlines-slashed c n ns h.0.0 h.1))
  where
    self : (d : ℕ) → (d == d) ≡ true
    self d = ground arith

get_loop_lem :
    (e : Element) (ptr : Pointer) (ns : List Text)
    → All (λ n. is_empty n ≡ false) ns
    → get_loop e ptr ns ≡ (if has e ns then some (reverse ns ++ ptr) else none)
unfolding get_loop has descend
get_loop_lem e ptr [] h = refl
get_loop_lem (element k cs) ptr (n ∷ ns) h = rw h.0 (elim (Option-cases (find_child n cs)) [
  | inl f ↦ rw (f, get_loop, descend)
  | inr (c, f) ↦
      rw (f, get_loop, descend)
        (get_loop_lem c (n ∷ ptr) ns h.1
          ∙ ap (λ (l : List Text). if is_some (descend ns c) then some l else none)
              (sym (
                ap (λ (l : List Text). l ++ ptr) (reverse-cons n ns)
                ∙ append_assoc (reverse ns) (n ∷ []) ptr)))
])

-- From a pointer into the tree, `get` of a list of names, not empty and without slashes, each behind a
-- slash, finds the element
-- that they lead to, and gives the null pointer exactly if there is none.
pub get_lem :
    (root e : Element) (up : Pointer) (ns : List Text)
    → descend (reverse up) root ≡ some e
    → All (IsName b'/') ns
    → get root up (slashed b'/' ns) ≡ (if has e ns then some (reverse ns ++ up) else none)
unfolding get
get_lem root e up [] h k = rw (h, get) (unfold slashed getlines get_loop has descend in refl)
get_lem root e up (n ∷ ns) h k =
    rw (h, get, getlines_lem b'/' n ns k)
      (get_loop_lem e up (n ∷ ns) (All-imp (λ m p. p.0) (n ∷ ns) k))

-- `get` from the root, at the path of an element of the tree whose names, from the root on, are not
-- empty and have no slashes, gives that element's pointer.
pub get-path :
    (root : Element) (up : Pointer)
    → has root (path up) ≡ true
    → All (IsName b'/') (path up)
    → get root [] (slashed b'/' (path up)) ≡ some up
unfolding descend
get-path root up h k =
    get_lem root root [] (path up) refl k
    ∙ rw (h, append-nil (reverse (path up)), path_lem up, reverse-reverse up)
