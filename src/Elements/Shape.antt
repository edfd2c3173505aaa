-- ===== src/Elements/Shape.antt =====
-- The sets of children stay sets, and `add` adds one element and no other.
use mathlib.Core.Option
use mathlib.Core.List.{reverse, reverse-cons}
use cpp_tricks.Prelude.{
  ◌≡◌, refl, sym, ◌∙◌, append_assoc, append-nil, ap, subst, inl, inr, Bool, true, false, ◌&&◌, ◌||◌,
  List, [], ◌∷◌, ◌++◌, Option, none, some, Option-cases, arith, if◌then◌else◌, Bool-cases,
}
use cpp_tricks.Prelude.Text.{Text, same_text, eq_of_same_text, same_text_refl}
use cpp_tricks.Order.{lt, nat_less, list_less}
use cpp_tricks.Elements.Node.{
  Element, Children, element, nil, cons, children, emplace, find_child, descend, modify_child,
  modify, with_children, add, path, path_loop, Pointer,
}

-- Every name is above `n`.
abbrev pub AllAbove : Text → Children → Type 0
AllAbove n nil = Unit
AllAbove n (cons (element m ds) cs) = (lt n m ≡ true) × AllAbove n cs

-- The children of every element are in strictly increasing order of their names.
abbrev pub AreSet : Children → Type 0
AreSet nil = Unit
AreSet (cons (element m ds) cs) = AllAbove m cs × AreSet ds × AreSet cs

abbrev pub IsTree : Element → Type 0
IsTree (element n cs) = AreSet cs

AllAbove-trans : (n m : Text) (cs : Children) → lt n m ≡ true → AllAbove m cs → AllAbove n cs
AllAbove-trans n m nil h k = tt
AllAbove-trans n m (cons (element l ds) cs) h k =
    (list_less.trans n m l h k.0, AllAbove-trans n m cs h k.1)

emplace-AllAbove :
    (n m : Text) (cs : Children) → lt n m ≡ true → AllAbove n cs → AllAbove n (emplace m cs)
unfolding emplace
emplace-AllAbove n m nil h k = (h, tt)
emplace-AllAbove n m (cons (element l ds) cs) h k = ground (arith, emplace-AllAbove n m cs h k.1)

emplace-AreSet : (n : Text) (cs : Children) → AreSet cs → AreSet (emplace n cs)
unfolding emplace
emplace-AreSet n nil h = (tt, tt, tt)
emplace-AreSet n (cons (element m ds) cs) h =
    ground (arith, emplace-AreSet n cs, emplace-AllAbove m n cs, AllAbove-trans n m cs)

lt_irrefl : (n : Text) → lt n n ≡ false
lt_irrefl n = list_less.irrefl n

lt_differs : (n m : Text) → lt n m ≡ true → (same_text n m ≡ false) × (same_text m n ≡ false)
lt_differs n m h = (
  go n m h,
  elim (Bool-cases (same_text m n)) [
    | inl e ↦ cc (h, ap (λ (l : Text). lt l m) (eq_of_same_text m n e), lt_irrefl m)
    | inr e ↦ e
  ],
)
  where
    go : (k l : Text) → lt k l ≡ true → same_text k l ≡ false
    go k l g = elim (Bool-cases (same_text k l)) [
      | inl e ↦ cc (g, ap (λ (x : Text). lt x l) (eq_of_same_text k l e), lt_irrefl l)
      | inr e ↦ e
    ]

same_of_not_lt : (n m : Text) → lt n m ≡ false → lt m n ≡ false → n ≡ m
same_of_not_lt n m h k = list_less.connex n m h k

find_child_above : (n : Text) (cs : Children) → AllAbove n cs → find_child n cs ≡ none
unfolding find_child
find_child_above n nil h = refl
find_child_above n (cons (element m ds) cs) h =
    rw ((lt_differs n m h.0).0) (find_child_above n cs h.1)

-- A new child if there was none of this name.
abbrev or_new : Text → Option Element → Element
or_new n none = element n nil
or_new n (some e) = e

find_child-emplace :
    (n m : Text) (cs : Children)
    → AreSet cs
    → find_child m (emplace n cs)
      ≡ (if same_text m n then some (or_new n (find_child n cs)) else find_child m cs)
unfolding find_child emplace
find_child-emplace n m nil h = refl
find_child-emplace n m (cons (element l ds) cs) h = elim (Bool-cases (lt n l)) [
  | inl e ↦ rw e (rw ((lt_differs n l e).0, find_child_above n cs (AllAbove-trans n l cs e h.0)))
  | inr e ↦ rw e (elim (Bool-cases (lt l n)) [
    | inl f ↦
        rw (f, (lt_differs l n f).1)
          (ground (
            arith,
            find_child-emplace n m cs h.2,
            lt_differs l n f,
            eq_of_same_text m n,
            eq_of_same_text m l,
          ))
    | inr f ↦ rw (f, same_of_not_lt n l e f, same_text_refl l) (ground (arith))
  ])
]

-- `has e down`: the names `down` lead from `e` to an element.
abbrev pub is_some {ℓ} : {A : Type ℓ} → Option A → Bool
is_some none = false
is_some (some a) = true

unfoldable pub has : Element → List Text → Bool
has e down = is_some (descend down e)

abbrev pub same_path : List Text → List Text → Bool
same_path [] [] = true
same_path [] (n ∷ ns) = false
same_path (m ∷ ms) [] = false
same_path (m ∷ ms) (n ∷ ns) = same_text m n && same_path ms ns

has-new : (n : Text) (down : List Text) → has (element n nil) down ≡ same_path down []
unfolding has descend find_child
has-new n [] = refl
has-new n (m ∷ down) = refl

find_child-modify :
    (n m : Text) (f : Children → Children) (cs : Children)
    → find_child m (modify_child n f cs)
      ≡ (if same_text m n then Option.map (with_children f) (find_child m cs) else find_child m cs)
unfolding find_child modify_child
find_child-modify n m f nil = ground arith
find_child-modify n m f (cons (element l ds) cs) = elim (Bool-cases (same_text n l)) [
  | inl e ↦ rw e (
      rw (eq_of_same_text n l e)
        (elim (Bool-cases (same_text m l)) [ inl g ↦ rw g | inr g ↦ rw g ]))
  | inr e ↦ rw e (elim (Bool-cases (same_text m l)) [
    | inl g ↦ rw (eq_of_same_text m l g) (
        rw same_text_refl (elim (Bool-cases (same_text l n)) [
          | inl k ↦ cc (e, same_text_refl n, ap (same_text n) (eq_of_same_text l n k))
          | inr k ↦ rw k
        ]))
    | inr g ↦ rw g (find_child-modify n m f cs)
  ])
]

-- What the paths below an optional child are.
abbrev pub below : Option Element → List Text → Bool
below none q = false
below (some c) q = has c q

pub has-cons :
    (k : Text) (cs : Children) (m : Text) (q : List Text)
    → has (element k cs) (m ∷ q) ≡ below (find_child m cs) q
unfolding has descend
has-cons k cs m q = elim (Option-cases (find_child m cs)) [
  | inl e ↦ rw (e, descend)
  | inr (c, e) ↦ rw (e, descend)
]

or_false : (b c : Bool) → b ≡ (b || (c && false))
or_false true c = refl
or_false false true = refl
or_false false false = refl

has-or_new :
    (n : Text) (o : Option Element) (q : List Text)
    → has (or_new n o) q ≡ (below o q || same_path q [])
unfolding has descend
has-or_new n none q = has-new n q
has-or_new n (some c) [] = refl
has-or_new n (some c) (m ∷ q) = or_false (has c (m ∷ q)) true

abbrev kids : Option Element → Children
kids none = nil
kids (some e) = children e

find_child-AreSet :
    (n : Text) (cs : Children) {m : Text} {ds : Children}
    → AreSet cs
    → find_child n cs ≡ some (element m ds)
    → AreSet ds
unfolding find_child
find_child-AreSet n nil h e = cc
find_child-AreSet n (cons (element l es) cs) {m} {ds} h e = elim (Bool-cases (same_text n l)) [
  | inl g ↦ subst AreSet (ap kids (rw g at e)) h.1
  | inr g ↦ find_child-AreSet n cs h.2 (rw g at e)
]

-- `emplace` at the element that `down` leads to adds that path, if there is such an element, and
-- no other.
has-modify :
    (down : List Text) (n k : Text) (cs : Children) (q : List Text)
    → AreSet cs
    → has (element k (modify down (emplace n) cs)) q
      ≡ (has (element k cs) q || (has (element k cs) down && same_path q (down ++ (n ∷ []))))
unfolding modify
has-modify [] n k cs [] h = unfold has descend in refl
has-modify (l ∷ down) n k cs [] h = unfold has descend in refl
has-modify [] n k cs (m ∷ q) h =
    rw (has-cons k (emplace n cs), has-cons k cs m q, find_child-emplace n m cs h)
      (unfold has descend in
        elim (Bool-cases (same_text m n)) [
          | inl e ↦ rw (eq_of_same_text m n e, same_text_refl n) (has-or_new n (find_child n cs) q)
          | inr e ↦ rw e (or_false (below (find_child m cs) q) true)
        ])
has-modify (l ∷ down) n k cs (m ∷ q) h =
    rw (has-cons k cs m q, has-cons k cs l down)
      (has-cons k (modify_child l (modify down (emplace n)) cs) m q
        ∙ rw (find_child-modify l m) (elim (Bool-cases (same_text m l)) [
          | inl e ↦
              rw (eq_of_same_text m l e, same_text_refl l)
                (elim (Option-cases (find_child l cs)) [
                  | inl f ↦ rw f
                  | inr (element k' ds, f) ↦
                      rw f (has-modify down n k' ds q (find_child-AreSet l cs h f))
                ])
          | inr e ↦ rw e (or_false (below (find_child m cs) q) (below (find_child l cs) down))
        ]))

modify_child-AreSet :
    (n : Text) (f : Children → Children) (cs : Children)
    → ((ds : Children) → AreSet ds → AreSet (f ds))
    → AreSet cs
    → AreSet (modify_child n f cs)
unfolding modify_child
modify_child-AreSet n f nil k h = tt
modify_child-AreSet n f (cons (element m ds) cs) k h = elim (Bool-cases (same_text n m)) [
  | inl e ↦ rw e (h.0, k ds h.1, h.2)
  | inr e ↦ rw e (above m cs h.0, h.1, modify_child-AreSet n f cs k h.2)
]
  where
    above : (l : Text) (es : Children) → AllAbove l es → AllAbove l (modify_child n f es)
    above l nil g = tt
    above l (cons (element o es) fs) g = elim (Bool-cases (same_text n o)) [
      | inl e ↦ rw e g
      | inr e ↦ rw e (g.0, above l fs g.1)
    ]

modify-AreSet :
    (down : List Text) (n : Text) (cs : Children) → AreSet cs → AreSet (modify down (emplace n) cs)
unfolding modify
modify-AreSet [] n cs h = emplace-AreSet n cs h
modify-AreSet (m ∷ down) n cs h =
    modify_child-AreSet m (modify down (emplace n)) cs (modify-AreSet down n) h

path_loop_lem : (out up : List Text) → path_loop out up ≡ reverse up ++ out
unfolding path_loop
path_loop_lem out [] = refl
path_loop_lem out (n ∷ up) =
    path_loop_lem (n ∷ out) up
    ∙ sym (
        ap (λ (l : List Text). l ++ out) (reverse-cons n up)
        ∙ append_assoc (reverse up) (n ∷ []) out)

-- `path` is the way from the root.
pub path_lem : (up : Pointer) → path up ≡ reverse up
unfolding path
path_lem up = path_loop_lem [] up ∙ append-nil (reverse up)

-- In a tree where the names of all children are distinct and in order, `ptr->add( name )` keeps the names of all children distinct and in order. It gives a pointer to the
-- child, which is in the tree if `ptr` was. An element is in the tree after the call exactly if it
-- was there before, or it is that child and `ptr` was there.
pub add_lem :
    (root : Element) (up : Pointer) (n : Text) (q : List Text)
    → IsTree root
    → let r = add root up n in
      IsTree r.0
      × (path r.1 ≡ path up ++ (n ∷ []))
      × (has r.0 q ≡ (has root q || (has root (path up) && same_path q (path r.1))))
unfolding add path
add_lem (element k cs) up n q h =
    let p : path (n ∷ up) ≡ path up ++ (n ∷ []) =
      rw (path_lem (n ∷ up), path_lem up) (reverse-cons n up) in
    let m = has-modify (reverse up) n k cs q h in
    (modify-AreSet (reverse up) n cs h, p, rw (p, path_lem up) m)
