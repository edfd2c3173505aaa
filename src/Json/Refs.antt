-- ===== src/Json/Refs.antt =====
-- The sets of references: `std::set` keeps one reference for a node that is new.
use cpp_tricks.Prelude.{
  ℕ, ◌+◌, ◌≤◌, ◌≡◌, true, false, List, [], ◌∷◌, Option, none, some, length, one_if, count_if, ◌==◌,
  arith, inl, inr, Bool-cases,
}
use cpp_tricks.Json.{Ref, is_node, node_less, less, ref_less, insert_ref, find_ref, erase_ref}

-- How many references are for a node.
abbrev pub count_ref : ℕ → List Ref → ℕ
count_ref x l = count_if (λ r. is_node x r.node) l

-- References that are neither less nor greater are for the same node.
same_node :
    (a : Ref) (n : Option ℕ) (x : ℕ)
    → a.node ≡ some x
    → node_less a.node n ≡ false
    → node_less n a.node ≡ false
    → is_node x n ≡ true
same_node a none x e h k = ground (arith, e)
same_node a (some y) x e h k = ground (arith, e)

less_same :
    (a b : Ref) (x : ℕ)
    → a.node ≡ some x
    → ref_less a b ≡ false
    → ref_less b a ≡ false
    → is_node x b.node ≡ true
unfolding ref_less less
less_same a b x e h k = same_node a b.node x e (ground arith) (ground arith)

module _ (r : Ref) (x : ℕ) (is_x : r.node ≡ some x) where
  pub length-insert_ref :
      (l : List Ref) → count_ref x l ≡ 0 → length (insert_ref r l) ≡ length l + 1
  unfolding insert_ref
  length-insert_ref [] h = omega arith
  length-insert_ref (y ∷ l) h = elim (Bool-cases (ref_less r y)) [
    | inl a ↦ rw a (omega arith)
    | inr a ↦ elim (Bool-cases (ref_less y r)) [
      | inl b ↦ rw (a, b) (omega (arith, length-insert_ref l (omega arith)))
      | inr b ↦ absurd (ground (arith, less_same r y x is_x a b))
    ]
  ]

  pub count-insert_ref :
      (z : ℕ) (l : List Ref)
      → count_ref x l ≡ 0
      → count_ref z (insert_ref r l) ≡ count_ref z l + one_if (z == x)
  unfolding insert_ref
  count-insert_ref z [] h = ground (arith, is_x)
  count-insert_ref z (y ∷ l) h = elim (Bool-cases (ref_less r y)) [
    | inl a ↦ rw a (ground (arith, is_x))
    | inr a ↦ elim (Bool-cases (ref_less y r)) [
      | inl b ↦ rw (a, b) (omega (arith, count-insert_ref z l (omega arith)))
      | inr b ↦ absurd (ground (arith, less_same r y x is_x a b))
    ]
  ]

  pub find-insert_ref : (l : List Ref) → count_ref x l ≡ 0 → find_ref x (insert_ref r l) ≡ some r
  unfolding insert_ref find_ref
  find-insert_ref [] h = ground (arith, is_x)
  find-insert_ref (y ∷ l) h = elim (Bool-cases (ref_less r y)) [
    | inl a ↦ rw a (ground (arith, is_x))
    | inr a ↦ elim (Bool-cases (ref_less y r)) [
      | inl b ↦ rw (a, b) (ground (arith, find-insert_ref l (omega arith)))
      | inr b ↦ absurd (ground (arith, less_same r y x is_x a b))
    ]
  ]

pub erase_ref_lem :
    (x z : ℕ) (l : List Ref)
    → 1 ≤ count_ref x l
    → (length (erase_ref x l) + 1 ≡ length l)
      × (count_ref z (erase_ref x l) + one_if (z == x) ≡ count_ref z l)
unfolding erase_ref
erase_ref_lem x z [] h = absurd (omega arith)
erase_ref_lem x z (y ∷ l) h = elim (Bool-cases (is_node x y.node)) [
  | inl e ↦ rw e (omega arith, at_node y.node e)
  | inr e ↦ let (a, b) = erase_ref_lem x z l (ground arith) in rw e (omega arith, omega arith)
]
  where
    at_node :
        (n : Option ℕ)
        → is_node x n ≡ true
        → count_ref z l + one_if (z == x) ≡ one_if (is_node z n) + count_ref z l
    at_node none e = cc
    at_node (some q) e = ground arith
