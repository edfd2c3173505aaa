-- ===== src/Json/Sample.antt =====
-- A library that keeps the items of its nodes, and makes one null value and one object.
use cpp_tricks.Prelude.{
  ℕ, suc, ◌+◌, ◌≤◌, ◌<◌, ◌≡◌, refl, true, ◌&&◌, List, [], ◌∷◌, ◌++◌, map, none, some, length,
  one_if, ◌==◌, leb, arith, if◌then◌else◌, inl, inr, Bool-cases,
}
use cpp_tricks.Prelude.Int.{pos}
use cpp_tricks.Prelude.Text.{Text}
use cpp_tricks.Json.{Kind, cjson_null, cjson_object, cjson_array, Cjson}
use cpp_tricks.Json.Library.{
  Item, IsLibrary, count_node, find_key, has_key, find_folded, without_key, same_key,
}

unfoldable pub lower : ℕ → ℕ
lower c = if leb 65 c && leb c 90 then c + 32 else c

abbrev pub folded : Text → Text
folded = map lower

pub record Nodes : Type 0 where
  pub kinds : ℕ → Kind
  pub items : ℕ → List Item
  pub once : (p x : ℕ) → count_node x (items p) ≤ 1
  pub outside : (p : ℕ) → count_node p (items p) ≡ 0

abbrev pub total : List Item → ℕ
total [] = 0
total (i ∷ l) = i.node + total l

-- A number that is none of the nodes.
pub count_large : (x : ℕ) (l : List Item) → total l < x → count_node x l ≡ 0
count_large x [] h = refl
count_large x (i ∷ l) h = ground (arith, count_large x l (omega arith))

abbrev pub new_node : ℕ → List Item → ℕ
new_node p l = suc (p + total l)

pub count_last :
    (x : ℕ) (l : List Item) (i : Item)
    → count_node x (l ++ (i ∷ [])) ≡ count_node x l + one_if (x == i.node)
count_last x [] i = omega arith
count_last x (j ∷ l) i = omega (arith, count_last x l i)

pub count_without :
    (k : Text) (x : ℕ) (l : List Item) → count_node x (without_key folded k l) ≤ count_node x l
count_without k x [] = omega arith
count_without k x (i ∷ l) = elim (Bool-cases (same_key folded i.key k)) [
  | inl e ↦ rw e (omega arith)
  | inr e ↦ rw e (omega (arith, count_without k x l))
]

abbrev pub update : (ℕ → List Item) → ℕ → List Item → ℕ → List Item
update f p l q = if p == q then l else f q

-- Other items for one node.
unfoldable pub change :
    (h : Nodes) (p : ℕ) (l : List Item)
    → ((x : ℕ) → count_node x l ≤ 1)
    → count_node p l ≡ 0
    → (ℕ → Kind)
    → Nodes
change h p l once outside kinds = record {
  kinds = kinds;
  items = update h.items p l;
  once = λ q x. elim (Bool-cases (p == q)) [ inl e ↦ rw e (once x) | inr e ↦ rw e (h.once q x) ];
  outside = λ q. elim (Bool-cases (p == q)) [
    | inl e ↦ rw e (subst_count p q l outside (ground arith))
    | inr e ↦ rw e (h.outside q)
  ];
}
  where
    subst_count : (p q : ℕ) (l : List Item) → count_node p l ≡ 0 → p ≡ q → count_node q l ≡ 0
    subst_count p q l h e = rw (← e) h

unfoldable pub add_item : ℕ → Text → Nodes → Nodes
unfolding change
add_item p k h =
    let l = h.items p in
    let i : Item = record { key = k; node = new_node p l } in
    let new = count_large (new_node p l) l (omega arith) in
    change h p (l ++ (i ∷ []))
      (λ x. elim (Bool-cases (x == new_node p l)) [
        | inl e ↦ ground (arith, count_last x l i, new)
        | inr e ↦ ground (arith, count_last x l i, h.once p x)
      ])
      (ground (arith, count_last p l i, h.outside p)) h.kinds

unfoldable pub detach_item : ℕ → Text → Nodes → Nodes
unfolding change
detach_item p k h =
    let l = h.items p in
    change h p (without_key folded k l) (λ x. omega (arith, count_without k x l, h.once p x))
      (omega (arith, count_without k p l, h.outside p)) h.kinds

unfoldable pub make : ℕ → Kind → Nodes → Nodes
unfolding change
make p k h = change h p [] (λ x. omega arith) refl (λ q. if p == q then k else h.kinds q)

abbrev pub toy : Cjson Nodes
toy = record {
  parse = λ t h. (some 1, add_item 1 t (make 1 cjson_object h));
  minify = λ t. t;
  create_null = λ h. (0, make 0 cjson_null h);
  create_true = λ h. (0, h);
  create_false = λ h. (0, h);
  create_number = λ n h. (0, h);
  create_string = λ t h. (0, h);
  create_array = λ h. (2, make 2 cjson_array h);
  create_object = λ h. (1, make 1 cjson_object h);
  delete = λ p h. h;
  kind = λ h p. h.kinds p;
  child = λ h p. none;
  next = λ h p. none;
  prev = λ h p. none;
  string = λ h p. none;
  valuestring = λ h p. [];
  valueint = λ h p. pos 0;
  put_kind = λ p k h. h;
  set_valuestring = λ p t h. h;
  set_number = λ p n h. h;
  compare = λ h p q. p == q;
  has_object_item = λ h p k. has_key folded k (h.items p);
  get_object_item_case_sensitive = λ h p k. find_key k (h.items p);
  get_array_item = λ h p i. find_key [] (h.items p);
  get_array_size = λ h p. length (h.items p);
  add_item_reference_to_array = λ p q h. add_item p [] h;
  add_item_reference_to_object = λ p k q h. add_item p k h;
  detach_item_from_array = λ p i h. (find_key [] (h.items p), detach_item p [] h);
  detach_item_from_object = λ p k h. (find_folded folded k (h.items p), detach_item p k h);
  print = λ h p. [];
  print_unformatted = λ h p. [];
}

pub same_self : (p : ℕ) → (p == p) ≡ true
same_self p = ground arith

unfoldable pub toy_is : IsLibrary toy
unfolding add_item detach_item make change
toy_is = record {
  items = λ h p. h.items p;
  fold = folded;
  has_lem = λ h p k. refl;
  get_lem = λ h p k. refl;
  once_lem = λ h p x. h.once p x;
  outside_lem = λ h p. h.outside p;
  add_lem = λ h p q k. (
    new_node p (h.items p),
    rw (same_self p),
    count_large (new_node p (h.items p)) (h.items p) (omega arith),
    refl,
  );
  detach_lem = λ h p k. (refl, rw (same_self p), refl);
  delete_lem = λ h p x apart gone. (refl, refl);
  create_lem = λ h. (refl, refl, λ e. absurd (omega (arith, e)));
}
