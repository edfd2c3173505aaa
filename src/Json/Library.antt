-- ===== src/Json/Library.antt =====
-- What the cJSON library documents of objects: a list of items, each a key and a node.
use cpp_tricks.Prelude.{
  ℕ, ◌+◌, ◌≤◌, ◌≡◌, ◌≢◌, refl, ap, sym, ◌∙◌, Bool, true, false, ◌||◌, List, [], ◌∷◌, ◌++◌, Option,
  none, some, length, one_if, count_if, ◌==◌, arith, if◌then◌else◌, inl, inr, Bool-cases,
}
use cpp_tricks.Prelude.Text.{Text, same_text, eq_of_same_text, same_text_refl}
use cpp_tricks.Json.{cjson_object, Cjson}

pub record Item : Type 0 where
  pub key : Text
  pub node : ℕ

-- How many items are the node.
abbrev pub count_node : ℕ → List Item → ℕ
count_node x l = count_if (λ i. x == i.node) l

-- The first item of a key.
abbrev pub find_key : Text → List Item → Option ℕ
find_key k [] = none
find_key k (i ∷ l) = if same_text i.key k then some i.node else find_key k l

module _ (fold : Text → Text) where
  -- Keys that are the same but for case.
  abbrev pub same_key : Text → Text → Bool
  same_key a b = same_text (fold a) (fold b)

  abbrev pub has_key : Text → List Item → Bool
  has_key k [] = false
  has_key k (i ∷ l) = same_key i.key k || has_key k l

  abbrev pub find_folded : Text → List Item → Option ℕ
  find_folded k [] = none
  find_folded k (i ∷ l) = if same_key i.key k then some i.node else find_folded k l

  abbrev pub without_key : Text → List Item → List Item
  without_key k [] = []
  without_key k (i ∷ l) = if same_key i.key k then l else i ∷ without_key k l

  -- No two items have the same key.
  abbrev pub IsDistinct : List Item → Type 0
  IsDistinct [] = Unit {0}
  IsDistinct (i ∷ l) = (has_key i.key l ≡ false) × IsDistinct l

  pub has_key-append :
      (k : Text) (l m : List Item) → has_key k (l ++ m) ≡ (has_key k l || has_key k m)
  has_key-append k [] m = refl
  has_key-append k (i ∷ l) m = ground (arith, has_key-append k l m)

  same_key_sym : (a b : Text) → same_key a b ≡ false → same_key b a ≡ false
  same_key_sym a b h = elim (Bool-cases (same_key b a)) [
    | inr e ↦ e
    | inl e ↦
        let same = eq_of_same_text (fold b) (fold a) e in
        absurd (cc (h, same_text_refl (fold a), ap (λ t. same_text (fold a) t) same))
  ]

  -- A key that is not there goes to the end.
  pub append-IsDistinct :
      (i : Item) (l : List Item)
      → has_key i.key l ≡ false
      → IsDistinct l
      → IsDistinct (l ++ (i ∷ []))
  append-IsDistinct i [] h d = (refl, tt)
  append-IsDistinct i (j ∷ l) h d = (
    ground (arith, has_key-append j.key l (i ∷ []), same_key_sym j.key i.key, d.0),
    append-IsDistinct i l (ground arith) d.1,
  )

  has-without_key :
      (k m : Text) (l : List Item) → has_key m l ≡ false → has_key m (without_key k l) ≡ false
  has-without_key k m [] h = refl
  has-without_key k m (i ∷ l) h = ground (arith, has-without_key k m l)

  pub without_key-IsDistinct :
      (k : Text) (l : List Item) → IsDistinct l → IsDistinct (without_key k l)
  without_key-IsDistinct k [] d = tt
  without_key-IsDistinct k (i ∷ l) d = elim (Bool-cases (same_key i.key k)) [
    | inl e ↦ rw e d.1
    | inr e ↦ rw e (has-without_key k i.key l d.0, without_key-IsDistinct k l d.1)
  ]

  -- A key that is the same as a key that is nowhere is nowhere.
  has_same : (a b : Text) (l : List Item) → same_key a b ≡ true → has_key a l ≡ has_key b l
  has_same a b l e = let same = eq_of_same_text (fold a) (fold b) e in over l same
    where
      over : (l : List Item) → fold a ≡ fold b → has_key a l ≡ has_key b l
      over [] h = refl
      over (i ∷ l) h = ground (arith, over l h, ap (λ t. same_text (fold i.key) t) h)

  -- After its removal a key is not there.
  pub without_key_lem :
      (k : Text) (l : List Item) → IsDistinct l → has_key k (without_key k l) ≡ false
  without_key_lem k [] d = refl
  without_key_lem k (i ∷ l) d = elim (Bool-cases (same_key i.key k)) [
    | inl e ↦ rw e (sym (has_same i.key k l e) ∙ d.0)
    | inr e ↦ ground (arith, e, without_key_lem k l d.1)
  ]

  pub count-without_key :
      (k : Text) (l : List Item) (x z : ℕ)
      → find_folded k l ≡ some x
      → (length (without_key k l) + 1 ≡ length l)
        × (count_node z (without_key k l) + one_if (z == x) ≡ count_node z l)
  count-without_key k [] x z h = absurd (cc h)
  count-without_key k (i ∷ l) x z h = elim (Bool-cases (same_key i.key k)) [
    | inl e ↦ ground (arith, e)
    | inr e ↦ let (a, b) = count-without_key k l x z (ground arith) in ground (arith, e, a, b)
  ]

  pub find_folded_has :
      (k : Text) (l : List Item) → has_key k l ≡ true → (x : ℕ) × (find_folded k l ≡ some x)
  find_folded_has k [] h = absurd (cc h)
  find_folded_has k (i ∷ l) h = elim (Bool-cases (same_key i.key k)) [
    | inl e ↦ (i.node, rw e)
    | inr e ↦ let (x, f) = find_folded_has k l (ground arith) in (x, rw (e, f))
  ]

  -- A key that is not there has nothing to remove.
  pub without_key_absent :
      (k : Text) (l : List Item)
      → has_key k l ≡ false
      → (find_folded k l ≡ none) × (without_key k l ≡ l)
  without_key_absent k [] h = (refl, refl)
  without_key_absent k (i ∷ l) h =
      let (a, b) = without_key_absent k l (ground arith) in (ground (arith, a), ground (arith, b))

  -- An item of a new key at the end is the one that is found.
  pub find_key-append :
      (k : Text) (l : List Item) (x : ℕ)
      → has_key k l ≡ false
      → find_key k (l ++ (record { key = k; node = x } ∷ [])) ≡ some x
  find_key-append k [] x h = rw (same_text_refl k)
  find_key-append k (i ∷ l) x h = elim (Bool-cases (same_text i.key k)) [
    | inl e ↦
        let same = ap fold (eq_of_same_text i.key k e) in
        absurd (ground (arith, ap (λ t. same_text t (fold k)) same, same_text_refl (fold k)))
    | inr e ↦ rw e (find_key-append k l x (ground arith))
  ]

-- The functions on objects, in terms of their items. `fold` is what makes keys of different case alike.
pub record IsLibrary {H : Type 0} (lib : Cjson H) : Type 0 where
  pub items : H → ℕ → List Item
  pub fold : Text → Text
  pub has_lem : (h : H) (p : ℕ) (k : Text) → lib.has_object_item h p k ≡ has_key fold k (items h p)
  pub get_lem :
      (h : H) (p : ℕ) (k : Text) → lib.get_object_item_case_sensitive h p k ≡ find_key k (items h p)
  -- a node is in one place, and not in itself
  pub once_lem : (h : H) (p x : ℕ) → count_node x (items h p) ≤ 1
  pub outside_lem : (h : H) (p : ℕ) → count_node p (items h p) ≡ 0
  pub add_lem :
      (h : H) (p q : ℕ) (k : Text)
      → let h' = lib.add_item_reference_to_object p k q h in
        (r : ℕ) × (items h' p ≡ items h p ++ (record { key = k; node = r } ∷ []))
        × (count_node r (items h p) ≡ 0)
        × (lib.kind h' p ≡ lib.kind h p)
  pub detach_lem :
      (h : H) (p : ℕ) (k : Text)
      → let (d, h') = lib.detach_item_from_object p k h in
        (d ≡ find_folded fold k (items h p))
        × (items h' p ≡ without_key fold k (items h p))
        × (lib.kind h' p ≡ lib.kind h p)
  -- `cJSON_Delete` of a node that is not the object and not in it
  pub delete_lem :
      (h : H) (p x : ℕ)
      → x ≢ p
      → count_node x (items h p) ≡ 0
      → (items (lib.delete x h) p ≡ items h p) × (lib.kind (lib.delete x h) p ≡ lib.kind h p)
  -- a new node is not the one that was made before it
  pub create_lem :
      (h : H)
      → let (old, h0) = lib.create_null h in
        let (p, h1) = lib.create_object h0 in
        (items h1 p ≡ []) × (lib.kind h1 p ≡ cjson_object) × (old ≢ p)
