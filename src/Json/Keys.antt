-- ===== src/Json/Keys.antt =====
-- What a client sees of an object: its keys.
use cpp_tricks.Prelude.{
  ℕ, zero, suc, ◌≡◌, refl, ap, sym, ◌∙◌, Bool, false, ◌||◌, List, [], ◌∷◌, ◌++◌, map, some,
  get_elem?, if◌then◌else◌, inl, inr, Bool-cases,
}
use cpp_tricks.Prelude.Text.{Text}
use cpp_tricks.Json.{Cjson, Json, Ref, World, with_set, of_node, find_ref}
use cpp_tricks.Json.Access.{has, set_of, at, at_item}
use cpp_tricks.Json.Change.{drop_detached, remove, free_key, set_key}
use cpp_tricks.Json.Library.{
  Item, IsLibrary, same_key, has_key, without_key, without_key_absent, without_key_lem,
}
use cpp_tricks.Json.Synced.{IsSynced, object_is, removed, added}

get_elem?-append {ℓ} :
    {A : Type ℓ} (l m : List A) (i : ℕ) {x : A}
    → get_elem? l i ≡ some x
    → get_elem? (l ++ m) i ≡ some x
get_elem?-append [] m i h = absurd (cc h)
get_elem?-append (y ∷ l) m zero h = h
get_elem?-append (y ∷ l) m (suc i) h = get_elem?-append l m i h

-- Keys, and what `set` and `remove` do to them: keys are alike if they differ in case only.
module _ (fold : Text → Text) where
  abbrev pub is_key : Text → List Text → Bool
  is_key k [] = false
  is_key k (x ∷ l) = same_key fold x k || is_key k l

  abbrev pub without : Text → List Text → List Text
  without k [] = []
  without k (x ∷ l) = if same_key fold x k then l else x ∷ without k l

  pub is_key-map : (k : Text) (l : List Item) → is_key k (map (λ i. i.key) l) ≡ has_key fold k l
  is_key-map k [] = refl
  is_key-map k (i ∷ l) = ap (λ b. same_key fold i.key k || b) (is_key-map k l)

  pub without-map :
      (k : Text) (l : List Item)
      → without k (map (λ i. i.key) l) ≡ map (λ i. i.key) (without_key fold k l)
  without-map k [] = refl
  without-map k (i ∷ l) = elim (Bool-cases (same_key fold i.key k)) [
    | inl e ↦ rw e
    | inr e ↦ rw e (ap (λ t. i.key ∷ t) (without-map k l))
  ]

map-append_one :
    (l : List Item) (i : Item)
    → map (λ (x : Item). x.key) (l ++ (i ∷ [])) ≡ map (λ (x : Item). x.key) l ++ (i.key ∷ [])
map-append_one [] i = refl
map-append_one (x ∷ l) i = ap (λ t. x.key ∷ t) (map-append_one l i)

module _ {H : Type 0} (lib : Cjson H) (v : IsLibrary lib) (j : Json) where
  open v use {items, fold}

  abbrev pub keys : World H → List Text
  keys w = map (λ (i : Item). i.key) (items w.nodes j.data_)

  pub has_item :
      (key : Text) (w : World H)
      → IsSynced lib v j w
      → has lib key j w ≡ has_key fold key (items w.nodes j.data_)
  unfolding has
  has_item key w s = rw (object_is lib v j w s.is_object) (v.has_lem w.nodes j.data_ key)

  -- A removal, of a key that is there or not.
  pub remove-keys :
      (key : Text) (w : World H)
      → IsSynced lib v j w
      → (w' : World H) × (remove lib key j w ≡ some w')
        × IsSynced lib v j w'
        × (items w'.nodes j.data_ ≡ without_key fold key (items w.nodes j.data_))
  unfolding remove drop_detached
  remove-keys key w s = elim (Bool-cases (has_key fold key (items w.nodes j.data_))) [
    | inl there ↦ removed lib v key j w s there
    | inr absent ↦
        let (detached, left, kept) = v.detach_lem w.nodes j.data_ key in
        let (nothing, same) = without_key_absent fold key (items w.nodes j.data_) absent in
        let h = (lib.detach_item_from_object j.data_ key w.nodes).1 in
        (
          record w { nodes = h },
          rw (object_is lib v j w s.is_object, detached, nothing),
          record {
            index = s.index;
            refs = s.refs;
            is_object = kept ∙ s.is_object;
            points = s.points;
            stored = s.stored;
            same_length = rw (left, same) s.same_length;
            same_nodes = λ x. rw (left, same) (s.same_nodes x);
            distinct = rw (left, same) s.distinct;
          },
          left,
        )
  ]

  -- `set` once a key of the same name is gone.
  freed :
      (key : Text) (w : World H)
      → IsSynced lib v j w
      → (w' : World H) × (free_key lib key j w ≡ some w')
        × IsSynced lib v j w'
        × (items w'.nodes j.data_ ≡ without_key fold key (items w.nodes j.data_))
  unfolding free_key
  freed key w s = elim (Bool-cases (has lib key j w)) [
    | inl there ↦ let (w', e, s', i) = remove-keys key w s in (w', rw (there, e), s', i)
    | inr absent ↦
        let gone = sym (has_item key w s) ∙ absent in
        (w, rw absent, s, sym (without_key_absent fold key (items w.nodes j.data_) gone).1)
  ]

  -- `at`, where a node and its reference are found.
  at_found :
      (key : Text) (o : Json) (w : World H) (s : IsSynced lib v j w) (r : ℕ) (l : List Ref)
      → lib.get_object_item_case_sensitive w.nodes j.data_ key ≡ some r
      → set_of lib j w ≡ some l
      → find_ref r l ≡ some (record { value = o; node = some r })
      → let (node, w'') = of_node {H = H} false r w in
        at lib key j w ≡ some (record node { refs_ = o.refs_ }, w'')
  unfolding at at_item set_of of_node with_set
  at_found key o w s r l got stored first =
      let later = get_elem?-append w.sets ([] ∷ []) s.index s.stored in
      let in_set : set_of lib j w ≡ some s.refs = rw (set_of, s.points, s.stored) in
      let same : s.refs ≡ l = cc (in_set, stored) in
      let found : find_ref r s.refs ≡ some (record { value = o; node = some r }) =
        ap (find_ref r) same ∙ first in
      rw (object_is lib v j w s.is_object, got, s.points, later, found)

  -- On an object whose set of references is that of its items: `set` succeeds, the object is so again, its keys are
  -- those before without one that is the same but for case, and the key at the end. `at` of the key then finds
  -- the node of this last item, as a `Json` that shares the set of references of the value.
  pub set_key_lem :
      (key : Text) (o : Json) (w : World H)
      → IsSynced lib v j w
      → (w' : World H) × (set_key lib key o j w ≡ some w')
        × IsSynced lib v j w'
        × (keys w' ≡ without fold key (keys w) ++ (key ∷ []))
        × (found : Json) × (w'' : World H) × (at lib key j w' ≡ some (found, w''))
        × (found.refs_ ≡ o.refs_)
        × (items w'.nodes j.data_
            ≡ without_key fold key (items w.nodes j.data_)
              ++ (record { key = key; node = found.data_ } ∷ []))
  unfolding set_key of_node
  set_key_lem key o w s =
      let (u, e, s', less) = freed key w s in
      let free : has_key fold key (items u.nodes j.data_) ≡ false =
        rw less (without_key_lem fold key (items w.nodes j.data_) s.distinct) in
      let (r, w', e', s'', more, got, l, stored, first) = added lib v key o j u s' free in
      let (node, w'') = of_node {H = H} false r w' in
      (
        w',
        rw (object_is lib v j w s.is_object, e, e'),
        s'',
        rw more (map-append_one (items u.nodes j.data_) (record { key = key; node = r }))
            ∙ ap (λ t. t ++ (key ∷ []))
                (ap (map (λ (i : Item). i.key)) less
                  ∙ sym (without-map fold key (items w.nodes j.data_))),
        record node { refs_ = o.refs_ },
        w'',
        at_found key o w' s'' r l got stored first,
        refl,
        more ∙ ap (λ t. t ++ (record { key = key; node = r } ∷ [])) less,
      )
