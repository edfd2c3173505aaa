-- ===== src/Json/Synced.antt =====
-- Objects whose set of references is that of their items.
use cpp_tricks.Prelude.{
  ℕ, ◌+◌, ◌≤◌, ◌≡◌, ◌≢◌, refl, ap, ◌∙◌, true, false, List, [], ◌∷◌, ◌++◌, some, length,
  length-append, one_if, get_elem?, set, get_elem?-set_self, ◌==◌, arith,
}
use cpp_tricks.Prelude.Text.{Text}
use cpp_tricks.Json.{
  cjson_object, Cjson, Json, Ref, World, object_type, type_of, insert_ref, erase_ref, find_ref,
}
use cpp_tricks.Json.Access.{is, size, set_of}
use cpp_tricks.Json.Change.{change_set, drop_detached, remove, add_key}
use cpp_tricks.Json.Library.{
  Item, IsLibrary, count_node, has_key, without_key, IsDistinct, append-IsDistinct,
  without_key-IsDistinct, count-without_key, find_folded_has, find_key-append,
}
use cpp_tricks.Json.Refs.{
  count_ref, length-insert_ref, count-insert_ref, find-insert_ref, erase_ref_lem,
}

count_node-append :
    (x : ℕ) (l : List Item) (i : Item)
    → count_node x (l ++ (i ∷ [])) ≡ count_node x l + one_if (x == i.node)
count_node-append x [] i = omega arith
count_node-append x (j ∷ l) i = omega (arith, count_node-append x l i)

module _ {H : Type 0} (lib : Cjson H) (v : IsLibrary lib) where
  open v use {items, fold}

  -- `j` is an object with a set that has one reference for each of its items, and keys that differ in more than
  -- case.
  pub record IsSynced (j : Json) (w : World H) : Type 0 where
    pub index : ℕ
    pub refs : List Ref
    pub is_object : lib.kind w.nodes j.data_ ≡ cjson_object
    pub points : j.refs_ ≡ some index
    pub stored : get_elem? w.sets index ≡ some refs
    pub same_length : length refs ≡ length (items w.nodes j.data_)
    pub same_nodes : (x : ℕ) → count_ref x refs ≡ count_node x (items w.nodes j.data_)
    pub distinct : IsDistinct fold (items w.nodes j.data_)

  pub object_is :
      (j : Json) (w : World H)
      → lib.kind w.nodes j.data_ ≡ cjson_object
      → is lib object_type j w ≡ true
  unfolding is type_of
  object_is j w e = rw (is, type_of, e)

  -- A change of the set, on a world with other nodes.
  changed :
      (j : Json) (w : World H) (s : IsSynced j w) (f : List Ref → List Ref) (h : H)
      → change_set lib j f (record w { nodes = h })
        ≡ some (record { nodes = h; sets = set w.sets s.index (f s.refs) })
  unfolding change_set
  changed j w s f h = rw (s.points, s.stored)

  -- What is left after a removal of a key that is there.
  pub removed :
      (key : Text) (j : Json) (w : World H)
      → IsSynced j w
      → has_key fold key (items w.nodes j.data_) ≡ true
      → (w' : World H) × (remove lib key j w ≡ some w')
        × IsSynced j w'
        × (items w'.nodes j.data_ ≡ without_key fold key (items w.nodes j.data_))
  unfolding remove drop_detached
  removed key j w s there =
      let p = j.data_ in
      let old = items w.nodes p in
      let (x, found) = find_folded_has fold key old there in
      let (detached, left, kept) = v.detach_lem w.nodes p key in
      let h = (lib.detach_item_from_object p key w.nodes).1 in
      let (shorter, fewer) = count-without_key fold key old x x found in
      let there_x : 1 ≤ count_node x old = ground (arith, fewer) in
      let (short, _) = erase_ref_lem x x s.refs (omega (arith, s.same_nodes x, there_x)) in
      let gone : count_node x (items h p) ≡ 0 =
        rw left (ground (arith, fewer, v.once_lem w.nodes p x)) in
      let apart : x ≢ p = λ e.
        absurd (omega (arith, there_x, v.outside_lem w.nodes p, ap (λ y. count_node y old) e)) in
      let (same, kind) = v.delete_lem h p x apart gone in
      let now : items (lib.delete x h) p ≡ without_key fold key old = same ∙ left in
      (
        record { nodes = lib.delete x h; sets = set w.sets s.index (erase_ref x s.refs) },
        rw (object_is j w s.is_object, detached, found, changed j w s (erase_ref x) h),
        record {
          index = s.index;
          refs = erase_ref x s.refs;
          is_object = kind ∙ kept ∙ s.is_object;
          points = s.points;
          stored = get_elem?-set_self w.sets s.index (erase_ref x s.refs) s.stored;
          same_length = rw now (omega (arith, shorter, short, s.same_length));
          same_nodes = λ y. rw now (
              omega (
                arith,
                (count-without_key fold key old x y found).1,
                (erase_ref_lem x y s.refs (omega (arith, s.same_nodes x, there_x))).1,
                s.same_nodes y,
              ));
          distinct = rw now (without_key-IsDistinct fold key old s.distinct);
        },
        now,
      )

  -- What is there after a new key is added.
  pub added :
      (key : Text) (o j : Json) (w : World H)
      → IsSynced j w
      → has_key fold key (items w.nodes j.data_) ≡ false
      → (r : ℕ) × (w' : World H) × (add_key lib key o j w ≡ some w')
        × IsSynced j w'
        × (items w'.nodes j.data_ ≡ items w.nodes j.data_ ++ (record { key = key; node = r } ∷ []))
        × (lib.get_object_item_case_sensitive w'.nodes j.data_ key ≡ some r)
        × (l : List Ref) × (set_of lib j w' ≡ some l)
        × (find_ref r l ≡ some (record { value = o; node = some r }))
  unfolding add_key set_of
  added key o j w s free =
      let p = j.data_ in
      let old = items w.nodes p in
      let (r, more, fresh, kind) = v.add_lem w.nodes p o.data_ key in
      let h = lib.add_item_reference_to_object p key o.data_ w.nodes in
      let got : lib.get_object_item_case_sensitive h p key ≡ some r =
        v.get_lem h p key ∙ rw more (find_key-append fold key old r free) in
      let ref : Ref = record { value = o; node = some r } in
      let l = insert_ref ref s.refs in
      let new_ref : count_ref r s.refs ≡ 0 = s.same_nodes r ∙ fresh in
      let stored = get_elem?-set_self w.sets s.index l s.stored in
      let longer = length-append old (record { key = key; node = r } ∷ []) in
      (
        r,
        record { nodes = h; sets = set w.sets s.index l },
        rw (got, changed j w s (insert_ref ref) h),
        record {
          index = s.index;
          refs = l;
          is_object = kind ∙ s.is_object;
          points = s.points;
          stored = stored;
          same_length =
              rw more
                (omega (arith, longer, length-insert_ref ref r refl s.refs new_ref, s.same_length));
          same_nodes = λ y. rw more (
              omega (
                arith,
                count_node-append y old (record { key = key; node = r }),
                count-insert_ref ref r refl y s.refs new_ref,
                s.same_nodes y,
              ));
          distinct =
              rw more (append-IsDistinct fold (record { key = key; node = r }) old free s.distinct);
        },
        more,
        got,
        l,
        rw (s.points, stored),
        find-insert_ref ref r refl s.refs new_ref,
      )

  -- The size of an object that is synced is the number of its items.
  pub size_items :
      (j : Json) (w : World H) → IsSynced j w → size lib j w ≡ length (items w.nodes j.data_)
  unfolding size set_of is type_of
  size_items j w s = rw (size, is, type_of, s.is_object, s.points, s.stored) s.same_length
