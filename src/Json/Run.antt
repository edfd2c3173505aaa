-- ===== src/Json/Run.antt =====
-- An object after any `set` and `remove( name )`.
use cpp_tricks.Prelude.{
  suc, ◌≡◌, refl, ap, sym, ◌∙◌, List, [], ◌∷◌, ◌++◌, map, Option, some, length, get_elem?,
}
use cpp_tricks.Prelude.Chain.{◌>>=◌}
use cpp_tricks.Prelude.Text.{Text}
use cpp_tricks.Json.{Cjson, Json, World, object_type, with_set, of_type}
use cpp_tricks.Json.Access.{has, size}
use cpp_tricks.Json.Change.{remove, set_key}
use cpp_tricks.Json.Library.{Item, IsLibrary}
use cpp_tricks.Json.Synced.{IsSynced, size_items}
use cpp_tricks.Json.Keys.{
  is_key, without, is_key-map, without-map, keys, has_item, remove-keys, set_key_lem,
}

get_elem?-last {ℓ} :
    {A : Type ℓ} (l : List A) (x : A) → get_elem? (l ++ (x ∷ [])) (length l) ≡ some x
get_elem?-last [] x = refl
get_elem?-last (y ∷ l) x = get_elem?-last l x

length-keys : (l : List Item) → length (map (λ (x : Item). x.key) l) ≡ length l
length-keys [] = refl
length-keys (x ∷ l) = ap suc (length-keys l)

pub data Op : Type 0 where
  put : Text → Json → Op
  drop_key : Text → Op

module _ {H : Type 0} (lib : Cjson H) (v : IsLibrary lib) (j : Json) where
  open v use {items, fold}

  -- One operation, on the object and on its keys.
  pub act : Op → World H → Option (World H)
  act (put key o) w = set_key lib key o j w
  act (drop_key key) w = remove lib key j w

  pub run : List Op → World H → Option (World H)
  run [] w = some w
  run (op ∷ l) w = act op w >>= λ w'. run l w'

  abbrev pub act_keys : Op → List Text → List Text
  act_keys (put key o) ks = without fold key ks ++ (key ∷ [])
  act_keys (drop_key key) ks = without fold key ks

  abbrev pub run_keys : List Op → List Text → List Text
  run_keys [] ks = ks
  run_keys (op ∷ l) ks = run_keys l (act_keys op ks)

  act-keys :
      (op : Op) (w : World H)
      → IsSynced lib v j w
      → (w' : World H) × (act op w ≡ some w')
        × IsSynced lib v j w'
        × (keys lib v j w' ≡ act_keys op (keys lib v j w))
  unfolding act
  act-keys (put key o) w s =
      let (w', e, s', k, found, w'', e', same, more) = set_key_lem lib v j key o w s in
      (w', e, s', k)
  act-keys (drop_key key) w s =
      let (w', e, s', i) = remove-keys lib v j key w s in
      (
        w',
        e,
        s',
        ap (map (λ (x : Item). x.key)) i ∙ sym (without-map fold key (items w.nodes j.data_)),
      )

  run-keys :
      (l : List Op) (w : World H)
      → IsSynced lib v j w
      → (w' : World H) × (run l w ≡ some w')
        × IsSynced lib v j w'
        × (keys lib v j w' ≡ run_keys l (keys lib v j w))
  unfolding run
  run-keys [] w s = (w, refl, s, refl)
  run-keys (op ∷ l) w s =
      let (u, e, s', k) = act-keys op w s in
      let (w', e', s'', k') = run-keys l u s' in (w', rw (e, e'), s'', k' ∙ ap (run_keys l) k)

-- After any `set` and `remove( name )` on a new object, none of which fails: its keys are those that the operations
-- leave, where a key replaces one that is the same but for case; `size` is their number; and `has` finds a
-- key exactly if one of them is the same but for case.
pub run_lem :
    {H : Type 0} (lib : Cjson H) (v : IsLibrary lib) (l : List Op) (w : World H)
    → let (j, w0) = of_type lib object_type w in
      (w' : World H) × (run lib v j l w0 ≡ some w')
      × (keys lib v j w' ≡ run_keys lib v j l [])
      × (size lib j w' ≡ length (run_keys lib v j l []))
      × ((key : Text) → has lib key j w' ≡ is_key v.fold key (run_keys lib v j l []))
unfolding of_type with_set
run_lem lib v l w =
    let (j, w0) = of_type lib object_type w in
    let (none_there, kind, apart) = v.create_lem w.nodes in
    let (old, h0) = lib.create_null w.nodes in
    let (p, h1) = lib.create_object h0 in
    let (same, kept) = v.delete_lem h1 p old apart (rw none_there) in
    let begun : IsSynced lib v j w0 = record {
      index = length w.sets;
      refs = [];
      is_object = kept ∙ kind;
      points = refl;
      stored = get_elem?-last w.sets [];
      same_length = rw (same, none_there);
      same_nodes = λ x. rw (same, none_there);
      distinct = rw (same, none_there) tt;
    } in
    let (w', e, s, k) = run-keys lib v j l w0 begun in
    let start : keys lib v j w0 ≡ [] = rw (same, none_there) in
    let all = k ∙ ap (run_keys lib v j l) start in
    (
      w',
      e,
      all,
      size_items lib v j w' s ∙ sym (length-keys (v.items w'.nodes j.data_)) ∙ ap length all,
      λ key.
          has_item lib v j key w' s
          ∙ sym (is_key-map v.fold key (v.items w'.nodes j.data_))
          ∙ ap (is_key v.fold key) all,
    )
