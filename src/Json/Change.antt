-- ===== src/Json/Change.antt =====
-- cjson++/cjson.hpp: the functions of `Json` that write. A result `none` is an access through a null `refs_`.
use cpp_tricks.Prelude.{ℕ, Bool, not, List, Option, none, some, set, get_elem?, if◌then◌else◌}
use cpp_tricks.Prelude.Chain.{◌>>=◌}
use cpp_tricks.Prelude.Int.{ℤ, pos}
use cpp_tricks.Prelude.Text.{Text}
use cpp_tricks.Json.{
  cjson_false, cjson_true, Cjson, Json, Ref, World, bool_type, string_type, number_type, array_type,
  object_type, insert_ref, erase_ref, erase_value, new_json, of_type,
}
use cpp_tricks.Json.Access.{is, has}

module _ {H : Type 0} (lib : Cjson H) where
  -- `clean()`: what is left is a null value.
  unfoldable pub clean : World H → Json × World H
  unfolding new_json
  clean w = new_json lib w

  -- `jo = value`, for a text, a Boolean and a number: the new `jo`.
  unfoldable pub assign_text : Text → Json → World H → Json × World H
  unfolding is of_type
  assign_text s j w =
      let (j', w') = if is lib string_type j w then (j, w) else of_type lib string_type w in
      (j', record w' { nodes = lib.set_valuestring j'.data_ s w'.nodes })

  unfoldable pub assign_bool : Bool → Json → World H → Json × World H
  unfolding is of_type
  assign_bool b j w =
      let (j', w') = if is lib bool_type j w then (j, w) else of_type lib bool_type w in
      (
        j',
        record w' {
          nodes = lib.put_kind j'.data_ (if b then cjson_true else cjson_false) w'.nodes;
        },
      )

  unfoldable pub assign_int : ℤ → Json → World H → Json × World H
  unfolding is of_type
  assign_int n j w =
      let (j', w') = if is lib number_type j w then (j, w) else of_type lib number_type w in
      (j', record w' { nodes = lib.set_number j'.data_ n w'.nodes })

  -- A change of the set that `refs_` points to.
  unfoldable pub change_set : Json → (List Ref → List Ref) → World H → Option (World H)
  change_set j f w = do
    s ← j.refs_
    l ← get_elem? w.sets s
    some (record w { sets = set w.sets s (f l) })

  -- `insert( value )`, for the `Json` made from the value.
  unfoldable pub insert : Json → Json → World H → Option (World H)
  unfolding is change_set
  insert o j w =
      let i = lib.get_array_size w.nodes j.data_ in
      let h = lib.add_item_reference_to_array j.data_ o.data_ w.nodes in
      let ref = lib.get_array_item h j.data_ (pos i) in
      if is lib array_type j w
      then change_set j (insert_ref (record { value = o; node = ref })) (record w { nodes = h })
      else some w

  -- `remove`, for what is detached: `erase` is how the set loses an element.
  unfoldable pub drop_detached :
      Json → (ℕ → List Ref → List Ref) → Option ℕ × H → World H → Option (World H)
  unfolding change_set
  drop_detached j erase (none, h) w = some (record w { nodes = h })
  drop_detached j erase (some p, h) w = do
    w' ← change_set j (erase p) (record w { nodes = h })
    some (record w' { nodes = lib.delete p w'.nodes })

  -- `remove( index )` looks for a value whose node is the one that is detached.
  unfoldable pub remove_index : ℤ → Json → World H → Option (World H)
  unfolding is drop_detached
  remove_index i j w =
      if is lib array_type j w
      then drop_detached j erase_value (lib.detach_item_from_array j.data_ i w.nodes) w
      else some w

  -- `remove( name )` looks for the reference node.
  unfoldable pub remove : Text → Json → World H → Option (World H)
  unfolding is drop_detached
  remove key j w =
      if is lib object_type j w
      then drop_detached j erase_ref (lib.detach_item_from_object j.data_ key w.nodes) w
      else some w

  -- `set( key, value )` up to the removal.
  unfoldable pub free_key : Text → Json → World H → Option (World H)
  free_key key j w = if has lib key j w then remove key j w else some w

  -- `set( key, value )` once the key is free.
  unfoldable pub add_key : Text → Json → Json → World H → Option (World H)
  unfolding change_set
  add_key key o j w =
      let h = lib.add_item_reference_to_object j.data_ key o.data_ w.nodes in
      let ref = lib.get_object_item_case_sensitive h j.data_ key in
      change_set j (insert_ref (record { value = o; node = ref })) (record w { nodes = h })

  -- `set( key, value )`, for the `Json` made from the value.
  unfoldable pub set_key : Text → Json → Json → World H → Option (World H)
  set_key key o j w =
      if not (is lib object_type j w) then some w else free_key key j w >>= λ w'. add_key key o j w'
