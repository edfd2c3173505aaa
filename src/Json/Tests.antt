-- ===== src/Json/Tests.antt =====
-- `Json` on the library of `Json.Sample`.
use cpp_tricks.Prelude.{
  ℕ, ◌≡◌, refl, true, false, List, [], ◌∷◌, ◌++◌, map, Option, none, some, length, arith,
}
use cpp_tricks.Prelude.Int.{pos}
use cpp_tricks.Prelude.Text.{Text, codes}
use cpp_tricks.Json.{
  cjson_object, other, Json, World, object_type, array_type, of_type, type_of, erase_value,
  insert_ref, parse, of_node,
}
use cpp_tricks.Json.Access.{size, has, at, empty, to_bool}
use cpp_tricks.Json.Change.{insert, remove_index, set_key}
use cpp_tricks.Json.Synced.{IsSynced}
use cpp_tricks.Json.Library.{without_key}
use cpp_tricks.Json.Keys.{keys, is_key, without, set_key_lem}
use cpp_tricks.Json.Run.{Op, put, drop_key, run, run_keys, run_lem}
use cpp_tricks.Json.Sample.{Nodes, lower, add_item, detach_item, make, toy, toy_is}

abbrev empty_nodes : Nodes
empty_nodes = record {
  kinds = λ p. other;
  items = λ p. [];
  once = λ p x. omega arith;
  outside = λ p. refl;
}

abbrev empty_world : World Nodes
empty_world = record { nodes = empty_nodes; sets = [] }

abbrev value : Json
value = record { data_ = 7; own = true; refs_ = some 9 }

-- Two keys that differ in case, and one that is removed.
abbrev changes : List Op
changes =
    put (codes "a") value
    ∷ put (codes "b") value
    ∷ put (codes "A") value
    ∷ drop_key (codes "B")
    ∷ []

run_lem_example :
    let (j, w0) = of_type toy object_type empty_world in
    (w' : World Nodes) × (run toy toy_is j changes w0 ≡ some w')
    × (keys toy toy_is j w' ≡ run_keys toy toy_is j changes [])
    × (size toy j w' ≡ length (run_keys toy toy_is j changes []))
    × ((key : Text) → has toy key j w' ≡ is_key toy_is.fold key (run_keys toy toy_is j changes []))
run_lem_example = run_lem toy toy_is changes empty_world

keys_left : run_keys toy toy_is value changes [] ≡ codes "A" ∷ []
unfolding toy_is lower
keys_left = refl

abbrev object : Json
object = record { data_ = 1; own = true; refs_ = some 0 }

abbrev one_object : World Nodes
one_object = record { nodes = record empty_nodes { kinds = λ p. cjson_object }; sets = [] ∷ [] }

object-IsSynced : IsSynced toy toy_is object one_object
unfolding toy_is
object-IsSynced = record {
  index = 0;
  refs = [];
  is_object = refl;
  points = refl;
  stored = refl;
  same_length = refl;
  same_nodes = λ x. refl;
  distinct = tt;
}

set_key_lem_example :
    (w' : World Nodes) × (set_key toy (codes "a") value object one_object ≡ some w')
    × IsSynced toy toy_is object w'
    × (keys toy toy_is object w'
        ≡ without toy_is.fold (codes "a") (keys toy toy_is object one_object) ++ (codes "a" ∷ []))
    × (found : Json) × (w'' : World Nodes) × (at toy (codes "a") object w' ≡ some (found, w''))
    × (found.refs_ ≡ some 9)
    × (toy_is.items w'.nodes 1
        ≡ without_key toy_is.fold (codes "a") (toy_is.items one_object.nodes 1)
          ++ (record { key = codes "a"; node = found.data_ } ∷ []))
set_key_lem_example = set_key_lem toy toy_is object (codes "a") value one_object object-IsSynced

-- What `parse` gives has its keys and the size 0, and is empty; `has` finds a key that `at` does not.
abbrev parsed : Json
parsed = (parse toy (codes "a") empty_world).1

abbrev parsed_world : World Nodes
parsed_world = (parse toy (codes "a") empty_world).2

abbrev type_found : Option (Json × World Nodes) → ℕ
type_found none = 100
type_found (some (j, w)) = j.data_

parsed-size :
    (has toy (codes "A") parsed parsed_world ≡ true)
    × (size toy parsed parsed_world ≡ 0)
    × (empty toy parsed parsed_world ≡ true)
    × (type_found (at toy (codes "A") parsed parsed_world) ≡ 0)
    × (to_bool toy parsed parsed_world ≡ false)
unfolding parse of_node has size empty at to_bool add_item make lower type_of
parsed-size = (refl, refl, refl, refl, refl)

-- An array that loses its only item keeps the reference to it.
abbrev array : Json
array = (of_type toy array_type empty_world).0

abbrev sets_after : Option (World Nodes) → List ℕ
sets_after none = []
sets_after (some w) = map length w.sets ++ (size toy array w ∷ [])

abbrev and_removed : Option (World Nodes) → Option (World Nodes)
and_removed none = none
and_removed (some w) = remove_index toy (pos 0) array w

reference_kept :
    sets_after (and_removed (insert toy value array (of_type toy array_type empty_world).1))
    ≡ 1 ∷ 0 ∷ []
unfolding of_type insert remove_index size add_item detach_item make lower type_of erase_value
    insert_ref
reference_kept = refl
