-- ===== src/Json/Access.antt =====
-- cjson++/cjson.hpp: the functions of `Json` that read. A result `none` is a read through a null `refs_`.
use cpp_tricks.Prelude.{
  ℕ, ◌-◌, Bool, true, false, not, ◌&&◌, List, [], ◌++◌, ◌||◌, Option, none, some, get_elem?, length,
  ltb, if◌then◌else◌,
}
use cpp_tricks.Prelude.Chain.{◌>>=◌}
use cpp_tricks.Prelude.Int.{ℤ, pos, pos_part, neg_part}
use cpp_tricks.Prelude.Text.{Text, same_text, codes, decimal}
use cpp_tricks.Json.{
  Kind, cjson_false, cjson_true, cjson_number, cjson_string, cjson_array, cjson_object, Cjson, Json,
  Ref, World, JsonType, null_type, bool_type, number_type, string_type, array_type, object_type,
  find_ref, of_node, new_json, type_of,
}

abbrev pub is_none : Option ℕ → Bool
is_none none = true
is_none (some p) = false

abbrev pub same_type : JsonType → JsonType → Bool
same_type null_type null_type = true
same_type bool_type bool_type = true
same_type number_type number_type = true
same_type string_type string_type = true
same_type array_type array_type = true
same_type object_type object_type = true
same_type _ _ = false

-- `-n` as a text has a sign.
abbrev pub int_text : ℤ → Text
int_text n = if ltb 0 (neg_part n) then codes "-" ++ decimal (neg_part n) else decimal (pos_part n)

module _ {H : Type 0} (lib : Cjson H) where
  -- `is( t )`, and with it `is_array` and so on.
  unfoldable pub is : JsonType → Json → World H → Bool
  is t j w = same_type (type_of lib j w) t

  unfoldable pub name : Json → World H → Text
  name j w = elim (lib.string w.nodes j.data_) [ some s ↦ s | none ↦ [] ]

  -- It asks for neighbours of the node, not for its children.
  unfoldable pub empty : Json → World H → Bool
  empty j w = elim (type_of lib j w) [
    | null_type ↦ true
    | array_type ↦ is_none (lib.next w.nodes j.data_) && is_none (lib.prev w.nodes j.data_)
    | object_type ↦ is_none (lib.next w.nodes j.data_) && is_none (lib.prev w.nodes j.data_)
    | _ ↦ false
  ]

  -- `operator bool`
  unfoldable pub to_bool : Json → World H → Bool
  to_bool j w = same_type (type_of lib j w) null_type

  unfoldable pub has : Text → Json → World H → Bool
  unfolding is
  has key j w = if not (is object_type j w) then false else lib.has_object_item w.nodes j.data_ key

  -- The set that `refs_` points to.
  unfoldable pub set_of : Json → World H → Option (List Ref)
  set_of j w = j.refs_ >>= λ s. get_elem? w.sets s

  -- The set of the value that a node stands for, if there is one.
  abbrev pub refs_or : Json → Option Ref → Json
  refs_or o none = o
  refs_or o (some r) = record o { refs_ = r.value.refs_ }

  -- `at`, for the node that is found.
  unfoldable pub at_item : Json → World H → Option ℕ → Option (Json × World H)
  unfolding set_of new_json of_node
  at_item j w none = some (new_json lib w)
  at_item j w (some p) = do
    let found = of_node false p w
    l ← set_of j found.1
    some (refs_or found.0 (find_ref p l), found.1)

  -- `at( index )` and `at( key )`
  unfoldable pub at_index : ℤ → Json → World H → Option (Json × World H)
  unfolding is at_item
  at_index i j w =
      at_item j w (if is array_type j w then lib.get_array_item w.nodes j.data_ i else none)

  unfoldable pub at : Text → Json → World H → Option (Json × World H)
  unfolding is at_item
  at key j w =
      at_item j w (
        if is object_type j w then lib.get_object_item_case_sensitive w.nodes j.data_ key else none)

  -- The size of a set that is null is 0.
  abbrev pub size_of : Option (List Ref) → ℕ
  size_of none = 0
  size_of (some l) = length l

  unfoldable pub size : Json → World H → ℕ
  unfolding is set_of
  size j w =
      if is array_type j w
      then lib.get_array_size w.nodes j.data_
      else if is object_type j w
      then size_of (set_of j w)
      else 0

  -- The value for a node, without the set of what it stands for; null if there is no node.
  abbrev pub node_or_null : Option ℕ → World H → Json × World H
  node_or_null none w = new_json lib w
  node_or_null (some p) w = of_node false p w

  unfoldable pub back : Json → World H → Json × World H
  unfolding is size new_json of_node
  back j w =
      let n = size j w in
      node_or_null
        (if is array_type j w && ltb 0 n
          then lib.get_array_item w.nodes j.data_ (pos (n - 1))
          else none)
        w

  -- `begin`, and `++` of an `Iterator`.
  unfoldable pub begin : Json → World H → Option ℕ
  begin j w = lib.child w.nodes j.data_

  unfoldable pub advance : World H → Option ℕ → Option ℕ
  advance w none = none
  advance w (some i) = lib.next w.nodes i

  unfoldable pub as_int : Json → World H → ℤ
  unfolding is
  as_int j w = if is number_type j w then lib.valueint w.nodes j.data_ else pos 0

  unfoldable pub as_string : Json → World H → Text
  unfolding as_int
  as_string j w = elim (lib.kind w.nodes j.data_) [
    | cjson_false ↦ codes "false"
    | cjson_true ↦ codes "true"
    | cjson_number ↦ int_text (as_int j w)
    | cjson_string ↦ lib.valuestring w.nodes j.data_
    | cjson_array ↦ []
    | cjson_object ↦ []
    | _ ↦ codes "null"
  ]

  abbrev pub is_true_kind : Kind → Bool
  is_true_kind cjson_true = true
  is_true_kind _ = false

  abbrev pub is_false_kind : Kind → Bool
  is_false_kind cjson_false = true
  is_false_kind _ = false

  unfoldable pub as_bool : Json → World H → Bool
  as_bool j w = is_true_kind (lib.kind w.nodes j.data_)

  -- `==` with a Boolean, a text and another value.
  unfoldable pub equals_bool : Bool → Json → World H → Bool
  unfolding is
  equals_bool b j w =
      let k = lib.kind w.nodes j.data_ in
      if not (is bool_type j w) then false else (is_true_kind k && b) || (is_false_kind k && not b)

  unfoldable pub equals_text : Text → Json → World H → Bool
  unfolding is
  equals_text s j w =
      if not (is string_type j w) then false else same_text (lib.valuestring w.nodes j.data_) s

  unfoldable pub equals : Json → Json → World H → Bool
  equals a b w = lib.compare w.nodes a.data_ b.data_

  unfoldable pub build : Bool → Json → World H → Text
  build formatted j w =
      if formatted then lib.print w.nodes j.data_ else lib.print_unformatted w.nodes j.data_
