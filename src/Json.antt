-- ===== src/Json.antt =====
-- cjson++/cjson.hpp: `Json`, a wrapper of the cJSON library. The library is a parameter: `H` is the state of
-- its nodes, a node is a number, and a `Cjson` says what its functions return. The sets that `refs_`
-- points to are shared by copies, so they stand in a store. When a value's last copy goes, its node is
-- deleted; that is not modelled, so the nodes of values stay. Null pointers to nodes are left out.
pub mod Access
pub mod Change
pub mod Library
pub mod Refs
pub mod Synced
pub mod Keys
pub mod Run
pub mod Sample
mod Tests
use cpp_tricks.Prelude.{
  ℕ, ◌+◌, Bool, true, false, not, ◌&&◌, ◌||◌, List, [], ◌∷◌, ◌++◌, Option, none, some, get_elem?,
  set, length, ltb, ◌==◌, if◌then◌else◌,
}
use cpp_tricks.Prelude.Int.{ℤ, pos}
use cpp_tricks.Prelude.Text.{Text, same_text, codes}

-- `type & 0xff`, as one of the library's constants.
pub data Kind : Type 0 where
  cjson_false cjson_true cjson_null cjson_number cjson_string cjson_array cjson_object other : Kind

pub record Cjson (H : Type 0) : Type 0 where
  pub parse : Text → H → Option ℕ × H
  pub minify : Text → Text
  pub create_null : H → ℕ × H
  pub create_true : H → ℕ × H
  pub create_false : H → ℕ × H
  pub create_number : ℤ → H → ℕ × H
  pub create_string : Text → H → ℕ × H
  pub create_array : H → ℕ × H
  pub create_object : H → ℕ × H
  pub delete : ℕ → H → H
  -- the fields of a node
  pub kind : H → ℕ → Kind
  pub child : H → ℕ → Option ℕ
  pub next : H → ℕ → Option ℕ
  pub prev : H → ℕ → Option ℕ
  pub string : H → ℕ → Option Text
  pub valuestring : H → ℕ → Text
  pub valueint : H → ℕ → ℤ
  pub put_kind : ℕ → Kind → H → H
  pub set_valuestring : ℕ → Text → H → H
  pub set_number : ℕ → ℤ → H → H
  pub compare : H → ℕ → ℕ → Bool
  -- without regard to case
  pub has_object_item : H → ℕ → Text → Bool
  pub get_object_item_case_sensitive : H → ℕ → Text → Option ℕ
  pub get_array_item : H → ℕ → ℤ → Option ℕ
  pub get_array_size : H → ℕ → ℕ
  pub add_item_reference_to_array : ℕ → ℕ → H → H
  pub add_item_reference_to_object : ℕ → Text → ℕ → H → H
  pub detach_item_from_array : ℕ → ℤ → H → Option ℕ × H
  -- without regard to case
  pub detach_item_from_object : ℕ → Text → H → Option ℕ × H
  pub print : H → ℕ → Text
  pub print_unformatted : H → ℕ → Text

-- `data_`, a node that is owned or not, and `refs_`, which is null or the number of a set.
pub record Json : Type 0 where
  pub data_ : ℕ
  pub own : Bool
  pub refs_ : Option ℕ

-- An element of an `ObjectSet`: a value, and the reference node that stands for it.
pub record Ref : Type 0 where
  pub value : Json
  pub node : Option ℕ

pub record World (H : Type 0) : Type 0 where
  pub nodes : H
  pub sets : List (List Ref)

pub data JsonType : Type 0 where
  null_type bool_type number_type string_type array_type object_type : JsonType

-- `cJSON*` compared.
abbrev pub is_node : ℕ → Option ℕ → Bool
is_node p none = false
is_node p (some q) = p == q

-- `<` on nodes that can be null.
abbrev pub node_less : Option ℕ → Option ℕ → Bool
node_less none none = false
node_less none (some q) = true
node_less (some p) none = false
node_less (some p) (some q) = ltb p q

-- `operator<` of `Json`, and of pairs of a `Json` and a node.
unfoldable pub less : Json → Json → Bool
less a b = ltb a.data_ b.data_

unfoldable pub ref_less : Ref → Ref → Bool
unfolding less
ref_less a b = less a.value b.value || not (less b.value a.value) && node_less a.node b.node

-- `std::set::insert`
unfoldable pub insert_ref : Ref → List Ref → List Ref
unfolding ref_less
insert_ref r [] = r ∷ []
insert_ref r (x ∷ l) =
    if ref_less r x then r ∷ x ∷ l else if ref_less x r then x ∷ insert_ref r l else x ∷ l

-- The first element for a node.
unfoldable pub find_ref : ℕ → List Ref → Option Ref
find_ref p [] = none
find_ref p (x ∷ l) = if is_node p x.node then some x else find_ref p l

-- The set without the first element for a node.
unfoldable pub erase_ref : ℕ → List Ref → List Ref
erase_ref p [] = []
erase_ref p (x ∷ l) = if is_node p x.node then l else x ∷ erase_ref p l

-- The set without the first element for a value with a node.
unfoldable pub erase_value : ℕ → List Ref → List Ref
erase_value p [] = []
erase_value p (x ∷ l) = if p == x.value.data_ then l else x ∷ erase_value p l

module _ {H : Type 0} where
  -- A `Json` for a node, with a new set.
  unfoldable pub with_set : Bool → ℕ × H → List (List Ref) → Json × World H
  with_set own (p, h) sets = (
    record { data_ = p; own = own; refs_ = some (length sets) },
    record { nodes = h; sets = sets ++ ([] ∷ []) },
  )

  -- A `Json` for a node that it owns, without a set.
  unfoldable pub without_set : ℕ × H → List (List Ref) → Json × World H
  without_set (p, h) sets =
      (record { data_ = p; own = true; refs_ = none }, record { nodes = h; sets = sets })

  -- `Json( obj, own )`
  unfoldable pub of_node : Bool → ℕ → World H → Json × World H
  unfolding with_set
  of_node own p w = with_set own (p, w.nodes) w.sets

module _ {H : Type 0} (lib : Cjson H) where
  -- `Json()`
  unfoldable pub new_json : World H → Json × World H
  unfolding with_set
  new_json w = with_set true (lib.create_null w.nodes) w.sets

  -- The node for a type; a null node is made before it, and deleted.
  abbrev pub create : JsonType → H → ℕ × H
  create null_type h = lib.create_null h
  create bool_type h = lib.create_false h
  create number_type h = lib.create_number (pos 0) h
  create string_type h = lib.create_string [] h
  create array_type h = lib.create_array h
  create object_type h = lib.create_object h

  -- `data_.reset( ... )` of a null value.
  abbrev pub reset : ℕ → ℕ × H → ℕ × H
  reset old (p, h) = (p, lib.delete old h)

  -- `Json( t )`
  unfoldable pub of_type : JsonType → World H → Json × World H
  unfolding new_json with_set
  of_type null_type w = new_json w
  of_type t w =
      let (old, h) = lib.create_null w.nodes in with_set true (reset old (create t h)) w.sets

  -- `Json( value )`
  unfoldable pub of_bool : Bool → World H → Json × World H
  unfolding without_set
  of_bool b w = without_set (if b then lib.create_true w.nodes else lib.create_false w.nodes) w.sets

  unfoldable pub of_int : ℤ → World H → Json × World H
  unfolding without_set
  of_int n w = without_set (lib.create_number n w.nodes) w.sets

  unfoldable pub of_text : Text → World H → Json × World H
  unfolding without_set
  of_text s w = without_set (lib.create_string s w.nodes) w.sets

  -- `parse`: the result, and what `jo` is then.
  unfoldable pub parse : Text → World H → Bool × Json × World H
  unfolding new_json of_node
  parse text w =
      let (r, h) = lib.parse text w.nodes in
      elim r [
        | none ↦ let (j, w') = new_json (record w { nodes = h }) in (false, j, w')
        | some p ↦ let (j, w') = of_node true p (record w { nodes = h }) in (true, j, w')
      ]

  -- `type()`
  unfoldable pub type_of : Json → World H → JsonType
  type_of j w = elim (lib.kind w.nodes j.data_) [
    | cjson_false ↦ bool_type
    | cjson_true ↦ bool_type
    | cjson_number ↦ number_type
    | cjson_string ↦ string_type
    | cjson_array ↦ array_type
    | cjson_object ↦ object_type
    | _ ↦ null_type
  ]
