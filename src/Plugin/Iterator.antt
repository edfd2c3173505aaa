-- ===== src/Plugin/Iterator.antt =====
-- `Loader::Iterator`, over the entries of a directory.
use cpp_tricks.Prelude.{
  Bool, true, false, not, ◌&&◌, ◌||◌, List, [], ◌∷◌, Option, none, some, ◌==◌, if◌then◌else◌,
}
use cpp_tricks.Prelude.Int.{pos}
use cpp_tricks.Prelude.Text.{Text, codes, is_empty, same_text}
use cpp_tricks.Plugin.Identity.{Identity, identity}

-- An entry, as `directory_entry` tells; `target` is what `read_symlink` returns.
pub record Entry : Type 0 where
  pub path : Text
  pub is_regular_file : Bool
  pub is_symlink : Bool
  pub exists : Bool
  pub target : Text

-- The dynamic linker: the handles, what the function is that it finds under the name of the identity and
-- that it returns, whether `dlerror` reports an error then, and the same for the instance, which may be null.
pub record Linker (H I : Type 0) : Type 0 where
  pub dlopen : Text → Option H
  pub plugin_id : H → Option Identity
  pub id_error : H → Bool
  pub plugin_instance : H → Option (Option I)
  pub instance_error : H → Bool

-- `entry`, if the entry is not skipped.
unfoldable pub entry_path : Entry → Option Text
entry_path e =
    if e.is_regular_file
    then some e.path
    else if e.is_symlink && e.exists
    then some e.target
    else none

abbrev pub starts_with : Text → Text → Bool
starts_with [] t = true
starts_with (c ∷ s) [] = false
starts_with (c ∷ s) (d ∷ t) = c == d && starts_with s t

-- `find( ".so" )` finds something.
unfoldable pub contains : Text → Text → Bool
contains s [] = starts_with s []
contains s (d ∷ t) = starts_with s (d ∷ t) || contains s t

module _ {H I : Type 0} (ld : Linker H I) (name_space : Text) where
  -- What an opened library is, if it is a plugin of the name space.
  unfoldable pub identify : Text → H → Option Identity
  identify path h = elim (ld.plugin_id h) [
    | none ↦ none
    | some id ↦
        if ld.id_error h
        then none
        else if not (is_empty name_space) && not (same_text id.name_space name_space)
        then none
        else some (record id { path = path })
  ]

  -- The library is closed again in any case.
  unfoldable pub probe : Text → Option Identity
  unfolding identify contains
  probe path =
      if not (contains (codes ".so") path)
      then none
      else elim (ld.dlopen path) [ none ↦ none | some h ↦ identify path h ]

  unfoldable pub plugin_at : Entry → Option Identity
  unfolding entry_path probe
  plugin_at e = elim (entry_path e) [ none ↦ none | some path ↦ probe path ]

  -- `next`: the rest of the entries, from the iterator's on, and `id`.
  unfoldable pub next : List Entry → Identity → List Entry × Identity
  next [] id = ([], id)
  next (e ∷ rest) id =
      let further = next rest id in
      elim (plugin_at e) [ none ↦ further | some found ↦ (e ∷ rest, found) ]

  -- `Iterator( path, name_space )`, for the entries of the directory.
  unfoldable pub begin : Text → List Entry → List Entry × Identity
  begin path entries =
      let id = identity name_space [] (record { major_ = pos 1; minor_ = pos 0; patch_ = pos 0 }) in
      if is_empty path then (entries, id) else next entries id

  -- `operator++`
  unfoldable pub advance : List Entry × Identity → List Entry × Identity
  advance ([], id) = ([], id)
  advance (e ∷ rest, id) = next rest id
