-- ===== src/Plugin/Loader.antt =====
-- `Loader`.
use cpp_tricks.Prelude.{
  ℕ, suc, ◌+◌, ◌-◌, Bool, true, false, not, List, [], Option, none, some, length, if◌then◌else◌,
}
use cpp_tricks.Prelude.Text.{Text, is_empty}
use cpp_tricks.Plugin.Identity.{Identity}
use cpp_tricks.Plugin.Identity
use cpp_tricks.Plugin.Iterator.{Entry, Linker, begin}
use cpp_tricks.Plugin.Search.{search}

-- The container `std::map` with `operator<` of identities, which keeps values of type `V`.
pub record PluginMap (M V : Type 0) : Type 0 where
  pub find : M → Identity → Option V
  -- `insert`, of a key that is not there
  pub insert : Identity → V → M → M
  pub erase : Identity → M → M
  -- the values from `begin` to `end`
  pub values : M → List V
  pub empty : M

-- The file system: the entries of a directory, the working directory, and `fs::exists`.
pub record Files : Type 0 where
  pub entries : Text → List Entry
  pub current_path : Text
  pub exists : Text → Bool

-- An instance in the map comes with its `handle_`. `open_handles` counts the libraries that are open.
pub record Loader (M : Type 0) : Type 0 where
  pub current_path_ : Text
  pub plugins_ : M
  pub open_handles : ℕ

abbrev pub is_some : {A : Type 0} → Option A → Bool
is_some none = false
is_some (some a) = true

module _ {M H I : Type 0} (std : PluginMap M (I × H)) where
  unfoldable pub is_loaded : Identity → Loader M → Bool
  is_loaded id s = is_some (std.find s.plugins_ id)

  -- `unload( id )`
  unfoldable pub unload : Identity → Loader M → Loader M
  unload id s = elim (std.find s.plugins_ id) [
    | none ↦ s
    | some v ↦ record s { plugins_ = std.erase id s.plugins_; open_handles = s.open_handles - 1 }
  ]

  -- `unload()`
  unfoldable pub unload_all : Loader M → Loader M
  unload_all s = record s {
    plugins_ = std.empty;
    open_handles = s.open_handles - length (std.values s.plugins_);
  }

module _ {M H I : Type 0} (std : PluginMap M (I × H)) (ld : Linker H I) where
  abbrev pub closed : Loader M → Option I × Loader M
  closed s = (none, record s { open_handles = s.open_handles - 1 })

  -- `import`, from the instance's entry on, which the library `h` has or not.
  unfoldable pub instantiate : Identity → H → Loader M → Option I × Loader M
  instantiate id h s = elim (ld.plugin_instance h) [
    | none ↦ closed s
    | some made ↦
        let kept : Option I × Loader M = elim made [
          | none ↦ closed s
          | some inst ↦ (some inst, record s { plugins_ = std.insert id (inst, h) s.plugins_ })
        ] in
        if ld.instance_error h then closed s else kept
  ]

  -- `import`, with the library `h` open. The return on an error of `dlerror` leaves it open.
  unfoldable pub import_from : Identity → H → Loader M → Option I × Loader M
  unfolding instantiate
  import_from id h s = elim (ld.plugin_id h) [
    | none ↦ closed s
    | some lib_id ↦
        if ld.id_error h
        then (none, s)
        else if not (Identity.equal lib_id id)
        then closed s
        else instantiate id h s
  ]

  -- `import`, with the path of the plugin.
  unfoldable pub import_path : Files → Identity → Text → Loader M → Option I × Loader M
  unfolding import_from is_loaded
  import_path fs id id_path s =
      let opened : Option I × Loader M = elim (ld.dlopen id_path) [
        | none ↦ (none, s)
        | some h ↦ import_from id h (record s { open_handles = s.open_handles + 1 })
      ] in
      if is_loaded std id s
      then (none, s)
      else if not (fs.exists id_path)
      then (none, s)
      else opened

  -- `import`; the outer `none` means that the search ran out of fuel.
  unfoldable pub import : Files → Identity → Text → Loader M → Option (Option I × Loader M)
  unfolding import_path
  import fs id path s =
      let dir = if is_empty path then fs.current_path else path in
      let there = fs.entries dir in
      let s' : Loader M = record s { current_path_ = dir } in
      let searched : Option (Option I × Loader M) =
        elim (search ld (suc (length there)) id (begin ld [] dir there)) [
          | none ↦ none
          | some found ↦ some (if is_empty found then (none, s') else import_path fs id found s')
        ] in
      if is_empty id.path then searched else some (import_path fs id id.path s)
