-- ===== src/Plugin/Laws.antt =====
-- What `import` does to the loader.
use cpp_tricks.Prelude.{
  ◌+◌, ◌≡◌, refl, ap, subst, ◌∙◌, true, false, Option, none, some, arith, if◌then◌else◌, inl, inr,
  Bool-cases, Option-cases,
}
use cpp_tricks.Prelude.Text.{Text, is_empty}
use cpp_tricks.Plugin.Identity.{Identity}
use cpp_tricks.Plugin.Identity
use cpp_tricks.Plugin.Iterator.{Linker}
use cpp_tricks.Plugin.Search.{plugins_of, first_path, search_lem}
use cpp_tricks.Plugin.Loader.{
  PluginMap, Files, Loader, is_loaded, closed, instantiate, import_from, import_path, import,
}

module _ {M H I : Type 0} (std : PluginMap M (I × H)) (ld : Linker H I) where
  -- Why there is no instance of an identity in the file of a path.
  pub data Refused (fs : Files) (id : Identity) (path : Text) (s : Loader M) : Type 0 where
    not_found : is_empty path ≡ true → Refused fs id path s
    already_loaded : is_loaded std id s ≡ true → Refused fs id path s
    no_file : fs.exists path ≡ false → Refused fs id path s
    no_library : ld.dlopen path ≡ none → Refused fs id path s
    no_plugin_entry :
        (h : H) → ld.dlopen path ≡ some h → ld.plugin_id h ≡ none → Refused fs id path s
    wrong_identity :
        (h : H) (lib_id : Identity)
        → ld.dlopen path ≡ some h
        → ld.plugin_id h ≡ some lib_id
        → Identity.equal lib_id id ≡ false
        → Refused fs id path s
    no_instance_entry :
        (h : H) → ld.dlopen path ≡ some h → ld.plugin_instance h ≡ none → Refused fs id path s
    instance_load_error :
        (h : H) → ld.dlopen path ≡ some h → ld.instance_error h ≡ true → Refused fs id path s
    null_instance :
        (h : H) → ld.dlopen path ≡ some h → ld.plugin_instance h ≡ some none → Refused fs id path s

  -- The file is there, no plugin of the identity is loaded, and the library has the entry of an identity.
  pub record HasEntry (fs : Files) (id : Identity) (path : Text) (s : Loader M) (h : H)
      (lib_id : Identity) : Type 0 where
    pub found : is_empty path ≡ false
    pub not_loaded : is_loaded std id s ≡ false
    pub exists : fs.exists path ≡ true
    pub library : ld.dlopen path ≡ some h
    pub entry : ld.plugin_id h ≡ some lib_id

  -- How `import` leaves the loader: with the instance that it returns inserted in the map and its library open, or as
  -- it was, or as it was but for a library that stays open though no instance holds it.
  pub data Outcome (fs : Files) (id : Identity) (path : Text) (s : Loader M)
      : Option I × Loader M → Type 0 where
    loaded :
        (inst : I) (h : H) (lib_id : Identity)
        → HasEntry fs id path s h lib_id
        → ld.id_error h ≡ false
        → Identity.equal lib_id id ≡ true
        → ld.plugin_instance h ≡ some (some inst)
        → ld.instance_error h ≡ false
        → Outcome fs id path s (
          some inst,
          record s {
            plugins_ = std.insert id (inst, h) s.plugins_;
            open_handles = s.open_handles + 1;
          },
        )
    failed : Refused fs id path s → Outcome fs id path s (none, s)
    leaked :
        (h : H) (lib_id : Identity)
        → HasEntry fs id path s h lib_id
        → ld.id_error h ≡ true
        → Outcome fs id path s (none, record s { open_handles = s.open_handles + 1 })

  closed_lem :
      (fs : Files) (id : Identity) (path : Text) (s : Loader M)
      → Refused fs id path s
      → Outcome fs id path s (closed std ld (record s { open_handles = s.open_handles + 1 }))
  closed_lem fs id path s r =
      subst (λ n. Outcome fs id path s (none, record s { open_handles = n })) (omega arith)
        (failed r)

  instantiate_lem :
      (fs : Files) (id : Identity) (path : Text) (h : H) (lib_id : Identity) (s : Loader M)
      → HasEntry fs id path s h lib_id
      → ld.id_error h ≡ false
      → Identity.equal lib_id id ≡ true
      → Outcome fs id path s
          (instantiate std ld id h (record s { open_handles = s.open_handles + 1 }))
  unfolding instantiate
  instantiate_lem fs id path h lib_id s d clean same = elim (Option-cases (ld.plugin_instance h)) [
    | inl e ↦ rw (e, instantiate) (closed_lem fs id path s (no_instance_entry h d.library e))
    | inr (made, e) ↦ elim (Bool-cases (ld.instance_error h)) [
      | inl t ↦ rw (e, t, instantiate) (closed_lem fs id path s (instance_load_error h d.library t))
      | inr f ↦ elim (Option-cases made) [
        | inl n ↦
            rw (e, f, n, instantiate)
              (closed_lem fs id path s (null_instance h d.library (e ∙ ap some n)))
        | inr (inst, y) ↦
            rw (e, f, y, instantiate) (loaded inst h lib_id d clean same (e ∙ ap some y) f)
      ]
    ]
  ]

  import_from_lem :
      (fs : Files) (id : Identity) (path : Text) (h : H) (s : Loader M)
      → is_empty path ≡ false
      → is_loaded std id s ≡ false
      → fs.exists path ≡ true
      → ld.dlopen path ≡ some h
      → Outcome fs id path s
          (import_from std ld id h (record s { open_handles = s.open_handles + 1 }))
  unfolding import_from
  import_from_lem fs id path h s named new there d = elim (Option-cases (ld.plugin_id h)) [
    | inl e ↦ rw (e, import_from) (closed_lem fs id path s (no_plugin_entry h d e))
    | inr (lib_id, e) ↦ elim (Bool-cases (ld.id_error h)) [
      | inl t ↦ rw (e, t, import_from) (leaked h lib_id (with_entry lib_id e) t)
      | inr f ↦ elim (Bool-cases (Identity.equal lib_id id)) [
        | inl t ↦
            rw (e, f, t, import_from)
              (instantiate_lem fs id path h lib_id s (with_entry lib_id e) f t)
        | inr g ↦
            rw (e, f, g, import_from) (closed_lem fs id path s (wrong_identity h lib_id d e g))
      ]
    ]
  ]
    where
      with_entry :
          (lib_id : Identity) → ld.plugin_id h ≡ some lib_id → HasEntry fs id path s h lib_id
      with_entry lib_id e = record {
        found = named;
        not_loaded = new;
        exists = there;
        library = d;
        entry = e;
      }

  import_path_lem :
      (fs : Files) (id : Identity) (path : Text) (s : Loader M)
      → is_empty path ≡ false
      → Outcome fs id path s (import_path std ld fs id path s)
  unfolding import_path
  import_path_lem fs id path s named = elim (Bool-cases (is_loaded std id s)) [
    | inl t ↦ rw t (failed (already_loaded t))
    | inr f ↦ elim (Bool-cases (fs.exists path)) [
      | inl t ↦ elim (Option-cases (ld.dlopen path)) [
        | inl n ↦ rw (f, t, n) (failed (no_library n))
        | inr (h, y) ↦ rw (f, t, y) (import_from_lem fs id path h s named f t y)
      ]
      | inr g ↦ rw (f, g) (failed (no_file g))
    ]
  ]

  -- For an identity without a path, when the working directory has a name, `import` returns. It remembers the
  -- given directory, or else the working one, and takes the first plugin there that is equal to the identity.
  -- It returns the instance, after it has inserted it in the map with its library, which stays open: then nothing of
  -- the identity was loaded, the file exists and is a library with both entries and without an error, and its
  -- identity is the same. Or it leaves the loader as it was for a reason that is stated, or the linker reports an
  -- error on the entry of the identity and the library stays open.
  pub import_lem :
      (fs : Files) (id : Identity) (path : Text) (s : Loader M)
      → is_empty id.path ≡ true
      → is_empty fs.current_path ≡ false
      → let dir = if is_empty path then fs.current_path else path in
        (r : Option I × Loader M) × (import std ld fs id path s ≡ some r)
        × Outcome fs id
            (first_path id (plugins_of ld (fs.entries dir)))
            (record s { current_path_ = dir })
            r
  unfolding import
  import_lem fs id path s h k =
      let dir = if is_empty path then fs.current_path else path in
      let s' : Loader M = record s { current_path_ = dir } in
      let found = first_path id (plugins_of ld (fs.entries dir)) in
      let named : is_empty dir ≡ false = elim (Bool-cases (is_empty path)) [
        | inl t ↦ rw t k
        | inr f ↦ rw (f, f) refl
      ] in
      let ends = search_lem ld dir (fs.entries dir) id named in
      elim (Bool-cases (is_empty found)) [
        | inl t ↦ ((none, s'), rw (h, ends, t) refl, failed (not_found t))
        | inr f ↦ (
          import_path std ld fs id found s',
          rw (h, ends, f) refl,
          import_path_lem fs id found s' f,
        )
      ]
