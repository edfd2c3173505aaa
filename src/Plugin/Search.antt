-- ===== src/Plugin/Search.antt =====
-- The search of a plugin, and what it finds.
use cpp_tricks.Prelude.{
  ℕ, zero, suc, ◌<◌, ◌≡◌, refl, sym, ap, ◌∙◌, false, List, [], ◌∷◌, Option, none, some, length,
  arith, if◌then◌else◌, inl, inr, Option-cases, Bool-cases,
}
use cpp_tricks.Prelude.Int.{pos}
use cpp_tricks.Prelude.Text.{Text, is_empty}
use cpp_tricks.Plugin.Identity.{Identity, identity}
use cpp_tricks.Plugin.Identity
use cpp_tricks.Plugin.Iterator.{Entry, Linker, plugin_at, next, begin, advance}

abbrev pub first_path : Identity → List Identity → Text
first_path id [] = []
first_path id (found ∷ l) = if Identity.equal found id then found.path else first_path id l

module _ {H I : Type 0} (ld : Linker H I) where
  -- The loop of `import`, with fuel, for an iterator without a name space: the path of the plugin, or an
  -- empty one; `none` means that the fuel ran out.
  unfoldable pub search : ℕ → Identity → List Entry × Identity → Option Text
  search zero id p = none
  search (suc f) id ([], found) = some []
  search (suc f) id (e ∷ rest, found) =
      let further = search f id (advance ld [] (e ∷ rest, found)) in
      if Identity.equal found id then some found.path else further

  -- The plugins of the entries, in their order.
  abbrev pub plugins_of : List Entry → List Identity
  plugins_of [] = []
  plugins_of (e ∷ rest) = elim (plugin_at ld [] e) [
    | none ↦ plugins_of rest
    | some id ↦ id ∷ plugins_of rest
  ]

  -- An entry that is no plugin is passed over.
  skip :
      (d : Entry) (rest : List Entry) (found : Identity)
      → plugin_at ld [] d ≡ none
      → (next ld [] (d ∷ rest) found ≡ next ld [] rest found)
        × (plugins_of (d ∷ rest) ≡ plugins_of rest)
  unfolding next
  skip d rest found e = (rw (e, next) refl, rw (e, plugins_of) refl)

  stop :
      (d : Entry) (rest : List Entry) (found here : Identity)
      → plugin_at ld [] d ≡ some here
      → (next ld [] (d ∷ rest) found ≡ (d ∷ rest, here))
        × (plugins_of (d ∷ rest) ≡ here ∷ plugins_of rest)
  unfolding next
  stop d rest found here e = (rw (e, next) refl, rw (e, plugins_of) refl)

  search_here :
      (f : ℕ) (id : Identity) (d : Entry) (rest : List Entry) (here : Identity)
      → search f id (next ld [] rest here) ≡ some (first_path id (plugins_of rest))
      → search (suc f) id (d ∷ rest, here) ≡ some (first_path id (here ∷ plugins_of rest))
  unfolding search advance
  search_here f id d rest here further = elim (Bool-cases (Identity.equal here id)) [
    | inl t ↦ rw t refl
    | inr g ↦ rw g further
  ]

  search-next :
      (f : ℕ) (id : Identity) (es : List Entry) (found : Identity)
      → length es < f
      → search f id (next ld [] es found) ≡ some (first_path id (plugins_of es))
  unfolding search next advance
  search-next zero id es found h = absurd (omega arith)
  search-next (suc f) id [] found h = refl
  search-next (suc f) id (d ∷ rest) found h = elim (Option-cases (plugin_at ld [] d)) [
    | inl e ↦
        let (n, p) = skip d rest found e in
        ap (search (suc f) id) n
        ∙ search-next (suc f) id rest found (omega arith)
        ∙ ap (λ l. some (first_path id l)) (sym p)
    | inr (here, e) ↦
        let (n, p) = stop d rest found here e in
        ap (search (suc f) id) n
        ∙ search_here f id d rest here (search-next f id rest here (omega arith))
        ∙ ap (λ l. some (first_path id l)) (sym p)
  ]

  -- For a directory that is named, the loop of `import` ends, and finds the path of the first plugin of the
  -- directory that is equal to the one asked for, or an empty path if there is none.
  pub search_lem :
      (dir : Text) (es : List Entry) (id : Identity)
      → is_empty dir ≡ false
      → search (suc (length es)) id (begin ld [] dir es) ≡ some (first_path id (plugins_of es))
  unfolding begin
  search_lem dir es id h = rw h (
      search-next (suc (length es)) id es
        (identity [] [] (record { major_ = pos 1; minor_ = pos 0; patch_ = pos 0 })) (omega arith))
