-- ===== src/Factory/Laws.antt =====
-- Which type `make` and `accept` choose.
use cpp_tricks.Prelude.{
  ◌≡◌, ◌⊎◌, refl, inl, inr, false, List, [], ◌∷◌, ◌++◌, none, some, All, Bool-cases,
}
use cpp_tricks.Prelude.Text.{Text, same_text, same_text_refl}
use cpp_tricks.Factory.{Entry, make, accept}

module _ {A B V : Type 0} where
  -- None of the types has this identifier.
  abbrev pub Unknown : Text → List (Entry A B V) → Type 0
  Unknown key ts = All (λ (t : Entry A B V). same_text key t.id ≡ false) ts

  -- For the identifier of a type that no earlier type has, `make` calls that type's constructor, and
  -- `accept` that type's method of the visitor: an object that `make` made goes to the method for its
  -- own type.
  pub accept-make :
      (front : List (Entry A B V)) (t : Entry A B V) (rest : List (Entry A B V)) (args : A)
      (item : B) (visitor : V) (fallback : V → V)
      → Unknown t.id front
      → (make t.id args (front ++ (t ∷ rest)) ≡ some (t.construct args))
        × (accept t.id item visitor fallback (front ++ (t ∷ rest)) ≡ t.dispatch item visitor)
  unfolding make accept
  accept-make [] t rest args item visitor fallback h = (rw same_text_refl, rw same_text_refl)
  accept-make (f ∷ front) t rest args item visitor fallback h =
      let m = accept-make front t rest args item visitor fallback h.1 in (rw h.0 m.0, rw h.0 m.1)

  -- If no type has the identifier, or if `make` gives a null pointer, then both hold, and `accept` calls
  -- the default handler.
  pub make-none :
      (ts : List (Entry A B V)) (key : Text) (args : A) (item : B) (visitor : V) (fallback : V → V)
      → Unknown key ts ⊎ (make key args ts ≡ none)
      → Unknown key ts
        × (make key args ts ≡ none)
        × (accept key item visitor fallback ts ≡ fallback visitor)
  unfolding make accept
  make-none [] key args item visitor fallback h = (tt, refl, refl)
  make-none (t ∷ ts) key args item visitor fallback (inl u) =
      let m = make-none ts key args item visitor fallback (inl u.1) in (u, rw u.0 m.1, rw u.0 m.2)
  make-none (t ∷ ts) key args item visitor fallback (inr e) =
      elim (Bool-cases (same_text key t.id)) [
        | inl k ↦ absurd (cc (rw k at e))
        | inr k ↦
            let m = make-none ts key args item visitor fallback (inr (rw k at e)) in
            ((k, m.0), rw k m.1, rw k m.2)
      ]
