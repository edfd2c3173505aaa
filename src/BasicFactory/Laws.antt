-- ===== src/BasicFactory/Laws.antt =====
-- Which constructor `make` calls.
use cpp_tricks.Prelude.{
  ◌≡◌, ◌↔◌, refl, List, [], ◌∷◌, ◌++◌, none, some, All, Bool-cases, inl, inr, arith, false, true,
}
use cpp_tricks.Prelude.Int.{ℤ, same_ℤ}
use cpp_tricks.BasicFactory.{FactoryElement, make}

same_refl : (v : ℤ) → same_ℤ v v ≡ true
same_refl v = ground arith

module _ {A B : Type 0} where
  -- No element has this identifier.
  abbrev pub Unlisted : ℤ → List (FactoryElement A B) → Type 0
  Unlisted key ts = All (λ (t : FactoryElement A B). same_ℤ key t.id ≡ false) ts

  -- For the identifier of an element that no earlier element has, `make` calls that element's
  -- constructor, whatever stands behind it; and over those earlier elements it gives a null pointer
  -- exactly for the identifiers that none of them has.
  pub make_lem :
      (front rest : List (FactoryElement A B)) (t : FactoryElement A B) (key : ℤ) (args : A)
      → Unlisted t.id front
      → (make t.id args (front ++ (t ∷ rest)) ≡ some (t.construct args))
        × ((make key args front ≡ none) ↔ Unlisted key front)
  unfolding make
  make_lem front rest t key args u = (found front u, (listed front, unlisted front))
    where
      found :
          (xs : List (FactoryElement A B))
          → Unlisted t.id xs
          → make t.id args (xs ++ (t ∷ rest)) ≡ some (t.construct args)
      found [] h = rw (same_refl)
      found (x ∷ xs) h = rw (h.0) (found xs h.1)

      listed : (xs : List (FactoryElement A B)) → make key args xs ≡ none → Unlisted key xs
      listed [] e = tt
      listed (x ∷ xs) e = elim (Bool-cases (same_ℤ key x.id)) [
        | inl k ↦ absurd (cc (rw (k) at e))
        | inr k ↦ (k, listed xs (rw (k) at e))
      ]

      unlisted : (xs : List (FactoryElement A B)) → Unlisted key xs → make key args xs ≡ none
      unlisted [] h = refl
      unlisted (x ∷ xs) h = rw (h.0) (unlisted xs h.1)
