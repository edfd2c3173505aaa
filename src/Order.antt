-- ===== src/Order.antt =====
-- The order of a value type: `operator<`, as `std::less` and the templates of the repository use it.
-- `a > b` is `less b a`.
use cpp_tricks.Prelude.{
  ℕ, ◌≡◌, Bool, true, false, arith, ltb, Bool-cases, inl, inr, subst, refl, List, [], ◌∷◌,
  if◌then◌else◌,
}

-- A strict total order.
pub record IsStrict {ℓ} {K : Type ℓ} (less : K → K → Bool) : Type ℓ where
  pub irrefl : (a : K) → less a a ≡ false
  pub trans : (a b c : K) → less a b ≡ true → less b c ≡ true → less a c ≡ true
  pub connex : (a b : K) → less a b ≡ false → less b a ≡ false → a ≡ b

pub record Less {ℓ} (K : Type ℓ) : Type ℓ where
  pub less : K → K → Bool
  pub strict : IsStrict less
  pub open strict use *

abbrev pub lt {ℓ} : {K : Type ℓ} ⦃o : Less K⦄ → K → K → Bool
lt ⦃o⦄ = o.less

module _ {ℓ} {K : Type ℓ} ⦃o : Less K⦄ where
  -- No two values are below one another.
  pub asym : (a b : K) → lt a b ≡ true → lt b a ≡ false
  asym a b h = grind (arith, o.trans a b a, o.irrefl a)

  -- `a < b` and `b ≤ c`.
  pub lt_of_lt_le : (a b c : K) → lt a b ≡ true → lt c b ≡ false → lt a c ≡ true
  lt_of_lt_le a b c h k = elim (Bool-cases (lt b c)) [
    | inl e ↦ o.trans a b c h e
    | inr e ↦ subst (λ x. lt a x ≡ true) (o.connex b c e k) h
  ]

pub ltb-IsStrict : IsStrict ltb
ltb-IsStrict = record {
  irrefl = λ a. ground arith;
  trans = λ a b c h k. ground arith;
  connex = λ a b h k. ground arith;
}

instance abbrev pub nat_less : Less ℕ
nat_less = record { less = ltb; strict = ltb-IsStrict }

-- Texts and other sequences compare lexicographically, as `std::string` does.
module _ {ℓ} {K : Type ℓ} ⦃o : Less K⦄ where
  unfoldable pub lex : List K → List K → Bool
  lex [] [] = false
  lex [] (b ∷ bs) = true
  lex (a ∷ as') [] = false
  lex (a ∷ as') (b ∷ bs) = if lt a b then true else if lt b a then false else lex as' bs

  lex_irrefl : (as' : List K) → lex as' as' ≡ false
  unfolding lex
  lex_irrefl [] = refl
  lex_irrefl (a ∷ as') = rw (o.irrefl a) (lex_irrefl as')

  lex_trans : (a b c : List K) → lex a b ≡ true → lex b c ≡ true → lex a c ≡ true
  unfolding lex
  lex_trans [] [] c h k = cc
  lex_trans [] (b ∷ bs) [] h k = cc
  lex_trans [] (b ∷ bs) (c ∷ cs) h k = refl
  lex_trans (a ∷ as') [] c h k = cc
  lex_trans (a ∷ as') (b ∷ bs) [] h k = cc
  lex_trans (a ∷ as') (b ∷ bs) (c ∷ cs) h k =
      ground (arith, lex_trans as' bs cs, o.connex a b, o.connex b c, o.trans a b c)

  lex-connex : (a b : List K) → lex a b ≡ false → lex b a ≡ false → a ≡ b
  unfolding lex
  lex-connex [] [] h k = refl
  lex-connex [] (b ∷ bs) h k = cc
  lex-connex (a ∷ as') [] h k = cc
  lex-connex (a ∷ as') (b ∷ bs) h k = ground (arith, lex-connex as' bs, o.connex a b)

  pub lex-IsStrict : IsStrict lex
  lex-IsStrict = record { irrefl = lex_irrefl; trans = lex_trans; connex = lex-connex }

  instance abbrev pub list_less : Less (List K)
  list_less = record { less = lex; strict = lex-IsStrict }
