-- ===== src/Autocomplete/Options.antt =====
-- Which names the completion offers.
use cpp_tricks.Prelude.{
  ◌≡◌, ◌↔◌, ◌⊎◌, refl, sym, subst, inl, inr, Bool, true, false, List, [], ◌∷◌, ◌++◌, arith, ◌==◌,
  take, length, if◌then◌else◌, Bool-cases,
}
use cpp_tricks.Prelude.Text.{Text, same_text}
use cpp_tricks.Elements.Node.{Children, element, nil, cons}
use cpp_tricks.Autocomplete.{starts_with, options}

-- Does the text begin with the prefix, that is, is the prefix what is taken of it?
abbrev pub begins : Text → Text → Bool
begins p s = same_text (take (length p) s) p

-- The names with this prefix, in order.
abbrev pub prefixed : Text → List Text → List Text
prefixed p [] = []
prefixed p (n ∷ ns) = if begins p n then n ∷ prefixed p ns else prefixed p ns

-- The list has this text.
abbrev pub Has : Text → List Text → Type 0
Has n [] = ⊥
Has n (m ∷ ms) = (n ≡ m) ⊎ Has n ms

abbrev pub child_names : Children → List Text
child_names nil = []
child_names (cons (element n ds) cs) = n ∷ child_names cs

starts_with-begins : (p s : Text) → starts_with s p ≡ begins p s
unfolding starts_with
starts_with-begins [] s = refl
starts_with-begins (d ∷ p) [] = refl
starts_with-begins (d ∷ p) (c ∷ s) = elim (Bool-cases (c == d)) [
  | inl e ↦ rw e (starts_with-begins p s)
  | inr e ↦ rw e
]

pub options-prefixed : (p : Text) (cs : Children) → options p cs ≡ prefixed p (child_names cs)
unfolding options
options-prefixed p nil = refl
options-prefixed p (cons (element n ds) cs) =
    rw (starts_with-begins p n, options-prefixed p cs) refl

-- The second text is a prefix of the first.
abbrev pub Begins : Text → Text → Type 0
Begins s p = (t : Text) × (s ≡ p ++ t)

starts_with-append : (p t : Text) → starts_with (p ++ t) p ≡ true
unfolding starts_with
starts_with-append [] t = refl
starts_with-append (c ∷ p) t =
    let same : (c == c) ≡ true = ground arith in rw same (starts_with-append p t)

starts_with-Begins : (s p : Text) → starts_with s p ≡ true → Begins s p
unfolding starts_with
starts_with-Begins s [] h = (s, refl)
starts_with-Begins [] (d ∷ p) h = absurd (cc h)
starts_with-Begins (c ∷ s) (d ∷ p) h = elim (Bool-cases (c == d)) [
  | inl e ↦
      let (t, q) = starts_with-Begins s p (rw e at h) in
      let same : c ≡ d = ground arith in (t, cc (same, q))
  | inr e ↦ absurd (cc (rw e at h))
]

-- The names that are offered are those of the children that begin with the word to complete.
pub options_lem :
    (p : Text) (cs : Children) (n : Text)
    → Has n (options p cs) ↔ (Has n (child_names cs) × Begins n p)
unfolding options
options_lem p nil n = ((λ h. absurd h), (λ h. absurd h.0))
options_lem p (cons (element m ds) cs) n = elim (Bool-cases (starts_with m p)) [
  | inl e ↦ rw e (
    (λ h. elim h [
      | inl q ↦ (inl q, subst (λ x. Begins x p) (sym q) (starts_with-Begins m p e))
      | inr k ↦ let r = (options_lem p cs n).0 k in (inr r.0, r.1)
    ]),
    (λ h. elim h.0 [ inl q ↦ inl q | inr k ↦ inr ((options_lem p cs n).1 (k, h.1)) ]),
  )
  | inr e ↦ rw e (
    (λ h. let r = (options_lem p cs n).0 h in (inr r.0, r.1)),
    (λ h. elim h.0 [
      | inl q ↦ absurd (misses m p e (subst (λ x. Begins x p) q h.1))
      | inr k ↦ (options_lem p cs n).1 (k, h.1)
    ]),
  )
]
  where
    misses : (m p : Text) → starts_with m p ≡ false → ¬ Begins m p
    misses m p e (t, q) = cc (e, q, starts_with-append p t)
