-- ===== src/Plugin/Order.antt =====
-- The orders of versions and of identities.
use cpp_tricks.Prelude.{
  ◌≡◌, refl, sym, ap, subst, ◌∙◌, List, [], ◌∷◌, Bool, true, false, not, ◌&&◌, ◌||◌, arith, inl,
  inr, Bool-cases, if◌then◌else◌,
}
use cpp_tricks.Prelude.Int.{ℤ, pos, ltb_ℤ, eq_of_parts}
use cpp_tricks.Prelude.Text.{same_text, eq_of_same_text, same_text_refl}
use cpp_tricks.Order.{IsStrict, Less, lt, list_less, nat_less, lex, lex-IsStrict}
use cpp_tricks.Plugin.Version.{Version}
use cpp_tricks.Plugin.Version
use cpp_tricks.Plugin.Identity.{Identity}
use cpp_tricks.Plugin.Identity

ltb_ℤ-IsStrict : IsStrict ltb_ℤ
ltb_ℤ-IsStrict = record {
  irrefl = λ a. ground arith;
  trans = λ a b c h k. ground arith;
  connex = λ a b h k. eq_of_parts a b (ground arith);
}

instance abbrev int_less : Less ℤ
int_less = record { less = ltb_ℤ; strict = ltb_ℤ-IsStrict }

abbrev numbers : Version → List ℤ
numbers v = v.major_ ∷ v.minor_ ∷ v.patch_ ∷ []

last_number : (b c : Bool) → b ≡ (if b then true else if c then false else false)
last_number true c = refl
last_number false true = refl
last_number false false = refl

less_lex : (a b : Version) → Version.less a b ≡ lt (numbers a) (numbers b)
unfolding Version.less lex
less_lex a b =
    ap
      (λ last.
        if ltb_ℤ a.major_ b.major_
        then true
        else if ltb_ℤ b.major_ a.major_
        then false
        else if ltb_ℤ a.minor_ b.minor_
        then true
        else if ltb_ℤ b.minor_ a.minor_
        then false
        else last)
      (last_number (ltb_ℤ a.patch_ b.patch_) (ltb_ℤ b.patch_ a.patch_))

same_numbers : (a b : Version) → numbers a ≡ numbers b → a ≡ b
same_numbers a b h = cc h

greater_lem : (a b : Version) → Version.greater a b ≡ Version.less b a
unfolding Version.greater Version.less Version.equal
greater_lem a b = ground arith

-- `operator<` of versions is a strict total order, and `operator>` is its converse.
pub less-IsStrict :
    IsStrict Version.less × ((a b : Version) → Version.greater a b ≡ Version.less b a)
less-IsStrict =
    let o : IsStrict (lt {K = List ℤ}) = lex-IsStrict in
    (
      record {
        irrefl = λ a. less_lex a a ∙ o.irrefl (numbers a);
        trans = λ a b c h k.
            less_lex a c
            ∙ o.trans (numbers a) (numbers b) (numbers c) (sym (less_lex a b) ∙ h)
                (sym (less_lex b c) ∙ k);
        connex = λ a b h k.
            same_numbers a b
              (o.connex (numbers a) (numbers b) (sym (less_lex a b) ∙ h) (sym (less_lex b a) ∙ k));
      },
      greater_lem,
    )

module _ {K : Type 0} (less same : K → K → Bool) (o : IsStrict less) where
  -- For a strict total order, values none of which is below the other are the same.
  equivalent_same :
      ((a : K) → same a a ≡ true)
      → ((a b : K) → same a b ≡ true → a ≡ b)
      → (a b : K) → (not (less a b) && not (less b a)) ≡ same a b
  equivalent_same reflexive sound a b = elim (Bool-cases (same a b)) [
    | inl e ↦
        let below : less a b ≡ false = subst (λ x. less a x ≡ false) (sound a b e) (o.irrefl a) in
        let above : less b a ≡ false = subst (λ x. less x a ≡ false) (sound a b e) (o.irrefl a) in
        rw (below, above, e) refl
    | inr f ↦ elim (Bool-cases (less a b)) [
      | inl h ↦ rw (h, f) refl
      | inr h ↦ elim (Bool-cases (less b a)) [
        | inl k ↦ rw (h, k, f) refl
        | inr k ↦ absurd (cc (f, subst (λ x. same a x ≡ true) (o.connex a b h k) (reflexive a)))
      ]
    ]
  ]

same_version : (a b : Version) → Version.equal a b ≡ true → a ≡ b
unfolding Version.equal
same_version a b h =
    let e1 : a.major_ ≡ b.major_ = eq_of_parts a.major_ b.major_ (ground arith) in
    let e2 : a.minor_ ≡ b.minor_ = eq_of_parts a.minor_ b.minor_ (ground arith) in
    let e3 : a.patch_ ≡ b.patch_ = eq_of_parts a.patch_ b.patch_ (ground arith) in cc (e1, e2, e3)

same_version_refl : (a : Version) → Version.equal a a ≡ true
unfolding Version.equal
same_version_refl a = ground arith

or_right : (a b c : Bool) → b ≡ true → (a || (b || c)) ≡ true
or_right a b c h = ground arith

none_below :
    (a b c a' b' c' : Bool)
    → (not (a || (b || c)) && not (a' || (b' || c')))
      ≡ ((not a && not a') && ((not b && not b') && (not c && not c')))
none_below a b c a' b' c' = ground arith

equivalent_lem :
    (i j : Identity) → (not (Identity.less i j) && not (Identity.less j i)) ≡ Identity.equal i j
unfolding Identity.less Identity.equal
equivalent_lem i j =
    let texts = equivalent_same lt same_text lex-IsStrict same_text_refl eq_of_same_text in
    let versions =
      equivalent_same Version.less Version.equal less-IsStrict.0 same_version_refl same_version in
    none_below (lt i.name j.name) (lt i.name_space j.name_space) (Version.less i.version j.version)
      (lt j.name i.name) (lt j.name_space i.name_space) (Version.less j.version i.version)
    ∙ rw (texts i.name j.name, texts i.name_space j.name_space, versions i.version j.version) refl

-- Each of two identities can be below the other.
less_both :
    (i j : Identity)
    → lt i.name j.name ≡ true
    → lt j.name_space i.name_space ≡ true
    → (Identity.less i j ≡ true) × (Identity.less j i ≡ true)
unfolding Identity.less
less_both i j h k = (
  rw h refl,
  or_right (lt j.name i.name) (lt j.name_space i.name_space) (Version.less j.version i.version) k,
)

abbrev first : Identity
first = record {
  name = 1 ∷ [];
  name_space = 2 ∷ [];
  version = record { major_ = pos 0; minor_ = pos 0; patch_ = pos 0 };
  path = [];
}

abbrev second : Identity
second = record first { name = 2 ∷ []; name_space = 1 ∷ [] }

not-IsStrict : ¬ IsStrict Identity.less
unfolding lex
not-IsStrict o =
    let (below, above) = less_both first second refl refl in
    absurd (cc (o.trans first second first below above, o.irrefl first))

-- Two identities are equivalent for a `std::map`, none of them below the other, exactly if `operator==` holds;
-- but `operator<` of identities is no strict order, as a `std::map` requires.
pub less_not-IsStrict :
    ((i j : Identity) → (not (Identity.less i j) && not (Identity.less j i)) ≡ Identity.equal i j)
    × (¬ IsStrict Identity.less)
less_not-IsStrict = (equivalent_lem, not-IsStrict)
