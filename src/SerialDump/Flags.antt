-- ===== src/SerialDump/Flags.antt =====
-- Which bits of `c_cflag` any options can set.
use cpp_tricks.Prelude.{
  ℕ, ◌≡◌, ap, subst, Bool, true, false, not, ◌&&◌, ◌||◌, List, [], ◌∷◌, Option, some, arith, inl,
  inr, Option-cases, Bool-cases,
}
use cpp_tricks.Prelude.Chain.{◌>>=◌}
use cpp_tricks.Prelude.Text.{Text, codes, same_text}
use cpp_tricks.SerialDump.{
  Termios, Settings, is_in, speeds, number, set_baud, set_stop, set_option, parse_options,
  parse_args, defaults,
}

module _ {T : Type 0} (sys : Termios T) (i : ℕ) where
  -- A bit of `c_cflag`: those of CS8 are on, but for CSTOPB, and no others are than those of the receiver, of the
  -- word lengths and of the stop bits.
  abbrev is_wide : Bool → Bool
  is_wide c =
      (not (sys.cs8 i) || sys.cstopb i || c)
      && (not c
          || sys.cread i
          || sys.clocal i
          || sys.cs5 i
          || sys.cs6 i
          || sys.cs7 i
          || sys.cs8 i
          || sys.cstopb i)

  abbrev IsWide : Settings → Type 0
  IsWide t = is_wide (t.c_cflag i) ≡ true

  defaults-IsWide : (e : Bool) → IsWide (defaults sys e)
  unfolding defaults
  defaults-IsWide e = ground arith

  number-IsWide :
      (v : Text) (t : Settings) (r : ℕ × Settings) → number sys v t ≡ some r → IsWide t → IsWide r.1
  unfolding number
  number-IsWide v t (n, u) e h = ground arith

  baud-IsWide : (n : ℕ) (t u : Settings) → set_baud sys n t ≡ some u → IsWide t → IsWide u
  unfolding set_baud
  baud-IsWide n t u e h = elim (Bool-cases (is_in n speeds)) [
    | inl b ↦ let p = rw b at e in ground arith
    | inr b ↦ let p = rw b at e in absurd (cc p)
  ]

  stop-IsWide : (n : ℕ) (t u : Settings) → set_stop sys n t ≡ some u → IsWide t → IsWide u
  unfolding set_stop
  stop-IsWide n t u e h = ground arith

  option-IsWide : (a : Text) (t u : Settings) → set_option sys a t ≡ some u → IsWide t → IsWide u
  unfolding set_option
  option-IsWide a t u e h = ground arith

  -- The step for an option with an argument, and the rest.
  argument-IsWide :
      (v : Text) (t u : Settings) (l : List Text) (f : ℕ → Settings → Option Settings)
      → ((n : ℕ) (x y : Settings) → f n x ≡ some y → IsWide x → IsWide y)
      → ((x : Settings) → parse_options sys l x ≡ some u → IsWide x → IsWide u)
      → (number sys v t >>= (λ r. f r.0 r.1)) >>= (λ x. parse_options sys l x) ≡ some u
      → IsWide t
      → IsWide u
  argument-IsWide v t u l f keeps rest e h = elim (Option-cases (number sys v t)) [
    | inl bad ↦ absurd (cc (rw bad at e))
    | inr (r, got) ↦
        let e' = rw got at e in
        elim (Option-cases (f r.0 r.1)) [
          | inl bad ↦ absurd (cc (rw bad at e'))
          | inr (x, set) ↦ rest x (rw set at e') (keeps r.0 r.1 x set (number-IsWide v t r got h))
        ]
  ]

  options-IsWide :
      (l : List Text) (t u : Settings) → parse_options sys l t ≡ some u → IsWide t → IsWide u
  unfolding parse_options
  options-IsWide [] t u e h = subst (λ x. IsWide x) (some_eq e) h
    where
      some_eq : ◌≡◌ {A = Option Settings} (some t) (some u) → t ≡ u
      some_eq e = cc e
  options-IsWide (a ∷ []) t u e h =
      elim (Bool-cases (same_text a (codes "-b") || same_text a (codes "-s"))) [
        | inl b ↦ absurd (cc (rw b at e))
        | inr b ↦ option-IsWide a t u (rw b at e) h
      ]
  options-IsWide (a ∷ v ∷ l) t u e h = elim (Bool-cases (same_text a (codes "-b"))) [
    | inl b ↦
        argument-IsWide v t u l (set_baud sys) baud-IsWide (λ x. options-IsWide l x u) (rw b at e) h
    | inr b ↦
        let e' = rw b at e in
        elim (Bool-cases (same_text a (codes "-s"))) [
          | inl s ↦
              argument-IsWide v t u l (set_stop sys) stop-IsWide (λ x. options-IsWide l x u)
                (rw s at e') h
          | inr s ↦
              let e'' = rw s at e' in
              elim (Option-cases (set_option sys a t)) [
                | inl bad ↦ absurd (cc (rw bad at e''))
                | inr (x, set) ↦
                    options-IsWide (v ∷ l) x u (rw set at e'') (option-IsWide a t x set h)
              ]
        ]
  ]

  -- Whatever options `parse_args` accepts: in `c_cflag` every bit of CS8 that is not one of CSTOPB is on, so the word
  -- length stays 8; and a bit of PARENB that is none of the receiver's, the word lengths' and the stop
  -- bits' is off, so no parity is asked for.
  pub flags_lem :
      (argv : List Text) (errno : Bool) (t : Settings) (term : T)
      → parse_args sys argv errno ≡ some (t, term)
      → (sys.cs8 i ≡ true → sys.cstopb i ≡ false → t.c_cflag i ≡ true)
        × (sys.parenb i ≡ true
            → (sys.cread i
                || sys.clocal i
                || sys.cs5 i
                || sys.cs6 i
                || sys.cs7 i
                || sys.cs8 i
                || sys.cstopb i)
              ≡ false
            → t.c_cflag i ≡ false)
  unfolding parse_args
  flags_lem [] errno t term e = absurd (cc e)
  flags_lem (app ∷ []) errno t term e = absurd (cc e)
  flags_lem (app ∷ device ∷ []) errno t term e = absurd (cc e)
  flags_lem (app ∷ device ∷ a ∷ l) errno t term e =
      elim (Option-cases (parse_options sys (a ∷ l) (defaults sys errno))) [
        | inl bad ↦ absurd (cc (rw bad at e))
        | inr (u, p) ↦
            let e' = rw p at e in
            let wide = options-IsWide (a ∷ l) (defaults sys errno) u p (defaults-IsWide errno) in
            elim (Option-cases (sys.set_speeds u.c_cflag u.c_iflag (sys.speed u.baud))) [
              | inl bad ↦ absurd (cc (rw bad at e'))
              | inr (x, q) ↦
                  let same : u.c_cflag i ≡ t.c_cflag i = flag_eq u t (rw q at e') in
                  (λ b c. ground arith, λ b c. ground arith)
            ]
      ]
    where
      flag_eq :
          (u t : Settings) {x : T}
          → ◌≡◌ {A = Option (Settings × T)} (some (u, x)) (some (t, term))
          → u.c_cflag i ≡ t.c_cflag i
      flag_eq u t e = let same : u ≡ t = cc e in ap (λ (s : Settings). s.c_cflag i) same
