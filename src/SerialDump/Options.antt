-- ===== src/SerialDump/Options.antt =====
-- The options that the usage text names, and what they mean.
use cpp_tricks.Prelude.{
  ℕ, ◌%◌, ◌^◌, ◌≤◌, ◌<◌, ◌≡◌, refl, ◌∙◌, true, false, ◌||◌, List, [], ◌∷◌, ◌++◌, some, All, arith,
}
use cpp_tricks.Prelude.Text.{Text, codes, decimal, same_text}
use cpp_tricks.SerialDump.{
  or_word, and_not, Termios, Settings, speeds, is_in, defaults, number, set_baud, set_stop,
  set_option, parse_options, parse_args,
}

pub data Opt : Type 0 where
  timestamp : Opt
  baud_rate : ℕ → Opt
  five six seven eight : Opt
  one_stop two_stops : Opt
  odd even no_parity : Opt

-- How an option is written.
abbrev pub render : Opt → List Text
render timestamp = codes "-t" ∷ []
render (baud_rate n) = codes "-b" ∷ decimal n ∷ []
render five = codes "-5" ∷ []
render six = codes "-6" ∷ []
render seven = codes "-7" ∷ []
render eight = codes "-8" ∷ []
render one_stop = codes "-s" ∷ decimal 1 ∷ []
render two_stops = codes "-s" ∷ decimal 2 ∷ []
render odd = codes "-o" ∷ []
render even = codes "-e" ∷ []
render no_parity = codes "-n" ∷ []

abbrev pub render_all : List Opt → List Text
render_all [] = []
render_all (o ∷ l) = render o ++ render_all l

-- A rate that the usage text lists.
abbrev pub Listed : Opt → Type 0
Listed (baud_rate n) = is_in n speeds ≡ true
Listed o = Unit {0}

listed_lt : (n : ℕ) → is_in n speeds ≡ true → n % 2 ^ 32 ≡ n
listed_lt n h = let small : n ≤ 4000000 = ground arith in omega arith

module _ {T : Type 0} (sys : Termios T) where
  abbrev pub apply : Opt → Settings → Settings
  apply timestamp t = record t { print_time = true }
  apply (baud_rate n) t = record t { baud = n; errno = false }
  apply five t = record t { c_cflag = or_word t.c_cflag sys.cs5 }
  apply six t = record t { c_cflag = or_word t.c_cflag sys.cs6 }
  apply seven t = record t { c_cflag = or_word t.c_cflag sys.cs7 }
  apply eight t = record t { c_cflag = or_word t.c_cflag sys.cs8 }
  apply one_stop t = record t { c_cflag = and_not t.c_cflag sys.cstopb; errno = false }
  apply two_stops t = record t { c_cflag = or_word t.c_cflag sys.cstopb; errno = false }
  apply odd t = record t {
    c_iflag = or_word (or_word (or_word t.c_iflag sys.inpck) sys.parodd) sys.parenb;
  }
  apply even t = record t { c_iflag = or_word (or_word t.c_iflag sys.inpck) sys.parenb }
  apply no_parity t = record t {
    c_iflag = and_not (and_not (and_not t.c_iflag sys.inpck) sys.parodd) sys.parenb;
  }

  abbrev pub apply_all : List Opt → Settings → Settings
  apply_all [] t = t
  apply_all (o ∷ l) t = apply_all l (apply o t)

  -- What the manual says of `strtoul` on decimal digits.
  abbrev pub ReadsDecimals : Type 0
  ReadsDecimals = (n : ℕ) → n < 2 ^ 32 → sys.strtoul (decimal n) ≡ (n, false)

  number_decimal :
      (n : ℕ) (t : Settings)
      → ReadsDecimals
      → n % 2 ^ 32 ≡ n
      → t.errno ≡ false
      → number sys (decimal n) t ≡ some (n, record t { errno = false })
  unfolding number
  number_decimal n t reads small clear = let got = reads n (omega arith) in rw (got, small, clear)

  one_word :
      (a : Text) (l : List Text) (t u : Settings)
      → (same_text a (codes "-b") || same_text a (codes "-s")) ≡ false
      → set_option sys a t ≡ some u
      → parse_options sys (a ∷ l) t ≡ parse_options sys l u
  unfolding parse_options
  one_word a [] t u other e = rw (other, e)
  one_word a (v ∷ l) t u other e = ground (arith, e)

  -- The text of one option, before others, does what the option means.
  parse_render :
      (o : Opt) (l : List Text) (t : Settings)
      → ReadsDecimals
      → Listed o
      → t.errno ≡ false
      → parse_options sys (render o ++ l) t ≡ parse_options sys l (apply o t)
  unfolding parse_options set_baud set_stop set_option
  parse_render timestamp l t r h c = one_word (codes "-t") l t (apply timestamp t) refl refl
  parse_render (baud_rate n) l t r h c = rw (number_decimal n t r (listed_lt n h) c, h)
  parse_render five l t r h c = one_word (codes "-5") l t (apply five t) refl refl
  parse_render six l t r h c = one_word (codes "-6") l t (apply six t) refl refl
  parse_render seven l t r h c = one_word (codes "-7") l t (apply seven t) refl refl
  parse_render eight l t r h c = one_word (codes "-8") l t (apply eight t) refl refl
  parse_render one_stop l t r h c = rw (number_decimal 1 t r refl c)
  parse_render two_stops l t r h c = rw (number_decimal 2 t r refl c)
  parse_render odd l t r h c = one_word (codes "-o") l t (apply odd t) refl refl
  parse_render even l t r h c = one_word (codes "-e") l t (apply even t) refl refl
  parse_render no_parity l t r h c = one_word (codes "-n") l t (apply no_parity t) refl refl

  apply_errno : (o : Opt) (t : Settings) → t.errno ≡ false → (apply o t).errno ≡ false
  apply_errno timestamp t c = c
  apply_errno (baud_rate n) t c = refl
  apply_errno five t c = c
  apply_errno six t c = c
  apply_errno seven t c = c
  apply_errno eight t c = c
  apply_errno one_stop t c = refl
  apply_errno two_stops t c = refl
  apply_errno odd t c = c
  apply_errno even t c = c
  apply_errno no_parity t c = c

  parse_render_all :
      (os : List Opt) (t : Settings)
      → ReadsDecimals
      → All Listed os
      → t.errno ≡ false
      → parse_options sys (render_all os) t ≡ some (apply_all os t)
  unfolding parse_options
  parse_render_all [] t r h c = refl
  parse_render_all (o ∷ os) t r h c =
      parse_render o (render_all os) t r h.0 c
      ∙ parse_render_all os (apply o t) r h.1 (apply_errno o t c)

  -- `parse_args` reads back options as they are written: for at least one option, rates that are listed, an
  -- `errno` that is clear and a `strtoul` that reads decimal digits, it applies the options in order to the
  -- defaults, and succeeds if the speed can be set.
  pub parse-render :
      (app device : Text) (o : Opt) (os : List Opt) (term : T)
      → ((n : ℕ) → n < 2 ^ 32 → sys.strtoul (decimal n) ≡ (n, false))
      → All Listed (o ∷ os)
      → let t = apply_all (o ∷ os) (defaults sys false) in
        sys.set_speeds t.c_cflag t.c_iflag (sys.speed t.baud) ≡ some term
        → parse_args sys (app ∷ device ∷ render_all (o ∷ os)) false ≡ some (t, term)
  unfolding parse_args defaults
  parse-render app device o os term r h e =
      args (render_all (o ∷ os)) (some_word o (render_all os))
        (parse_render_all (o ∷ os) (defaults sys false) r h refl)
    where
      t : Settings
      t = apply_all (o ∷ os) (defaults sys false)

      some_word : (o : Opt) (l : List Text) → (a : Text) × (m : List Text) × (render o ++ l ≡ a ∷ m)
      some_word timestamp l = (codes "-t", l, refl)
      some_word (baud_rate n) l = (codes "-b", decimal n ∷ l, refl)
      some_word five l = (codes "-5", l, refl)
      some_word six l = (codes "-6", l, refl)
      some_word seven l = (codes "-7", l, refl)
      some_word eight l = (codes "-8", l, refl)
      some_word one_stop l = (codes "-s", decimal 1 ∷ l, refl)
      some_word two_stops l = (codes "-s", decimal 2 ∷ l, refl)
      some_word odd l = (codes "-o", l, refl)
      some_word even l = (codes "-e", l, refl)
      some_word no_parity l = (codes "-n", l, refl)

      args :
          (l : List Text)
          → (a : Text) × (m : List Text) × (l ≡ a ∷ m)
          → parse_options sys l (defaults sys false) ≡ some t
          → parse_args sys (app ∷ device ∷ l) false ≡ some (t, term)
      args [] (a, m, q) p = absurd (cc q)
      args (x ∷ l) q p = rw (p, e)
