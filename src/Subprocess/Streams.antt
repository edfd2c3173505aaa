-- ===== src/Subprocess/Streams.antt =====
-- What pipes do, while the child is at rest.
use cpp_tricks.Prelude.{
  ℕ, ◌+◌, ◌≤◌, ◌<◌, ◌≡◌, refl, Bool, true, false, not, ◌||◌, [], ◌∷◌, ◌++◌, none, some, take, drop,
  length, arith, if◌then◌else◌,
}
use cpp_tricks.Prelude.Text.{Text, is_empty}
use cpp_tricks.Subprocess.{System}

-- What pipe(7) and select(2) document of a pipe whose other end is at rest. `pending` is what is in the pipe
-- from the child, `alive` whether the child can still write to it, `sent` what it is sent, `reads` whether it
-- can still read, and `room` how many bytes fit in the pipe to it.
pub record IsPipes {S : Type 0} (sys : System S) : Type 0 where
  pub pending : S → Text
  pub alive : S → Bool
  pub sent : S → Text
  pub reads : S → Bool
  pub room : S → ℕ
  pub select_lem :
      (fd t : ℕ) (s : S)
      → let (r, s') = sys.select fd t s in
        (r ≡ (if not (is_empty (pending s)) || not (alive s) then some true else none))
        × (pending s' ≡ pending s)
        × (alive s' ≡ alive s)
  -- `read` takes what there is, up to the size
  pub read_lem :
      (fd : ℕ) (s : S)
      → 0 < length (pending s)
      → (s' : S) × (sys.read fd 100 s ≡ some (some (take 100 (pending s)), s'))
        × (pending s' ≡ drop 100 (pending s))
        × (alive s' ≡ alive s)
  -- it waits at an empty pipe, and finds the end of one that nobody writes to
  pub read_waits : (fd : ℕ) (s : S) → pending s ≡ [] → alive s ≡ true → sys.read fd 100 s ≡ none
  pub read_end :
      (fd : ℕ) (s : S)
      → pending s ≡ []
      → alive s ≡ false
      → (s' : S) × (sys.read fd 100 s ≡ some (some [], s')) × (pending s' ≡ [])
  -- `write` of a buffer that is not empty and fits takes a prefix that is not empty; if it does not fit, `write`
  -- waits until the child reads; if the child cannot read, it fails with EPIPE
  pub write_lem :
      (fd : ℕ) (b : Text) (s : S)
      → reads s ≡ true
      → 0 < length b
      → length b ≤ room s
      → (k : ℕ) × (s' : S) × (sys.write fd b s ≡ some (some k, s'))
        × (k ≤ length b)
        × (0 < k)
        × (sent s' ≡ sent s ++ take k b)
        × (reads s' ≡ true)
        × (room s' + k ≡ room s)
  pub write_waits :
      (fd : ℕ) (b : Text) (s : S) → reads s ≡ true → room s < length b → sys.write fd b s ≡ none
  pub write_broken :
      (fd : ℕ) (b : Text) (s : S)
      → reads s ≡ false
      → 0 < length b
      → (s' : S) × (sys.write fd b s ≡ some (none, s'))
        × (sys.is_epipe s' ≡ true)
        × (sent s' ≡ sent s)

pub is_empty_lt : (b : Text) → 0 < length b → is_empty b ≡ false
is_empty_lt [] h = absurd (omega arith)
is_empty_lt (c ∷ b) h = refl
