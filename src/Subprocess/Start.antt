-- ===== src/Subprocess/Start.antt =====
-- subprocess_io/subprocess_io.cpp: the constructor, the destructor and `run`.
use cpp_tricks.Prelude.{
  ℕ, ◌≡◌, refl, Bool, true, false, not, List, [], ◌∷◌, ◌++◌, Option, none, some, ◌==◌,
  if◌then◌else◌, inl, inr, Bool-cases,
}
use cpp_tricks.Prelude.Chain.{◌>>=◌}
use cpp_tricks.Prelude.Int.{ℤ, pos, negsuc, same_ℤ}
use cpp_tricks.Prelude.Text.{Text}
use cpp_tricks.Subprocess.{System, Pipes, Subprocess}

abbrev pub no_pipes : Pipes
no_pipes = record { parent_in = 0; parent_out = 0; child_in = 0; child_out = 0 }

-- What follows the last `/`, or nothing if there is none.
unfoldable pub after_slash : Text → Option Text
after_slash [] = none
after_slash (c ∷ s) = elim (after_slash s) [
  | some t ↦ some t
  | none ↦ if c == 47 then some s else none
]

abbrev pub or_empty : Option Text → Text
or_empty none = []
or_empty (some t) = t

-- What the child does after `fork`.
pub data Action : Type 0 where
  dup2 : ℕ → ℕ → Action
  close_fd : ℕ → Action
  setuid : ℕ → Action
  put_env : Text → Action
  die_with_parent : Action
  exec : Text → Text → Action
  exit : ℕ → Action

-- `setuid( id )`, if it is not the invalid one.
abbrev pub change_id : Option ℕ → List Action
change_id none = []
change_id (some id) = setuid id ∷ []

-- The loop over `env`, whose pointer is never NULL: after the texts it goes on to the NULL that ends them, and
-- past it.
unfoldable pub put_envs : List Text → Option (List Action)
put_envs [] = none
put_envs (t ∷ l) = put_envs l >>= λ a. some (put_env t ∷ a)

abbrev pub environment : Option (List Text) → Option (List Action)
environment none = some []
environment (some l) = put_envs l

-- The child's part of `run`; none is an access past `env`.
unfoldable pub child : Option ℕ → Option ℕ → Option (List Text) → Subprocess → Option (List Action)
unfolding put_envs
child uid gid env p = environment env >>= λ envs. some (
    dup2 p.io_.parent_in 0
      ∷ dup2 p.io_.child_out 1
      ∷ close_fd p.io_.parent_out
      ∷ close_fd p.io_.child_in
      ∷ []
    ++ change_id gid
    ++ change_id uid
    ++ envs
    ++ (die_with_parent ∷ exec p.path_ p.cmd_ ∷ exit 1 ∷ []))

module _ {S : Type 0} (sys : System S) where
  -- `for( auto &i : io_ ) { close( i ); i = 0; }`: the state after it.
  unfoldable pub close_all : Pipes → S → S
  close_all io s =
      sys.close io.child_out
        (sys.close io.child_in (sys.close io.parent_out (sys.close io.parent_in s)))

  -- `Subprocess( cmd )`, whose `io_` has the values `junk`.
  unfoldable pub new_subprocess : Text → Pipes → S → Subprocess × S
  unfolding after_slash close_all
  new_subprocess cmd junk s = (
    record { pid_ = pos 0; io_ = no_pipes; path_ = cmd; cmd_ = or_empty (after_slash cmd) },
    close_all junk s,
  )

  unfoldable pub destroy : Subprocess → S → S
  unfolding close_all
  destroy p s = close_all p.io_ s

  -- The end of `run` where it fails.
  unfoldable pub fail_run : Subprocess → S → Bool × Subprocess × S
  unfolding close_all
  fail_run p s = (false, record p { pid_ = pos 0; io_ = no_pipes }, close_all p.io_ s)

  -- `run` in the parent after `fork`. What is closed stays in `io_`.
  unfoldable pub forked : Subprocess → ℤ × S → Bool × Subprocess × S
  unfolding fail_run
  forked p (pid, s) =
      if same_ℤ pid (negsuc 0)
      then fail_run p s
      else (true, record p { pid_ = pid }, sys.close p.io_.child_out (sys.close p.io_.parent_in s))

  unfoldable pub second_pipe : Subprocess → Option (ℕ × ℕ) × S → Bool × Subprocess × S
  unfolding fail_run forked
  second_pipe p (none, s) = fail_run p s
  second_pipe p (some (from, to), s) =
      forked (record p { io_ = record (p.io_) { child_in = from; child_out = to } }) (sys.fork s)

  unfoldable pub first_pipe : Subprocess → Option (ℕ × ℕ) × S → Bool × Subprocess × S
  unfolding fail_run second_pipe
  first_pipe p (none, s) = fail_run p s
  first_pipe p (some (from, to), s) =
      second_pipe (record p { io_ = record (p.io_) { parent_in = from; parent_out = to } })
        (sys.pipe s)

  -- `run` in the parent. It closes what is in `io_` first: 0, the standard input, after the constructor.
  unfoldable pub run : Subprocess → S → Bool × Subprocess × S
  unfolding close_all first_pipe
  run p s =
      if not (same_ℤ p.pid_ (pos 0))
      then (false, p, s)
      else first_pipe (record p { io_ = no_pipes }) (sys.pipe (close_all p.io_ s))

  -- A subprocess that does not run, if its result is false; one that does, if it is true.
  abbrev Fits : Bool × Subprocess × S → Type 0
  Fits (false, p, s) = (p.pid_ ≡ pos 0) × (p.io_ ≡ no_pipes)
  Fits (true, p, s) = same_ℤ p.pid_ (negsuc 0) ≡ false

  forked-Fits : (p : Subprocess) (r : ℤ × S) → Fits (forked p r)
  unfolding forked fail_run
  forked-Fits p (pid, s) = elim (Bool-cases (same_ℤ pid (negsuc 0))) [
    | inl e ↦ rw e (refl, refl)
    | inr e ↦ rw e e
  ]

  second-Fits : (p : Subprocess) (r : Option (ℕ × ℕ) × S) → Fits (second_pipe p r)
  unfolding second_pipe fail_run
  second-Fits p (none, s) = (refl, refl)
  second-Fits p (some (from, to), s) =
      forked-Fits (record p { io_ = record (p.io_) { child_in = from; child_out = to } })
        (sys.fork s)

  first-Fits : (p : Subprocess) (r : Option (ℕ × ℕ) × S) → Fits (first_pipe p r)
  unfolding first_pipe fail_run
  first-Fits p (none, s) = (refl, refl)
  first-Fits p (some (from, to), s) =
      second-Fits (record p { io_ = record (p.io_) { parent_in = from; parent_out = to } })
        (sys.pipe s)

  -- `run` of a subprocess that runs changes nothing and returns false. Of one that does not run: it returns true,
  -- and the number is that of a process, or it returns false, and nothing runs and all descriptors are
  -- forgotten.
  pub run_lem :
      (p : Subprocess) (s : S)
      → (same_ℤ p.pid_ (pos 0) ≡ false → run p s ≡ (false, p, s))
        × (same_ℤ p.pid_ (pos 0) ≡ true
            → let (r, p', s') = run p s in
              (r ≡ true → same_ℤ p'.pid_ (negsuc 0) ≡ false)
              × (r ≡ false → (p'.pid_ ≡ pos 0) × (p'.io_ ≡ no_pipes)))
  unfolding run
  run_lem p s = (
    λ running. rw running,
    λ idle. rw idle (
        fits_cases (first_pipe (record p { io_ = no_pipes }) (sys.pipe (close_all p.io_ s)))
          (first-Fits (record p { io_ = no_pipes }) (sys.pipe (close_all p.io_ s)))),
  )
    where
      fits_cases :
          (r : Bool × Subprocess × S)
          → Fits r
          → (r.0 ≡ true → same_ℤ r.1.pid_ (negsuc 0) ≡ false)
            × (r.0 ≡ false → (r.1.pid_ ≡ pos 0) × (r.1.io_ ≡ no_pipes))
      fits_cases (true, p, s) h = (λ e. h, λ e. absurd (cc e))
      fits_cases (false, p, s) h = (λ e. absurd (cc e), λ e. h)
