-- ===== src/Subprocess.antt =====
-- subprocess_io/subprocess_io.cpp: `Subprocess`. The system is a parameter: `S` is its state, and a `System` says
-- what the calls do. What is printed on the error stream, and the signal handlers, are left out.
pub mod Streams
pub mod Reading
pub mod Writing
pub mod Start
mod Tests
use cpp_tricks.Prelude.{
  ℕ, zero, suc, Bool, true, false, ◌&&◌, ◌||◌, [], ◌∷◌, ◌++◌, Option, none, some, drop, length, ltb,
  ◌==◌, if◌then◌else◌,
}
use cpp_tricks.Prelude.Int.{ℤ, pos, same_ℤ}
use cpp_tricks.Prelude.Text.{Text, is_empty}

pub data Status : Type 0 where
  ok timeout failed closed : Status

pub record System (S : Type 0) : Type 0 where
  -- `select` for reading, with a time: 0 is none, -1 some false, any other result some true
  pub select : ℕ → ℕ → S → Option Bool × S
  -- `::read` with a size: none while it waits; else none for -1, or the bytes
  pub read : ℕ → ℕ → S → Option (Option Text × S)
  -- `::write` of a buffer: none while it waits; else how many bytes were taken, or none for -1
  pub write : ℕ → Text → S → Option (Option ℕ × S)
  -- is `errno` EPIPE?
  pub is_epipe : S → Bool
  pub usleep : ℕ → S → S
  pub close : ℕ → S → S
  pub pipe : S → Option (ℕ × ℕ) × S
  pub fork : S → ℤ × S
  -- the status that `waitpid` gives, after WEXITSTATUS
  pub waitpid : ℤ → S → ℕ × S

-- `io_`, in the order of `PipeFds`.
pub record Pipes : Type 0 where
  pub parent_in : ℕ
  pub parent_out : ℕ
  pub child_in : ℕ
  pub child_out : ℕ

pub record Subprocess : Type 0 where
  pub pid_ : ℤ
  pub io_ : Pipes
  pub path_ : Text
  pub cmd_ : Text

-- How a function with a loop ends: with a status, an output and a state; it waits for ever; or the
-- fuel runs out.
pub data Ended (S : Type 0) : Type 0 where
  ended : Status → Text → S → Ended S
  waits spent : Ended S

-- Does the text begin with the prefix?
abbrev pub starts_with : Text → Text → Bool
starts_with [] t = true
starts_with (c ∷ p) [] = false
starts_with (c ∷ p) (d ∷ t) = c == d && starts_with p t

-- `out.find( text ) != npos`
abbrev pub contains : Text → Text → Bool
contains p [] = starts_with p []
contains p (c ∷ t) = starts_with p (c ∷ t) || contains p t

module _ {S : Type 0} (sys : System S) where
  -- The rest of a round of `read`, after `::read` on a buffer of 100 bytes. The case -1 falls through.
  unfoldable pub after_read : (Text → S → Ended S) → Text → Option (Option Text × S) → Ended S
  after_read again out none = waits
  after_read again out (some (none, s)) = ended closed out s
  after_read again out (some (some b, s)) =
      if is_empty b
      then ended closed out s
      else if ltb (length b) 100
      then ended ok (out ++ b) s
      else again (out ++ b) s

  -- The loop of `read`, with fuel.
  unfoldable pub read_loop : ℕ → ℕ → Text → S → Ended S
  unfolding after_read
  read_loop zero fd out s = spent
  read_loop (suc f) fd out s = after_read (λ o t. read_loop f fd o t) out (sys.read fd 100 s)

  -- `read`, after `select`.
  unfoldable pub selected : ℕ → ℕ → Text → Option Bool × S → Ended S
  unfolding read_loop
  selected fuel fd out (none, s) = ended timeout out s
  selected fuel fd out (some false, s) = ended failed out s
  selected fuel fd out (some true, s) = read_loop fuel fd out s

  -- `read( out, timeout_sec )`, with fuel.
  unfoldable pub read : ℕ → Subprocess → Text → ℕ → S → Ended S
  unfolding selected
  read fuel p out timeout_sec s =
      selected fuel p.io_.child_in out (sys.select p.io_.child_in timeout_sec s)

  -- `expect` after a `read`.
  unfoldable pub after_expect : (Text → S → Ended S) → Text → Ended S → Ended S
  after_expect again text waits = waits
  after_expect again text spent = spent
  after_expect again text (ended ok out s) =
      if contains text out then ended ok out s else again out s
  after_expect again text (ended status out s) = ended status out s

  -- The loop of `expect`, with fuel for it and for each `read`; the output is the local `out`.
  unfoldable pub expect_loop : ℕ → ℕ → Subprocess → Text → Text → S → Ended S
  unfolding after_expect
  expect_loop zero fuel p text out s = spent
  expect_loop (suc f) fuel p text out s =
      after_expect (λ o t. expect_loop f fuel p text o t) text (read fuel p out 3 s)

  unfoldable pub expect : ℕ → ℕ → Subprocess → Text → S → Ended S
  unfolding expect_loop
  expect rounds fuel p text s = expect_loop rounds fuel p text [] s

  -- The rest of a round of `write`, after `::write`, for what was left before it.
  unfoldable pub after_write : (Text → S → Ended S) → Text → Option (Option ℕ × S) → Ended S
  after_write again left none = waits
  after_write again left (some (none, s)) = ended (if sys.is_epipe s then closed else failed) left s
  after_write again left (some (some zero, s)) =
      let slept = sys.usleep 100000 s in
      if is_empty left then ended ok [] slept else again left slept
  after_write again left (some (some (suc k), s)) =
      if is_empty (drop (suc k) left) then ended ok [] s else again (drop (suc k) left) s

  -- The loop of `write`, with fuel; the output is what was not written.
  unfoldable pub write_loop : ℕ → ℕ → Text → S → Ended S
  unfolding after_write
  write_loop zero fd left s = spent
  write_loop (suc f) fd left s = after_write (λ l t. write_loop f fd l t) left (sys.write fd left s)

  unfoldable pub write : ℕ → Subprocess → Text → S → Ended S
  unfolding write_loop
  write fuel p cmd s = write_loop fuel p.io_.parent_out cmd s

  -- `purge()`: what is read is dropped.
  unfoldable pub purge : ℕ → Subprocess → S → Ended S
  unfolding read
  purge fuel p s = read fuel p [] 1 s

  -- `wait_pid()`
  unfoldable pub wait_pid : Subprocess → S → ℕ × Subprocess × S
  wait_pid p s = let (status, s') = sys.waitpid p.pid_ s in (status, record p { pid_ = pos 0 }, s')
