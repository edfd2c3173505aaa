-- ===== src/GlobalLock.antt =====
-- global_lock/semaphore.cpp: `GlobalLock`, a lock between processes over a named semaphore. The
-- calls on the semaphore are a parameter.
pub mod Laws
mod Tests
use cpp_tricks.Prelude.{
  ℕ, zero, suc, ◌+◌, ◌*◌, ◌/◌, ◌%◌, ◌≡◌, Bool, true, false, not, ◌&&◌, ◌||◌, List, [], Option, none,
  some, get_elem?, set, ltb, leb, ◌==◌, if◌then◌else◌,
}
use cpp_tricks.Prelude.Text.{Text}

-- `sem_` is true if it is not `SEM_FAILED`.
pub record GlobalLock : Type 0 where
  pub sem_ : Bool
  pub locked_ : Bool
  pub name_ : Text

-- The constructor: whether `sem_open` succeeds, and whether it has made the semaphore.
unfoldable pub open_lock : Text → Bool → Bool → GlobalLock
open_lock name opens creates = record {
  sem_ = opens;
  locked_ = false;
  name_ = if opens && creates then name else [];
}

-- `locked()`, for a value that `sem_getvalue` returns or does not.
unfoldable pub locked : Option ℕ → GlobalLock → Bool
locked value g =
    let free : Bool = elim value [ none ↦ false | some v ↦ v == 0 ] in
    if not g.sem_ then false else if g.locked_ then true else free

-- A `timespec`: seconds and nanoseconds.
pub record Timespec : Type 0 where
  pub tv_sec : ℕ
  pub tv_nsec : ℕ

-- The time that `try_lock( millisec )` waits for.
unfoldable pub deadline : ℕ → Timespec → Timespec
deadline millisec now = record {
  tv_sec = now.tv_sec + millisec / 1000;
  tv_nsec = now.tv_nsec + millisec % 1000 * 1000000;
}

-- The calls on the semaphore, with a state `S` that all processes share: whether they return 0, and the
-- state after them. `wait` is none while it waits.
pub record Semaphore (S : Type 0) : Type 0 where
  pub wait : S → Option (Bool × S)
  pub trywait : S → Bool × S
  pub timedwait : Timespec → S → Bool × S
  pub post : S → Bool × S

pub data Op : Type 0 where
  lock : Op
  try_lock : Op
  -- with what `clock_gettime` returns
  try_lock_for : ℕ → Option Timespec → Op
  unlock : Op
  -- the destructor
  destroy : Op

module _ {S : Type 0} where
  -- `locked_` is whether the call returns 0, and is the result.
  abbrev pub take_lock : GlobalLock → Bool × S → Bool × GlobalLock × S
  take_lock g (ok, v) = (ok, record g { locked_ = ok }, v)

  abbrev pub release : GlobalLock → Bool × S → Bool × GlobalLock × S
  release g (ok, v) = (ok, record g { locked_ = false }, v)

  abbrev pub wait_lock : GlobalLock → Option (Bool × S) → Option (Bool × GlobalLock × S)
  wait_lock g none = none
  wait_lock g (some r) = some (take_lock g r)

module _ {S : Type 0} (sem : Semaphore S) where
  -- An operation of a process, on its lock and on the semaphore: the result and both after it. The outer
  -- `none` means that it still waits. The end of the lock that has made the semaphore also unlinks its name, which
  -- those that have opened it do not notice; no operation opens one.
  unfoldable pub run : Op → GlobalLock → S → Option (Bool × GlobalLock × S)
  unfolding deadline
  run lock g v = if not g.sem_ || g.locked_ then some (false, g, v) else wait_lock g (sem.wait v)
  run try_lock g v =
      some (if not g.sem_ || g.locked_ then (false, g, v) else take_lock g (sem.trywait v))
  run (try_lock_for millisec none) g v =
      some (if not g.sem_ || g.locked_ then (false, g, v) else take_lock g (sem.trywait v))
  run (try_lock_for millisec (some now)) g v = some (
      if not g.sem_ || g.locked_
      then (false, g, v)
      else take_lock g (sem.timedwait (deadline millisec now) v))
  run unlock g v =
      some (if not g.sem_ || not g.locked_ then (false, g, v) else release g (sem.post v))
  run destroy g v =
      let gone = record g { sem_ = false } in
      some (
        if not g.sem_
        then (false, g, v)
        else if g.locked_
        then release gone (sem.post v)
        else (false, gone, v))

-- The locks of all processes, and the semaphore.
pub record Processes (S : Type 0) : Type 0 where
  pub shared : S
  pub locks : List GlobalLock

module _ {S : Type 0} (sem : Semaphore S) where
  pub data Step (s : Processes S) : Processes S → Type 0 where
    does :
        (i : ℕ) (op : Op) (g : GlobalLock) (ok : Bool) (g' : GlobalLock) (v : S)
        → get_elem? s.locks i ≡ some g
        → run sem op g s.shared ≡ some (ok, g', v)
        → Step s (record { shared = v; locks = set s.locks i g' })

  pub data Reach (s : Processes S) : Processes S → Type 0 where
    here : Reach s s
    next : {t u : Processes S} → Reach s t → Step t u → Reach s u
