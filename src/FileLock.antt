-- ===== src/FileLock.antt =====
-- global_lock/file_lock.cpp: `GlobalLock`, a lock between processes over a file. The calls of a process on files
-- are a parameter; `F` is the state that they share.
pub mod Laws
mod Tests
use cpp_tricks.Prelude.{
  ℕ, Bool, true, false, not, ◌&&◌, ◌||◌, List, [], ◌∷◌, Option, none, some, get_elem?, set, ltb,
  ◌==◌, if◌then◌else◌,
}
use cpp_tricks.Prelude.Int.{ℤ, pos, ltb_ℤ, same_ℤ}
use cpp_tricks.Prelude.Text.{Text}

pub record Files (F : Type 0) : Type 0 where
  -- O_CREAT | O_RDONLY
  pub open_file : Text → F → ℤ × F
  -- LOCK_EX | LOCK_NB: does it return 0?
  pub flock_ex : ℤ → F → Bool × F
  -- LOCK_UN | LOCK_NB
  pub flock_un : ℤ → F → F
  pub close : ℤ → F → F

pub record GlobalLock : Type 0 where
  pub fd_ : ℤ
  pub path_ : Text

-- The constructor.
unfoldable pub new_lock : Text → GlobalLock
new_lock path = record { fd_ = pos 0; path_ = path }

unfoldable pub locked : GlobalLock → Bool
locked g = ltb_ℤ (pos 0) g.fd_

module _ {F : Type 0} (sys : Files F) where
  -- `flock` is not called if the file cannot be opened.
  unfoldable pub after_open : GlobalLock → ℤ × F → Bool × GlobalLock × F
  after_open g (fd, f) =
      let kept = record g { fd_ = fd } in
      let (ok, f') = sys.flock_ex fd f in
      if not (ltb_ℤ (pos 0) fd) then (false, kept, f) else (ok, kept, f')

  unfoldable pub acquire : GlobalLock → F → Bool × GlobalLock × F
  unfolding after_open
  acquire g f =
      if not (same_ℤ g.fd_ (pos 0)) then (false, g, f) else after_open g (sys.open_file g.path_ f)

  -- The destructor does the same.
  unfoldable pub release : GlobalLock → F → GlobalLock × F
  release g f =
      if ltb_ℤ (pos 0) g.fd_
      then (record g { fd_ = pos 0 }, sys.close g.fd_ (sys.flock_un g.fd_ f))
      else (g, f)

-- The locks of the processes, and the files.
pub record Processes (F : Type 0) : Type 0 where
  pub files : F
  pub locks : List GlobalLock

pub data Op : Type 0 where
  acquires releases : Op

module _ {F : Type 0} (sys : ℕ → Files F) where
  unfoldable pub apply : ℕ → Op → GlobalLock → F → Bool × GlobalLock × F
  unfolding acquire release
  apply i acquires g f = acquire (sys i) g f
  apply i releases g f = let (g', f') = release (sys i) g f in (false, g', f')

  abbrev pub apply_at : ℕ → Op → Option GlobalLock → Processes F → Bool × Processes F
  apply_at i op none p = (false, p)
  apply_at i op (some g) p =
      let (ok, g', f) = apply i op g p.files in (ok, record { files = f; locks = set p.locks i g' })

  -- Operations of any processes: which of them acquired the lock, and the state after them.
  unfoldable pub run : List (ℕ × Op) → Processes F → List Bool × Processes F
  unfolding apply
  run [] p = ([], p)
  run ((i, op) ∷ l) p =
      let (ok, q) = apply_at i op (get_elem? p.locks i) p in
      let (oks, end) = run l q in (ok ∷ oks, end)
