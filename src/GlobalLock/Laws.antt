-- ===== src/GlobalLock/Laws.antt =====
-- Mutual exclusion.
use cpp_tricks.Prelude.{
  ℕ, ◌+◌, ◌≤◌, ◌≡◌, refl, ap, subst, Bool, true, false, not, ◌||◌, Option, none, some, arith,
  one_if, count_if, count_if-set, inl, inr, Bool-cases, Option-cases, if◌then◌else◌,
}
use cpp_tricks.GlobalLock.{
  GlobalLock, Timespec, deadline, Semaphore, Op, lock, try_lock, try_lock_for, unlock, destroy,
  take_lock, release, wait_lock, run, Processes, Step, does, Reach, here, next,
}

-- What POSIX says of a semaphore: a call that takes it and returns 0 lowers the value by 1, `sem_post` raises
-- it if it returns 0, and a call that fails changes nothing.
pub record IsSemaphore {S : Type 0} (sem : Semaphore S) : Type 0 where
  pub value : S → ℕ
  pub wait_lem :
      (v v' : S) (ok : Bool) → sem.wait v ≡ some (ok, v') → one_if ok + value v' ≡ value v
  pub trywait_lem : (v : S) → one_if (sem.trywait v).0 + value (sem.trywait v).1 ≡ value v
  pub timedwait_lem :
      (t : Timespec) (v : S) → one_if (sem.timedwait t v).0 + value (sem.timedwait t v).1 ≡ value v
  pub post_lem : (v : S) → value (sem.post v).1 ≡ one_if (sem.post v).0 + value v

free : (a b : Bool) → (a || b) ≡ false → b ≡ false
free true b h = cc
free false b h = h

held : (a b : Bool) → (a || not b) ≡ false → b ≡ true
held true b h = cc
held false true h = refl
held false false h = cc

one_if_le : (b : Bool) → one_if b ≤ 1
one_if_le true = omega arith
one_if_le false = omega arith

module _ {S : Type 0} (sem : Semaphore S) (w : IsSemaphore sem) where
  open w use {value}

  -- The semaphore's value, and one for a lock that is held.
  abbrev total : GlobalLock → S → ℕ
  total g v = one_if g.locked_ + value v

  -- No operation raises it.
  abbrev Keeps : GlobalLock → S → Option (Bool × GlobalLock × S) → Type 0
  Keeps g v none = Unit {0}
  Keeps g v (some (ok, g', v')) = total g' v' ≤ total g v

  guard-Keeps :
      (g : GlobalLock) (v : S) (b : Bool) (r : Bool × GlobalLock × S)
      → (b ≡ false → Keeps g v (some r))
      → Keeps g v (some (if b then (false, g, v) else r))
  guard-Keeps g v true r h = omega arith
  guard-Keeps g v false r h = h refl

  take-Keeps :
      (g : GlobalLock) (v : S) (r : Bool × S)
      → one_if r.0 + value r.1 ≡ value v
      → Keeps g v (some (take_lock g r))
  take-Keeps g v r e = omega (arith, e)

  wait-Keeps : (g : GlobalLock) (v : S) → Keeps g v (wait_lock g (sem.wait v))
  wait-Keeps g v = elim (Option-cases (sem.wait v)) [
    | inl e ↦ rw e tt
    | inr (r, e) ↦ rw e (take-Keeps g v r (w.wait_lem v r.1 r.0 e))
  ]

  release-Keeps :
      (g g' : GlobalLock) (v : S) → g.locked_ ≡ true → Keeps g v (some (release g' (sem.post v)))
  release-Keeps g g' v h = omega (arith, ap one_if h, w.post_lem v, one_if_le (sem.post v).0)

  destroy-Keeps :
      (g : GlobalLock) (v : S) (b : Bool)
      → g.locked_ ≡ b
      → let gone = record g { sem_ = false } in
        Keeps g v (some (if b then release gone (sem.post v) else (false, gone, v)))
  destroy-Keeps g v true h = release-Keeps g (record g { sem_ = false }) v h
  destroy-Keeps g v false h = omega arith

  try-Keeps :
      (g : GlobalLock) (v : S)
      → Keeps g v
          (some (if not g.sem_ || g.locked_ then (false, g, v) else take_lock g (sem.trywait v)))
  try-Keeps g v =
      guard-Keeps g v (not g.sem_ || g.locked_) (take_lock g (sem.trywait v))
        (λ h. take-Keeps g v (sem.trywait v) (w.trywait_lem v))

  run-Keeps : (op : Op) (g : GlobalLock) (v : S) → Keeps g v (run sem op g v)
  unfolding run
  run-Keeps lock g v = elim (Bool-cases (not g.sem_ || g.locked_)) [
    | inl e ↦ rw e (omega arith)
    | inr e ↦ rw e (wait-Keeps g v)
  ]
  run-Keeps try_lock g v = try-Keeps g v
  run-Keeps (try_lock_for ms none) g v = try-Keeps g v
  run-Keeps (try_lock_for ms (some now)) g v =
      let r = sem.timedwait (deadline ms now) v in
      guard-Keeps g v (not g.sem_ || g.locked_) (take_lock g r)
        (λ h. take-Keeps g v r (w.timedwait_lem (deadline ms now) v))
  run-Keeps unlock g v =
      guard-Keeps g v (not g.sem_ || not g.locked_) (release g (sem.post v))
        (λ h. release-Keeps g g v (held (not g.sem_) g.locked_ h))
  run-Keeps destroy g v =
      let gone = record g { sem_ = false } in
      guard-Keeps g v (not g.sem_)
        (if g.locked_ then release gone (sem.post v) else (false, gone, v))
        (λ h. destroy-Keeps g v g.locked_ refl)

  abbrev held_locks : Processes S → ℕ
  held_locks p = count_if (λ g. g.locked_) p.locks

  Step-total :
      {t u : Processes S}
      → Step sem t u
      → held_locks u + value u.shared ≤ held_locks t + value t.shared
  Step-total {t} (does i op g ok g' v h e) =
      let c = count_if-set (λ (g : GlobalLock). g.locked_) t.locks i g' h in
      let k : total g' v ≤ total g t.shared =
        subst (Keeps g t.shared) e (run-Keeps op g t.shared) in
      omega arith

  Reach-total :
      {s t : Processes S}
      → Reach sem s t
      → held_locks t + value t.shared ≤ held_locks s + value s.shared
  Reach-total here = omega arith
  Reach-total (next r st) = omega (arith, Step-total st, Reach-total r)

  -- On a semaphore that does what POSIX says: from a state in which no lock is held and its value is 1, as its
  -- creator sets it, whatever the processes do, at most one of the locks is held at a time, and none while
  -- the value is 1.
  pub held_lem :
      (s t : Processes S)
      → count_if (λ g. g.locked_) s.locks ≡ 0
      → value s.shared ≡ 1
      → Reach sem s t
      → count_if (λ g. g.locked_) t.locks + value t.shared ≤ 1
  held_lem s t h v r = let e = Reach-total r in omega arith
