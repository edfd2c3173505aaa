-- ===== src/FileLock/Laws.antt =====
-- The lock excludes the other processes.
use cpp_tricks.Prelude.{
  ℕ, zero, suc, set, none, if◌then◌else◌, ◌≡◌, ◌≢◌, refl, ap, ◌∙◌, Bool, true, false, not, List, [],
  ◌∷◌, Option, some, get_elem?, inl, inr, Bool-cases, Option-cases,
}
use cpp_tricks.Prelude.Int.{ℤ, pos, ltb_ℤ, same_ℤ}
use cpp_tricks.Prelude.Text.{Text}
use cpp_tricks.FileLock.{
  Files, GlobalLock, after_open, acquire, release, Processes, Op, acquires, releases, apply,
  apply_at, run,
}

-- What flock(2) documents, for processes that share no descriptors: `opened` is the path of the file that a
-- descriptor of a process refers to, and `holder` the process that holds the lock of the file of a path. A lock is
-- granted only if nobody holds it, and then the process holds it; what a process unlocks or closes does not take
-- away the lock of another.
pub record IsFlock {F : Type 0} (sys : ℕ → Files F) : Type 0 where
  pub opened : ℕ → ℤ → F → Option Text
  pub holder : Text → F → Option ℕ
  pub open_lem :
      (j : ℕ) (path : Text) (f : F)
      → let (fd, f') = (sys j).open_file path f in
        (holder path f' ≡ holder path f) × (ltb_ℤ (pos 0) fd ≡ true → opened j fd f' ≡ some path)
  pub flock_lem :
      (j : ℕ) (fd : ℤ) (path : Text) (f : F)
      → opened j fd f ≡ some path
      → let (ok, f') = (sys j).flock_ex fd f in
        (ok ≡ true → holder path f ≡ none)
        × (holder path f' ≡ (if ok then some j else holder path f))
  pub unlock_lem :
      (i j : ℕ) (fd : ℤ) (path : Text) (f : F)
      → i ≢ j
      → holder path f ≡ some i
      → holder path ((sys j).flock_un fd f) ≡ some i
  pub close_lem :
      (i j : ℕ) (fd : ℤ) (path : Text) (f : F)
      → i ≢ j
      → holder path f ≡ some i
      → holder path ((sys j).close fd f) ≡ some i

-- Are all of the operations of processes other than `i`?
abbrev pub Others : ℕ → List (ℕ × Op) → Type 0
Others i [] = Unit {0}
Others i ((j, op) ∷ l) = (i ≢ j) × Others i l

-- As many times false as there are operations.
abbrev pub no_one : List (ℕ × Op) → List Bool
no_one [] = []
no_one (x ∷ l) = false ∷ no_one l

-- All of the locks are for the file of this path.
abbrev pub AllAt : Text → List GlobalLock → Type 0
AllAt path [] = Unit {0}
AllAt path (g ∷ l) = (g.path_ ≡ path) × AllAt path l

AllAt-get_elem? :
    (path : Text) (l : List GlobalLock) (i : ℕ) (g : GlobalLock)
    → AllAt path l
    → get_elem? l i ≡ some g
    → g.path_ ≡ path
AllAt-get_elem? path [] i g a h = absurd (cc h)
AllAt-get_elem? path (x ∷ l) zero g (a, b) h = cc (a, h)
AllAt-get_elem? path (x ∷ l) (suc i) g (a, b) h = AllAt-get_elem? path l i g b h

set-AllAt :
    (path : Text) (l : List GlobalLock) (i : ℕ) (g : GlobalLock)
    → AllAt path l
    → g.path_ ≡ path
    → AllAt path (set l i g)
set-AllAt path [] i g a h = tt
set-AllAt path (x ∷ l) zero g (a, b) h = (h, b)
set-AllAt path (x ∷ l) (suc i) g (a, b) h = (a, set-AllAt path l i g b h)

module _ {F : Type 0} (sys : ℕ → Files F) (w : IsFlock sys) where
  open w use {holder}

  granted_lem :
      (i : ℕ) (g g' : GlobalLock) (r : ℤ × F) (f' : F)
      → (ltb_ℤ (pos 0) r.0 ≡ true → w.opened i r.0 r.1 ≡ some g.path_)
      → after_open (sys i) g r ≡ (true, g', f')
      → holder g.path_ f' ≡ some i
  unfolding after_open
  granted_lem i g g' (fd, m) f' named e = elim (Bool-cases (ltb_ℤ (pos 0) fd)) [
    | inr q ↦ absurd (cc (rw q at e))
    | inl q ↦
        let r = (sys i).flock_ex fd m in
        let d : (r.0, record g { fd_ = fd }, r.1) ≡ (true, g', f') = rw q at e in
        let ok : r.0 ≡ true = ap (λ x. x.0) d in
        let same : r.1 ≡ f' = ap (λ x. x.2) d in
        rw (← same) (
          (w.flock_lem i fd g.path_ m (named q)).1
          ∙ ap (λ (b : Bool). if b then some i else holder g.path_ m) ok)
  ]

  acquire-holder :
      (i : ℕ) (g g' : GlobalLock) (f f' : F)
      → acquire (sys i) g f ≡ (true, g', f')
      → holder g.path_ f' ≡ some i
  unfolding acquire
  acquire-holder i g g' f f' e = elim (Bool-cases (not (same_ℤ g.fd_ (pos 0)))) [
    | inl q ↦ absurd (cc (rw q at e))
    | inr q ↦
        granted_lem i g g' ((sys i).open_file g.path_ f) f' (w.open_lem i g.path_ f).1 (rw q at e)
  ]

  -- After the operation of another process: its result is false, its lock is for the same path, and the holder is
  -- the same.
  abbrev Stays : Text → ℕ → Bool × GlobalLock × F → Type 0
  Stays path i r = (r.0 ≡ false) × (r.1.path_ ≡ path) × (holder path r.2 ≡ some i)

  after_open-Stays :
      (i j : ℕ) (g : GlobalLock) (r : ℤ × F)
      → (ltb_ℤ (pos 0) r.0 ≡ true → w.opened j r.0 r.1 ≡ some g.path_)
      → holder g.path_ r.1 ≡ some i
      → Stays g.path_ i (after_open (sys j) g r)
  unfolding after_open
  after_open-Stays i j g (fd, m) named h = elim (Bool-cases (ltb_ℤ (pos 0) fd)) [
    | inr q ↦ rw q (refl, refl, h)
    | inl q ↦
        let (free, after) = w.flock_lem j fd g.path_ m (named q) in
        elim (Bool-cases ((sys j).flock_ex fd m).0) [
          | inl ok ↦ absurd (cc (free ok, h))
          | inr denied ↦ rw q (
            denied,
            refl,
            after ∙ ap (λ (b : Bool). if b then some j else holder g.path_ m) denied ∙ h,
          )
        ]
  ]

  acquire-Stays :
      (i j : ℕ) (g : GlobalLock) (f : F)
      → holder g.path_ f ≡ some i
      → Stays g.path_ i (acquire (sys j) g f)
  unfolding acquire
  acquire-Stays i j g f h = elim (Bool-cases (not (same_ℤ g.fd_ (pos 0)))) [
    | inl q ↦ rw q (refl, refl, h)
    | inr q ↦
        let (same, named) = w.open_lem j g.path_ f in
        rw q (after_open-Stays i j g ((sys j).open_file g.path_ f) named (same ∙ h))
  ]

  release-Stays :
      (i j : ℕ) (g : GlobalLock) (f : F)
      → i ≢ j
      → holder g.path_ f ≡ some i
      → let (g', f') = release (sys j) g f in Stays g.path_ i (false, g', f')
  unfolding release
  release-Stays i j g f ne h = elim (Bool-cases (ltb_ℤ (pos 0) g.fd_)) [
    | inl e ↦ rw e (
      refl,
      refl,
      w.close_lem i j g.fd_ g.path_ ((sys j).flock_un g.fd_ f) ne
          (w.unlock_lem i j g.fd_ g.path_ f ne h),
    )
    | inr e ↦ rw e (refl, refl, h)
  ]

  apply-Stays :
      (i j : ℕ) (op : Op) (g : GlobalLock) (f : F)
      → i ≢ j
      → holder g.path_ f ≡ some i
      → Stays g.path_ i (apply sys j op g f)
  unfolding apply
  apply-Stays i j acquires g f ne h = acquire-Stays i j g f h
  apply-Stays i j releases g f ne h = release-Stays i j g f ne h

  others_lem :
      (path : Text) (i : ℕ) (l : List (ℕ × Op)) (p : Processes F)
      → AllAt path p.locks
      → Others i l
      → holder path p.files ≡ some i
      → ((run sys l p).0 ≡ no_one l) × (holder path (run sys l p).1.files ≡ some i)
  unfolding run
  others_lem path i [] p same_path o h = (refl, h)
  others_lem path i ((j, op) ∷ l) p same_path (ne, o) h =
      elim (Option-cases (get_elem? p.locks j)) [
        | inl e ↦ let (a, b) = others_lem path i l p same_path o h in rw e (rw a refl, b)
        | inr (g, e) ↦
            let same = AllAt-get_elem? path p.locks j g same_path e in
            let (a, k, b) = apply-Stays i j op g p.files ne (rw same h) in
            let left = set-AllAt path p.locks j (apply sys j op g p.files).1 same_path (k ∙ same) in
            let (c, d) =
              others_lem path i l (apply_at sys j op (some g) p).1 left o (rw (← same) b) in
            rw e (rw (a, c) refl, d)
      ]

  -- Once `acquire` has returned true to a process, and as long as this process does nothing, whatever the others
  -- acquire and release with locks on the same path, in whatever state these locks are: `acquire` returns true to
  -- none of them, and the process is still the one that holds the lock of the file.
  pub alone_lem :
      (i : ℕ) (g g' : GlobalLock) (f f' : F)
      → acquire (sys i) g f ≡ (true, g', f')
      → (l : List (ℕ × Op)) (locks : List GlobalLock) → AllAt g.path_ locks
      → Others i l
      → let end = run sys l (record { files = f'; locks = locks }) in
        (end.0 ≡ no_one l) × (holder g.path_ end.1.files ≡ some i)
  alone_lem i g g' f f' e l locks same_path o =
      others_lem g.path_ i l (record { files = f'; locks = locks }) same_path o
        (acquire-holder i g g' f f' e)
