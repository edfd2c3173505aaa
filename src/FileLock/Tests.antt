-- ===== src/FileLock/Tests.antt =====
-- Three processes, with a file that knows the process that has locked it.
use cpp_tricks.Prelude.{
  ℕ, ◌≡◌, ◌≢◌, refl, sym, ap, Bool, true, false, List, [], ◌∷◌, Option, none, some, ◌==◌, arith,
  inl, inr, Bool-cases, if◌then◌else◌,
}
use cpp_tricks.Prelude.Int.{ℤ, pos, negsuc, ltb_ℤ, same_ℤ}
use cpp_tricks.Prelude.Text.{Text, codes, same_text, eq_of_same_text}
use cpp_tricks.FileLock.{
  Files, GlobalLock, new_lock, locked, acquire, Processes, Op, acquires, releases, run,
}
use cpp_tricks.FileLock.Laws.{IsFlock, no_one, alone_lem}

abbrev grab : ℕ → Option ℕ → Bool × Option ℕ
grab j none = (true, some j)
grab j (some i) = (false, some i)

abbrev let_go : ℕ → Option ℕ → Option ℕ
let_go j none = none
let_go j (some i) = if i == j then none else some i

abbrev lock_path : Text
lock_path = codes "/tmp/test.lock"

-- The other paths cannot be opened.
abbrev file : ℕ → Files (Option ℕ)
file j = record {
  open_file = λ path f. (if same_text path lock_path then pos 3 else negsuc 0, f);
  flock_ex = λ fd f. if same_ℤ fd (pos 3) then grab j f else (false, f);
  flock_un = λ fd f. let_go j f;
  close = λ fd f. f;
}

grab_lem :
    (j : ℕ) (f : Option ℕ)
    → let (ok, f') = grab j f in (ok ≡ true → f ≡ none) × (f' ≡ (if ok then some j else f))
grab_lem j none = ((λ e. refl), refl)
grab_lem j (some i) = ((λ e. absurd (cc e)), refl)

let_go_other : (i j : ℕ) → i ≢ j → let_go j (some i) ≡ some i
let_go_other i j ne = let other : (i == j) ≡ false = ground arith in rw other refl

abbrev opened : ℤ → Option Text
opened fd = if same_ℤ fd (pos 3) then some lock_path else none

opened_lem :
    (path : Text)
    → let fd = if same_text path lock_path then pos 3 else negsuc 0 in
      ltb_ℤ (pos 0) fd ≡ true → opened fd ≡ some path
opened_lem path e = elim (Bool-cases (same_text path lock_path)) [
  | inl t ↦ rw t (ap some (sym (eq_of_same_text path lock_path t)))
  | inr other ↦ absurd (cc (rw other at e))
]

are_flocks : IsFlock file
are_flocks = record {
  opened = λ j fd f. opened fd;
  holder = λ path f. f;
  open_lem = λ j path f. (refl, opened_lem path);
  flock_lem = λ j fd path f e. elim (Bool-cases (same_ℤ fd (pos 3))) [
    | inl t ↦ rw t (grab_lem j f)
    | inr other ↦ rw other ((λ d. absurd (cc d)), refl)
  ];
  unlock_lem = λ i j fd path f ne h. rw h (let_go_other i j ne);
  close_lem = λ i j fd path f ne h. h;
}

abbrev fresh : GlobalLock
fresh = new_lock lock_path

abbrev taken : GlobalLock
taken = record { fd_ = pos 3; path_ = lock_path }

-- The first process has the lock; the others try, and give up.
abbrev tries : List (ℕ × Op)
tries = (1, acquires) ∷ (2, acquires) ∷ (1, releases) ∷ (1, acquires) ∷ []

abbrev begun : Processes (Option ℕ)
begun = record { files = some 0; locks = taken ∷ fresh ∷ fresh ∷ [] }

not_first : (j : ℕ) → (0 == j) ≡ false → 0 ≢ j
not_first j h e = ground arith

first_acquires : acquire (file 0) fresh none ≡ (true, taken, some 0)
unfolding acquire new_lock
first_acquires = refl

alone_lem_example :
    ((run file tries begun).0 ≡ no_one tries) × ((run file tries begun).1.files ≡ some 0)
unfolding are_flocks new_lock
alone_lem_example =
    alone_lem file are_flocks 0 fresh taken none (some 0) first_acquires tries
      (taken ∷ fresh ∷ fresh ∷ []) (refl, (refl, (refl, tt)))
      (not_first 1 refl, (not_first 2 refl, (not_first 1 refl, (not_first 1 refl, tt))))

-- A process that was refused the lock is told by `locked` that it has it.
locked_refused : locked ((acquire (file 1) fresh (some 0)).1) ≡ true
unfolding acquire new_lock locked
locked_refused = refl
