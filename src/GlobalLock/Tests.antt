-- ===== src/GlobalLock/Tests.antt =====
-- Two processes and one semaphore.
use cpp_tricks.Prelude.{
  ℕ, zero, suc, ◌+◌, ◌≤◌, ◌≡◌, refl, ap, Bool, true, false, [], ◌∷◌, Option, none, some, arith,
  count_if, one_if,
}
use cpp_tricks.Prelude.Text.{codes}
use cpp_tricks.GlobalLock.{
  GlobalLock, Timespec, deadline, Semaphore, lock, try_lock, run, Processes, does, Reach, here,
  next,
}
use cpp_tricks.GlobalLock.Laws.{IsSemaphore, held_lem}

-- A semaphore that is its value.
abbrev wait_value : ℕ → Option (Bool × ℕ)
wait_value zero = none
wait_value (suc v) = some (true, v)

abbrev try_value : ℕ → Bool × ℕ
try_value zero = (false, 0)
try_value (suc v) = (true, v)

abbrev counter : Semaphore ℕ
counter = record {
  wait = λ v. wait_value v;
  trywait = λ v. try_value v;
  timedwait = λ t v. try_value v;
  post = λ v. (true, suc v);
}

waited_lem : (v v' : ℕ) (ok : Bool) → wait_value v ≡ some (ok, v') → one_if ok + v' ≡ v
waited_lem zero v' ok e = absurd (cc e)
waited_lem (suc v) v' ok e =
    let got : true ≡ ok = cc e in let left : v ≡ v' = cc e in omega (arith, ap one_if got)

tried_lem : (v : ℕ) → one_if (try_value v).0 + (try_value v).1 ≡ v
tried_lem zero = refl
tried_lem (suc v) = omega arith

abbrev counts : IsSemaphore counter
counts = record {
  value = λ v. v;
  wait_lem = waited_lem;
  trywait_lem = tried_lem;
  timedwait_lem = λ t v. tried_lem v;
  post_lem = λ v. omega arith;
}

abbrev ours : GlobalLock
ours = record { sem_ = true; locked_ = false; name_ = codes "/test" }

abbrev theirs : GlobalLock
theirs = record ours { name_ = [] }

abbrev taken : GlobalLock
taken = record theirs { locked_ = true }

abbrev begun : Processes ℕ
begun = record { shared = 1; locks = ours ∷ theirs ∷ [] }

abbrev ended : Processes ℕ
ended = record { shared = 0; locks = ours ∷ taken ∷ [] }

-- The second process takes the lock, and the first fails to.
runs : Reach counter begun ended
unfolding run
runs =
    next (next here (does 1 lock theirs true taken 0 refl refl))
      (does 0 try_lock ours false ours 0 refl refl)

held_lem_example : count_if (λ (g : GlobalLock). g.locked_) ended.locks + ended.shared ≤ 1
held_lem_example = held_lem counter counts begun ended refl refl runs

-- 0.9 s and 200 ms, as the program adds them.
abbrev late : Timespec
late = record { tv_sec = 7; tv_nsec = 900000000 }

deadline_no_time : (deadline 200 late).tv_nsec ≡ 1100000000
unfolding deadline
deadline_no_time = refl
