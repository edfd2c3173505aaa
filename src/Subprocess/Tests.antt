-- ===== src/Subprocess/Tests.antt =====
-- Two pipes to a child at rest, and a start.
use cpp_tricks.Prelude.{
  ℕ, ◌%◌, ◌<◌, ◌≡◌, ◌≢◌, refl, sym, ap, Bool, true, false, not, ◌||◌, [], ◌∷◌, ◌++◌, Option, none,
  some, take, drop, length, take_all, arith, leb, ◌-◌, if◌then◌else◌,
}
use cpp_tricks.Prelude.Int.{pos}
use cpp_tricks.Prelude.Text.{Text, is_empty, codes}
use cpp_tricks.Subprocess.{
  ok, timeout, closed, System, Subprocess, ended, waits, contains, read, expect, write,
}
use cpp_tricks.Subprocess.Streams.{IsPipes}
use cpp_tricks.Subprocess.Reading.{read_whole, expect_lem}
use cpp_tricks.Subprocess.Writing.{write_whole}
use cpp_tricks.Subprocess.Start.{
  no_pipes, child, setuid, dup2, close_fd, die_with_parent, exec, exit,
}

record Child : Type 0 where
  to_parent : Text
  writes : Bool
  from_parent : Text
  listens : Bool
  room : ℕ

abbrev select_on : Child → Option Bool
select_on s = if not (is_empty s.to_parent) || not s.writes then some true else none

abbrev read_on : ℕ → Text → Child → Option (Option Text × Child)
read_on n [] s = if s.writes then none else some (some [], s)
read_on n (c ∷ b) s = some (some (take n (c ∷ b)), record s { to_parent = drop n (c ∷ b) })

abbrev write_on : Text → Bool → Child → Option (Option ℕ × Child)
write_on b true s =
    if leb (length b) s.room
    then some
        (some (length b), record s { from_parent = s.from_parent ++ b; room = s.room - length b })
    else none
write_on b false s = some (none, s)

abbrev pipes : System Child
pipes = record {
  select = λ fd t s. (select_on s, s);
  read = λ fd n s. read_on n s.to_parent s;
  write = λ fd b s. write_on b s.listens s;
  is_epipe = λ s. true;
  usleep = λ n s. s;
  close = λ fd s. s;
  pipe = λ s. (some (3, 4), s);
  fork = λ s. (pos 77, s);
  waitpid = λ p s. (0, s);
}

take_self : (b : Text) → take (length b) b ≡ b
take_self b = take_all b (length b) (omega arith)

taken_lem :
    (n : ℕ) (b : Text) (s : Child)
    → 0 < length b
    → (s' : Child) × (read_on n b s ≡ some (some (take n b), s'))
      × (s'.to_parent ≡ drop n b)
      × (s'.writes ≡ s.writes)
taken_lem n [] s h = absurd (omega arith)
taken_lem n (c ∷ b) s h = (record s { to_parent = drop n (c ∷ b) }, refl, refl, refl)

are_pipes : IsPipes pipes
are_pipes = record {
  pending = λ s. s.to_parent;
  alive = λ s. s.writes;
  sent = λ s. s.from_parent;
  reads = λ s. s.listens;
  select_lem = λ fd t s. (refl, refl, refl);
  read_lem = λ fd s h. taken_lem 100 s.to_parent s h;
  read_waits = λ fd s e a. rw (e, a);
  read_end = λ fd s e a. (s, rw (e, a), e);
  room = λ s. s.room;
  write_lem = λ fd b s r h fits.
      let enough : leb (length b) s.room ≡ true = ground arith in
      (
        length b,
        record s { from_parent = s.from_parent ++ b; room = s.room - length b },
        rw (r, enough),
        omega arith,
        h,
        ap (λ t. s.from_parent ++ t) (sym (take_self b)),
        r,
        omega arith,
      );
  write_waits = λ fd b s r full.
      let too_much : leb (length b) s.room ≡ false = ground arith in rw (r, too_much);
  write_broken = λ fd b s r h. (s, rw r, refl, refl);
}

abbrev prompt : Child
prompt = record {
  to_parent = codes "ok>";
  writes = true;
  from_parent = [];
  listens = true;
  room = 100;
}

abbrev app : Subprocess
app = record { pid_ = pos 0; io_ = no_pipes; path_ = codes "./app"; cmd_ = codes "app" }

read_whole_example :
    let e = read pipes 4 app [] 3 prompt in
    (length (codes "ok>") % 100 ≢ 0
      → (s' : Child) × (e ≡ ended ok (codes "ok>") s')
        × (are_pipes.pending s' ≡ [])
        × (are_pipes.alive s' ≡ true))
    × (length (codes "ok>") % 100 ≡ 0 → true ≡ true → e ≡ waits)
    × (length (codes "ok>") % 100 ≡ 0
        → true ≡ false
        → (s' : Child) × (e ≡ ended closed (codes "ok>") s') × (are_pipes.pending s' ≡ []))
unfolding are_pipes
read_whole_example = read_whole pipes are_pipes 4 app [] 3 prompt (omega arith) (omega arith)

expect_lem_example :
    (s' : Child) × (expect pipes 2 4 app (codes ">") prompt
      ≡ ended (if contains (codes ">") (codes "ok>") then ok else timeout) (codes "ok>") s')
unfolding are_pipes
expect_lem_example =
    expect_lem pipes are_pipes 2 4 app (codes ">") prompt (omega arith) (omega arith)
      (λ e. absurd (omega (arith, e))) refl

write_whole_example :
    (s' : Child) × (write pipes 4 app (codes "in\n") prompt ≡ ended ok [] s')
    × (are_pipes.sent s' ≡ codes "in\n")
unfolding are_pipes
write_whole_example =
    write_whole pipes are_pipes 4 app (codes "in\n") prompt (omega arith) (omega arith)

-- A hundred bytes: `read` has them all, and waits.
abbrev ten : Text
ten = codes "0123456789"

abbrev hundred : Text
hundred = ten ++ ten ++ ten ++ ten ++ ten ++ ten ++ ten ++ ten ++ ten ++ ten

read_hundred : read pipes 200 app [] 3 (record prompt { to_parent = hundred }) ≡ waits
unfolding read
read_hundred = refl

-- A call of `::read` that fails gives Closed.
read_fails :
    read (record pipes { read = λ fd n s. some (none, s) }) 4 app [] 3 prompt
    ≡ ended closed [] prompt
unfolding read
read_fails = refl

-- The child sets its user to the group, and then to the user; with an environment it goes past its end.
child_ids :
    child (some 1000) (some 27) none app
    ≡ some (
        dup2 0 0
        ∷ dup2 0 1
        ∷ close_fd 0
        ∷ close_fd 0
        ∷ setuid 27
        ∷ setuid 1000
        ∷ die_with_parent
        ∷ exec (codes "./app") (codes "app")
        ∷ exit 1
        ∷ [])
unfolding child
child_ids = refl

child_env : child none none (some (codes "HOME=/" ∷ [])) app ≡ none
unfolding child
child_env = refl
